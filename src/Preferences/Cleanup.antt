-- ===== src/Preferences/Cleanup.antt =====
-- What a cleanup of an environment removes.
use mathlib.Core.Bool.{true≢false}
use ig_desktop.Prelude.{
  ◌≡◌, refl, sym, ap, ◌∙◌, String, Bool, true, false, ◌||◌, none, List, [], ◌∷◌, keep, keep-cons,
  any, if◌then◌else◌, str_eq, eq_iff, arith, Bool-cases, inl, inr,
}
use ig_desktop.Prelude.Assoc.{lookup, delete, lookup-delete, keys}
use ig_desktop.Js.Text.{starts_with}
use ig_desktop.Preferences.Storage.{
  Storage, env_prefix, get_env_keys, remove_all, cleanup_environment,
}

abbrev has_key : List String → String → Bool
has_key ks k = any (λ j. str_eq j k) ks

lookup-remove_all :
    (k : String) (ks : List String) (storage : Storage)
    → lookup k (remove_all ks storage) ≡ (if has_key ks k then none else lookup k storage)
unfolding remove_all
lookup-remove_all k [] storage = refl
lookup-remove_all k (j ∷ ks) storage =
    ground (arith, lookup-remove_all k ks (delete j storage), lookup-delete j k storage)

module _ (p k : String) where
  abbrev among : Storage → Bool
  among storage = has_key (keep (starts_with p) (keys storage)) k

  among-cons :
      (j text : String) (storage : Storage)
      → among ((j, text) ∷ storage)
        ≡ (if starts_with p j then str_eq j k || among storage else among storage)
  unfolding keys
  among-cons j text storage = elim (Bool-cases (starts_with p j)) [
    | inl b ↦
        ap (λ l. has_key l k) (keep-cons (starts_with p) j (keys storage) true b)
        ∙ sym (ap (λ c. if c then str_eq j k || among storage else among storage) b)
    | inr b ↦
        ap (λ l. has_key l k) (keep-cons (starts_with p) j (keys storage) false b)
        ∙ sym (ap (λ c. if c then str_eq j k || among storage else among storage) b)
  ]

  other_key : (storage : Storage) → starts_with p k ≡ false → among storage ≡ false
  unfolding keys
  other_key [] h = refl
  other_key ((j, text) ∷ storage) h = elim (Bool-cases (str_eq j k)) [
    | inl b ↦
        among-cons j text storage
        ∙ ap (λ i. if starts_with p i then str_eq j k || among storage else among storage)
            ((eq_iff j k).0 b)
        ∙ ap (λ c. if c then str_eq j k || among storage else among storage) h
        ∙ other_key storage h
    | inr b ↦ among-cons j text storage ∙ ground (arith, other_key storage h)
  ]

  own_key :
      (storage : Storage) → starts_with p k ≡ true → among storage ≡ false → lookup k storage ≡ none
  unfolding lookup
  own_key [] h a = refl
  own_key ((j, text) ∷ storage) h a = elim (Bool-cases (str_eq j k)) [
    | inl b ↦ absurd (
        true≢false (
          sym (ground (arith, b))
          ∙ sym (
              ap (λ c. if c then str_eq j k || among storage else among storage)
                (ap (starts_with p) ((eq_iff j k).0 b) ∙ h))
          ∙ sym (among-cons j text storage)
          ∙ a))
    | inr b ↦ rw b (own_key storage h (ground (arith, sym (among-cons j text storage) ∙ a)))
  ]

-- A cleanup of an environment removes every key of it, and leaves what stands under every other key.
pub lookup-cleanup_environment :
    (environment_id k : String) (storage : Storage)
    → lookup k (cleanup_environment environment_id storage)
      ≡ (if starts_with (env_prefix environment_id) k then none else lookup k storage)
unfolding cleanup_environment get_env_keys
lookup-cleanup_environment environment_id k storage =
    let p = env_prefix environment_id in
    lookup-remove_all k (keep (starts_with p) (keys storage)) storage
    ∙ ground (arith, own_key p k storage, other_key p k storage)
