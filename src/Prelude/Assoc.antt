-- ===== src/Prelude/Assoc.antt =====
-- JavaScript's `Map<string, V>`, and an object used as one: entries in order of insertion. A write
-- to a key that is there keeps its place.
use Prim.Native.Nat.{ℕ, ◌+◌}
use Prim.Native.String.{String}
use mathlib.Core.Path.{◌≡◌, refl, sym, ap, subst}
use mathlib.Core.Logic.{inl, inr}
use mathlib.Core.Bool.{Bool}
use mathlib.Core.Option.{Option, none, some, none-ne-some, some-injective}
use mathlib.Core.List.{List, [], ◌∷◌}
use native.Mathlib.Omega.{arith}
use text.Mathlib.Text.{◌==◌}
use text.Mathlib.TextEquality.{eq_iff}
use text.Mathlib.TextPositions.{eq_refl}
use ig_desktop.Prelude.Tests.{if◌then◌else◌, is_some, bit, Bool-cases}
use ig_desktop.Prelude.Totals.{total, All}

module _ {ℓ} {V : Type ℓ} where
  -- `map.get(key)`.
  unfoldable pub lookup : String → List (String × V) → Option V
  lookup key [] = none
  lookup key ((name, value) ∷ rest) = if name == key then some value else lookup key rest

  -- `map.set(key, value)`.
  unfoldable pub insert : String → V → List (String × V) → List (String × V)
  insert key value [] = (key, value) ∷ []
  insert key value ((name, old) ∷ rest) =
      if name == key then (name, value) ∷ rest else (name, old) ∷ insert key value rest

  unfoldable pub delete : String → List (String × V) → List (String × V)
  delete k [] = []
  delete k ((j, v) ∷ m) = if j == k then delete k m else (j, v) ∷ delete k m

  -- An entry that is there or made, and then changed in place.
  unfoldable pub upsert : String → (Option V → V) → List (String × V) → List (String × V)
  unfolding lookup insert
  upsert key f entries = insert key (f (lookup key entries)) entries

  unfoldable pub values : List (String × V) → List V
  values [] = []
  values ((k, v) ∷ m) = v ∷ values m

  unfoldable pub keys : List (String × V) → List String
  keys [] = []
  keys ((k, v) ∷ m) = k ∷ keys m

  unfoldable pub has : String → List (String × V) → Bool
  has k m = is_some (lookup k m)

  pub lookup-insert :
      (key name : String) (value : V) (entries : List (String × V))
      → lookup name (insert key value entries)
        ≡ (if key == name then some value else lookup name entries)
  unfolding lookup insert
  lookup-insert key name value [] = refl
  lookup-insert key name value ((first, old) ∷ rest) =
      let tail = lookup-insert key name value rest in
      ground (arith, tail, eq_iff first name, eq_iff first key, eq_iff key name)

  pub lookup-insert_self :
      (k : String) (v : V) (m : List (String × V)) → lookup k (insert k v m) ≡ some v
  lookup-insert_self k v m = simp (lookup-insert, eq_refl)

  pub lookup-delete :
      (key name : String) (entries : List (String × V))
      → lookup name (delete key entries) ≡ (if key == name then none else lookup name entries)
  unfolding lookup delete
  lookup-delete key name [] = ground arith
  lookup-delete key name ((first, old) ∷ rest) =
      let tail = lookup-delete key name rest in
      ground (arith, tail, eq_iff first name, eq_iff first key, eq_iff key name)

  pub lookup-delete_self : (k : String) (m : List (String × V)) → lookup k (delete k m) ≡ none
  lookup-delete_self k m = simp (lookup-delete, eq_refl)

  -- No key stands twice.
  abbrev pub IsMap : List (String × V) → Type ℓ
  IsMap [] = Unit
  IsMap ((k, v) ∷ m) = (lookup k m ≡ none) × IsMap m

  pub insert-IsMap : (k : String) (v : V) (m : List (String × V)) → IsMap m → IsMap (insert k v m)
  unfolding insert lookup
  insert-IsMap k v [] h = (refl, tt)
  insert-IsMap k v ((j, w) ∷ m) (p, h) = elim (Bool-cases (j == k)) [
    | inl e ↦ rw e (p, h)
    | inr e ↦
        rw e (ground (arith, lookup-insert k j v m, eq_iff j k, eq_iff k j), insert-IsMap k v m h)
  ]

  pub delete-IsMap : (k : String) (m : List (String × V)) → IsMap m → IsMap (delete k m)
  unfolding delete
  delete-IsMap k [] h = tt
  delete-IsMap k ((j, w) ∷ m) (p, h) = elim (Bool-cases (j == k)) [
    | inl e ↦ rw e (delete-IsMap k m h)
    | inr e ↦ rw e (ground (arith, lookup-delete k j m), delete-IsMap k m h)
  ]

  delete_absent : (k : String) (m : List (String × V)) → lookup k m ≡ none → delete k m ≡ m
  unfolding delete lookup
  delete_absent k [] h = refl
  delete_absent k ((j, w) ∷ m) h = ground (arith, delete_absent k m)

  -- The sum of `f` over the values of a map.
  abbrev pub weight : (V → ℕ) → List (String × V) → ℕ
  weight f [] = 0
  weight f ((k, v) ∷ m) = f v + weight f m

  abbrev pub weight? : (V → ℕ) → Option V → ℕ
  weight? f none = 0
  weight? f (some v) = f v

  pub total-values : (f : V → ℕ) (m : List (String × V)) → total f (values m) ≡ weight f m
  unfolding values
  total-values f [] = refl
  total-values f ((k, v) ∷ m) = omega (arith, total-values f m)

  pub weight-insert :
      (f : V → ℕ) (k : String) (v : V) (m : List (String × V))
      → weight f (insert k v m) + weight? f (lookup k m) ≡ weight f m + f v
  unfolding insert lookup
  weight-insert f k v [] = omega arith
  weight-insert f k v ((j, w) ∷ m) = elim (Bool-cases (j == k)) [
    | inl e ↦ rw e (omega arith)
    | inr e ↦ rw e (omega (arith, weight-insert f k v m))
  ]

  pub weight-delete :
      (f : V → ℕ) (k : String) (m : List (String × V))
      → IsMap m
      → weight f (delete k m) + weight? f (lookup k m) ≡ weight f m
  unfolding delete lookup
  weight-delete f k [] h = omega arith
  weight-delete f k ((j, w) ∷ m) (p, h) = elim (Bool-cases (j == k)) [
    | inl e ↦
        rw e (
          rw (delete_absent k m (subst (λ i. lookup i m ≡ none) ((eq_iff j k).0 e) p))
            (omega arith))
    | inr e ↦ rw e (omega (arith, weight-delete f k m h))
  ]

module _ {ℓ κ} {V : Type ℓ} (P : String → V → Type κ) where
  -- A predicate of every entry.
  abbrev pub AllEntries : List (String × V) → Type κ
  AllEntries [] = Unit
  AllEntries ((k, v) ∷ m) = P k v × AllEntries m

  pub AllEntries-lookup :
      (k : String) (v : V) (m : List (String × V)) → lookup k m ≡ some v → AllEntries m → P k v
  unfolding lookup
  AllEntries-lookup k v [] e h = absurd (none-ne-some v e)
  AllEntries-lookup k v ((j, w) ∷ m) e (p, h) = elim (Bool-cases (j == k)) [
    | inl b ↦
        let same : w ≡ v = some-injective w v (rw b at e) in
        subst (λ x. P k x) same (subst (λ i. P i w) ((eq_iff j k).0 b) p)
    | inr b ↦ AllEntries-lookup k v m (rw b at e) h
  ]

  pub AllEntries-insert :
      (k : String) (v : V) (m : List (String × V))
      → P k v
      → AllEntries m
      → AllEntries (insert k v m)
  unfolding insert
  AllEntries-insert k v [] p h = (p, tt)
  AllEntries-insert k v ((j, w) ∷ m) p (q, h) = elim (Bool-cases (j == k)) [
    | inl b ↦ rw b (subst (λ i. P i v) (sym ((eq_iff j k).0 b)) p, h)
    | inr b ↦ rw b (q, AllEntries-insert k v m p h)
  ]

  pub AllEntries-delete :
      (k : String) (m : List (String × V)) → AllEntries m → AllEntries (delete k m)
  unfolding delete
  AllEntries-delete k [] h = tt
  AllEntries-delete k ((j, w) ∷ m) (q, h) = elim (Bool-cases (j == k)) [
    | inl b ↦ rw b (AllEntries-delete k m h)
    | inr b ↦ rw b (q, AllEntries-delete k m h)
  ]

pub AllEntries-map {ℓ κ η} :
    {V : Type ℓ} (P : String → V → Type κ) (Q : String → V → Type η) (m : List (String × V))
    → ((k : String) (v : V) → P k v → Q k v)
    → AllEntries P m
    → AllEntries Q m
AllEntries-map P Q [] f h = tt
AllEntries-map P Q ((k, v) ∷ m) f (p, h) = (f k v p, AllEntries-map P Q m f h)

pub AllEntries-values {ℓ κ} :
    {V : Type ℓ} (P : String → V → Type κ) (Q : V → Type κ) (m : List (String × V))
    → ((k : String) (v : V) → P k v → Q v)
    → AllEntries P m
    → All Q (values m)
unfolding values
AllEntries-values P Q [] f h = tt
AllEntries-values P Q ((k, v) ∷ m) f (p, h) = (f k v p, AllEntries-values P Q m f h)

-- Where each value holds its own key, one value has a key exactly if the key is there.
pub weight-keyed {ℓ} :
    {V : Type ℓ} (key : V → String) (k : String) (m : List (String × V))
    → IsMap m
    → AllEntries (λ j v. key v ≡ j) m
    → weight (λ v. bit (key v == k)) m ≡ bit (has k m)
unfolding has lookup
weight-keyed key k [] h a = refl
weight-keyed key k ((j, v) ∷ m) (p, h) (q, a) = elim (Bool-cases (j == k)) [
  | inl b ↦
      let rest = weight-keyed key k m h a in
      let absent : lookup k m ≡ none = subst (λ i. lookup i m ≡ none) ((eq_iff j k).0 b) p in
      omega (
        arith,
        rest,
        ap (λ o. bit (is_some o)) absent,
        ap (λ i. bit (i == k)) q,
        ap bit b,
        ap (λ c. bit (is_some (if c then some v else lookup k m))) b,
      )
  | inr b ↦ omega (
    arith,
    weight-keyed key k m h a,
    ap (λ i. bit (i == k)) q,
    ap bit b,
    ap (λ c. bit (is_some (if c then some v else lookup k m))) b,
  )
]
