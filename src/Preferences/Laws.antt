-- ===== src/Preferences/Laws.antt =====
-- What is read back from local storage.
use mathlib.Core.Path.{subst}
use ig_desktop.Prelude.{
  ℕ, suc, zero, ◌≤◌, ◌≡◌, refl, ap, ◌∙◌, String, not, Option, some, List, [], ◌∷◌, keep, take,
  length, length-take, map, ◌++◌, Bool, true, false, eq_refl, map_option, total-append, total, bit,
  if◌then◌else◌, str_eq, eq_iff, arith, Bool-cases, inl, inr,
}
use ig_desktop.Prelude.Assoc.{lookup, lookup-insert, lookup-insert_self}
use ig_desktop.Js.Json.{Json, arr, str, items_of, list_of-items_of, or_empty}
use ig_desktop.Preferences.Equality.{strict_equal}
use ig_desktop.Preferences.Storage.{Storage, full_key, parse_item, get_env_pref, set_env_pref}
use ig_desktop.Preferences.Recents.{updated_recents, with_recent, get_recents, save_recent}

-- How often a text stands in a list.
abbrev pub times : String → List String → ℕ
times x = total (λ y. bit (str_eq y x))

times-take : (x : String) (n : ℕ) (xs : List String) → times x (take n xs) ≤ times x xs
times-take x zero xs = omega arith
times-take x (suc n) [] = omega arith
times-take x (suc n) (y ∷ ys) = omega (arith, times-take x n ys)

-- A list of recent values: at most `n`, and none twice.
pub record AreRecents (n : ℕ) (xs : List String) : Type 0 where
  pub short : length xs ≤ n
  pub once : (x : String) → times x xs ≤ 1

-- A list of texts as a value.
abbrev pub texts : List String → Json
texts xs = arr (items_of (map str xs))

without_value :
    (value : String) (xs : List String)
    → times value xs ≡ 0
    → keep (λ v. not (strict_equal v (str value))) (map str xs) ≡ map str xs
unfolding strict_equal
without_value value [] h = refl
without_value value (x ∷ xs) h = elim (Bool-cases (str_eq x value)) [
  | inl b ↦ absurd (omega (arith, h, ap bit b))
  | inr b ↦ ground (arith, b, without_value value xs (omega (arith, h)))
]

-- The texts before `value` and behind it, with and without it.
without_one :
    (value : String) (there : Bool) (xs ys : List String)
    → times value xs ≡ 0
    → times value ys ≡ 0
    → keep
        (λ v. not (strict_equal v (str value)))
        (map str (xs ++ (if there then value ∷ ys else ys)))
      ≡ map str (xs ++ ys)
unfolding strict_equal
without_one value true [] ys h k = ground (arith, eq_refl value, without_value value ys k)
without_one value false [] ys h k = without_value value ys k
without_one value there (x ∷ xs) ys h k = elim (Bool-cases (str_eq x value)) [
  | inl b ↦ absurd (omega (arith, h, ap bit b))
  | inr b ↦ ground (arith, b, without_one value there xs ys (omega (arith, h)) k)
]

take-map : (n : ℕ) (xs : List String) → take n (map str xs) ≡ map str (take n xs)
take-map zero xs = refl
take-map (suc n) [] = refl
take-map (suc n) (x ∷ xs) = ap (◌∷◌ (str x)) (take-map n xs)

times-more :
    (x value : String) (there : Bool) (ys : List String)
    → times x ys ≤ times x (if there then value ∷ ys else ys)
times-more x value true ys = omega arith
times-more x value false ys = omega arith

moved-AreRecents :
    (n : ℕ) (value : String) (there : Bool) (xs ys : List String)
    → times value xs ≡ 0
    → times value ys ≡ 0
    → AreRecents n (xs ++ (if there then value ∷ ys else ys))
    → AreRecents n (take n (value ∷ xs ++ ys))
moved-AreRecents n value there xs ys h k r = record {
  short = omega (arith, length-take n (value ∷ xs ++ ys));
  once = λ x. elim (Bool-cases (str_eq value x)) [
    | inl b ↦
        let same = (eq_iff value x).0 b in
        omega (
          arith,
          times-take x n (value ∷ xs ++ ys),
          total-append (λ y. bit (str_eq y x)) xs ys,
          subst (λ z. times z xs ≡ 0) same h,
          subst (λ z. times z ys ≡ 0) same k,
          ap bit b,
        )
    | inr b ↦ omega (
      arith,
      times-take x n (value ∷ xs ++ ys),
      total-append (λ y. bit (str_eq y x)) xs ys,
      total-append (λ y. bit (str_eq y x)) xs (if there then value ∷ ys else ys),
      r.once x,
      times-more x value there ys,
      ap bit b,
    )
  ];
}

module _ (stringify : Json → String) (parse : String → Option Json) where
  pub read_written :
      (environment_id key : String) (v : Json) (storage : Storage)
      → parse (stringify v) ≡ some v
      → get_env_pref stringify parse environment_id key
          (set_env_pref stringify parse environment_id key v storage)
        ≡ some v
  unfolding get_env_pref set_env_pref
  read_written environment_id key v storage read_back =
      ap (parse_item stringify parse)
        (lookup-insert_self (full_key environment_id key) (stringify v) storage)
      ∙ read_back

  -- A preference that was set is read as it was set, where JSON reads back its text, and what stands
  -- under any other key of the storage is unchanged.
  pub get_env_pref-set_env_pref :
      (environment_id key other : String) (v : Json) (storage : Storage)
      → parse (stringify v) ≡ some v
      → (get_env_pref stringify parse environment_id key
            (set_env_pref stringify parse environment_id key v storage)
          ≡ some v)
        × (lookup other (set_env_pref stringify parse environment_id key v storage) ≡ (
            if str_eq (full_key environment_id key) other
            then some (stringify v)
            else lookup other storage))
  unfolding set_env_pref
  get_env_pref-set_env_pref environment_id key other v storage read_back = (
    read_written environment_id key v storage read_back,
    lookup-insert (full_key environment_id key) other (stringify v) storage,
  )

  -- Where a list of recent texts is stored under the key, with `value` once in it or not at all, and
  -- JSON reads back the list that is saved: `value` comes first afterwards, the others follow in their
  -- order, and what is past `n` goes; the list has at most `n` texts, and none twice. The empty text
  -- changes nothing.
  pub save_recent-AreRecents :
      (n : ℕ) (environment_id key value : String) (storage : Storage) (there : Bool)
      (xs ys : List String)
      → str_eq value "" ≡ false
      → times value xs ≡ 0
      → times value ys ≡ 0
      → get_recents stringify parse environment_id key storage
        ≡ texts (xs ++ (if there then value ∷ ys else ys))
      → AreRecents n (xs ++ (if there then value ∷ ys else ys))
      → parse (stringify (texts (take n (value ∷ xs ++ ys))))
        ≡ some (texts (take n (value ∷ xs ++ ys)))
      → (map_option
            (get_recents stringify parse environment_id key)
            (save_recent stringify parse n environment_id key value storage)
          ≡ some (texts (take n (value ∷ xs ++ ys))))
        × (AreRecents n (take n (value ∷ xs ++ ys))
            × (save_recent stringify parse n environment_id key "" storage ≡ some storage))
  unfolding save_recent
  save_recent-AreRecents n environment_id key value storage there xs ys full h k stored r
        read_back =
      let new = texts (take n (value ∷ xs ++ ys)) in
      let saved : updated_recents n value (texts (xs ++ (if there then value ∷ ys else ys)))
          ≡ some new =
        unfold updated_recents with_recent in
        rw
          (
            list_of-items_of (map str (xs ++ (if there then value ∷ ys else ys))),
            without_one value there xs ys h k,
          )
          (ap (λ l. some (arr (items_of l))) (take-map n (value ∷ xs ++ ys))) in
      let read : get_recents stringify parse environment_id key
            (set_env_pref stringify parse environment_id key new storage)
          ≡ new =
        unfold get_recents in ap or_empty (read_written environment_id key new storage read_back) in
      let get = get_recents stringify parse environment_id key in
      let put_in = λ (v : Json). set_env_pref stringify parse environment_id key v storage in
      let result =
        ap
          (λ b.
            map_option get (
              if b
              then some storage
              else map_option put_in (updated_recents n value (get storage))))
          full
        ∙ ap (λ o. map_option get (map_option put_in o))
            (ap (updated_recents n value) stored ∙ saved)
        ∙ ap some read in
      (result, (moved-AreRecents n value there xs ys h k r, refl))
