-- ===== src/Preferences/Runs.antt =====
-- What the history of runs keeps.
use mathlib.Core.Path.{subst}
use mathlib.Core.Bool.{true≢false}
use ig_desktop.Prelude.{
  ℕ, suc, ◌≡◌, refl, sym, ap, ◌∙◌, String, true, false, Option, none, some, List, [], ◌∷◌, ◌++◌,
  length, take, drop, map_option, str_eq, eq_iff, All, if◌then◌else◌, Bool-cases, inl, inr,
}
use ig_desktop.Js.Json.{
  Json, Members, null, bool, num, str, arr, obj, at, items_of, list_of-items_of, at-put,
  at-take_out, or_empty,
}
use ig_desktop.Preferences.Equality.{deep_equal?, strict_equal?}
use ig_desktop.Preferences.Storage.{Storage, set_env_pref}
use ig_desktop.Preferences.History.{
  get_history, add_gadget_to_history, saved_history, updated_history, find_index, is_same_run,
  with_timestamp, nowhere, found_at, one_later, next_found, entry_at, spread,
}
use ig_desktop.Preferences.Laws.{read_written}

-- A history as it is stored.
abbrev pub stored : List Json → Json
stored hs = arr (items_of hs)

module _ (image : String) (request : Members) where
  -- An entry of the same image whose parameters are equal to those of the request.
  abbrev pub IsRun : Members → Type 0
  IsRun e =
      (at "image" e ≡ some (str image)) × (deep_equal? (at "params" e) (at "params" request) ≡ true)

  -- An entry that is not null and not of the run.
  abbrev pub IsOther : Json → Type 0
  IsOther null = ⊥
  IsOther (obj e) = ¬ IsRun e
  IsOther v = Unit

  -- The entries before the one of the run, and that one with those behind it, if there is one.
  abbrev pub Splits : List Json → Option (Members × List Json) → Type 0
  Splits xs none = All IsOther xs
  Splits xs (some (e, ys)) = All IsOther xs × IsRun e

  abbrev pub joined : List Json → Option (Members × List Json) → List Json
  joined xs none = xs
  joined xs (some (e, ys)) = xs ++ obj e ∷ ys

  abbrev pub others : List Json → Option (Members × List Json) → List Json
  others xs none = xs
  others xs (some (e, ys)) = xs ++ ys

  -- What the newest entry is made of, and the entry itself.
  abbrev pub base : Option (Members × List Json) → Members
  base none = request
  base (some (e, ys)) = e

  abbrev pub newest : Option (Members × List Json) → Members
  newest none = request
  newest (some (e, ys)) = with_timestamp (at "timestamp" request) e

  -- The history afterwards.
  abbrev pub expected : ℕ → List Json → Option (Members × List Json) → Json
  expected max_entries xs o = stored (take max_entries (obj (newest o) ∷ others xs o))

  at-with_timestamp :
      (t : Option Json) (e : Members) (k : String)
      → at k (with_timestamp t e) ≡ (if str_eq "timestamp" k then t else at k e)
  unfolding with_timestamp
  at-with_timestamp none e k = at-take_out "timestamp" k e
  at-with_timestamp (some t) e k = at-put "timestamp" k t e

  at-newest :
      (o : Option (Members × List Json)) (k : String)
      → at k (newest o) ≡ (if str_eq "timestamp" k then at "timestamp" request else at k (base o))
  at-newest (some (e, ys)) k = at-with_timestamp (at "timestamp" request) e k
  at-newest none k = elim (Bool-cases (str_eq "timestamp" k)) [
    | inl b ↦ rw b (ap (λ i. at i request) (sym ((eq_iff "timestamp" k).0 b)))
    | inr b ↦ rw b refl
  ]

  module _ (own : at "image" request ≡ some (str image)) where
    same_image :
        (o : Option Json) → strict_equal? o (some (str image)) ≡ true → o ≡ some (str image)
    unfolding strict_equal?
    same_image none h = absurd (true≢false (sym h))
    same_image (some null) h = absurd (true≢false (sym h))
    same_image (some (bool b)) h = absurd (true≢false (sym h))
    same_image (some (num b)) h = absurd (true≢false (sym h))
    same_image (some (str s)) h = ap (λ t. some (str t)) ((eq_iff s image).0 h)
    same_image (some (arr b)) h = absurd (true≢false (sym h))
    same_image (some (obj b)) h = absurd (true≢false (sym h))

    image_itself : strict_equal? (some (str image)) (some (str image)) ≡ true
    unfolding strict_equal?
    image_itself = (eq_iff image image).1 refl

    is_same_run-IsRun : (e : Members) → IsRun e → is_same_run request (obj e) ≡ some true
    unfolding is_same_run
    is_same_run-IsRun e (i, p) = rw (i, own, p, image_itself) refl

    is_same_run-IsOther : (v : Json) → IsOther v → is_same_run request v ≡ some false
    unfolding is_same_run
    is_same_run-IsOther null h = absurd h
    is_same_run-IsOther (bool b) h = rw own (unfold strict_equal? in refl)
    is_same_run-IsOther (num b) h = rw own (unfold strict_equal? in refl)
    is_same_run-IsOther (str b) h = rw own (unfold strict_equal? in refl)
    is_same_run-IsOther (arr b) h = rw own (unfold strict_equal? in refl)
    is_same_run-IsOther (obj e) h =
        elim (Bool-cases (strict_equal? (at "image" e) (at "image" request))) [
          | inr b ↦ rw b refl
          | inl b ↦ elim (Bool-cases (deep_equal? (at "params" e) (at "params" request))) [
            | inr c ↦ rw (b, c) refl
            | inl c ↦ absurd (
                h (
                  same_image (at "image" e)
                      (subst (λ o. strict_equal? (at "image" e) o ≡ true) own b),
                  c,
                ))
          ]
        ]

    find_index-IsOther :
        (v : Json) (vs : List Json)
        → IsOther v
        → find_index request (v ∷ vs) ≡ one_later (find_index request vs)
    unfolding find_index
    find_index-IsOther v vs h =
        ap (λ o. next_found o (find_index request vs)) (is_same_run-IsOther v h)
        ∙ unfold next_found in refl

    find_index-none : (xs : List Json) → All IsOther xs → find_index request xs ≡ nowhere
    find_index-none [] h = unfold find_index in refl
    find_index-none (x ∷ xs) (p, h) =
        find_index-IsOther x xs p ∙ ap one_later (find_index-none xs h) ∙ unfold one_later in refl

    find_index-first :
        (xs : List Json) (e : Members) (ys : List Json)
        → All IsOther xs
        → IsRun e
        → find_index request (xs ++ obj e ∷ ys) ≡ found_at (length xs)
    find_index-first [] e ys h r =
        unfold find_index in
        ap (λ o. next_found o (find_index request ys)) (is_same_run-IsRun e r)
        ∙ unfold next_found in refl
    find_index-first (x ∷ xs) e ys (p, h) r =
        find_index-IsOther x (xs ++ obj e ∷ ys) p
        ∙ ap one_later (find_index-first xs e ys h r)
        ∙ unfold one_later in refl

    entry_at-length :
        (xs : List Json) (v : Json) (ys : List Json) → entry_at (length xs) (xs ++ v ∷ ys) ≡ v
    entry_at-length [] v ys = refl
    entry_at-length (x ∷ xs) v ys = entry_at-length xs v ys

    around :
        (xs : List Json) (v : Json) (ys : List Json)
        → take (length xs) (xs ++ v ∷ ys) ++ drop (suc (length xs)) (xs ++ v ∷ ys) ≡ xs ++ ys
    around [] v ys = refl
    around (x ∷ xs) v ys = ap (◌∷◌ x) (around xs v ys)

    updated_history-Splits :
        (xs : List Json) (o : Option (Members × List Json))
        → Splits xs o
        → updated_history request (joined xs o) (find_index request (joined xs o))
          ≡ some (obj (newest o) ∷ others xs o)
    unfolding updated_history
    updated_history-Splits xs none h = rw (find_index-none xs h) refl
    updated_history-Splits xs (some (e, ys)) (h, r) =
        ap (updated_history request (xs ++ obj e ∷ ys)) (find_index-first xs e ys h r)
        ∙ ap
            (λ v. some (
              obj (with_timestamp (at "timestamp" request) (spread v))
                ∷ take (length xs) (xs ++ obj e ∷ ys)
              ++ drop (suc (length xs)) (xs ++ obj e ∷ ys)))
            (entry_at-length xs (obj e) ys)
        ∙ unfold spread in
          ap (λ vs. some (obj (with_timestamp (at "timestamp" request) e) ∷ vs))
            (around xs (obj e) ys)

module _ (stringify : Json → String) (parse : String → Option Json) (environment_id : String)
    (image : String) (request : Members) (max_entries : ℕ) (storage : Storage) (xs : List Json)
    (o : Option (Members × List Json)) where
  saved_history-expected :
      at "image" request ≡ some (str image)
      → Splits image request xs o
      → saved_history request max_entries (stored (joined image request xs o))
        ≡ some (expected image request max_entries xs o)
  unfolding saved_history
  saved_history-expected own h =
      ap
        (λ hs.
          map_option (λ updated. stored (take max_entries updated))
            (updated_history request hs (find_index request hs)))
        (list_of-items_of (joined image request xs o))
      ∙ ap (map_option (λ updated. stored (take max_entries updated)))
          (updated_history-Splits image request own xs o h)

  -- Where a request has a text as its image, the stored history has entries `xs` that are not null and
  -- not of the run of the request, and then none or one that is, of the same image and with equal
  -- parameters, and JSON reads back the history that is saved: afterwards the newest entry stands in
  -- front of the others, in their order, up to `max_entries` in all. The newest entry is the request, or
  -- the one that was there with the time stamp of the request and with all its other members.
  pub get_history-add_gadget_to_history :
      at "image" request ≡ some (str image)
      → Splits image request xs o
      → get_history stringify parse environment_id storage ≡ stored (joined image request xs o)
      → parse (stringify (expected image request max_entries xs o))
        ≡ some (expected image request max_entries xs o)
      → (map_option
            (get_history stringify parse environment_id)
            (add_gadget_to_history stringify parse environment_id request max_entries storage)
          ≡ some (expected image request max_entries xs o))
        × ((k : String)
            → at k (newest image request o) ≡ (
                if str_eq "timestamp" k
                then at "timestamp" request
                else at k (base image request o)))
  unfolding add_gadget_to_history
  get_history-add_gadget_to_history own h was read_back =
      let get = get_history stringify parse environment_id in
      let put_in =
        λ (v : Json). set_env_pref stringify parse environment_id "gadget-history" v storage in
      let read : get (put_in (expected image request max_entries xs o))
          ≡ expected image request max_entries xs o =
        unfold get_history in
        ap or_empty (
          read_written stringify parse environment_id "gadget-history"
            (expected image request max_entries xs o) storage read_back) in
      (
        ap (λ v. map_option get (map_option put_in v))
              (ap (saved_history request max_entries) was ∙ saved_history-expected own h)
            ∙ ap some read,
        at-newest image request o,
      )
