-- ===== src/Search/Incremental.antt =====
-- Filtering in steps gives what filtering everything gives.
use ig_desktop.Prelude.{
  ℕ, ◌+◌, ◌≡◌, refl, sym, ap, ◌∙◌, String, Bool, true, false, List, [], ◌∷◌, ◌++◌, eq_refl, keep,
  keep-cons, Bool-cases, inl, inr,
}
use ig_desktop.Js.{Event}
use ig_desktop.Js.Text.{lower, join}
use ig_desktop.Search.{Worker, entry_matches_search, filter, filter_incremental, kept, response}

keep-append {ℓ} :
    {A : Type ℓ} (p : A → Bool) (xs ys : List A) → keep p (xs ++ ys) ≡ keep p xs ++ keep p ys
keep-append p [] ys = refl
keep-append p (x ∷ xs) ys = elim (Bool-cases (p x)) [
  | inl b ↦
      keep-cons p x (xs ++ ys) true b
      ∙ ap (λ l. x ∷ l) (keep-append p xs ys)
      ∙ ap (λ l. l ++ keep p ys) (sym (keep-cons p x xs true b))
  | inr b ↦
      keep-cons p x (xs ++ ys) false b
      ∙ keep-append p xs ys
      ∙ ap (λ l. l ++ keep p ys) (sym (keep-cons p x xs false b))
]

module _ (query : String) (field_names : List String) where
  abbrev matching : List Event → List Event
  matching = keep (λ e. entry_matches_search e (lower query) field_names)

  -- The worker holds the matches of a list of events.
  record IsFiltered (events : List Event) (w : Worker) : Type 0 where
    found : w.current_filtered_events ≡ matching events
    same_query : w.current_query ≡ lower query
    same_names : w.current_field_names ≡ field_names

  kept-IsFiltered :
      (events : List Event) (w : Worker)
      → IsFiltered events w
      → kept (lower query) field_names w ≡ matching events
  unfolding kept
  kept-IsFiltered events w h =
      rw (h.same_query, h.same_names, eq_refl (lower query), eq_refl (join "," field_names)) h.found

  filter_incremental-IsFiltered :
      (id : ℕ) (new_events events : List Event) (w : Worker)
      → IsFiltered events w
      → IsFiltered (new_events ++ events) (filter_incremental id new_events query field_names w).1
  unfolding filter_incremental
  filter_incremental-IsFiltered id new_events events w h = record {
    found =
        ap (λ l. matching new_events ++ l) (kept-IsFiltered events w h)
        ∙ sym
            (keep-append (λ e. entry_matches_search e (lower query) field_names) new_events events);
    same_query = refl;
    same_names = refl;
  }

  -- Batches of new events, the oldest first, each filtered as it arrives.
  abbrev pub arrive : ℕ → List (List Event) → Worker → Worker
  arrive id [] w = w
  arrive id (batch ∷ batches) w =
      arrive (id + 1) batches (filter_incremental id batch query field_names w).1

  -- The events with the batches in front of them, the newest first.
  abbrev pub prepended : List (List Event) → List Event → List Event
  prepended [] events = events
  prepended (batch ∷ batches) events = prepended batches (batch ++ events)

  arrive-IsFiltered :
      (id : ℕ) (batches : List (List Event)) (events : List Event) (w : Worker)
      → IsFiltered events w
      → IsFiltered (prepended batches events) (arrive id batches w)
  arrive-IsFiltered id [] events w h = h
  arrive-IsFiltered id (batch ∷ batches) events w h =
      arrive-IsFiltered (id + 1) batches (batch ++ events)
        (filter_incremental id batch query field_names w).1
        (filter_incremental-IsFiltered id batch events w h)

-- After a full filtering, batches of new events that are filtered one by one with the same query and
-- fields leave the worker with what a full filtering of all the events gives, the newest batch first.
pub filter_incremental-filter :
    (query : String) (field_names : List String) (id : ℕ) (batches : List (List Event))
    (events : List Event) (w : Worker)
    → (arrive query field_names
        (id + 1)
        batches
        (filter id events query field_names w).1).current_filtered_events
      ≡ (filter id
          (prepended query field_names batches events)
          query
          field_names
          w).0.filtered_events
unfolding filter response
filter_incremental-filter query field_names id batches events w =
    let start : IsFiltered query field_names events (filter id events query field_names w).1 =
      record { found = refl; same_query = refl; same_names = refl } in
    (arrive-IsFiltered query field_names (id + 1) batches events
      (filter id events query field_names w).1 start).found
