-- ===== src/Dns/Correlate/Dedupe.antt =====
-- `dedupeAndSort`: which events it keeps.
use ig_desktop.Prelude.{
  ℕ, ◌+◌, ◌≡◌, refl, ap, ◌∙◌, true, Option, none, some, List, [], ◌∷◌, arith, total, min, bit,
  if◌then◌else◌, map,
}
use ig_desktop.Prelude.Int.{ℤ, eqb_ℤ, eq_of_parts}
use ig_desktop.Prelude.Sort.{sort, total-sort}
use ig_desktop.Js.{Event}
use ig_desktop.Dns.Types.{DnsFieldConfig}
use ig_desktop.Dns.Correlate.{
  Item, msg_id_of, contains_id, collect_next, collect, item_before, dedupe_and_sort,
}

-- 1 for an event with the given `msgID`.
abbrev pub has_id : ℤ → Option ℤ → ℕ
has_id id none = 0
has_id id (some x) = bit (eqb_ℤ x id)

-- 1 for an event with none.
abbrev pub lacks_id : Option ℤ → ℕ
lacks_id none = 1
lacks_id (some x) = 0

abbrev pub count_id : ℤ → List Event → ℕ
count_id id = total (λ e. has_id id (msg_id_of e))

abbrev pub count_no_id : List Event → ℕ
count_no_id = total (λ e. lacks_id (msg_id_of e))

contains_id-eq :
    (x id : ℤ) (seen : List ℤ) → eqb_ℤ x id ≡ true → contains_id x seen ≡ contains_id id seen
contains_id-eq x id seen h = ap (λ i. contains_id i seen) (eq_of_parts x id (ground arith))

total-map-item :
    (f : Event → ℕ) (is : List Item) → total f (map (λ i. i.event) is) ≡ total (λ i. f i.event) is
total-map-item f [] = refl
total-map-item f (i ∷ is) = ap (λ n. f i.event + n) (total-map-item f is)

module _ (config : DnsFieldConfig) where
  module _ (id : ℤ) where
    abbrev is_item : Item → ℕ
    is_item i = has_id id (msg_id_of i.event)

    count-next :
        (e : Event) (idx : ℕ) (o : Option ℤ) (seen : List ℤ) (rest : List ℤ → List Item) (n : ℕ)
        → msg_id_of e ≡ o
        → ((s : List ℤ) → total is_item (rest s) ≡ (if contains_id id s then 0 else min 1 n))
        → total is_item (collect_next config e idx o seen rest)
          ≡ (if contains_id id seen then 0 else min 1 (has_id id o + n))
    unfolding collect_next contains_id
    count-next e idx none seen rest n h ih = ground (arith, ih seen, ap (has_id id) h)
    count-next e idx (some x) seen rest n h ih =
        ground (arith, ih seen, ih (x ∷ seen), ap (has_id id) h, contains_id-eq x id seen)

    count-collect :
        (events : List Event) (idx : ℕ) (seen : List ℤ)
        → total is_item (collect config events idx seen)
          ≡ (if contains_id id seen then 0 else min 1 (count_id id events))
    unfolding collect
    count-collect [] idx seen = ground arith
    count-collect (e ∷ es) idx seen =
        count-next e idx (msg_id_of e) seen (collect config es (idx + 1)) (count_id id es) refl
          (count-collect es (idx + 1))

  abbrev is_bare : Item → ℕ
  is_bare i = lacks_id (msg_id_of i.event)

  bare-next :
      (e : Event) (idx : ℕ) (o : Option ℤ) (seen : List ℤ) (rest : List ℤ → List Item) (n : ℕ)
      → msg_id_of e ≡ o
      → ((s : List ℤ) → total is_bare (rest s) ≡ n)
      → total is_bare (collect_next config e idx o seen rest) ≡ lacks_id o + n
  unfolding collect_next
  bare-next e idx none seen rest n h ih = ground (arith, ih seen, ap lacks_id h)
  bare-next e idx (some x) seen rest n h ih = ground (arith, ih seen, ih (x ∷ seen), ap lacks_id h)

  bare-collect :
      (events : List Event) (idx : ℕ) (seen : List ℤ)
      → total is_bare (collect config events idx seen) ≡ count_no_id events
  unfolding collect
  bare-collect [] idx seen = refl
  bare-collect (e ∷ es) idx seen =
      bare-next e idx (msg_id_of e) seen (collect config es (idx + 1)) (count_no_id es) refl
        (bare-collect es (idx + 1))

-- Of the events with one `msgID` exactly one is kept, and every event without one is kept.
pub dedupe_and_sort-counts :
    (events : List Event) (config : DnsFieldConfig) (id : ℤ)
    → (count_id id (dedupe_and_sort events config) ≡ min 1 (count_id id events))
      × (count_no_id (dedupe_and_sort events config) ≡ count_no_id events)
unfolding dedupe_and_sort
dedupe_and_sort-counts events config id =
    let items = collect config events 0 [] in
    (
      total-map-item (λ e. has_id id (msg_id_of e)) (sort item_before items)
          ∙ total-sort item_before (is_item config id) items
          ∙ count-collect config id events 0 [],
      total-map-item (λ e. lacks_id (msg_id_of e)) (sort item_before items)
          ∙ total-sort item_before (is_bare config) items
          ∙ bare-collect config events 0 [],
    )
