-- ===== src/NetworkMap/Graph/Handles.antt =====
-- The handles of a node: each id stands once, and their counters add up to the node's.
use ig_desktop.Prelude.{
  ℕ, ◌+◌, ◌≤◌, ◌≡◌, refl, ap, if◌then◌else◌, String, Option, none, some, List, [], ◌∷◌, ◌++◌, arith,
  Bool-cases, inl, inr, bit, total, total-append, find, str_eq, eq_iff, eq_refl,
}
use ig_desktop.Prelude.Int.{ℤ}
use ig_desktop.Prelude.Sort.{sort, total-sort}
use ig_desktop.NetworkMap.Types.{HandleType, NetworkHandle, NetworkNode}
use ig_desktop.NetworkMap.Graph.{
  update_handle, get_or_create_handle, create_or_merge, touched_handle, new_handle, handle_before,
  touch_node,
}
use ig_desktop.NetworkMap.Ids.{get_handle_id, is_ephemeral, merge_handle_type}

abbrev pub handle_count : NetworkHandle → ℕ
handle_count h = h.connection_count

-- The number of handles with an id.
abbrev pub id_count : String → List NetworkHandle → ℕ
id_count x = total (λ h. bit (str_eq h.id x))

pub record IsCounted (n : NetworkNode) : Type 0 where
  pub counts : total handle_count n.handles ≡ n.connection_count
  pub once : (x : String) → id_count x n.handles ≤ 1

find-none :
    (id : String) (hs : List NetworkHandle)
    → find (λ h. str_eq h.id id) hs ≡ none
    → id_count id hs ≡ 0
find-none id [] e = refl
find-none id (h ∷ hs) e = ground (arith, find-none id hs)

find-some :
    (id : String) (hs : List NetworkHandle) (h : NetworkHandle)
    → find (λ h. str_eq h.id id) hs ≡ some h
    → 1 ≤ id_count id hs
find-some id [] h e = ground arith
find-some id (g ∷ hs) h e = ground (arith, find-some id hs h)

module _ (id : String) (f : NetworkHandle → NetworkHandle) where
  id_count-update_handle :
      (x : String) (hs : List NetworkHandle)
      → ((h : NetworkHandle) → (f h).id ≡ h.id)
      → id_count x (update_handle id f hs) ≡ id_count x hs
  unfolding update_handle
  id_count-update_handle x [] e = refl
  id_count-update_handle x (h ∷ hs) e = elim (Bool-cases (str_eq h.id id)) [
    | inl b ↦ rw b (rw (e h) refl)
    | inr b ↦ rw b (omega (arith, id_count-update_handle x hs e))
  ]

  total-update_handle :
      (d : ℕ) (hs : List NetworkHandle)
      → ((h : NetworkHandle) → handle_count (f h) ≡ handle_count h + d)
      → 1 ≤ id_count id hs
      → total handle_count (update_handle id f hs) ≡ total handle_count hs + d
  unfolding update_handle
  total-update_handle d [] e k = absurd (omega arith)
  total-update_handle d (h ∷ hs) e k = elim (Bool-cases (str_eq h.id id)) [
    | inl b ↦ rw b (omega (arith, e h))
    | inr b ↦ rw b (omega (arith, total-update_handle d hs e (omega (arith, ap bit b))))
  ]

-- What `getOrCreateHandle` makes of the handles `hs` for an id.
record Got (id : String) (hs l : List NetworkHandle) : Type 0 where
  there : 1 ≤ id_count id l
  counts : total handle_count l ≡ total handle_count hs
  more : (x : String) → id_count x hs ≤ id_count x l
  once : (x : String) → id_count x hs ≤ 1 → id_count x l ≤ 1

create_or_merge-Got :
    (hs : List NetworkHandle) (new : NetworkHandle) (o : Option NetworkHandle)
    → new.connection_count ≡ 0
    → find (λ h. str_eq h.id new.id) hs ≡ o
    → Got new.id hs (create_or_merge hs new o)
unfolding create_or_merge
create_or_merge-Got hs new none z e =
    let ids = λ (x : String). id_count-sorted x in
    record {
      there = omega (arith, ids new.id, ap bit (eq_refl new.id));
      counts = omega (
        arith,
        total-sort handle_before handle_count (hs ++ new ∷ []),
        total-append handle_count hs (new ∷ []),
      );
      more = λ x. omega (arith, ids x);
      once = λ x h. elim (Bool-cases (str_eq new.id x)) [
        | inl b ↦ omega (
          arith,
          ids x,
          ap bit b,
          find-none new.id hs e,
          ap (λ i. id_count i hs) ((eq_iff new.id x).0 b),
        )
        | inr b ↦ omega (arith, ids x, ap bit b)
      ];
    }
  where
    id_count-sorted :
        (x : String)
        → id_count x (sort handle_before (hs ++ new ∷ [])) ≡ id_count x hs + bit (str_eq new.id x)
    id_count-sorted x = omega (
      arith,
      total-sort handle_before (λ h. bit (str_eq h.id x)) (hs ++ new ∷ []),
      total-append (λ h. bit (str_eq h.id x)) hs (new ∷ []),
    )
create_or_merge-Got hs new (some h) z e =
    let f = λ (g : NetworkHandle). record g { type = merge_handle_type g.type new.type } in
    let ids = λ (x : String). id_count-update_handle new.id f x hs (λ g. refl) in
    let found = find-some new.id hs h e in
    record {
      there = omega (arith, ids new.id, found);
      counts = omega (arith, total-update_handle new.id f 0 hs (λ g. omega arith) found);
      more = λ x. omega (arith, ids x);
      once = λ x k. omega (arith, ids x);
    }

-- A node that is one end of a connection keeps its handles counted, and has that end's handle.
pub touch_node-IsCounted :
    (proto : String) (port : ℤ) (type : HandleType) (now threshold : ℤ) (n : NetworkNode)
    → IsCounted n
    → IsCounted (touch_node proto port type now threshold n)
      × ((x : String)
          → id_count x n.handles ≤ id_count x (touch_node proto port type now threshold n).handles)
      × (1
          ≤ id_count
              (get_handle_id proto port threshold)
              (touch_node proto port type now threshold n).handles)
unfolding touch_node get_or_create_handle
touch_node-IsCounted proto port type now threshold n v =
    let id = get_handle_id proto port threshold in
    let new =
      new_handle id proto (if is_ephemeral port threshold then threshold else port) type now in
    let o = find (λ h. str_eq h.id id) n.handles in
    let l = create_or_merge n.handles new o in
    let g = create_or_merge-Got n.handles new o refl refl in
    let ids = λ (x : String). id_count-update_handle id (touched_handle now) x l (λ h. refl) in
    (
      record {
        counts = omega (
          arith,
          total-update_handle id (touched_handle now) 1 l (λ h. refl) g.there,
          g.counts,
          v.counts,
        );
        once = λ x. omega (arith, ids x, g.once x (v.once x));
      },
      λ x. omega (arith, ids x, g.more x),
      omega (arith, ids id, g.there),
    )
