-- ===== src/NetworkMap/Activity/Laws.antt =====
-- What an activity update leaves, and what a second one at the same time does.
use mathlib.Core.Bool.{true≢false}
use mathlib.Core.Path.{subst}
use ig_desktop.Prelude.{
  ◌≡◌, refl, ap, sym, ◌↔◌, String, Bool, true, false, ◌||◌, List, [], ◌∷◌, Bool-cases, inl, inr,
  arith,
}
use ig_desktop.Prelude.Int.{ℤ, pos, ◌≤ℤ◌, ◌+ℤ◌, -ℤ_parts, +ℤ_parts}
use ig_desktop.NetworkMap.Types.{
  NetworkHandle, NetworkNode, NetworkEdge, NetworkGraphState, edge_animation_duration,
  node_activity_timeout,
}
use ig_desktop.NetworkMap.Activity.{
  is_stale, handle_is_stale, node_is_stale, edge_is_stale, update_handles, update_node,
  update_nodes, update_edges, update_activity_states,
}
use ig_desktop.NetworkMap.Activity.Settled.{
  or-false, settled_handles, handles_unchanged, settled_nodes, nodes_unchanged, settled_edges,
  edges_unchanged, settles, settled,
}

-- A relation between the entries of two lists in the same places.
abbrev pub Pairwise : {A : Type 0} → (A → A → Type 0) → List A → List A → Type 0
Pairwise R [] [] = Unit
Pairwise R [] (y ∷ ys) = ⊥
Pairwise R (x ∷ xs) [] = ⊥
Pairwise R (x ∷ xs) (y ∷ ys) = R x y × Pairwise R xs ys

module _ (now : ℤ) where
  -- What was active stays so exactly while the limit has not passed since it was seen.
  abbrev pub Ages : ℤ → Bool → ℤ → Bool → Type 0
  Ages limit before seen after = (after ≡ true) ↔ ((before ≡ true) × (now ≤ℤ seen +ℤ limit))

  abbrev pub HandleAges : NetworkHandle → NetworkHandle → Type 0
  HandleAges h k =
      (k ≡ record h { is_active = k.is_active })
      × Ages (pos 1500) h.is_active h.last_seen k.is_active

  abbrev pub NodeAges : NetworkNode → NetworkNode → Type 0
  NodeAges n m =
      (m ≡ record n { is_active = m.is_active; handles = m.handles })
      × (Ages (pos 5000) n.is_active n.last_seen m.is_active
          × Pairwise HandleAges n.handles m.handles)

  abbrev pub EdgeAges : NetworkEdge → NetworkEdge → Type 0
  EdgeAges e d =
      (d ≡ record e { is_active = d.is_active })
      × Ages (pos 1500) e.is_active e.last_seen d.is_active

  -- Each node with its handles and each edge, under its id and in its place; nothing is added or lost.
  pub record GraphAges (g h : NetworkGraphState) : Type 0 where
    pub nodes : Pairwise (λ p q. (q.0 ≡ p.0) × NodeAges (p.1) (q.1)) g.nodes_map h.nodes_map
    pub edges : Pairwise (λ p q. (q.0 ≡ p.0) × EdgeAges (p.1) (q.1)) g.edges_map h.edges_map
    pub version : h.version ≡ g.version

  stale-Ages :
      (limit seen : ℤ) (active : Bool)
      → is_stale active now seen limit ≡ true
      → Ages limit active seen false
  unfolding is_stale
  stale-Ages limit seen true h = ground (arith, -ℤ_parts now seen, +ℤ_parts seen limit)
  stale-Ages limit seen false h = absurd (true≢false (sym h))

  fresh-Ages :
      (limit seen : ℤ) (active : Bool)
      → is_stale active now seen limit ≡ false
      → Ages limit active seen active
  unfolding is_stale
  fresh-Ages limit seen true h = ground (arith, -ℤ_parts now seen, +ℤ_parts seen limit)
  fresh-Ages limit seen false h = ((λ e. absurd (true≢false (sym e))), λ e. e.0)

  update_handles-Ages : (hs : List NetworkHandle) → Pairwise HandleAges hs (update_handles now hs).0
  unfolding update_handles
  update_handles-Ages [] = tt
  update_handles-Ages (h ∷ hs) = elim (Bool-cases (handle_is_stale now h)) [
    | inl b ↦ rw b (
      (refl, stale-Ages edge_animation_duration h.last_seen h.is_active b),
      update_handles-Ages hs,
    )
    | inr b ↦ rw b (
      (refl, fresh-Ages edge_animation_duration h.last_seen h.is_active b),
      update_handles-Ages hs,
    )
  ]

  update_node-Ages : (n : NetworkNode) → NodeAges n (update_node now n).0
  unfolding update_node
  update_node-Ages n = elim (Bool-cases (node_is_stale now n)) [
    | inl b ↦ rw b (
      refl,
      (stale-Ages node_activity_timeout n.last_seen n.is_active b, update_handles-Ages n.handles),
    )
    | inr b ↦
        let fresh = fresh-Ages node_activity_timeout n.last_seen n.is_active b in
        elim (Bool-cases (update_handles now n.handles).1) [
          | inl c ↦ rw (b, c) (refl, (fresh, update_handles-Ages n.handles))
          | inr c ↦
              let same =
                ap (λ t. t.0) (settled_handles now n.handles (handles_unchanged now n.handles c)) in
              rw (b, c)
                (
                  refl,
                  (
                    fresh,
                    subst (Pairwise HandleAges n.handles) same (update_handles-Ages n.handles),
                  ),
                )
        ]
  ]

  update_nodes-Ages :
      (m : List (String × NetworkNode))
      → Pairwise (λ p q. (q.0 ≡ p.0) × NodeAges (p.1) (q.1)) m (update_nodes now m).0
  unfolding update_nodes
  update_nodes-Ages [] = tt
  update_nodes-Ages ((id, n) ∷ m) = ((refl, update_node-Ages n), update_nodes-Ages m)

  update_edges-Ages :
      (m : List (String × NetworkEdge))
      → Pairwise (λ p q. (q.0 ≡ p.0) × EdgeAges (p.1) (q.1)) m (update_edges now m).0
  unfolding update_edges
  update_edges-Ages [] = tt
  update_edges-Ages ((id, e) ∷ m) = elim (Bool-cases (edge_is_stale now e)) [
    | inl b ↦ rw b (
      (refl, (refl, stale-Ages edge_animation_duration e.last_seen e.is_active b)),
      update_edges-Ages m,
    )
    | inr b ↦ rw b (
      (refl, (refl, fresh-Ages edge_animation_duration e.last_seen e.is_active b)),
      update_edges-Ages m,
    )
  ]

  update-Ages : (g : NetworkGraphState) → GraphAges g (update_activity_states g now)
  unfolding update_activity_states
  update-Ages g =
      let changed = (update_nodes now g.nodes_map).1 || (update_edges now g.edges_map).1 in
      elim (Bool-cases changed) [
        | inl b ↦ rw b (record {
          nodes = update_nodes-Ages g.nodes_map;
          edges = update_edges-Ages g.edges_map;
          version = refl;
        })
        | inr b ↦
            let (n, e) =
              or-false (update_nodes now g.nodes_map).1 (update_edges now g.edges_map).1 b in
            rw b (record {
              nodes =
                  subst (Pairwise (λ p q. (q.0 ≡ p.0) × NodeAges (p.1) (q.1)) g.nodes_map)
                    (ap (λ t. t.0)
                      (settled_nodes now g.nodes_map (nodes_unchanged now g.nodes_map n)))
                    (update_nodes-Ages g.nodes_map);
              edges =
                  subst (Pairwise (λ p q. (q.0 ≡ p.0) × EdgeAges (p.1) (q.1)) g.edges_map)
                    (ap (λ t. t.0)
                      (settled_edges now g.edges_map (edges_unchanged now g.edges_map e)))
                    (update_edges-Ages g.edges_map);
              version = refl;
            })
      ]

  -- After an update a node is active exactly if it was and was last seen at most 5000 ms before, and a
  -- handle or an edge exactly if it was and was last seen at most 1500 ms before; all else of them is as
  -- it was. A second update at the same time changes nothing.
  pub update_activity_states-settles :
      (g : NetworkGraphState)
      → GraphAges g (update_activity_states g now)
        × (update_activity_states (update_activity_states g now) now ≡ update_activity_states g now)
  update_activity_states-settles g =
      (update-Ages g, settled now (update_activity_states g now) (settles now g))
