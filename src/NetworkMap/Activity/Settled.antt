-- ===== src/NetworkMap/Activity/Settled.antt =====
-- A graph in which nothing is stale: what an activity update leaves, and what it does not change.
use ig_desktop.Prelude.{
  ◌≡◌, refl, String, Bool, true, false, ◌||◌, List, [], ◌∷◌, All, Bool-cases, inl, inr,
}
use mathlib.Core.Bool.{true≢false}
use ig_desktop.Prelude.Int.{ℤ}
use ig_desktop.Prelude.Assoc.{AllEntries}
use ig_desktop.NetworkMap.Types.{NetworkHandle, NetworkNode, NetworkEdge, NetworkGraphState}
use ig_desktop.NetworkMap.Activity.{
  handle_is_stale, node_is_stale, edge_is_stale, update_handles, update_node, update_nodes,
  update_edges, update_activity_states,
}

pub or-false : (a b : Bool) → (a || b) ≡ false → (a ≡ false) × (b ≡ false)
or-false true b e = absurd (true≢false e)
or-false false b e = (refl, e)

module _ (now : ℤ) where
  abbrev pub IsHandleSettled : NetworkHandle → Type 0
  IsHandleSettled h = handle_is_stale now h ≡ false

  pub record IsNodeSettled (id : String) (n : NetworkNode) : Type 0 where
    pub own : node_is_stale now n ≡ false
    pub handles : All IsHandleSettled n.handles

  abbrev pub IsEdgeSettled : String → NetworkEdge → Type 0
  IsEdgeSettled id e = edge_is_stale now e ≡ false

  pub record IsSettled (g : NetworkGraphState) : Type 0 where
    pub nodes : AllEntries IsNodeSettled g.nodes_map
    pub edges : AllEntries IsEdgeSettled g.edges_map

  handles_settle : (hs : List NetworkHandle) → All IsHandleSettled (update_handles now hs).0
  unfolding update_handles
  handles_settle [] = tt
  handles_settle (h ∷ hs) = elim (Bool-cases (handle_is_stale now h)) [
    | inl b ↦ rw b (refl, handles_settle hs)
    | inr b ↦ rw b (b, handles_settle hs)
  ]

  pub settled_handles :
      (hs : List NetworkHandle) → All IsHandleSettled hs → update_handles now hs ≡ (hs, false)
  unfolding update_handles
  settled_handles [] t = refl
  settled_handles (h ∷ hs) (p, t) = simp (p, settled_handles hs t)

  pub handles_unchanged :
      (hs : List NetworkHandle) → (update_handles now hs).1 ≡ false → All IsHandleSettled hs
  unfolding update_handles
  handles_unchanged [] e = tt
  handles_unchanged (h ∷ hs) e = elim (Bool-cases (handle_is_stale now h)) [
    | inl b ↦ absurd (true≢false (rw b at e))
    | inr b ↦ (b, handles_unchanged hs (rw b at e))
  ]

  node_settles : (id : String) (n : NetworkNode) → IsNodeSettled id (update_node now n).0
  unfolding update_node
  node_settles id n = elim (Bool-cases (node_is_stale now n)) [
    | inl b ↦ rw b (record { own = refl; handles = handles_settle n.handles })
    | inr b ↦ elim (Bool-cases (update_handles now n.handles).1) [
      | inl c ↦ rw (b, c) (record { own = b; handles = handles_settle n.handles })
      | inr c ↦ rw (b, c) (record { own = b; handles = handles_unchanged n.handles c })
    ]
  ]

  settled_node :
      (id : String) (n : NetworkNode) → IsNodeSettled id n → update_node now n ≡ (n, false)
  unfolding update_node
  settled_node id n s = simp (s.own, settled_handles n.handles s.handles)

  node_unchanged :
      (id : String) (n : NetworkNode) → (update_node now n).1 ≡ false → IsNodeSettled id n
  unfolding update_node
  node_unchanged id n e = elim (Bool-cases (node_is_stale now n)) [
    | inl b ↦ absurd (true≢false (rw b at e))
    | inr b ↦ elim (Bool-cases (update_handles now n.handles).1) [
      | inl c ↦ absurd (true≢false (rw (b, c) at e))
      | inr c ↦ record { own = b; handles = handles_unchanged n.handles c }
    ]
  ]

  nodes_settle : (m : List (String × NetworkNode)) → AllEntries IsNodeSettled (update_nodes now m).0
  unfolding update_nodes
  nodes_settle [] = tt
  nodes_settle ((id, n) ∷ m) = (node_settles id n, nodes_settle m)

  pub settled_nodes :
      (m : List (String × NetworkNode))
      → AllEntries IsNodeSettled m
      → update_nodes now m ≡ (m, false)
  unfolding update_nodes
  settled_nodes [] t = refl
  settled_nodes ((id, n) ∷ m) (s, t) = simp (settled_node id n s, settled_nodes m t)

  pub nodes_unchanged :
      (m : List (String × NetworkNode))
      → (update_nodes now m).1 ≡ false
      → AllEntries IsNodeSettled m
  unfolding update_nodes
  nodes_unchanged [] e = tt
  nodes_unchanged ((id, n) ∷ m) e =
      let (a, b) = or-false (update_node now n).1 (update_nodes now m).1 e in
      (node_unchanged id n a, nodes_unchanged m b)

  edges_settle : (m : List (String × NetworkEdge)) → AllEntries IsEdgeSettled (update_edges now m).0
  unfolding update_edges
  edges_settle [] = tt
  edges_settle ((id, e) ∷ m) = elim (Bool-cases (edge_is_stale now e)) [
    | inl b ↦ rw b (refl, edges_settle m)
    | inr b ↦ rw b (b, edges_settle m)
  ]

  pub settled_edges :
      (m : List (String × NetworkEdge))
      → AllEntries IsEdgeSettled m
      → update_edges now m ≡ (m, false)
  unfolding update_edges
  settled_edges [] t = refl
  settled_edges ((id, e) ∷ m) (s, t) = simp (s, settled_edges m t)

  pub edges_unchanged :
      (m : List (String × NetworkEdge))
      → (update_edges now m).1 ≡ false
      → AllEntries IsEdgeSettled m
  unfolding update_edges
  edges_unchanged [] h = tt
  edges_unchanged ((id, e) ∷ m) h = elim (Bool-cases (edge_is_stale now e)) [
    | inl b ↦ absurd (true≢false (rw b at h))
    | inr b ↦ (b, edges_unchanged m (rw b at h))
  ]

  pub settles : (g : NetworkGraphState) → IsSettled (update_activity_states g now)
  unfolding update_activity_states
  settles g =
      let changed = (update_nodes now g.nodes_map).1 || (update_edges now g.edges_map).1 in
      elim (Bool-cases changed) [
        | inl b ↦
            rw b (record { nodes = nodes_settle g.nodes_map; edges = edges_settle g.edges_map })
        | inr b ↦
            let (n, e) =
              or-false (update_nodes now g.nodes_map).1 (update_edges now g.edges_map).1 b in
            rw b (record {
              nodes = nodes_unchanged g.nodes_map n;
              edges = edges_unchanged g.edges_map e;
            })
      ]

  pub settled : (g : NetworkGraphState) → IsSettled g → update_activity_states g now ≡ g
  unfolding update_activity_states
  settled g s = simp (settled_nodes g.nodes_map s.nodes, settled_edges g.edges_map s.edges)
