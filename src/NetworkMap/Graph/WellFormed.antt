-- ===== src/NetworkMap/Graph/WellFormed.antt =====
-- The graph stays whole: every edge joins handles that are there, and the counters agree.
use ig_desktop.Prelude.{
  ◌≤◌, ◌≡◌, refl, ap, ◌∙◌, String, Option, none, some, List, [], ◌∷◌, arith, inl, inr, Bool-cases,
  eq_iff, str_eq, if◌then◌else◌,
}
use ig_desktop.Prelude.Int.{ℤ}
use ig_desktop.Prelude.Assoc.{
  lookup, insert, IsMap, insert-IsMap, AllEntries, AllEntries-lookup, AllEntries-insert,
  AllEntries-map, lookup-insert, lookup-insert_self,
}
use ig_desktop.Js.{Event}
use ig_desktop.NetworkMap.Types.{
  HandleType, source, target, NetworkNode, NetworkNodeLabel, NetworkEdge, NetworkMapFieldConfig,
  NetworkGraphState,
}
use ig_desktop.NetworkMap.Graph.{
  End, Connection, read_connection, touch_node, get_or_create_node, get_or_create_edge,
  touched_edge, touch_end, touch_edge, add_connection, process_read, process_event, process_events,
  edge_id_of,
}
use ig_desktop.NetworkMap.Ids.{build_node_id, build_node_labels, get_edge_id, get_handle_id}
use ig_desktop.NetworkMap.Graph.Handles.{IsCounted, id_count, touch_node-IsCounted}

abbrev pub Nodes : Type 0
Nodes = List (String × NetworkNode)

-- The node stands under its id.
pub record IsNode (id : String) (n : NetworkNode) : Type 0 where
  pub own_id : n.id ≡ id
  pub counted : IsCounted n

-- The map has a node with a handle.
abbrev pub HasHandle : Nodes → String → String → Type 0
HasHandle nodes id handle =
    (n : NetworkNode) × (lookup id nodes ≡ some n) × (1 ≤ id_count handle n.handles)

-- The edge stands under the id that its ends give, and both ends are in the graph.
pub record IsEdge (nodes : Nodes) (id : String) (e : NetworkEdge) : Type 0 where
  pub own_id : e.id ≡ id
  pub of_ends : get_edge_id e.source_node e.source_handle e.target_node e.target_handle ≡ id
  pub source_in : HasHandle nodes e.source_node e.source_handle
  pub target_in : HasHandle nodes e.target_node e.target_handle

pub record IsWellFormed (g : NetworkGraphState) : Type 0 where
  pub nodes_map : IsMap g.nodes_map
  pub edges_map : IsMap g.edges_map
  pub nodes : AllEntries IsNode g.nodes_map
  pub edges : AllEntries (IsEdge g.nodes_map) g.edges_map

get_or_create_node-IsNode :
    (nodes : Nodes) (id addr : String) (ls : List NetworkNodeLabel) (now : ℤ)
    (o : Option NetworkNode)
    → lookup id nodes ≡ o
    → AllEntries IsNode nodes
    → IsNode id (get_or_create_node nodes id addr ls now)
unfolding get_or_create_node
get_or_create_node-IsNode nodes id addr ls now none e h =
    rw e record { own_id = refl; counted = record { counts = refl; once = λ x. omega arith } }
get_or_create_node-IsNode nodes id addr ls now (some n) e h =
    rw e (AllEntries-lookup IsNode id n nodes e h)

got_node :
    (nodes : Nodes) (id addr : String) (ls : List NetworkNodeLabel) (now : ℤ) (n : NetworkNode)
    → lookup id nodes ≡ some n
    → get_or_create_node nodes id addr ls now ≡ n
unfolding get_or_create_node
got_node nodes id addr ls now n e = rw e refl

-- What one end of a connection does to the nodes.
record Touched (nodes later : Nodes) (id handle : String) : Type 0 where
  is_map : IsMap later
  all_nodes : AllEntries IsNode later
  there : HasHandle later id handle
  kept : (i x : String) → HasHandle nodes i x → HasHandle later i x

module _ (event : Event) (proto : String) (type : HandleType) (now threshold : ℤ) (e : End)
    (nodes : Nodes) where
  abbrev own : String
  own = build_node_id e.addr e.key_fields event

  abbrev node : NetworkNode
  node = get_or_create_node nodes own e.addr (build_node_labels e.addr e.key_fields event) now

  abbrev later_node : NetworkNode
  later_node = touch_node proto e.port type now threshold node

  kept_at :
      (i x : String)
      → HasHandle nodes i x
      → AllEntries IsNode nodes
      → HasHandle (insert own later_node nodes) i x
  kept_at i x (n, f, k) h = elim (Bool-cases (str_eq own i)) [
    | inl b ↦
        let same : own ≡ i = (eq_iff own i).0 b in
        let found : lookup own nodes ≡ some n = ap (λ j. lookup j nodes) same ∙ f in
        let is_n =
          got_node nodes own e.addr (build_node_labels e.addr e.key_fields event) now n found in
        let v =
          touch_node-IsCounted proto e.port type now threshold node
            (get_or_create_node-IsNode nodes own e.addr _ now (some n) found h).counted in
        (
          later_node,
          lookup-insert own i later_node nodes
              ∙ ap (λ t. if t then some later_node else lookup i nodes) b,
          omega (arith, v.1 x, ap (λ m. id_count x m.handles) is_n),
        )
    | inr b ↦ (
      n,
      lookup-insert own i later_node nodes
          ∙ ap (λ t. if t then some later_node else lookup i nodes) b
          ∙ f,
      k,
    )
  ]

  touch_end-Touched :
      IsMap nodes
      → AllEntries IsNode nodes
      → Touched nodes
          (touch_end event proto type now threshold e nodes)
          own
          (get_handle_id proto e.port threshold)
  unfolding touch_end
  touch_end-Touched m h =
      let is_node =
        get_or_create_node-IsNode nodes own e.addr (build_node_labels e.addr e.key_fields event) now
          (lookup own nodes) refl h in
      let v = touch_node-IsCounted proto e.port type now threshold node is_node.counted in
      record {
        is_map = insert-IsMap own later_node nodes m;
        all_nodes =
            AllEntries-insert IsNode own later_node nodes
              (unfold touch_node in record { own_id = is_node.own_id; counted = v.0 }) h;
        there = (later_node, lookup-insert_self own later_node nodes, v.2);
        kept = λ i x k. kept_at i x k h;
      }

get_or_create_edge-IsEdge :
    (nodes : Nodes) (edges : List (String × NetworkEdge)) (id s sh t th proto : String) (now : ℤ)
    (o : Option NetworkEdge)
    → lookup id edges ≡ o
    → get_edge_id s sh t th ≡ id
    → HasHandle nodes s sh
    → HasHandle nodes t th
    → AllEntries (IsEdge nodes) edges
    → IsEdge nodes id (get_or_create_edge edges id s sh t th proto now)
unfolding get_or_create_edge
get_or_create_edge-IsEdge nodes edges id s sh t th proto now none e i a b h =
    rw e record { own_id = refl; of_ends = i; source_in = a; target_in = b }
get_or_create_edge-IsEdge nodes edges id s sh t th proto now (some x) e i a b h =
    rw e (AllEntries-lookup (IsEdge nodes) id x edges e h)

process_read-IsWellFormed :
    (now threshold : ℤ) (event : Event) (g : NetworkGraphState) (o : Option Connection)
    → IsWellFormed g
    → IsWellFormed (process_read now threshold event g o)
unfolding process_read add_connection touch_edge edge_id_of
process_read-IsWellFormed now threshold event g none w = w
process_read-IsWellFormed now threshold event g (some c) w =
    let sh = get_handle_id c.proto c.from_end.port threshold in
    let th = get_handle_id c.proto c.to_end.port threshold in
    let si = build_node_id c.from_end.addr c.from_end.key_fields event in
    let ti = build_node_id c.to_end.addr c.to_end.key_fields event in
    let id = get_edge_id si sh ti th in
    let mid = touch_end event c.proto source now threshold c.from_end g.nodes_map in
    let later = touch_end event c.proto target now threshold c.to_end mid in
    let a =
      touch_end-Touched event c.proto source now threshold c.from_end g.nodes_map w.nodes_map
        w.nodes in
    let b =
      touch_end-Touched event c.proto target now threshold c.to_end mid a.is_map a.all_nodes in
    let edges : AllEntries (IsEdge later) g.edges_map =
      AllEntries-map (IsEdge g.nodes_map) (IsEdge later) g.edges_map
        (λ i e h. record {
          own_id = h.own_id;
          of_ends = h.of_ends;
          source_in = b.kept _ _ (a.kept _ _ h.source_in);
          target_in = b.kept _ _ (a.kept _ _ h.target_in);
        })
        w.edges in
    let edge = get_or_create_edge g.edges_map id si sh ti th c.proto now in
    let got =
      get_or_create_edge-IsEdge later g.edges_map id si sh ti th c.proto now (lookup id g.edges_map)
        refl refl (b.kept si sh a.there) b.there edges in
    record {
      nodes_map = b.is_map;
      edges_map = insert-IsMap id (touched_edge now edge) g.edges_map w.edges_map;
      nodes = b.all_nodes;
      edges =
          AllEntries-insert (IsEdge later) id (touched_edge now edge) g.edges_map
            (record {
              own_id = got.own_id;
              of_ends = got.of_ends;
              source_in = got.source_in;
              target_in = got.target_in;
            })
            edges;
    }

-- Any events leave a well-formed graph well-formed: nodes and edges stand under their own ids, a
-- node's counter is the sum of those of its handles, no handle id stands twice on a node, and both
-- ends of every edge are handles of nodes of the graph.
pub process_events-IsWellFormed :
    (g : NetworkGraphState) (events : List Event) (config : NetworkMapFieldConfig)
    (now threshold : ℤ)
    → IsWellFormed g
    → IsWellFormed (process_events g events config now threshold)
unfolding process_events process_event
process_events-IsWellFormed g [] config now threshold w = w
process_events-IsWellFormed g (event ∷ events) config now threshold w =
    process_events-IsWellFormed (process_event config now threshold event g) events config now
      threshold
      (process_read-IsWellFormed now threshold event g (read_connection config threshold event) w)
