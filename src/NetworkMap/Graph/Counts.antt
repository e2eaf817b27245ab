-- ===== src/NetworkMap/Graph/Counts.antt =====
-- The counters of the network map are those of the connections that were read.
use ig_desktop.Prelude.{
  ℕ, ◌+◌, ◌*◌, ◌≡◌, refl, String, Option, none, some, List, [], ◌∷◌, arith, Option-cases, inl, inr,
  bit, is_some, ap, total, str_eq, eq_iff, Bool-cases, if◌then◌else◌,
}
use ig_desktop.Prelude.Int.{ℤ}
use ig_desktop.Prelude.Assoc.{lookup, lookup-insert, weight, weight?, weight-insert}
use ig_desktop.Js.{Event}
use ig_desktop.NetworkMap.Types.{
  HandleType, source, target, NetworkNode, NetworkNodeLabel, NetworkEdge, NetworkMapFieldConfig,
  NetworkGraphState,
}
use ig_desktop.NetworkMap.Graph.{
  End, Connection, read_connection, touch_node, get_or_create_node, get_or_create_edge,
  touched_edge, touch_end, touch_edge, add_connection, process_read, process_event, process_events,
  edge_id_of,
}
use ig_desktop.NetworkMap.Ids.{build_node_id, build_node_labels, get_handle_id}

abbrev pub node_count : NetworkNode → ℕ
node_count n = n.connection_count

abbrev pub edge_count : NetworkEdge → ℕ
edge_count e = e.count

-- The events of a list that are connections: those with both addresses.
unfoldable pub connections_in : NetworkMapFieldConfig → ℤ → List Event → ℕ
connections_in config threshold [] = 0
connections_in config threshold (event ∷ events) =
    bit (is_some (read_connection config threshold event)) + connections_in config threshold events

get_or_create_node-count :
    (nodes : List (String × NetworkNode)) (id addr : String) (ls : List NetworkNodeLabel) (now : ℤ)
    → node_count (get_or_create_node nodes id addr ls now) ≡ weight? node_count (lookup id nodes)
unfolding get_or_create_node
get_or_create_node-count nodes id addr ls now = elim (Option-cases (lookup id nodes)) [
  | inl e ↦ rw e refl
  | inr (n, e) ↦ rw e refl
]

weight-touch_end :
    (event : Event) (proto : String) (type : HandleType) (now threshold : ℤ) (e : End)
    (nodes : List (String × NetworkNode))
    → weight node_count (touch_end event proto type now threshold e nodes)
      ≡ weight node_count nodes + 1
unfolding touch_end touch_node
weight-touch_end event proto type now threshold e nodes =
    let id = build_node_id e.addr e.key_fields event in
    let labels = build_node_labels e.addr e.key_fields event in
    let node = get_or_create_node nodes id e.addr labels now in
    omega (
      arith,
      weight-insert node_count id (touch_node proto e.port type now threshold node) nodes,
      get_or_create_node-count nodes id e.addr labels now,
    )

get_or_create_edge-count :
    (edges : List (String × NetworkEdge)) (id s sh t th proto : String) (now : ℤ)
    → edge_count (get_or_create_edge edges id s sh t th proto now)
      ≡ weight? edge_count (lookup id edges)
unfolding get_or_create_edge
get_or_create_edge-count edges id s sh t th proto now = elim (Option-cases (lookup id edges)) [
  | inl e ↦ rw e refl
  | inr (n, e) ↦ rw e refl
]

weight-touch_edge :
    (event : Event) (now threshold : ℤ) (c : Connection) (edges : List (String × NetworkEdge))
    → weight edge_count (touch_edge event now threshold c edges) ≡ weight edge_count edges + 1
unfolding touch_edge
weight-touch_edge event now threshold c edges =
    let si = build_node_id c.from_end.addr c.from_end.key_fields event in
    let sh = get_handle_id c.proto c.from_end.port threshold in
    let ti = build_node_id c.to_end.addr c.to_end.key_fields event in
    let th = get_handle_id c.proto c.to_end.port threshold in
    let id = edge_id_of event threshold c in
    let edge = get_or_create_edge edges id si sh ti th c.proto now in
    omega (
      arith,
      weight-insert edge_count id (touched_edge now edge) edges,
      get_or_create_edge-count edges id si sh ti th c.proto now,
    )

-- The counter of the entry with an id, 0 where there is none.
abbrev pub count_of_node : String → NetworkGraphState → ℕ
count_of_node id g = weight? node_count (lookup id g.nodes_map)

abbrev pub count_of_edge : String → NetworkGraphState → ℕ
count_of_edge id g = weight? edge_count (lookup id g.edges_map)

-- How many of the two ends of a connection are at a node, and whether it is of an edge.
abbrev pub ends_at : String → Event → Option Connection → ℕ
ends_at id event none = 0
ends_at id event (some c) =
    bit (str_eq (build_node_id c.from_end.addr c.from_end.key_fields event) id)
    + bit (str_eq (build_node_id c.to_end.addr c.to_end.key_fields event) id)

abbrev pub is_on : String → ℤ → Event → Option Connection → ℕ
is_on id threshold event none = 0
is_on id threshold event (some c) = bit (str_eq (edge_id_of event threshold c) id)

lookup-touch_end :
    (event : Event) (proto : String) (type : HandleType) (now threshold : ℤ) (e : End)
    (nodes : List (String × NetworkNode)) (id : String)
    → weight? node_count (lookup id (touch_end event proto type now threshold e nodes))
      ≡ weight? node_count (lookup id nodes)
        + bit (str_eq (build_node_id e.addr e.key_fields event) id)
unfolding touch_end touch_node
lookup-touch_end event proto type now threshold e nodes id =
    let own = build_node_id e.addr e.key_fields event in
    let labels = build_node_labels e.addr e.key_fields event in
    let node = get_or_create_node nodes own e.addr labels now in
    let touched = touch_node proto e.port type now threshold node in
    elim (Bool-cases (str_eq own id)) [
      | inl b ↦ omega (
        arith,
        ap (weight? node_count) (lookup-insert own id touched nodes),
        ap (λ t. weight? node_count (if t then some touched else lookup id nodes)) b,
        ap bit b,
        get_or_create_node-count nodes own e.addr labels now,
        ap (λ i. weight? node_count (lookup i nodes)) ((eq_iff own id).0 b),
      )
      | inr b ↦ omega (
        arith,
        ap (weight? node_count) (lookup-insert own id touched nodes),
        ap (λ t. weight? node_count (if t then some touched else lookup id nodes)) b,
        ap bit b,
      )
    ]

lookup-touch_edge :
    (event : Event) (now threshold : ℤ) (c : Connection) (edges : List (String × NetworkEdge))
    (id : String)
    → weight? edge_count (lookup id (touch_edge event now threshold c edges))
      ≡ weight? edge_count (lookup id edges) + bit (str_eq (edge_id_of event threshold c) id)
unfolding touch_edge
lookup-touch_edge event now threshold c edges id =
    let si = build_node_id c.from_end.addr c.from_end.key_fields event in
    let sh = get_handle_id c.proto c.from_end.port threshold in
    let ti = build_node_id c.to_end.addr c.to_end.key_fields event in
    let th = get_handle_id c.proto c.to_end.port threshold in
    let own = edge_id_of event threshold c in
    let touched = touched_edge now (get_or_create_edge edges own si sh ti th c.proto now) in
    elim (Bool-cases (str_eq own id)) [
      | inl b ↦ omega (
        arith,
        ap (weight? edge_count) (lookup-insert own id touched edges),
        ap (λ t. weight? edge_count (if t then some touched else lookup id edges)) b,
        ap bit b,
        get_or_create_edge-count edges own si sh ti th c.proto now,
        ap (λ i. weight? edge_count (lookup i edges)) ((eq_iff own id).0 b),
      )
      | inr b ↦ omega (
        arith,
        ap (weight? edge_count) (lookup-insert own id touched edges),
        ap (λ t. weight? edge_count (if t then some touched else lookup id edges)) b,
        ap bit b,
      )
    ]

-- The sum over the events of what each counts for as it is read.
abbrev pub sum_read : (Event → Option Connection → ℕ) → NetworkMapFieldConfig → ℤ → List Event → ℕ
sum_read f config threshold events =
    total (λ event. f event (read_connection config threshold event)) events

-- What events add to a graph: at each node their ends there, at each edge their connections.
pub record Grows (config : NetworkMapFieldConfig) (threshold : ℤ) (events : List Event)
    (g h : NetworkGraphState) : Type 0 where
  pub at_node :
      (id : String)
      → count_of_node id h ≡ count_of_node id g + sum_read (ends_at id) config threshold events
  pub at_edge :
      (id : String)
      → count_of_edge id h
        ≡ count_of_edge id g + sum_read (is_on id threshold) config threshold events
  pub nodes :
      weight node_count h.nodes_map
      ≡ weight node_count g.nodes_map + 2 * connections_in config threshold events
  pub edges :
      weight edge_count h.edges_map
      ≡ weight edge_count g.edges_map + connections_in config threshold events
  pub version : h.version ≡ g.version + connections_in config threshold events

process_read-Grows :
    (config : NetworkMapFieldConfig) (now threshold : ℤ) (event : Event) (g : NetworkGraphState)
    (o : Option Connection)
    → read_connection config threshold event ≡ o
    → Grows config threshold (event ∷ []) g (process_read now threshold event g o)
unfolding process_read add_connection connections_in
process_read-Grows config now threshold event g none e = record {
  at_node = λ id. omega (arith, ap (ends_at id event) e);
  at_edge = λ id. omega (arith, ap (is_on id threshold event) e);
  nodes = omega (arith, ap (λ o. bit (is_some o)) e);
  edges = omega (arith, ap (λ o. bit (is_some o)) e);
  version = omega (arith, ap (λ o. bit (is_some o)) e);
}
process_read-Grows config now threshold event g (some c) e =
    let first = touch_end event c.proto source now threshold c.from_end g.nodes_map in
    let one = ap (λ o. bit (is_some o)) e in
    record {
      at_node = λ id. omega (
        arith,
        ap (ends_at id event) e,
        lookup-touch_end event c.proto source now threshold c.from_end g.nodes_map id,
        lookup-touch_end event c.proto target now threshold c.to_end first id,
      );
      at_edge = λ id. omega (
        arith,
        ap (is_on id threshold event) e,
        lookup-touch_edge event now threshold c g.edges_map id,
      );
      nodes = omega (
        arith,
        one,
        weight-touch_end event c.proto source now threshold c.from_end g.nodes_map,
        weight-touch_end event c.proto target now threshold c.to_end first,
      );
      edges = omega (arith, one, weight-touch_edge event now threshold c g.edges_map);
      version = omega (arith, one);
    }

-- Every event with both addresses counts once at the node of its source, once at that of its target and
-- once at its edge, in the direction that its ports give, and raises the version by one; other events
-- count nowhere. This is said of the counter of each node and each edge, and of their sums.
pub process_events-Grows :
    (g : NetworkGraphState) (events : List Event) (config : NetworkMapFieldConfig)
    (now threshold : ℤ)
    → Grows config threshold events g (process_events g events config now threshold)
unfolding process_events process_event connections_in
process_events-Grows g [] config now threshold = record {
  at_node = λ id. omega arith;
  at_edge = λ id. omega arith;
  nodes = omega arith;
  edges = omega arith;
  version = omega arith;
}
process_events-Grows g (event ∷ events) config now threshold =
    let h = process_event config now threshold event g in
    let o = read_connection config threshold event in
    let a = process_read-Grows config now threshold event g o refl in
    let b = process_events-Grows h events config now threshold in
    record {
      at_node = λ id. omega (arith, a.at_node id, b.at_node id);
      at_edge = λ id. omega (arith, a.at_edge id, b.at_edge id);
      nodes = omega (arith, a.nodes, b.nodes);
      edges = omega (arith, a.edges, b.edges);
      version = omega (arith, a.version, b.version);
    }
