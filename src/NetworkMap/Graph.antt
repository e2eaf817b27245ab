-- ===== src/NetworkMap/Graph.antt =====
-- `processEvents` of frontend/src/lib/utils/networkMapConfig.ts. An event
-- field has the type that the source asserts of it, text for an address and a number for a port; a
-- value of another type counts as missing. A node or a handle that the source changes in place is
-- written back to its map or list.
pub mod Counts
pub mod Handles
pub mod WellFormed
pub mod Direction
use ig_desktop.Prelude.{
  ℕ, ◌+◌, String, Bool, true, false, ◌&&◌, ◌||◌, not, Option, none, some, List, [], ◌∷◌, ◌++◌,
  if◌then◌else◌, or_default, find, str_eq,
}
use ig_desktop.Prelude.Int.{ℤ, pos, ltb_ℤ, leb_ℤ}
use ig_desktop.Prelude.Assoc.{lookup, insert}
use ig_desktop.Prelude.Sort.{sort}
use ig_desktop.Js.{Event, Value, num, str, field, with_field, text_of}
use ig_desktop.Js.Numerals.{show_ℤ}
use ig_desktop.Js.Text.{join, split, ends_with}
use ig_desktop.NetworkMap.Types.{
  HandleType, source, target, both, NetworkHandle, NetworkNodeLabel, NetworkNode, NetworkEdge,
  NetworkMapFieldConfig, NetworkGraphState,
}
use ig_desktop.NetworkMap.Ids.{
  build_node_id, build_node_labels, create_empty_graph_state, default_port, get_edge_id,
  get_field_short_name, get_handle_id, is_ephemeral, key_values, labels_of, last_part,
  merge_handle_type, port_of, should_reverse_by_port, texts,
}

abbrev pub primary_label : List NetworkNodeLabel → String → String
primary_label [] addr = addr
primary_label (l ∷ ls) addr = l.value

abbrev pub new_node : String → String → List NetworkNodeLabel → ℤ → NetworkNode
new_node id addr labels now = record {
  id = id;
  addr = addr;
  labels = labels;
  label = primary_label labels addr;
  handles = [];
  connection_count = 0;
  is_active = true;
  last_seen = now;
}

unfoldable pub get_or_create_node :
    List (String × NetworkNode) → String → String → List NetworkNodeLabel → ℤ → NetworkNode
unfolding lookup
get_or_create_node nodes id addr labels now =
    or_default (lookup id nodes) (new_node id addr labels now)

abbrev pub new_handle : String → String → ℤ → HandleType → ℤ → NetworkHandle
new_handle id proto port type now = record {
  id = id;
  proto = proto;
  port = port;
  type = type;
  connection_count = 0;
  is_active = true;
  last_seen = now;
}

-- The comparison of the handles: regular ports by number, then the collapsed ones.
unfoldable pub handle_before : NetworkHandle → NetworkHandle → Bool
unfolding ends_with
handle_before a b =
    let a_high = ends_with ":high" a.id in
    let b_high = ends_with ":high" b.id in
    if a_high && not b_high
    then false
    else if not a_high && b_high
    then true
    else ltb_ℤ a.port b.port

-- An assignment to the first handle with this id.
unfoldable pub update_handle :
    String → (NetworkHandle → NetworkHandle) → List NetworkHandle → List NetworkHandle
update_handle id f [] = []
update_handle id f (h ∷ hs) = if str_eq h.id id then f h ∷ hs else h ∷ update_handle id f hs

-- The two branches of `getOrCreateHandle`, by what was found.
unfoldable pub create_or_merge :
    List NetworkHandle → NetworkHandle → Option NetworkHandle → List NetworkHandle
unfolding update_handle merge_handle_type handle_before sort
create_or_merge hs new none = sort handle_before (hs ++ new ∷ [])
create_or_merge hs new (some h) =
    update_handle new.id (λ g. record g { type = merge_handle_type g.type new.type }) hs

-- `getOrCreateHandle`: the handles of the node afterwards. The handle itself is the one with the id.
unfoldable pub get_or_create_handle :
    List NetworkHandle → String → ℤ → HandleType → ℤ → ℤ → List NetworkHandle
unfolding get_handle_id is_ephemeral create_or_merge
get_or_create_handle hs proto port type now threshold =
    let id = get_handle_id proto port threshold in
    let display_port = if is_ephemeral port threshold then threshold else port in
    create_or_merge hs (new_handle id proto display_port type now) (find (λ h. str_eq h.id id) hs)

abbrev pub touched_handle : ℤ → NetworkHandle → NetworkHandle
touched_handle now h = record h {
  connection_count = h.connection_count + 1;
  is_active = true;
  last_seen = now;
}

-- One end of a connection.
pub record End : Type 0 where
  pub addr : String
  pub port : ℤ
  pub key_fields : Option (List String)

-- A connection that was read, from its source to its target.
pub record Connection : Type 0 where
  pub from_end : End
  pub to_end : End
  pub proto : String

-- What the loop does to the node of one end, and to its handle.
unfoldable pub touch_node : String → ℤ → HandleType → ℤ → ℤ → NetworkNode → NetworkNode
unfolding get_or_create_handle update_handle get_handle_id
touch_node proto port type now threshold node = record node {
  handles =
      update_handle (get_handle_id proto port threshold) (touched_handle now)
        (get_or_create_handle node.handles proto port type now threshold);
  connection_count = node.connection_count + 1;
  is_active = true;
  last_seen = now;
}

unfoldable pub touch_end :
    Event
    → String
    → HandleType
    → ℤ
    → ℤ
    → End
    → List (String × NetworkNode)
    → List (String × NetworkNode)
unfolding insert touch_node get_or_create_node build_node_id build_node_labels
touch_end event proto type now threshold e nodes =
    let id = build_node_id e.addr e.key_fields event in
    let labels = build_node_labels e.addr e.key_fields event in
    insert id
      (touch_node proto e.port type now threshold (get_or_create_node nodes id e.addr labels now))
      nodes

unfoldable pub get_or_create_edge :
    List (String × NetworkEdge)
    → String
    → String
    → String
    → String
    → String
    → String
    → ℤ
    → NetworkEdge
unfolding lookup
get_or_create_edge edges id source_id source_handle target_id target_handle proto now =
    or_default (lookup id edges) (record {
      id = id;
      source_node = source_id;
      target_node = target_id;
      source_handle = source_handle;
      target_handle = target_handle;
      count = 0;
      proto = proto;
      last_seen = now;
      is_active = true;
    })

abbrev pub touched_edge : ℤ → NetworkEdge → NetworkEdge
touched_edge now e = record e { count = e.count + 1; last_seen = now; is_active = true }

-- `edgeId` of a connection.
unfoldable pub edge_id_of : Event → ℤ → Connection → String
unfolding get_edge_id build_node_id get_handle_id
edge_id_of event threshold c =
    get_edge_id (build_node_id c.from_end.addr c.from_end.key_fields event)
      (get_handle_id c.proto c.from_end.port threshold)
      (build_node_id c.to_end.addr c.to_end.key_fields event)
      (get_handle_id c.proto c.to_end.port threshold)

unfoldable pub touch_edge :
    Event → ℤ → ℤ → Connection → List (String × NetworkEdge) → List (String × NetworkEdge)
unfolding insert get_or_create_edge edge_id_of build_node_id get_handle_id
touch_edge event now threshold c edges =
    let edge =
      get_or_create_edge edges (edge_id_of event threshold c)
        (build_node_id c.from_end.addr c.from_end.key_fields event)
        (get_handle_id c.proto c.from_end.port threshold)
        (build_node_id c.to_end.addr c.to_end.key_fields event)
        (get_handle_id c.proto c.to_end.port threshold) c.proto now in
    insert (edge_id_of event threshold c) (touched_edge now edge) edges

unfoldable pub is_localhost : String → Bool
is_localhost addr = str_eq addr "127.0.0.1" || str_eq addr "::1" || str_eq addr "localhost"

unfoldable pub orient : Bool → End → End → String → Connection
orient true s d proto = record { from_end = d; to_end = s; proto = proto }
orient false s d proto = record { from_end = s; to_end = d; proto = proto }

unfoldable pub port_at : Option String → Event → Option ℤ
unfolding with_field port_of field
port_at name event = with_field name none (λ n. port_of (field n event))

-- Empty text is a protocol too: `??` replaces a missing one only.
abbrev pub string_of : Value → Option String
string_of (str s) = some s
string_of _ = none

unfoldable pub proto_at : Option String → Event → Option String
unfolding with_field field
proto_at name event = with_field name none (λ n. string_of (field n event))

-- The two ends as the event gives them.
unfoldable pub src_end : NetworkMapFieldConfig → Event → String → Bool → End
unfolding port_at
src_end config event addr is_local = record {
  addr = addr;
  port = default_port (port_at config.src_port event);
  key_fields = if is_local then config.shared_key_fields else config.src_key_fields;
}

unfoldable pub dst_end : NetworkMapFieldConfig → Event → String → Bool → End
unfolding port_at
dst_end config event addr is_local = record {
  addr = addr;
  port = default_port (port_at config.dst_port event);
  key_fields = if is_local then config.shared_key_fields else config.dst_key_fields;
}

-- The ends of an event with both addresses, in the direction that the ports give.
unfoldable pub connection_of : NetworkMapFieldConfig → ℤ → Event → String → String → Connection
unfolding orient src_end dst_end proto_at is_localhost should_reverse_by_port port_at
connection_of config threshold event src_addr dst_addr =
    let is_local = is_localhost src_addr && is_localhost dst_addr in
    let reverse =
      should_reverse_by_port (port_at config.src_port event) (port_at config.dst_port event)
        threshold in
    orient reverse (src_end config event src_addr is_local) (dst_end config event dst_addr is_local)
      (or_default (proto_at config.proto event) "TCP")

unfoldable pub read_ends :
    NetworkMapFieldConfig → ℤ → Event → Option String → Option String → Option Connection
unfolding connection_of
read_ends config threshold event (some src_addr) (some dst_addr) =
    some (connection_of config threshold event src_addr dst_addr)
read_ends config threshold event _ _ = none

unfoldable pub read_connection : NetworkMapFieldConfig → ℤ → Event → Option Connection
unfolding text_of field read_ends
read_connection config threshold event =
    read_ends config threshold event (text_of (field config.src_addr event))
      (text_of (field config.dst_addr event))

-- The rest of the loop's body.
unfoldable pub add_connection : ℤ → ℤ → Event → Connection → NetworkGraphState → NetworkGraphState
unfolding touch_end touch_edge
add_connection now threshold event c g = record {
  nodes_map =
      touch_end event c.proto target now threshold c.to_end
        (touch_end event c.proto source now threshold c.from_end g.nodes_map);
  edges_map = touch_edge event now threshold c g.edges_map;
  version = g.version + 1;
}

-- An event without both addresses is skipped.
unfoldable pub process_read :
    ℤ → ℤ → Event → NetworkGraphState → Option Connection → NetworkGraphState
unfolding add_connection
process_read now threshold event g none = g
process_read now threshold event g (some c) = add_connection now threshold event c g

unfoldable pub process_event :
    NetworkMapFieldConfig → ℤ → ℤ → Event → NetworkGraphState → NetworkGraphState
unfolding read_connection process_read
process_event config now threshold event g =
    process_read now threshold event g (read_connection config threshold event)

-- `processEvents(state, events, config, now, { ephemeralPortThreshold })`.
unfoldable pub process_events :
    NetworkGraphState → List Event → NetworkMapFieldConfig → ℤ → ℤ → NetworkGraphState
unfolding process_event
process_events g [] config now threshold = g
process_events g (event ∷ events) config now threshold =
    process_events (process_event config now threshold event g) events config now threshold
