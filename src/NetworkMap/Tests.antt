-- ===== src/NetworkMap/Tests.antt =====
-- The network map at concrete events, and its theorems applied to them.
use ig_desktop.Prelude.{◌≡◌, refl, String, none, some, List, [], ◌∷◌, map, arith, map_option, ℕ}
use ig_desktop.Prelude.Int.{ℤ, pos}
use ig_desktop.Js.{Event, num, str, field}
use ig_desktop.NetworkMap.Types.{
  NetworkMapFieldConfig, NetworkGraphState, default_ephemeral_port_threshold,
}
use ig_desktop.NetworkMap.Config.{DatasourceField, field_names, extract_network_map_config}
use ig_desktop.NetworkMap.Config.Origin.{IsExtracted, extract_network_map_config-IsExtracted}
use ig_desktop.NetworkMap.Graph.{process_events, port_at, proto_at}
use ig_desktop.NetworkMap.Ids.{create_empty_graph_state, build_node_id, get_handle_id}
use ig_desktop.NetworkMap.Graph.Counts.{Grows, process_events-Grows}
use ig_desktop.NetworkMap.Graph.WellFormed.{IsWellFormed, process_events-IsWellFormed}
use ig_desktop.NetworkMap.Graph.Direction.{AreMirrored, HasOneLowPort}
use ig_desktop.NetworkMap.Activity.{update_activity_states, graph_state_to_arrays}
use ig_desktop.NetworkMap.Activity.Laws.{GraphAges, update_activity_states-settles}

abbrev config : NetworkMapFieldConfig
config = record {
  src_addr = "src.addr";
  src_port = some "src.port";
  dst_addr = "dst.addr";
  dst_port = some "dst.port";
  proto = some "proto";
  src_key_fields = some ("src.k8s.name" ∷ []);
  dst_key_fields = some ("dst.k8s.name" ∷ []);
  shared_key_fields = none;
}

abbrev packet : String → ℕ → String → ℕ → Event
packet src sport dst dport =
    ("src.addr", str src)
    ∷ ("src.port", num (pos sport))
    ∷ ("dst.addr", str dst)
    ∷ ("dst.port", num (pos dport))
    ∷ []

abbrev client : Event
client = packet "10.0.0.1" 40000 "10.0.0.2" 443

abbrev server : Event
server = packet "10.0.0.2" 443 "10.0.0.1" 40000

abbrev threshold : ℤ
threshold = default_ephemeral_port_threshold

abbrev graph : NetworkGraphState
graph = process_events create_empty_graph_state (client ∷ server ∷ []) config (pos 1000) threshold

one_edge :
    map {B = String × ℕ} (λ e. (e.id, e.count)) (graph_state_to_arrays graph).1
    ≡ ("10.0.0.1:TCP:high->10.0.0.2:TCP:443", 2) ∷ []
unfolding graph_state_to_arrays process_events create_empty_graph_state
one_edge = refl

handle_ids :
    (get_handle_id "TCP" (pos 443) threshold ≡ "TCP:443")
    × (get_handle_id "TCP" (pos 32768) threshold ≡ "TCP:high")
    × (get_handle_id "TCP" (pos 32768) (pos 0) ≡ "TCP:32768")
unfolding get_handle_id
handle_ids = (refl, refl, refl)

empty-IsWellFormed : IsWellFormed create_empty_graph_state
unfolding create_empty_graph_state
empty-IsWellFormed = record { nodes_map = tt; edges_map = tt; nodes = tt; edges = tt }

process_events-IsWellFormed_example : IsWellFormed graph
process_events-IsWellFormed_example =
    process_events-IsWellFormed create_empty_graph_state (client ∷ server ∷ []) config (pos 1000)
      threshold empty-IsWellFormed

process_events-Grows_example :
    Grows config threshold (client ∷ server ∷ []) create_empty_graph_state graph
process_events-Grows_example =
    process_events-Grows create_empty_graph_state (client ∷ server ∷ []) config (pos 1000) threshold

mirrored : AreMirrored config server client
unfolding field port_at proto_at build_node_id
mirrored = record {
  src_addr = refl;
  dst_addr = refl;
  src_port = refl;
  dst_port = refl;
  proto = refl;
  src_id = λ x. refl;
  dst_id = λ x. refl;
  shared_id = λ x. refl;
}

one_low_port : HasOneLowPort config threshold server
unfolding port_at
one_low_port = record {
  low = pos 443;
  high = pos 40000;
  is_low = omega arith;
  is_high = omega arith;
  src = refl;
  dst = refl;
}

update_activity_states-settles_example :
    GraphAges (pos 3000) graph (update_activity_states graph (pos 3000))
    × (update_activity_states (update_activity_states graph (pos 3000)) (pos 3000)
        ≡ update_activity_states graph (pos 3000))
update_activity_states-settles_example = update_activity_states-settles (pos 3000) graph

abbrev fields : List DatasourceField
fields =
    record { full_name = "a"; annotations = ("networkmap.type", "source-addr") ∷ [] }
    ∷ record { full_name = "daddr"; annotations = [] }
    ∷ []

extract_network_map_config-IsExtracted_example :
    IsExtracted (field_names fields) (extract_network_map_config fields)
extract_network_map_config-IsExtracted_example = extract_network_map_config-IsExtracted fields

extracted_addresses :
    map_option {B = String × String}
      (λ c. (c.src_addr, c.dst_addr))
      (extract_network_map_config fields).fields
    ≡ some ("a", "daddr")
unfolding extract_network_map_config
extracted_addresses = refl
