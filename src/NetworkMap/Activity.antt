-- ===== src/NetworkMap/Activity.antt =====
-- `updateActivityStates` and `graphStateToArrays` of frontend/src/lib/utils/networkMapConfig.ts: what
-- was not seen for a while goes inactive.
mod Settled
pub mod Laws
use ig_desktop.Prelude.{String, Bool, true, false, ◌&&◌, ◌||◌, List, [], ◌∷◌, if◌then◌else◌}
use ig_desktop.Prelude.Int.{ℤ, ltb_ℤ, ◌-ℤ◌}
use ig_desktop.Prelude.Assoc.{values}
use ig_desktop.NetworkMap.Types.{
  NetworkHandle, NetworkNode, NetworkEdge, NetworkGraphState, edge_animation_duration,
  node_activity_timeout,
}

unfoldable pub is_stale : Bool → ℤ → ℤ → ℤ → Bool
is_stale is_active now last_seen duration = is_active && ltb_ℤ duration (now -ℤ last_seen)

abbrev pub handle_is_stale : ℤ → NetworkHandle → Bool
handle_is_stale now h = is_stale h.is_active now h.last_seen edge_animation_duration

abbrev pub node_is_stale : ℤ → NetworkNode → Bool
node_is_stale now n = is_stale n.is_active now n.last_seen node_activity_timeout

abbrev pub edge_is_stale : ℤ → NetworkEdge → Bool
edge_is_stale now e = is_stale e.is_active now e.last_seen edge_animation_duration

-- `updatedHandles`, and `nodeChanged`.
unfoldable pub update_handles : ℤ → List NetworkHandle → List NetworkHandle × Bool
unfolding is_stale
update_handles now [] = ([], false)
update_handles now (h ∷ hs) =
    let (rest, changed) = update_handles now hs in
    if handle_is_stale now h
    then (record h { is_active = false } ∷ rest, true)
    else (h ∷ rest, changed)

unfoldable pub update_node : ℤ → NetworkNode → NetworkNode × Bool
unfolding is_stale update_handles
update_node now n =
    let (handles, changed) = update_handles now n.handles in
    if node_is_stale now n
    then (record n { is_active = false; handles = handles }, true)
    else if changed
    then (record n { handles = handles }, true)
    else (n, false)

unfoldable pub update_nodes : ℤ → List (String × NetworkNode) → List (String × NetworkNode) × Bool
unfolding update_node
update_nodes now [] = ([], false)
update_nodes now ((id, n) ∷ nodes) =
    let (n', node_changed) = update_node now n in
    let (rest, changed) = update_nodes now nodes in ((id, n') ∷ rest, node_changed || changed)

unfoldable pub update_edges : ℤ → List (String × NetworkEdge) → List (String × NetworkEdge) × Bool
unfolding is_stale
update_edges now [] = ([], false)
update_edges now ((id, e) ∷ edges) =
    let (rest, changed) = update_edges now edges in
    if edge_is_stale now e
    then ((id, record e { is_active = false }) ∷ rest, true)
    else ((id, e) ∷ rest, changed)

unfoldable pub update_activity_states : NetworkGraphState → ℤ → NetworkGraphState
unfolding update_nodes update_edges
update_activity_states g now =
    let (nodes, nodes_changed) = update_nodes now g.nodes_map in
    let (edges, edges_changed) = update_edges now g.edges_map in
    if nodes_changed || edges_changed
    then record { nodes_map = nodes; edges_map = edges; version = g.version }
    else g

unfoldable pub graph_state_to_arrays : NetworkGraphState → List NetworkNode × List NetworkEdge
unfolding values
graph_state_to_arrays g = (values g.nodes_map, values g.edges_map)
