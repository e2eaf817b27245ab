-- ===== src/NetworkMap/Ids.antt =====
-- The ids and labels of the network map, and the direction of a connection: helpers of `processEvents`
-- in frontend/src/lib/utils/networkMapConfig.ts, and portDirection.ts.
use ig_desktop.Prelude.{
  String, Bool, false, ◌&&◌, Option, none, some, List, [], ◌∷◌, ◌++◌, if◌then◌else◌, or_default,
}
use ig_desktop.Prelude.Int.{ℤ, pos, ltb_ℤ, leb_ℤ}
use ig_desktop.Js.{Event, Value, num, field, text_of}
use ig_desktop.Js.Numerals.{show_ℤ}
use ig_desktop.Js.Text.{join, split}
use ig_desktop.NetworkMap.Types.{
  HandleType, source, target, both, NetworkNodeLabel, NetworkGraphState,
}

abbrev pub default_port : Option ℤ → ℤ
default_port = λ p. or_default p (pos 0)

unfoldable pub should_reverse_by_port : Option ℤ → Option ℤ → ℤ → Bool
should_reverse_by_port (some s) (some d) threshold =
    ltb_ℤ (pos 0) threshold && ltb_ℤ s threshold && leb_ℤ threshold d
should_reverse_by_port _ _ threshold = false

unfoldable pub merge_handle_type : HandleType → HandleType → HandleType
merge_handle_type both next = both
merge_handle_type source source = source
merge_handle_type target target = target
merge_handle_type _ _ = both

unfoldable pub is_ephemeral : ℤ → ℤ → Bool
is_ephemeral port threshold = ltb_ℤ (pos 0) threshold && leb_ℤ threshold port

unfoldable pub get_handle_id : String → ℤ → ℤ → String
unfolding is_ephemeral show_ℤ join
get_handle_id proto port threshold =
    join ":" (proto ∷ (if is_ephemeral port threshold then "high" else show_ℤ port) ∷ [])

unfoldable pub get_edge_id : String → String → String → String → String
unfolding join
get_edge_id source_id source_handle target_id target_handle =
    join "" (source_id ∷ ":" ∷ source_handle ∷ "->" ∷ target_id ∷ ":" ∷ target_handle ∷ [])

unfoldable pub create_empty_graph_state : NetworkGraphState
create_empty_graph_state = record { nodes_map = []; edges_map = []; version = 0 }

unfoldable pub port_of : Value → Option ℤ
port_of (num n) = some n
port_of _ = none

-- The key fields that the event has, with their values.
unfoldable pub key_values : List String → Event → List (String × String)
unfolding text_of field
key_values [] event = []
key_values (name ∷ names) event =
    let rest = key_values names event in
    elim (text_of (field name event)) [ none ↦ rest | some value ↦ (name, value) ∷ rest ]

abbrev pub texts : List (String × String) → List String
texts [] = []
texts ((name, value) ∷ kvs) = value ∷ texts kvs

unfoldable pub build_node_id : String → Option (List String) → Event → String
unfolding key_values join
build_node_id addr none event = addr
build_node_id addr (some []) event = addr
build_node_id addr (some (k ∷ ks)) event = join "|" (texts (key_values (k ∷ ks) event) ++ addr ∷ [])

unfoldable pub last_part : List String → String
last_part [] = ""
last_part (p ∷ []) = p
last_part (p ∷ q ∷ ps) = last_part (q ∷ ps)

unfoldable pub get_field_short_name : String → String
unfolding last_part split
get_field_short_name name = last_part (split b'.' name)

unfoldable pub labels_of : String → List (String × String) → List NetworkNodeLabel
unfolding get_field_short_name
labels_of addr [] = record { field = "addr"; value = addr } ∷ []
labels_of addr ((name, value) ∷ kvs) =
    record { field = get_field_short_name name; value = value } ∷ labels_of addr kvs

unfoldable pub build_node_labels : String → Option (List String) → Event → List NetworkNodeLabel
unfolding labels_of key_values
build_node_labels addr key_fields event =
    labels_of addr (key_values (or_default key_fields []) event)
