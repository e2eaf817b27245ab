-- ===== src/NetworkMap/Config.antt =====
-- `extractNetworkMapConfig` of frontend/src/lib/utils/networkMapConfig.ts: which fields of a
-- datasource give the addresses, ports and keys of the map, by annotation or by a known name.
pub mod Origin
use ig_desktop.Prelude.{
  String, Bool, true, false, Option, none, some, List, [], ◌∷◌, ◌++◌, if◌then◌else◌, any, keep, map,
  find, str_eq,
}
use ig_desktop.Prelude.Assoc.{lookup}
use ig_desktop.Js.Text.{lower, includes}
use ig_desktop.NetworkMap.Types.{NetworkMapFieldConfig, NetworkMapConfig}

-- What is read of a field of the datasource; no annotations are an empty list.
pub record DatasourceField : Type 0 where
  pub full_name : String
  pub annotations : List (String × String)

pub record Patterns : Type 0 where
  pub src_addr : List String
  pub src_port : List String
  pub dst_addr : List String
  pub dst_port : List String
  pub proto : List String

abbrev network_map_field_patterns : Patterns
network_map_field_patterns = record {
  src_addr =
      "src.addr" ∷ "srcAddr" ∷ "source.addr" ∷ "src_addr" ∷ "saddr" ∷ "src.ip" ∷ "srcip" ∷ [];
  src_port = "src.port" ∷ "srcPort" ∷ "source.port" ∷ "src_port" ∷ "sport" ∷ [];
  dst_addr = "dst.addr" ∷ "dstAddr" ∷ "dest.addr" ∷ "dst_addr" ∷ "daddr" ∷ "dst.ip" ∷ "dstip" ∷ [];
  dst_port = "dst.port" ∷ "dstPort" ∷ "dest.port" ∷ "dst_port" ∷ "dport" ∷ [];
  proto = "proto" ∷ "protocol" ∷ "l4protocol" ∷ "src.proto" ∷ "dst.proto" ∷ "l4proto" ∷ [];
}

abbrev src_keying_patterns : List String
src_keying_patterns = "src.k8s.namespace" ∷ "src.k8s.name" ∷ "src.k8s.kind" ∷ []

abbrev dst_keying_patterns : List String
dst_keying_patterns = "dst.k8s.namespace" ∷ "dst.k8s.name" ∷ "dst.k8s.kind" ∷ []

abbrev shared_keying_patterns : List String
shared_keying_patterns =
    "k8s.namespace" ∷ "k8s.name" ∷ "k8s.kind" ∷ "k8s.containerName" ∷ "k8s.podName" ∷ []

abbrev pub field_names : List DatasourceField → List String
field_names = map (λ f. f.full_name)

-- `fieldNames.has(pattern)`.
unfoldable pub has_name : List String → String → Bool
has_name names pattern = any (λ n. str_eq n pattern) names

unfoldable pub find_field : List String → List String → Option String
unfolding has_name
find_field names patterns = find (has_name names) patterns

unfoldable pub find_fields : List String → List String → List String
unfolding has_name
find_fields names patterns = keep (has_name names) patterns

-- `field.annotations?.[key] === value`.
unfoldable pub is_annotated : DatasourceField → String → String → Bool
unfolding lookup
is_annotated f key value = elim (lookup key f.annotations) [
  | none ↦ false
  | some v ↦ str_eq v value
]

-- The variables of the first loop.
pub record Detected : Type 0 where
  pub src_addr : Option String
  pub src_port : Option String
  pub dst_addr : Option String
  pub dst_port : Option String
  pub proto : Option String
  pub src_keys : List String
  pub dst_keys : List String

unfoldable pub detect_port : DatasourceField → Detected → Detected
unfolding lower includes
detect_port f d =
    if includes "src" (lower f.full_name)
    then record d { src_port = some f.full_name }
    else if includes "dst" (lower f.full_name)
    then record d { dst_port = some f.full_name }
    else d

unfoldable pub detect_role : DatasourceField → Detected → Detected
unfolding is_annotated detect_port
detect_role f d =
    if is_annotated f "networkmap.type" "source-addr"
    then record d { src_addr = some f.full_name }
    else if is_annotated f "networkmap.type" "dest-addr"
    then record d { dst_addr = some f.full_name }
    else if is_annotated f "networkmap.role" "port"
    then detect_port f d
    else if is_annotated f "networkmap.role" "protocol"
    then record d { proto = some f.full_name }
    else d

unfoldable pub detect_key : DatasourceField → Detected → Detected
unfolding is_annotated
detect_key f d =
    if is_annotated f "networkmap.key" "source"
    then record d { src_keys = d.src_keys ++ f.full_name ∷ [] }
    else if is_annotated f "networkmap.key" "dest"
    then record d { dst_keys = d.dst_keys ++ f.full_name ∷ [] }
    else d

unfoldable pub detect : List DatasourceField → Detected → Detected
unfolding detect_role detect_key
detect [] d = d
detect (f ∷ fs) d = detect fs (detect_key f (detect_role f d))

abbrev pub nothing_detected : Detected
nothing_detected = record {
  src_addr = none;
  src_port = none;
  dst_addr = none;
  dst_port = none;
  proto = none;
  src_keys = [];
  dst_keys = [];
}

-- `if (!x) x = findField(patterns)`: an empty name is replaced too.
unfoldable pub or_found : Option String → List String → List String → Option String
unfolding find_field
or_found none names patterns = find_field names patterns
or_found (some n) names patterns = if str_eq n "" then find_field names patterns else some n

unfoldable pub or_all_found : List String → List String → List String → List String
unfolding find_fields
or_all_found [] names patterns = find_fields names patterns
or_all_found (k ∷ ks) names patterns = k ∷ ks

unfoldable pub shared_keys : List DatasourceField → List String
unfolding is_annotated
shared_keys fs = field_names (keep (λ f. is_annotated f "networkmap.key" "shared") fs)

abbrev unless_empty : List String → Option (List String)
unless_empty [] = none
unless_empty (k ∷ ks) = some (k ∷ ks)

-- The last step: both addresses are required.
unfoldable pub with_addresses :
    Option String → Option String → (String → String → NetworkMapFieldConfig) → NetworkMapConfig
with_addresses (some s) (some d) fields =
    if str_eq s ""
    then record { fields = none; is_valid_network_map = false }
    else if str_eq d ""
    then record { fields = none; is_valid_network_map = false }
    else record { fields = some (fields s d); is_valid_network_map = true }
with_addresses _ _ fields = record { fields = none; is_valid_network_map = false }

unfoldable pub extract_network_map_config : List DatasourceField → NetworkMapConfig
unfolding detect or_found or_all_found shared_keys with_addresses
extract_network_map_config fs =
    let names = field_names fs in
    let d = detect fs nothing_detected in
    let p = network_map_field_patterns in
    with_addresses (or_found d.src_addr names p.src_addr) (or_found d.dst_addr names p.dst_addr)
      (λ s t. record {
        src_addr = s;
        src_port = or_found d.src_port names p.src_port;
        dst_addr = t;
        dst_port = or_found d.dst_port names p.dst_port;
        proto = or_found d.proto names p.proto;
        src_key_fields = unless_empty (or_all_found d.src_keys names src_keying_patterns);
        dst_key_fields = unless_empty (or_all_found d.dst_keys names dst_keying_patterns);
        shared_key_fields =
            unless_empty (or_all_found (shared_keys fs) names shared_keying_patterns);
      })
