-- ===== src/DnsMap/Identity.antt =====
-- Which workload and which resolver a transaction belongs to (dnsMapGraph.ts).
use ig_desktop.Prelude.{
  String, Bool, false, ◌&&◌, ◌||◌, not, Option, none, some, List, [], ◌∷◌, if◌then◌else◌, coalesce,
  or_default,
}
use ig_desktop.Prelude.Assoc.{lookup, insert, has}
use ig_desktop.Js.Numerals.{show_ℤ}
use ig_desktop.Js.Text.{join}
use ig_desktop.Dns.Types.{DnsCaptureMeta, DnsEndpoint, DnsTransaction}
use ig_desktop.Dns.Address.{is_set}

abbrev pub dns_map_ungrouped_namespace : String
dns_map_ungrouped_namespace = "\0ungrouped"

abbrev pub dns_map_ungrouped_label : String
dns_map_ungrouped_label = "Other (non-Kubernetes)"

abbrev pub sep : String
sep = "\u{1}"

-- `meta?.namespace && meta?.podName`.
unfoldable pub is_pod : Option DnsCaptureMeta → Bool
unfolding is_set
is_pod none = false
is_pod (some meta) = is_set meta.namespace && is_set meta.pod_name

-- `buildAddressIdentityMap`: the first full identity that each address was seen with.
unfoldable pub add_identity :
    DnsTransaction → List (String × Option DnsCaptureMeta) → List (String × Option DnsCaptureMeta)
unfolding is_pod has insert
add_identity txn map =
    if is_pod txn.requester_meta && not (has txn.requester.addr map)
    then insert txn.requester.addr txn.requester_meta map
    else map

unfoldable pub address_identities :
    List DnsTransaction
    → List (String × Option DnsCaptureMeta)
    → List (String × Option DnsCaptureMeta)
unfolding add_identity
address_identities [] map = map
address_identities (txn ∷ txns) map = address_identities txns (add_identity txn map)

unfoldable pub build_address_identity_map :
    List DnsTransaction → List (String × Option DnsCaptureMeta)
unfolding address_identities
build_address_identity_map txns = address_identities txns []

-- `resolveRequesterIdentity`; the identity is its `meta`.
unfoldable pub resolve_requester_identity :
    DnsTransaction → List (String × Option DnsCaptureMeta) → Option DnsCaptureMeta
unfolding is_pod lookup
resolve_requester_identity txn map =
    if is_pod txn.requester_meta
    then txn.requester_meta
    else or_default (lookup txn.requester.addr map) txn.requester_meta

-- The three lower tiers of `computeWorkloadKey`.
unfoldable pub runtime_key : DnsCaptureMeta → String → String
unfolding is_set join
runtime_key meta addr =
    if is_set meta.runtime_container_name || is_set meta.runtime_container_id
    then join sep (
        "runtime"
        ∷ or_default meta.runtime_name ""
        ∷ or_default (coalesce meta.runtime_container_name meta.runtime_container_id) "undefined"
        ∷ [])
    else if is_set meta.netns_id
    then join sep ("netns" ∷ or_default meta.netns_id "" ∷ [])
    else join sep ("addr" ∷ addr ∷ [])

unfoldable pub compute_workload_key : Option DnsCaptureMeta → String → String
unfolding is_pod runtime_key join
compute_workload_key none addr = join sep ("addr" ∷ addr ∷ [])
compute_workload_key (some meta) addr =
    if is_pod (some meta)
    then join sep ("ns" ∷ or_default meta.namespace "" ∷ "pod" ∷ or_default meta.pod_name "" ∷ [])
    else runtime_key meta addr

unfoldable pub compute_resolver_key : DnsEndpoint → String
unfolding join show_ℤ
compute_resolver_key nameserver = join sep (nameserver.addr ∷ show_ℤ nameserver.port ∷ [])

-- `meta?.namespace`.
unfoldable pub namespace_of : Option DnsCaptureMeta → Option String
namespace_of none = none
namespace_of (some meta) = meta.namespace
