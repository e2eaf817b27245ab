-- ===== src/DnsMap/Group.antt =====
-- The grouping loop of `buildDnsMapModel` (dnsMapGraph.ts). A `Set` of texts is a list without
-- repetition in order of insertion.
use ig_desktop.Prelude.{
  String, Option, none, some, List, [], ◌∷◌, ◌++◌, if◌then◌else◌, any, str_eq, coalesce, or_default,
}
use ig_desktop.Prelude.Int.{ℤ}
use ig_desktop.Prelude.Assoc.{upsert}
use ig_desktop.Js.Text.{join}
use ig_desktop.Dns.Types.{DnsCaptureMeta, DnsK8sRef, DnsTransaction}
use ig_desktop.Dns.Address.{is_set}
use ig_desktop.DnsMap.Identity.{
  dns_map_ungrouped_namespace, dns_map_ungrouped_label, build_address_identity_map,
  resolve_requester_identity, compute_workload_key, compute_resolver_key, namespace_of,
}

-- `set.add(x)`.
unfoldable pub add_new : String → List String → List String
add_new x xs = if any (λ y. str_eq y x) xs then xs else xs ++ x ∷ []

pub record WorkloadAccumulator : Type 0 where
  pub key : String
  pub namespace_key : String
  pub namespace_label : String
  pub meta : Option DnsCaptureMeta
  pub container_names : List String
  pub addresses : List String
  pub transactions : List DnsTransaction

pub record ResolverAccumulator : Type 0 where
  pub key : String
  pub addr : String
  pub port : ℤ
  pub k8s : Option DnsK8sRef
  pub transactions : List DnsTransaction

pub record EdgeAccumulator : Type 0 where
  pub workload_key : String
  pub resolver_key : String
  pub transactions : List DnsTransaction

-- A new workload; `meta` holds its pod name, its runtime's names and its network namespace.
unfoldable pub new_workload : String → Option DnsCaptureMeta → WorkloadAccumulator
unfolding namespace_of
new_workload key meta = record {
  key = key;
  namespace_key = or_default (namespace_of meta) dns_map_ungrouped_namespace;
  namespace_label = or_default (namespace_of meta) dns_map_ungrouped_label;
  meta = meta;
  container_names = [];
  addresses = [];
  transactions = [];
}

unfoldable pub container_name_of : Option DnsCaptureMeta → Option String
container_name_of none = none
container_name_of (some meta) = meta.container_name

unfoldable pub add_container : Option DnsCaptureMeta → List String → List String
unfolding container_name_of is_set add_new
add_container meta names =
    if is_set (container_name_of meta)
    then add_new (or_default (container_name_of meta) "") names
    else names

unfoldable pub add_to_workload :
    String
    → Option DnsCaptureMeta
    → DnsTransaction
    → Option WorkloadAccumulator
    → WorkloadAccumulator
unfolding new_workload add_new add_container
add_to_workload key meta txn o =
    let w = or_default o (new_workload key meta) in
    record w {
      addresses = add_new txn.requester.addr w.addresses;
      container_names = add_container meta w.container_names;
      transactions = w.transactions ++ txn ∷ [];
    }

-- A resolver takes the first Kubernetes reference that is known.
unfoldable pub add_to_resolver :
    String → DnsTransaction → Option ResolverAccumulator → ResolverAccumulator
add_to_resolver key txn none = record {
  key = key;
  addr = txn.nameserver.addr;
  port = txn.nameserver.port;
  k8s = txn.resolver_k8s;
  transactions = txn ∷ [];
}
add_to_resolver key txn (some r) = record r {
  k8s = coalesce r.k8s txn.resolver_k8s;
  transactions = r.transactions ++ txn ∷ [];
}

unfoldable pub add_to_edge :
    String → String → DnsTransaction → Option EdgeAccumulator → EdgeAccumulator
add_to_edge workload_key resolver_key txn none = record {
  workload_key = workload_key;
  resolver_key = resolver_key;
  transactions = txn ∷ [];
}
add_to_edge workload_key resolver_key txn (some e) = record e {
  transactions = e.transactions ++ txn ∷ [];
}

unfoldable pub edge_id : String → String → String
unfolding join
edge_id workload_key resolver_key = join "\u{2}" (workload_key ∷ resolver_key ∷ [])

-- The three maps of the loop.
pub record Groups : Type 0 where
  pub workloads : List (String × WorkloadAccumulator)
  pub resolvers : List (String × ResolverAccumulator)
  pub edges : List (String × EdgeAccumulator)

abbrev pub Identities : Type 0
Identities = List (String × Option DnsCaptureMeta)

-- The keys of a transaction.
unfoldable pub workload_key_of : Identities → DnsTransaction → String
unfolding resolve_requester_identity compute_workload_key
workload_key_of map txn =
    compute_workload_key (resolve_requester_identity txn map) txn.requester.addr

unfoldable pub resolver_key_of : DnsTransaction → String
unfolding compute_resolver_key
resolver_key_of txn = compute_resolver_key txn.nameserver

unfoldable pub edge_id_of : Identities → DnsTransaction → String
unfolding edge_id workload_key_of resolver_key_of
edge_id_of map txn = edge_id (workload_key_of map txn) (resolver_key_of txn)

-- One round of the loop.
unfoldable pub add_transaction : Identities → DnsTransaction → Groups → Groups
unfolding upsert add_to_workload add_to_resolver add_to_edge workload_key_of resolver_key_of
    edge_id_of resolve_requester_identity
add_transaction map txn g =
    let w = workload_key_of map txn in
    let r = resolver_key_of txn in
    record {
      workloads = upsert w (add_to_workload w (resolve_requester_identity txn map) txn) g.workloads;
      resolvers = upsert r (add_to_resolver r txn) g.resolvers;
      edges = upsert (edge_id_of map txn) (add_to_edge w r txn) g.edges;
    }

unfoldable pub add_transactions : Identities → List DnsTransaction → Groups → Groups
unfolding add_transaction
add_transactions map [] g = g
add_transactions map (txn ∷ txns) g = add_transactions map txns (add_transaction map txn g)

unfoldable pub group_transactions : List DnsTransaction → Groups
unfolding add_transactions build_address_identity_map
group_transactions txns =
    add_transactions (build_address_identity_map txns) txns
      (record { workloads = []; resolvers = []; edges = [] })
