-- ===== src/DnsMap/Model.antt =====
-- `buildDnsMapModel`, its filters and the previews of edges (dnsMapGraph.ts). `locale_before` is the
-- comparison of `localeCompare`, which the runtime's locale decides.
use ig_desktop.Prelude.{
  ℕ, String, Bool, true, false, ◌&&◌, not, Option, none, some, List, [], ◌∷◌, ◌++◌, map, keep, any,
  take, length, leb, if◌then◌else◌, str_eq, coalesce, or_default,
}
use ig_desktop.Prelude.Int.{ℤ}
use ig_desktop.Prelude.Assoc.{values}
use ig_desktop.Prelude.Sort.{sort}
use ig_desktop.Js.Numerals.{show_ℤ}
use ig_desktop.Js.Text.{join, text_before}
use ig_desktop.Dns.Types.{DnsCaptureMeta, DnsK8sRef, DnsTransaction}
use ig_desktop.Dns.Address.{is_set}
use ig_desktop.Dns.Correlate.{newer}
use ig_desktop.Dns.Severity.{
  DnsSeverity, DnsSeverityCounts, error, warning, healthy, rank, summarize_dns_severity,
  transaction_severity, slow_threshold_ns,
}
use ig_desktop.DnsMap.Identity.{
  dns_map_ungrouped_namespace, sep, build_address_identity_map, resolve_requester_identity,
  namespace_of,
}
use ig_desktop.DnsMap.Group.{
  Identities, WorkloadAccumulator, ResolverAccumulator, EdgeAccumulator, add_new, edge_id,
  workload_key_of, group_transactions,
}

pub record DnsWorkloadModel : Type 0 where
  pub key : String
  pub namespace_key : String
  pub namespace_label : String
  pub meta : Option DnsCaptureMeta
  pub container_names : List String
  pub addresses : List String
  pub transaction_ids : List String
  pub counts : DnsSeverityCounts

pub record DnsResolverModel : Type 0 where
  pub key : String
  pub addr : String
  pub port : ℤ
  pub k8s : Option DnsK8sRef
  pub transaction_ids : List String
  pub counts : DnsSeverityCounts

pub record DnsMapEdgeModel : Type 0 where
  pub id : String
  pub workload_key : String
  pub resolver_key : String
  pub transaction_ids : List String
  pub preview : List DnsTransaction
  pub counts : DnsSeverityCounts

pub record DnsMapModel : Type 0 where
  pub workloads : List DnsWorkloadModel
  pub resolvers : List DnsResolverModel
  pub edges : List DnsMapEdgeModel
  pub namespaces : List String

unfoldable pub sort_newest_first : List DnsTransaction → List DnsTransaction
unfolding sort newer
sort_newest_first = sort newer

abbrev pub ids : List DnsTransaction → List String
ids = map (λ t. t.id)

-- `new Set(texts)`, as a list.
unfoldable pub unique : List String → List String → List String
unfolding add_new
unique [] seen = seen
unique (x ∷ xs) seen = unique xs (add_new x seen)

abbrev pub dns_map_edge_preview_count : ℕ
dns_map_edge_preview_count = 5

abbrev pub same_severity : DnsSeverity → DnsSeverity → Bool
same_severity a b = leb (rank a) (rank b) && leb (rank b) (rank a)

abbrev pub has_text : List String → String → Bool
has_text xs x = any (λ y. str_eq y x) xs

-- `selectEdgePreview`, once the transactions of the severity are known.
unfoldable pub preview_of : List DnsTransaction → List DnsTransaction → List DnsTransaction
preview_of matching ordered =
    if leb dns_map_edge_preview_count (length matching)
    then take dns_map_edge_preview_count matching
    else take dns_map_edge_preview_count
        (matching ++ keep (λ t. not (has_text (ids matching) t.id)) ordered)

unfoldable pub select_edge_preview : List DnsTransaction → DnsSeverity → ℕ → List DnsTransaction
unfolding preview_of slow_threshold_ns transaction_severity
select_edge_preview ordered severity timeout_ms =
    if same_severity severity healthy
    then take dns_map_edge_preview_count ordered
    else preview_of
        (keep (λ t. same_severity (transaction_severity t (slow_threshold_ns timeout_ms)) severity)
          ordered)
        ordered

unfoldable pub workload_model : ℕ → WorkloadAccumulator → DnsWorkloadModel
unfolding sort_newest_first summarize_dns_severity sort text_before
workload_model timeout_ms w =
    let ordered = sort_newest_first w.transactions in
    record {
      key = w.key;
      namespace_key = w.namespace_key;
      namespace_label = w.namespace_label;
      meta = w.meta;
      container_names = sort text_before w.container_names;
      addresses = sort text_before w.addresses;
      transaction_ids = ids ordered;
      counts = summarize_dns_severity ordered timeout_ms;
    }

unfoldable pub resolver_model : ℕ → ResolverAccumulator → DnsResolverModel
unfolding sort_newest_first summarize_dns_severity
resolver_model timeout_ms r =
    let ordered = sort_newest_first r.transactions in
    record {
      key = r.key;
      addr = r.addr;
      port = r.port;
      k8s = r.k8s;
      transaction_ids = ids ordered;
      counts = summarize_dns_severity ordered timeout_ms;
    }

unfoldable pub edge_model : ℕ → EdgeAccumulator → DnsMapEdgeModel
unfolding sort_newest_first summarize_dns_severity select_edge_preview edge_id
edge_model timeout_ms e =
    let ordered = sort_newest_first e.transactions in
    let counts = summarize_dns_severity ordered timeout_ms in
    record {
      id = edge_id e.workload_key e.resolver_key;
      workload_key = e.workload_key;
      resolver_key = e.resolver_key;
      transaction_ids = ids ordered;
      preview = select_edge_preview ordered counts.severity timeout_ms;
      counts = counts;
    }

abbrev at_meta : (DnsCaptureMeta → Option String) → Option DnsCaptureMeta → Option String
at_meta f none = none
at_meta f (some m) = f m

unfoldable pub workload_sort_label : DnsWorkloadModel → String
unfolding join
workload_sort_label w =
    let shown = coalesce (at_meta (λ m. m.pod_name) w.meta) (
      coalesce (at_meta (λ m. m.runtime_container_name) w.meta)
        (at_meta (λ m. m.netns_id) w.meta)) in
    join sep
      (w.namespace_label ∷ or_default shown (elim w.addresses [ [] ↦ w.key | a ∷ rest ↦ a ]) ∷ [])

unfoldable pub resolver_sort_label : DnsResolverModel → String
unfolding join show_ℤ
resolver_sort_label r = elim r.k8s [
  | none ↦ join ":" (r.addr ∷ show_ℤ r.port ∷ [])
  | some k ↦ join sep (or_default k.namespace "" ∷ k.name ∷ [])
]

-- The namespaces of workloads, without the fallback group.
unfoldable pub namespaces_of : List DnsWorkloadModel → List String
unfolding unique sort text_before
namespaces_of ws = sort text_before (
    unique (keep (λ n. not (str_eq n dns_map_ungrouped_namespace)) (map (λ w. w.namespace_key) ws))
      [])

module _ (locale_before : String → String → Bool) where
  unfoldable pub build_dns_map_model : List DnsTransaction → ℕ → DnsMapModel
  unfolding group_transactions values workload_model resolver_model edge_model workload_sort_label
      resolver_sort_label namespaces_of sort
  build_dns_map_model txns timeout_ms =
      let g = group_transactions txns in
      let workloads =
        sort (λ a b. locale_before (workload_sort_label a) (workload_sort_label b))
          (map (workload_model timeout_ms) (values g.workloads)) in
      record {
        workloads = workloads;
        resolvers =
            sort (λ a b. locale_before (resolver_sort_label a) (resolver_sort_label b))
              (map (resolver_model timeout_ms) (values g.resolvers));
        edges = map (edge_model timeout_ms) (values g.edges);
        namespaces = namespaces_of workloads;
      }

abbrev pub is_issue : DnsSeverity → Bool
is_issue error = true
is_issue warning = true
is_issue _ = false

-- `filterDnsMapModelIssuesOnly`.
unfoldable pub filter_dns_map_model_issues_only : DnsMapModel → DnsMapModel
unfolding namespaces_of
filter_dns_map_model_issues_only model =
    let edges = keep (λ (e : DnsMapEdgeModel). is_issue e.counts.severity) model.edges in
    let workloads =
      keep (λ (w : DnsWorkloadModel). has_text (map (λ e. e.workload_key) edges) w.key)
        model.workloads in
    record {
      workloads = workloads;
      resolvers =
          keep (λ (r : DnsResolverModel). has_text (map (λ e. e.resolver_key) edges) r.key)
            model.resolvers;
      edges = edges;
      namespaces = namespaces_of workloads;
    }

-- The loop of `extractDnsMapNamespaces`, with the keys and the namespaces seen.
unfoldable pub extract_namespaces :
    Identities → List DnsTransaction → List String → List String → List String
unfolding workload_key_of add_new namespace_of is_set resolve_requester_identity
extract_namespaces map [] seen namespaces = namespaces
extract_namespaces map (t ∷ ts) seen namespaces =
    let k = workload_key_of map t in
    let n = namespace_of (resolve_requester_identity t map) in
    let skipped = extract_namespaces map ts seen namespaces in
    let later =
      extract_namespaces map ts (add_new k seen)
        (if is_set n then add_new (or_default n "") namespaces else namespaces) in
    if has_text seen k then skipped else later

unfoldable pub extract_dns_map_namespaces : List DnsTransaction → List String
unfolding extract_namespaces build_address_identity_map sort text_before
extract_dns_map_namespaces txns =
    sort text_before (extract_namespaces (build_address_identity_map txns) txns [] [])

-- `filterTransactionsByNamespace`; the empty text stands for all namespaces as `null` does.
unfoldable pub filter_transactions_by_namespace :
    List DnsTransaction → Option String → List DnsTransaction
unfolding is_set build_address_identity_map resolve_requester_identity namespace_of
filter_transactions_by_namespace txns namespace =
    let map = build_address_identity_map txns in
    if is_set namespace
    then keep
        (λ t.
          str_eq
            (or_default (namespace_of (resolve_requester_identity t map))
              dns_map_ungrouped_namespace)
            (or_default namespace ""))
        txns
    else txns
