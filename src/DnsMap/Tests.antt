-- ===== src/DnsMap/Tests.antt =====
-- The DNS map of concrete transactions, and its theorems applied to them.
use ig_desktop.Prelude.{◌≡◌, refl, String, none, some, List, [], ◌∷◌, map, length}
use ig_desktop.Js.Text.{text_before}
use ig_desktop.Dns.Types.{DnsCaptureMeta, DnsTransaction, no_response}
use ig_desktop.Dns.Tests.{retried_transaction}
use ig_desktop.DnsMap.Model.{
  DnsMapModel, build_dns_map_model, filter_dns_map_model_issues_only, extract_dns_map_namespaces,
  filter_transactions_by_namespace,
}
use ig_desktop.DnsMap.Partition.{
  workload_totals, resolver_totals, edge_totals, build_dns_map_model-totals,
}
use ig_desktop.DnsMap.Joined.{IsJoined, build_dns_map_model-IsJoined}

abbrev pod : DnsCaptureMeta
pod = record {
  node = none;
  namespace = some "shop";
  pod_name = some "cart";
  container_name = some "app";
  runtime_container_id = none;
  runtime_container_name = none;
  runtime_name = none;
  netns_id = none;
}

-- One request seen at the pod and one from the same address seen elsewhere.
abbrev transactions : List DnsTransaction
transactions =
    record retried_transaction { requester_meta = some pod }
    ∷ record retried_transaction { id = "u"; state = no_response }
    ∷ []

abbrev model : DnsMapModel
model = build_dns_map_model text_before transactions 5000

one_workload :
    map {B = String × List String} (λ w. (w.namespace_key, w.transaction_ids)) model.workloads
    ≡ ("shop", "t" ∷ "u" ∷ []) ∷ []
unfolding build_dns_map_model
one_workload = refl

namespaces_agree : extract_dns_map_namespaces transactions ≡ model.namespaces
unfolding extract_dns_map_namespaces build_dns_map_model
namespaces_agree = refl

in_namespace : length (filter_transactions_by_namespace transactions (some "shop")) ≡ 2
unfolding filter_transactions_by_namespace
in_namespace = refl

build_dns_map_model-totals_example :
    (workload_totals model ≡ 2) × (resolver_totals model ≡ 2) × (edge_totals model ≡ 2)
build_dns_map_model-totals_example = build_dns_map_model-totals text_before transactions 5000

build_dns_map_model-IsJoined_example :
    IsJoined model × IsJoined (filter_dns_map_model_issues_only model)
build_dns_map_model-IsJoined_example = build_dns_map_model-IsJoined text_before transactions 5000
