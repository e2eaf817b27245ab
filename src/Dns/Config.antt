-- ===== src/Dns/Config.antt =====
-- `extractDnsConfig` and the view options of frontend/src/lib/utils/dns/dnsConfig.ts.
mod Found
use mathlib.Core.Path.{subst}
use mathlib.Core.Bool.{true≢false}
use mathlib.Core.Option.{none-ne-some, some-injective}
use ig_desktop.Prelude.{
  ℕ, ◌≡◌, sym, String, Bool, true, false, not, ◌&&◌, Option, none, some, List, [], ◌∷◌,
  if◌then◌else◌, str_eq, any, keep, keep-passes, All, coalesce, ltb, Bool-cases, inl, inr,
}
use ig_desktop.Prelude.Assoc.{lookup}
use ig_desktop.Dns.Types.{DnsFieldConfig}

abbrev pub required_dns_fields : List String
required_dns_fields = "id" ∷ "qr_raw" ∷ "name" ∷ "qtype_raw" ∷ "src.addr" ∷ "dst.addr" ∷ []

abbrev pub identity_field_patterns : List String
identity_field_patterns =
    "k8s.node" ∷ "k8s.namespace" ∷ "k8s.podName" ∷ "k8s.containerName" ∷ "runtime.containerId"
    ∷ "runtime.containerName" ∷ "runtime.runtimeName" ∷ "netns_id" ∷ []

-- `fieldNames.has(name)`.
unfoldable pub has_name : List String → String → Bool
has_name names name = any (λ n. str_eq n name) names

unfoldable pub found : List String → String → Option String
unfolding has_name
found names name = if has_name names name then some name else none

unfoldable pub has_all : List String → List String → Bool
unfolding has_name
has_all names [] = true
has_all names (r ∷ required) = has_name names r && has_all names required

-- The full names of the fields are given.
unfoldable pub extract_dns_config : List String → Option DnsFieldConfig
unfolding has_all found
extract_dns_config names =
    if has_all names required_dns_fields
    then some (record {
      id_field = "id";
      qr_field = "qr_raw";
      name_field = "name";
      qtype_field = "qtype_raw";
      qtype_display_field = found names "qtype";
      src_addr_field = "src.addr";
      src_port_field = found names "src.port";
      dst_addr_field = "dst.addr";
      dst_port_field = found names "dst.port";
      proto_field = coalesce (found names "src.proto") (found names "proto");
      timestamp_field = coalesce (found names "timestamp_raw") (found names "timestamp");
      latency_field = found names "latency_ns_raw";
      rcode_field = found names "rcode_raw";
      rcode_display_field = found names "rcode";
      num_answers_field = found names "num_answers";
      addresses_field = found names "addresses";
      pkt_type_field = found names "pkt_type_raw";
      pkt_type_display_field = found names "pkt_type";
      identity_fields = keep (has_name names) identity_field_patterns;
      k8s_node_field = found names "k8s.node";
      k8s_namespace_field = found names "k8s.namespace";
      k8s_pod_name_field = found names "k8s.podName";
      k8s_container_name_field = found names "k8s.containerName";
      runtime_container_id_field = found names "runtime.containerId";
      runtime_container_name_field = found names "runtime.containerName";
      runtime_name_field = found names "runtime.runtimeName";
      netns_id_field = found names "netns_id";
      src_k8s_kind_field = found names "src.k8s.kind";
      src_k8s_name_field = found names "src.k8s.name";
      src_k8s_namespace_field = found names "src.k8s.namespace";
      dst_k8s_kind_field = found names "dst.k8s.kind";
      dst_k8s_name_field = found names "dst.k8s.name";
      dst_k8s_namespace_field = found names "dst.k8s.namespace";
    })
    else none

pub record DnsViewConfig : Type 0 where
  pub issues_only : Bool
  pub namespace_selector : Bool

abbrev is_annotation : List (String × String) → String → String → Bool
is_annotation annotations key value = elim (lookup key annotations) [
  | none ↦ false
  | some v ↦ str_eq v value
]

unfoldable pub extract_dns_view_config : List (String × String) → DnsViewConfig
unfolding lookup
extract_dns_view_config annotations = record {
  issues_only = is_annotation annotations "view.dns.issues-only" "true";
  namespace_selector = not (is_annotation annotations "view.dns.namespace-selector" "false");
}

unfoldable pub show_dns_namespace_selector : DnsViewConfig → ℕ → Bool
show_dns_namespace_selector config namespace_count =
    config.namespace_selector && ltb 1 namespace_count
