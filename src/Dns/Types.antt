-- ===== src/Dns/Types.antt =====
-- frontend/src/lib/utils/dns/dnsTypes.ts. An optional property is an `Option`. Times are held in
-- nanoseconds: the source holds the same instants in milliseconds, with a fraction.
use ig_desktop.Prelude.{ℕ, String, List, Option}
use ig_desktop.Prelude.Int.{ℤ}

pub record DnsEndpoint : Type 0 where
  pub addr : String
  pub port : ℤ

pub data DnsTransactionState : Type 0 where
  answered no_response late_response orphan_response ambiguous : DnsTransactionState

pub record DnsCaptureMeta : Type 0 where
  pub node : Option String
  pub namespace : Option String
  pub pod_name : Option String
  pub container_name : Option String
  pub runtime_container_id : Option String
  pub runtime_container_name : Option String
  pub runtime_name : Option String
  pub netns_id : Option String

pub record DnsK8sRef : Type 0 where
  pub kind : String
  pub name : String
  pub namespace : Option String

pub record DnsTransaction : Type 0 where
  pub id : String
  pub peer_key : String
  pub identity : String
  pub requester : DnsEndpoint
  pub nameserver : DnsEndpoint
  pub dns_id : String
  pub name : String
  pub qtype : String
  pub qtype_raw : Option ℤ
  pub state : DnsTransactionState
  pub first_request_time : Option ℤ
  pub latest_attempt_time : Option ℤ
  pub response_time : Option ℤ
  pub attempt_count : ℕ
  pub retry_count : ℕ
  pub latency_ns : Option ℤ
  pub rcode : Option String
  pub rcode_raw : Option ℤ
  pub answers : Option String
  pub num_answers : Option ℤ
  pub requester_meta : Option DnsCaptureMeta
  pub resolver_meta : Option DnsCaptureMeta
  pub requester_k8s : Option DnsK8sRef
  pub resolver_k8s : Option DnsK8sRef

pub record DnsFieldConfig : Type 0 where
  pub id_field : String
  pub qr_field : String
  pub name_field : String
  pub qtype_field : String
  pub qtype_display_field : Option String
  pub src_addr_field : String
  pub src_port_field : Option String
  pub dst_addr_field : String
  pub dst_port_field : Option String
  pub proto_field : Option String
  pub timestamp_field : Option String
  pub latency_field : Option String
  pub rcode_field : Option String
  pub rcode_display_field : Option String
  pub num_answers_field : Option String
  pub addresses_field : Option String
  pub pkt_type_field : Option String
  pub pkt_type_display_field : Option String
  pub identity_fields : List String
  pub k8s_node_field : Option String
  pub k8s_namespace_field : Option String
  pub k8s_pod_name_field : Option String
  pub k8s_container_name_field : Option String
  pub runtime_container_id_field : Option String
  pub runtime_container_name_field : Option String
  pub runtime_name_field : Option String
  pub netns_id_field : Option String
  pub src_k8s_kind_field : Option String
  pub src_k8s_name_field : Option String
  pub src_k8s_namespace_field : Option String
  pub dst_k8s_kind_field : Option String
  pub dst_k8s_name_field : Option String
  pub dst_k8s_namespace_field : Option String

-- `DEFAULT_DNS_RESPONSE_TIMEOUT_MS`.
abbrev pub default_dns_response_timeout_ms : ℕ
default_dns_response_timeout_ms = 5000

pub record DnsCorrelationResult : Type 0 where
  pub transactions : List DnsTransaction
  pub pending_count : ℕ
  pub next_deadline : Option ℤ
