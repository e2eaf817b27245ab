-- ===== src/Dns/Parse.antt =====
-- Reading one trace_dns event: `parseDnsEvent` of frontend/src/lib/utils/dns/dnsCorrelator.ts, what
-- it calls, and the keys by which events are matched.
pub mod Mirror
use ig_desktop.Prelude.{
  String, Bool, true, false, ◌||◌, ◌&&◌, Option, none, some, List, [], ◌∷◌, ◌++◌, map,
  if◌then◌else◌, str_eq, coalesce, or_default, is_some, any,
}
use ig_desktop.Prelude.Int.{ℤ, pos, eqb_ℤ}
use ig_desktop.Js.{
  Value, Event, field, with_field, to_number, to_str, non_empty, to_str_or_undefined, interpret_qr,
}
use ig_desktop.Js.Numerals.{show_ℤ}
use ig_desktop.Js.Text.{join}
use ig_desktop.Dns.Types.{DnsEndpoint, DnsCaptureMeta, DnsK8sRef, DnsFieldConfig}
use ig_desktop.Dns.Address.{
  is_set, number_at, text_at, is_ambiguous, resolve_event_time, normalize_name,
}

pub record ParsedDnsEvent : Type 0 where
  pub is_response : Bool
  pub ambiguous : Bool
  pub identity : String
  pub requester : DnsEndpoint
  pub nameserver : DnsEndpoint
  pub dns_id : String
  pub name : String
  pub normalized_name : String
  pub qtype : String
  pub qtype_raw : Option ℤ
  pub timestamp : Option ℤ
  pub latency_ns_raw : Option ℤ
  pub rcode : Option String
  pub rcode_raw : Option ℤ
  pub answers : Option String
  pub num_answers : Option ℤ
  pub requester_meta : Option DnsCaptureMeta
  pub resolver_meta : Option DnsCaptureMeta
  pub requester_k8s : Option DnsK8sRef
  pub resolver_k8s : Option DnsK8sRef

-- `f ? toStrOrUndefined(event[f]) : undefined`.
unfoldable pub optional_text : Event → Option String → Option String
unfolding with_field field to_str_or_undefined
optional_text event name = with_field name none (λ f. to_str_or_undefined (field f event))

unfoldable pub has_any : DnsCaptureMeta → Bool
has_any m =
    is_some m.node
    || is_some m.namespace
    || is_some m.pod_name
    || is_some m.container_name
    || is_some m.runtime_container_id
    || is_some m.runtime_container_name
    || is_some m.runtime_name
    || is_some m.netns_id

unfoldable pub build_capture_meta : Event → DnsFieldConfig → Option DnsCaptureMeta
unfolding optional_text has_any
build_capture_meta event config =
    let meta : DnsCaptureMeta = record {
      node = optional_text event config.k8s_node_field;
      namespace = optional_text event config.k8s_namespace_field;
      pod_name = optional_text event config.k8s_pod_name_field;
      container_name = optional_text event config.k8s_container_name_field;
      runtime_container_id = optional_text event config.runtime_container_id_field;
      runtime_container_name = optional_text event config.runtime_container_name_field;
      runtime_name = optional_text event config.runtime_name_field;
      netns_id = optional_text event config.netns_id_field;
    } in
    if has_any meta then some meta else none

-- With a kind field and a name field, and a name that is not blank.
unfoldable pub build_k8s_ref :
    Event → Option String → Option String → Option String → Option DnsK8sRef
unfolding optional_text is_set
build_k8s_ref event kind_field name_field namespace_field =
    if is_set kind_field && is_set name_field
    then elim (optional_text event name_field) [
      | none ↦ none
      | some name ↦ some (record {
        kind = or_default (optional_text event kind_field) "";
        name = name;
        namespace = optional_text event namespace_field;
      })
    ]
    else none

pub data CaptureOwner : Type 0 where
  requester resolver : CaptureOwner

-- A request that leaves its host (packet type 4), and a response that arrives at its host (0), were
-- captured at the requester.
unfoldable pub resolve_capture_owner : Bool → Option ℤ → CaptureOwner
resolve_capture_owner is_response none = requester
resolve_capture_owner true (some n) = if eqb_ℤ n (pos 0) then requester else resolver
resolve_capture_owner false (some n) = if eqb_ℤ n (pos 4) then requester else resolver

abbrev pub at_requester : CaptureOwner → Option DnsCaptureMeta → Option DnsCaptureMeta
at_requester requester meta = meta
at_requester resolver meta = none

abbrev pub at_resolver : CaptureOwner → Option DnsCaptureMeta → Option DnsCaptureMeta
at_resolver requester meta = none
at_resolver resolver meta = meta

unfoldable pub build_identity : Event → DnsFieldConfig → String
unfolding text_at field to_str join
build_identity event config = join "|" (
    map (λ f. to_str (field f event)) config.identity_fields
    ++ text_at event config.proto_field ∷ [])

abbrev shown_number : Option ℤ → String
shown_number none = ""
shown_number (some n) = show_ℤ n

-- The fields of an event whose mandatory parts were read. A response travels from the nameserver to
-- the requester, so its ends are exchanged.
unfoldable pub parsed : Event → DnsFieldConfig → Bool → ParsedDnsEvent
unfolding text_at number_at is_ambiguous build_identity normalize_name resolve_event_time
    build_capture_meta build_k8s_ref resolve_capture_owner to_number to_str non_empty show_ℤ
parsed event config is_response =
    let src : DnsEndpoint = record {
      addr = to_str (field config.src_addr_field event);
      port = or_default (number_at event config.src_port_field) (pos 0);
    } in
    let dst : DnsEndpoint = record {
      addr = to_str (field config.dst_addr_field event);
      port = or_default (number_at event config.dst_port_field) (pos 0);
    } in
    let dns_id = to_str (field config.id_field event) in
    let name = to_str (field config.name_field event) in
    let qtype_raw = to_number (field config.qtype_field event) in
    let owner = resolve_capture_owner is_response (number_at event config.pkt_type_field) in
    let meta = build_capture_meta event config in
    let src_k8s =
      build_k8s_ref event config.src_k8s_kind_field config.src_k8s_name_field
        config.src_k8s_namespace_field in
    let dst_k8s =
      build_k8s_ref event config.dst_k8s_kind_field config.dst_k8s_name_field
        config.dst_k8s_namespace_field in
    record {
      is_response = is_response;
      ambiguous = is_ambiguous event config dns_id;
      identity = build_identity event config;
      requester = if is_response then dst else src;
      nameserver = if is_response then src else dst;
      dns_id = dns_id;
      name = name;
      normalized_name = normalize_name name;
      qtype =
          or_default (non_empty (text_at event config.qtype_display_field))
            (shown_number qtype_raw);
      qtype_raw = qtype_raw;
      timestamp = resolve_event_time event config;
      latency_ns_raw = number_at event config.latency_field;
      rcode = non_empty (text_at event config.rcode_display_field);
      rcode_raw = number_at event config.rcode_field;
      answers = non_empty (text_at event config.addresses_field);
      num_answers = number_at event config.num_answers_field;
      requester_meta = at_requester owner meta;
      resolver_meta = at_resolver owner meta;
      requester_k8s = if is_response then dst_k8s else src_k8s;
      resolver_k8s = if is_response then src_k8s else dst_k8s;
    }

-- `!dnsId || !name`, `!srcAddr || !dstAddr`.
unfoldable pub lacks_mandatory : Event → DnsFieldConfig → Bool
unfolding field to_str
lacks_mandatory event config =
    str_eq (to_str (field config.id_field event)) ""
    || str_eq (to_str (field config.name_field event)) ""
    || str_eq (to_str (field config.src_addr_field event)) ""
    || str_eq (to_str (field config.dst_addr_field event)) ""

-- `parseDnsEvent`.
unfoldable pub parse_dns_event : Event → DnsFieldConfig → Option ParsedDnsEvent
unfolding parsed lacks_mandatory interpret_qr field
parse_dns_event event config = elim (interpret_qr (field config.qr_field event)) [
  | none ↦ none
  | some is_response ↦
      if lacks_mandatory event config then none else some (parsed event config is_response)
]

-- The character U+0001 between the parts of a key.
abbrev pub sep : String
sep = "\u{1}"

unfoldable pub build_key : ParsedDnsEvent → String
unfolding join show_ℤ
build_key p = join sep (
    p.identity
    ∷ p.requester.addr
    ∷ show_ℤ p.requester.port
    ∷ p.nameserver.addr
    ∷ show_ℤ p.nameserver.port
    ∷ p.dns_id
    ∷ p.normalized_name
    ∷ shown_number p.qtype_raw
    ∷ [])

unfoldable pub build_peer_key : String → DnsEndpoint → DnsEndpoint → String
unfolding join
build_peer_key identity client server = join sep (identity ∷ client.addr ∷ server.addr ∷ [])

-- Field by field, the first observation wins.
unfoldable pub merge_capture_meta :
    Option DnsCaptureMeta → Option DnsCaptureMeta → Option DnsCaptureMeta
merge_capture_meta none secondary = secondary
merge_capture_meta (some primary) none = some primary
merge_capture_meta (some a) (some b) = some (record {
  node = coalesce a.node b.node;
  namespace = coalesce a.namespace b.namespace;
  pod_name = coalesce a.pod_name b.pod_name;
  container_name = coalesce a.container_name b.container_name;
  runtime_container_id = coalesce a.runtime_container_id b.runtime_container_id;
  runtime_container_name = coalesce a.runtime_container_name b.runtime_container_name;
  runtime_name = coalesce a.runtime_name b.runtime_name;
  netns_id = coalesce a.netns_id b.netns_id;
})

unfoldable pub merge_k8s_ref : Option DnsK8sRef → Option DnsK8sRef → Option DnsK8sRef
merge_k8s_ref primary secondary = coalesce primary secondary
