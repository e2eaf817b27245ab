-- ===== src/Dns/Entries.antt =====
-- The entries that `computeDnsCorrelation` of frontend/src/lib/utils/dns/dnsCorrelator.ts makes: a
-- pending request, and the transaction of each state.
use ig_desktop.Prelude.{
  ℕ, suc, ◌+◌, ◌-◌, ◌*◌, String, Bool, false, Option, none, some, [], ◌∷◌, if◌then◌else◌, coalesce,
  or_default,
}
use ig_desktop.Prelude.Int.{ℤ, pos, ◌+ℤ◌, ◌-ℤ◌, ltb_ℤ, eqb_ℤ}
use ig_desktop.Js.Numerals.{show_ms, show_ℕ}
use ig_desktop.Js.Text.{join}
use ig_desktop.Dns.Types.{
  DnsEndpoint, DnsCaptureMeta, DnsK8sRef, DnsTransaction, answered, no_response, late_response,
  orphan_response, ambiguous, default_dns_response_timeout_ms,
}
use ig_desktop.Dns.Parse.{
  ParsedDnsEvent, build_key, build_peer_key, merge_capture_meta, merge_k8s_ref, sep,
}

pub record PendingDnsRequest : Type 0 where
  pub key : String
  pub peer_key : String
  pub identity : String
  pub requester : DnsEndpoint
  pub nameserver : DnsEndpoint
  pub dns_id : String
  pub name : String
  pub qtype : String
  pub qtype_raw : Option ℤ
  pub first_request_time : Option ℤ
  pub latest_attempt_time : Option ℤ
  pub attempt_count : ℕ
  pub deadline : Option ℤ
  pub requester_meta : Option DnsCaptureMeta
  pub resolver_meta : Option DnsCaptureMeta
  pub requester_k8s : Option DnsK8sRef
  pub resolver_k8s : Option DnsK8sRef

-- The timeout in force, in nanoseconds: a value that is not positive means the default.
unfoldable pub timeout_ns : ℤ → ℤ
timeout_ns (pos (suc n)) = pos (suc n * 1000000)
timeout_ns _ = pos (default_dns_response_timeout_ms * 1000000)

abbrev pub deadline_of : ℤ → Option ℤ → Option ℤ
deadline_of timeout none = none
deadline_of timeout (some t) = some (t +ℤ timeout)

-- A latency of 0 counts as not provided.
unfoldable pub given_latency : Option ℤ → Option ℤ
given_latency none = none
given_latency (some n) = if eqb_ℤ n (pos 0) then none else some n

abbrev pub elapsed : Option ℤ → Option ℤ → Option ℤ
elapsed (some from) (some to) = some (to -ℤ from)
elapsed _ _ = none

abbrev pub shown_time : Option ℤ → String
shown_time t = show_ms (or_default t (pos 0))

-- mDNS and multicast: each packet is an entry of its own.
unfoldable pub ambiguous_transaction : ParsedDnsEvent → ℕ → DnsTransaction
unfolding given_latency build_key build_peer_key join show_ms show_ℕ
ambiguous_transaction p n = record {
  id = join sep ("ambiguous" ∷ build_key p ∷ shown_time p.timestamp ∷ show_ℕ n ∷ []);
  peer_key = build_peer_key p.identity p.requester p.nameserver;
  identity = p.identity;
  requester = p.requester;
  nameserver = p.nameserver;
  dns_id = p.dns_id;
  name = p.name;
  qtype = p.qtype;
  qtype_raw = p.qtype_raw;
  state = ambiguous;
  first_request_time = if p.is_response then none else p.timestamp;
  latest_attempt_time = if p.is_response then none else p.timestamp;
  response_time = if p.is_response then p.timestamp else none;
  attempt_count = if p.is_response then 0 else 1;
  retry_count = 0;
  latency_ns = given_latency p.latency_ns_raw;
  rcode = p.rcode;
  rcode_raw = p.rcode_raw;
  answers = p.answers;
  num_answers = p.num_answers;
  requester_meta = p.requester_meta;
  resolver_meta = p.resolver_meta;
  requester_k8s = p.requester_k8s;
  resolver_k8s = p.resolver_k8s;
}

-- A request seen for the first time.
unfoldable pub new_pending : ℤ → String → ParsedDnsEvent → PendingDnsRequest
unfolding build_peer_key ◌+ℤ◌
new_pending timeout key p = record {
  key = key;
  peer_key = build_peer_key p.identity p.requester p.nameserver;
  identity = p.identity;
  requester = p.requester;
  nameserver = p.nameserver;
  dns_id = p.dns_id;
  name = p.name;
  qtype = p.qtype;
  qtype_raw = p.qtype_raw;
  first_request_time = p.timestamp;
  latest_attempt_time = p.timestamp;
  attempt_count = 1;
  deadline = deadline_of timeout p.timestamp;
  requester_meta = p.requester_meta;
  resolver_meta = p.resolver_meta;
  requester_k8s = p.requester_k8s;
  resolver_k8s = p.resolver_k8s;
}

-- A retransmission: the first request time stays.
unfoldable pub retried : ℤ → ParsedDnsEvent → PendingDnsRequest → PendingDnsRequest
unfolding merge_capture_meta merge_k8s_ref ◌+ℤ◌
retried timeout p e = record e {
  attempt_count = e.attempt_count + 1;
  latest_attempt_time = p.timestamp;
  deadline = deadline_of timeout p.timestamp;
  requester_meta = merge_capture_meta e.requester_meta p.requester_meta;
  resolver_meta = merge_capture_meta e.resolver_meta p.resolver_meta;
  requester_k8s = merge_k8s_ref e.requester_k8s p.requester_k8s;
  resolver_k8s = merge_k8s_ref e.resolver_k8s p.resolver_k8s;
}

-- A response after the deadline.
unfoldable pub is_late : Option ℤ → Option ℤ → Bool
is_late (some deadline) (some t) = ltb_ℤ deadline t
is_late _ _ = false

unfoldable pub matched_transaction : String → ParsedDnsEvent → PendingDnsRequest → DnsTransaction
unfolding is_late given_latency merge_capture_meta merge_k8s_ref join show_ms ◌-ℤ◌
matched_transaction key p e = record {
  id = join sep (key ∷ shown_time e.first_request_time ∷ []);
  peer_key = e.peer_key;
  identity = e.identity;
  requester = e.requester;
  nameserver = e.nameserver;
  dns_id = e.dns_id;
  name = e.name;
  qtype = e.qtype;
  qtype_raw = e.qtype_raw;
  state = if is_late e.deadline p.timestamp then late_response else answered;
  first_request_time = e.first_request_time;
  latest_attempt_time = e.latest_attempt_time;
  response_time = p.timestamp;
  attempt_count = e.attempt_count;
  retry_count = e.attempt_count - 1;
  latency_ns = coalesce (given_latency p.latency_ns_raw) (elapsed e.first_request_time p.timestamp);
  rcode = p.rcode;
  rcode_raw = p.rcode_raw;
  answers = p.answers;
  num_answers = p.num_answers;
  requester_meta = merge_capture_meta e.requester_meta p.requester_meta;
  resolver_meta = merge_capture_meta e.resolver_meta p.resolver_meta;
  requester_k8s = merge_k8s_ref e.requester_k8s p.requester_k8s;
  resolver_k8s = merge_k8s_ref e.resolver_k8s p.resolver_k8s;
}

unfoldable pub orphan_transaction : String → ParsedDnsEvent → DnsTransaction
unfolding given_latency build_peer_key join show_ms
orphan_transaction key p = record {
  id = join sep ("orphan" ∷ key ∷ shown_time p.timestamp ∷ []);
  peer_key = build_peer_key p.identity p.requester p.nameserver;
  identity = p.identity;
  requester = p.requester;
  nameserver = p.nameserver;
  dns_id = p.dns_id;
  name = p.name;
  qtype = p.qtype;
  qtype_raw = p.qtype_raw;
  state = orphan_response;
  first_request_time = none;
  latest_attempt_time = none;
  response_time = p.timestamp;
  attempt_count = 0;
  retry_count = 0;
  latency_ns = given_latency p.latency_ns_raw;
  rcode = p.rcode;
  rcode_raw = p.rcode_raw;
  answers = p.answers;
  num_answers = p.num_answers;
  requester_meta = p.requester_meta;
  resolver_meta = p.resolver_meta;
  requester_k8s = p.requester_k8s;
  resolver_k8s = p.resolver_k8s;
}

unfoldable pub timeout_transaction : PendingDnsRequest → DnsTransaction
unfolding join show_ms
timeout_transaction e = record {
  id = join sep ("timeout" ∷ e.key ∷ shown_time e.latest_attempt_time ∷ []);
  peer_key = e.peer_key;
  identity = e.identity;
  requester = e.requester;
  nameserver = e.nameserver;
  dns_id = e.dns_id;
  name = e.name;
  qtype = e.qtype;
  qtype_raw = e.qtype_raw;
  state = no_response;
  first_request_time = e.first_request_time;
  latest_attempt_time = e.latest_attempt_time;
  response_time = none;
  attempt_count = e.attempt_count;
  retry_count = e.attempt_count - 1;
  latency_ns = none;
  rcode = none;
  rcode_raw = none;
  answers = none;
  num_answers = none;
  requester_meta = e.requester_meta;
  resolver_meta = e.resolver_meta;
  requester_k8s = e.requester_k8s;
  resolver_k8s = e.resolver_k8s;
}
