-- ===== src/Dns/Tests.antt =====
-- The DNS correlation at concrete events, and its theorems applied to them.
use ig_desktop.Prelude.{
  ℕ, ◌+◌, ◌≡◌, refl, String, true, false, Option, none, some, List, [], ◌∷◌, ◌++◌, map, length,
  total, min, All,
}
use ig_desktop.Prelude.Int.{ℤ, pos}
use ig_desktop.Prelude.Assoc.{values, lookup}
use ig_desktop.Prelude.Sort.{IsSorted}
use ig_desktop.Js.{Event, num, str, field}
use ig_desktop.Dns.Types.{
  DnsFieldConfig, DnsTransaction, DnsTransactionState, answered, no_response,
}
use ig_desktop.Dns.Address.{is_multicast_or_broadcast, number_at}
use ig_desktop.Dns.Parse.{ParsedDnsEvent, parse_dns_event, parsed, build_key, build_identity}
use ig_desktop.Dns.Parse.Mirror.{AreMirrored, build_key_mirrored}
use ig_desktop.Dns.Entries.{timeout_ns}
use ig_desktop.Dns.Correlate.{
  start, handle, correlate, dedupe_and_sort, newer, compute_dns_correlation,
}
use ig_desktop.Dns.Correlate.Conserve.{
  attempts_conserved, transactions_counted, final, requests_in, immediate_in,
}
use ig_desktop.Dns.Correlate.Sweep.{attempts, waiting_tries}
use ig_desktop.Dns.Correlate.Sound.{IsSound, compute_dns_correlation-IsSound}
use ig_desktop.Dns.Correlate.Deadline.{IsAfter, AtMost, open_deadline, next_deadline_least}
use ig_desktop.Dns.Correlate.Exchange.{handle_all, handle-exchange}
use ig_desktop.Dns.Correlate.Dedupe.{count_id, count_no_id, dedupe_and_sort-counts}
use ig_desktop.Dns.Severity.{summarize_dns_severity}
use ig_desktop.Dns.Severity.Laws.{
  IsConsistent, classified, highest, summarize_dns_severity-IsConsistent,
}

abbrev config : DnsFieldConfig
config = record {
  id_field = "id";
  qr_field = "qr_raw";
  name_field = "name";
  qtype_field = "qtype_raw";
  qtype_display_field = none;
  src_addr_field = "src.addr";
  src_port_field = some "src.port";
  dst_addr_field = "dst.addr";
  dst_port_field = some "dst.port";
  proto_field = none;
  timestamp_field = some "timestamp_raw";
  latency_field = none;
  rcode_field = none;
  rcode_display_field = none;
  num_answers_field = none;
  addresses_field = none;
  pkt_type_field = none;
  pkt_type_display_field = none;
  identity_fields = [];
  k8s_node_field = none;
  k8s_namespace_field = none;
  k8s_pod_name_field = none;
  k8s_container_name_field = none;
  runtime_container_id_field = none;
  runtime_container_name_field = none;
  runtime_name_field = none;
  netns_id_field = none;
  src_k8s_kind_field = none;
  src_k8s_name_field = none;
  src_k8s_namespace_field = none;
  dst_k8s_kind_field = none;
  dst_k8s_name_field = none;
  dst_k8s_namespace_field = none;
}

abbrev packet : ℕ → ℕ → String → ℕ → String → ℕ → ℕ → Event
packet qr msg src sport dst dport time =
    ("msgID", num (pos msg))
    ∷ ("id", str "1a2b")
    ∷ ("qr_raw", num (pos qr))
    ∷ ("name", str "Example.org.")
    ∷ ("qtype_raw", num (pos 1))
    ∷ ("src.addr", str src)
    ∷ ("src.port", num (pos sport))
    ∷ ("dst.addr", str dst)
    ∷ ("dst.port", num (pos dport))
    ∷ ("timestamp_raw", num (pos time))
    ∷ []

abbrev asked : ℕ → ℕ → Event
asked msg time = packet 0 msg "10.0.0.1" 4000 "10.0.0.53" 53 time

abbrev replied : ℕ → ℕ → Event
replied msg time = packet 1 msg "10.0.0.53" 53 "10.0.0.1" 4000 time

-- A request that is sent twice and then answered, with one message seen twice.
abbrev events : List Event
events = replied 3 3000000000 ∷ asked 1 1000000000 ∷ asked 1 1000000000 ∷ asked 2 2000000000 ∷ []

one_exchange :
    map {B = DnsTransactionState × ℕ × Option ℤ}
      (λ t. (t.state, t.attempt_count, t.latency_ns))
      (compute_dns_correlation events config (pos 4000000000) (pos 5000)).transactions
    ≡ (answered, 2, some (pos 2000000000)) ∷ []
unfolding compute_dns_correlation
one_exchange = refl

times_out :
    map {B = DnsTransactionState × ℕ}
      (λ t. (t.state, t.attempt_count))
      (compute_dns_correlation
        (asked 1 1000000000 ∷ [])
        config
        (pos 6000000000)
        (pos 5000)).transactions
    ≡ (no_response, 1) ∷ []
unfolding compute_dns_correlation
times_out = refl

multicast_addresses :
    (is_multicast_or_broadcast "239.1.2.3" ≡ true)
    × (is_multicast_or_broadcast "240.1.2.3" ≡ false)
    × (is_multicast_or_broadcast "[FF02::fb]" ≡ true)
    × (is_multicast_or_broadcast "fe80::1%eth0" ≡ false)
unfolding is_multicast_or_broadcast
multicast_addresses = (refl, refl, refl, refl)

attempts_conserved_example :
    total attempts (compute_dns_correlation events config (pos 0) (pos 5000)).transactions
      + total (total (waiting_tries (pos 0))) (values (final events config (pos 5000)).pending)
    ≡ requests_in config (dedupe_and_sort events config)
attempts_conserved_example = attempts_conserved events config (pos 0) (pos 5000)

transactions_counted_example :
    length (compute_dns_correlation events config (pos 0) (pos 5000)).transactions
      + (compute_dns_correlation events config (pos 0) (pos 5000)).pending_count
    ≡ immediate_in config (dedupe_and_sort events config)
      + total length (values (final events config (pos 5000)).pending)
transactions_counted_example = transactions_counted events config (pos 0) (pos 5000)

compute_dns_correlation-IsSound_example :
    All
      (IsSound (timeout_ns (pos 5000)) (pos 9))
      (compute_dns_correlation events config (pos 9) (pos 5000)).transactions
    × IsSorted newer (compute_dns_correlation events config (pos 9) (pos 5000)).transactions
compute_dns_correlation-IsSound_example =
    compute_dns_correlation-IsSound events config (pos 9) (pos 5000)

-- Two requests of different ports that have no response yet.
abbrev unanswered : List Event
unanswered = asked 1 1000000000 ∷ packet 0 2 "10.0.0.1" 4001 "10.0.0.53" 53 2000000000 ∷ []

two_pending :
    ((compute_dns_correlation unanswered config (pos 3000000000) (pos 5000)).next_deadline
      ≡ some (pos 6000000000))
    × ((compute_dns_correlation unanswered config (pos 3000000000) (pos 5000)).pending_count ≡ 2)
unfolding compute_dns_correlation
two_pending = (refl, refl)

next_deadline_least_example :
    IsAfter
      (pos 3000000000)
      (compute_dns_correlation unanswered config (pos 3000000000) (pos 5000)).next_deadline
    × All
        (All (λ e.
          AtMost
            (compute_dns_correlation unanswered config (pos 3000000000) (pos 5000)).next_deadline
            (open_deadline (pos 3000000000) e)))
        (values
          (correlate
            (timeout_ns (pos 5000))
            config
            (dedupe_and_sort unanswered config)
            start).pending)
next_deadline_least_example = next_deadline_least unanswered config (pos 3000000000) (pos 5000)

dedupe_and_sort-counts_example :
    (count_id (pos 1) (dedupe_and_sort events config) ≡ min 1 (count_id (pos 1) events))
    × (count_no_id (dedupe_and_sort events config) ≡ count_no_id events)
dedupe_and_sort-counts_example = dedupe_and_sort-counts events config (pos 1)

abbrev request : ParsedDnsEvent
unfolding parsed
request = parsed (asked 1 1000000000) config false

abbrev response : ParsedDnsEvent
unfolding parsed
response = parsed (replied 3 3000000000) config true

mirrored : AreMirrored config (asked 1 1000000000) (replied 3 3000000000)
unfolding field number_at build_identity
mirrored = record {
  src_addr = refl;
  dst_addr = refl;
  src_port = refl;
  dst_port = refl;
  id = refl;
  name = refl;
  qtype = refl;
  identity = refl;
}

build_key_mirrored_example :
    (request.requester ≡ response.requester)
    × (request.nameserver ≡ response.nameserver)
    × (build_key request ≡ build_key response)
unfolding parse_dns_event
build_key_mirrored_example =
    build_key_mirrored config (asked 1 1000000000) (replied 3 3000000000) request response mirrored
      refl refl refl refl

handle-exchange_example :
    let u = handle (pos 5) response (handle_all (pos 5) (request ∷ request ∷ []) start) in
    (t : DnsTransaction) × (u.transactions ≡ start.transactions ++ t ∷ [])
    × (lookup (build_key request) u.pending ≡ none)
    × (t.attempt_count ≡ 1 + 1)
    × (t.first_request_time ≡ request.timestamp)
    × (t.response_time ≡ response.timestamp)
unfolding start lookup build_key parsed
handle-exchange_example =
    handle-exchange (pos 5) (build_key request) request (request ∷ []) response start
      (
        record { own_key = refl; unambiguous = refl; direction = refl },
        (record { own_key = refl; unambiguous = refl; direction = refl }, tt),
      )
      (record { own_key = refl; unambiguous = refl; direction = refl }) refl

abbrev pub retried_transaction : DnsTransaction
retried_transaction = record {
  id = "t";
  peer_key = "k";
  identity = "";
  requester = record { addr = "10.0.0.1"; port = pos 4000 };
  nameserver = record { addr = "10.0.0.53"; port = pos 53 };
  dns_id = "1";
  name = "example.org";
  qtype = "A";
  qtype_raw = some (pos 1);
  state = answered;
  first_request_time = some (pos 1);
  latest_attempt_time = some (pos 2);
  response_time = some (pos 3);
  attempt_count = 2;
  retry_count = 1;
  latency_ns = some (pos 2);
  rcode = none;
  rcode_raw = some (pos 3);
  answers = none;
  num_answers = none;
  requester_meta = none;
  resolver_meta = none;
  requester_k8s = none;
  resolver_k8s = none;
}

summarize_dns_severity-IsConsistent_example :
    let c = summarize_dns_severity (retried_transaction ∷ []) 5000 in
    (classified c ≡ c.total) × (c.total ≡ 1) × (c.severity ≡ highest c) × IsConsistent c
summarize_dns_severity-IsConsistent_example =
    summarize_dns_severity-IsConsistent (retried_transaction ∷ []) 5000
