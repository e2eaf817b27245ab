-- ===== src/Dns/Severity.antt =====
-- frontend/src/lib/utils/dns/dnsSeverity.ts: how bad a transaction is, and the counts shown for a set
-- of them.
pub mod Laws
use ig_desktop.Prelude.{
  ℕ, ◌+◌, ◌*◌, String, Bool, true, false, ◌||◌, Option, none, some, List, [], ◌∷◌, if◌then◌else◌,
  str_eq, leb, ltb, length, bit, coalesce,
}
use ig_desktop.Prelude.Int.{ℤ, pos, ltb_ℤ, leb_ℤ, eqb_ℤ}
use ig_desktop.Dns.Types.{
  DnsTransaction, DnsTransactionState, answered, no_response, late_response, orphan_response,
  ambiguous,
}

pub data DnsSeverity : Type 0 where
  error warning info healthy : DnsSeverity

abbrev is_server_error_raw : ℤ → Bool
is_server_error_raw n = eqb_ℤ n (pos 1) || eqb_ℤ n (pos 2) || eqb_ℤ n (pos 4) || eqb_ℤ n (pos 5)

abbrev is_server_error_name : String → Bool
is_server_error_name s =
    str_eq s "FormatError"
    || str_eq s "ServerFailure"
    || str_eq s "NotImplemented"
    || str_eq s "Refused"

-- The empty name is no member of the set, so the test that it is truthy needs no case.
unfoldable pub is_server_error_rcode : Option ℤ → Option String → Bool
is_server_error_rcode (some n) rcode = is_server_error_raw n
is_server_error_rcode none (some s) = is_server_error_name s
is_server_error_rcode none none = false

unfoldable pub is_nx_domain_rcode : Option ℤ → Option String → Bool
is_nx_domain_rcode (some n) rcode = eqb_ℤ n (pos 3)
is_nx_domain_rcode none (some s) = str_eq s "NameError"
is_nx_domain_rcode none none = false

-- `(timeoutMs / 10) * 1e6`, for a timeout in whole milliseconds.
unfoldable pub slow_threshold_ns : ℕ → ℕ
slow_threshold_ns timeout_ms = timeout_ms * 100000

abbrev pub is_no_response : DnsTransactionState → Bool
is_no_response no_response = true
is_no_response _ = false

abbrev pub is_late_response : DnsTransactionState → Bool
is_late_response late_response = true
is_late_response _ = false

abbrev pub is_unmatched : DnsTransactionState → Bool
is_unmatched orphan_response = true
is_unmatched ambiguous = true
is_unmatched _ = false

unfoldable pub is_slow : Option ℤ → ℕ → Bool
is_slow none slow_ns = false
is_slow (some latency) slow_ns = leb_ℤ (pos slow_ns) latency

-- The ladder of `transactionSeverity`, the most severe first.
unfoldable pub transaction_severity : DnsTransaction → ℕ → DnsSeverity
unfolding is_server_error_rcode is_nx_domain_rcode is_slow
transaction_severity txn slow_ns =
    if is_no_response txn.state || is_server_error_rcode txn.rcode_raw txn.rcode
    then error
    else if is_late_response txn.state || ltb 0 txn.retry_count || is_slow txn.latency_ns slow_ns
    then warning
    else if is_nx_domain_rcode txn.rcode_raw txn.rcode || is_unmatched txn.state
    then info
    else healthy

abbrev pub rank : DnsSeverity → ℕ
rank healthy = 0
rank info = 1
rank warning = 2
rank error = 3

unfoldable pub worse_severity : DnsSeverity → DnsSeverity → DnsSeverity
worse_severity a b = if leb (rank b) (rank a) then a else b

pub record DnsSeverityCounts : Type 0 where
  pub total : ℕ
  pub error_count : ℕ
  pub warning_count : ℕ
  pub info_count : ℕ
  pub healthy_count : ℕ
  pub timeout_count : ℕ
  pub server_error_count : ℕ
  pub nxdomain_count : ℕ
  pub retrying_count : ℕ
  pub late_count : ℕ
  pub slow_count : ℕ
  pub worst_latency_ns : Option ℤ
  pub recent_latency_ns : Option ℤ
  pub severity : DnsSeverity

unfoldable pub no_counts : ℕ → DnsSeverityCounts
no_counts n = record {
  total = n;
  error_count = 0;
  warning_count = 0;
  info_count = 0;
  healthy_count = 0;
  timeout_count = 0;
  server_error_count = 0;
  nxdomain_count = 0;
  retrying_count = 0;
  late_count = 0;
  slow_count = 0;
  worst_latency_ns = none;
  recent_latency_ns = none;
  severity = healthy;
}

-- `switch (s)`: the one counter that a severity raises.
unfoldable pub count_severity : DnsSeverity → DnsSeverityCounts → DnsSeverityCounts
count_severity error c = record c { error_count = c.error_count + 1 }
count_severity warning c = record c { warning_count = c.warning_count + 1 }
count_severity info c = record c { info_count = c.info_count + 1 }
count_severity healthy c = record c { healthy_count = c.healthy_count + 1 }

abbrev pub worst : Option ℤ → Option ℤ → Option ℤ
worst w none = w
worst none (some l) = some l
worst (some w) (some l) = if ltb_ℤ w l then some l else some w

-- The counters of the reasons, which one transaction may raise several of.
unfoldable pub count_reasons : DnsTransaction → ℕ → DnsSeverityCounts → DnsSeverityCounts
unfolding is_server_error_rcode is_nx_domain_rcode is_slow
count_reasons txn slow_ns c = record c {
  timeout_count = c.timeout_count + bit (is_no_response txn.state);
  server_error_count = c.server_error_count + bit (is_server_error_rcode txn.rcode_raw txn.rcode);
  nxdomain_count = c.nxdomain_count + bit (is_nx_domain_rcode txn.rcode_raw txn.rcode);
  retrying_count = c.retrying_count + bit (ltb 0 txn.retry_count);
  late_count = c.late_count + bit (is_late_response txn.state);
  slow_count = c.slow_count + bit (is_slow txn.latency_ns slow_ns);
  worst_latency_ns = worst c.worst_latency_ns txn.latency_ns;
  recent_latency_ns = coalesce c.recent_latency_ns txn.latency_ns;
}

-- One round of the loop of `summarizeDnsSeverity`.
unfoldable pub add_transaction : ℕ → DnsTransaction → DnsSeverityCounts → DnsSeverityCounts
unfolding count_severity count_reasons transaction_severity worse_severity
add_transaction slow_ns txn c =
    let s = transaction_severity txn slow_ns in
    count_reasons txn slow_ns
      (count_severity s (record c { severity = worse_severity c.severity s }))

unfoldable pub add_transactions : ℕ → List DnsTransaction → DnsSeverityCounts → DnsSeverityCounts
unfolding add_transaction
add_transactions slow_ns [] c = c
add_transactions slow_ns (txn ∷ txns) c =
    add_transactions slow_ns txns (add_transaction slow_ns txn c)

unfoldable pub summarize_dns_severity : List DnsTransaction → ℕ → DnsSeverityCounts
unfolding add_transactions no_counts slow_threshold_ns
summarize_dns_severity txns timeout_ms =
    add_transactions (slow_threshold_ns timeout_ms) txns (no_counts (length txns))

pub record DnsPrimaryReason : Type 0 where
  pub count : ℕ
  pub label_key : String

abbrev reason : ℕ → String → Option DnsPrimaryReason
reason n label = some (record { count = n; label_key = label })

-- `primarySeverityReason`: the first reason in the order of priority that occurs.
unfoldable pub primary_severity_reason : DnsSeverityCounts → Option DnsPrimaryReason
primary_severity_reason c =
    if ltb 0 c.server_error_count
    then reason c.server_error_count "{{count}} server error"
    else if ltb 0 c.timeout_count
    then reason c.timeout_count "{{count}} timeout"
    else if ltb 0 c.nxdomain_count
    then reason c.nxdomain_count "{{count}} NXDOMAIN"
    else if ltb 0 c.retrying_count
    then reason c.retrying_count "{{count}} retrying"
    else if ltb 0 c.late_count
    then reason c.late_count "{{count}} late"
    else if ltb 0 c.slow_count
    then reason c.slow_count "{{count}} slow"
    else none
