-- ===== src/Dns/Correlate/Conserve.antt =====
-- No request and no response is lost or counted twice by the correlation.
use ig_desktop.Prelude.{
  ℕ, ◌+◌, ◌≡◌, refl, ap, String, Bool, true, false, Option, none, some, List, [], ◌∷◌, ◌||◌, arith,
  total, total-append, length, length-append, bit, not,
}
use ig_desktop.Prelude.Int.{ℤ}
use ig_desktop.Prelude.Assoc.{
  lookup, values, IsMap, insert-IsMap, delete-IsMap, weight, weight?, weight-insert, weight-delete,
  total-values,
}
use ig_desktop.Prelude.Sort.{total-sort, length-sort}
use ig_desktop.Js.{Event}
use ig_desktop.Dns.Types.{DnsFieldConfig, DnsCorrelationResult}
use ig_desktop.Dns.Parse.{ParsedDnsEvent, parse_dns_event, build_key}
use ig_desktop.Dns.Entries.{
  PendingDnsRequest, timeout_ns, ambiguous_transaction, new_pending, retried, matched_transaction,
  orphan_transaction,
}
use ig_desktop.Dns.Correlate.{
  State, start, request_with, response_with, shift_pending, dispatch, handle, correlate,
  dedupe_and_sort, swept, sorted, newer, compute_dns_correlation,
}
use ig_desktop.Dns.Correlate.Sweep.{attempts, tries, waiting_tries, sweep-Swept}

abbrev pub list_tries : List PendingDnsRequest → ℕ
list_tries = total tries

-- The requests that a state accounts for: the attempts of its transactions and of what is pending.
abbrev pub accounted : State → ℕ
accounted s = total attempts s.transactions + weight list_tries s.pending

module _ (timeout : ℤ) (key : String) (p : ParsedDnsEvent) (s : State) where
  request_with-accounted :
      (o : Option (List PendingDnsRequest))
      → lookup key s.pending ≡ o
      → accounted (request_with timeout key p s o) ≡ accounted s + 1
  unfolding request_with retried new_pending
  request_with-accounted none e =
      let new = new_pending timeout key p ∷ [] in
      omega (arith, weight-insert list_tries key new s.pending, ap (weight? list_tries) e)
  request_with-accounted (some []) e =
      let new = new_pending timeout key p ∷ [] in
      omega (arith, weight-insert list_tries key new s.pending, ap (weight? list_tries) e)
  request_with-accounted (some (x ∷ xs)) e =
      let new = retried timeout p x ∷ xs in
      omega (arith, weight-insert list_tries key new s.pending, ap (weight? list_tries) e)

  weight-shift_pending :
      (x : PendingDnsRequest) (xs : List PendingDnsRequest)
      → IsMap s.pending
      → lookup key s.pending ≡ some (x ∷ xs)
      → weight list_tries (shift_pending key xs s.pending) + tries x ≡ weight list_tries s.pending
  unfolding shift_pending
  weight-shift_pending x [] h e =
      omega (arith, weight-delete list_tries key s.pending h, ap (weight? list_tries) e)
  weight-shift_pending x (y ∷ ys) h e =
      omega (arith, weight-insert list_tries key (y ∷ ys) s.pending, ap (weight? list_tries) e)

  response_with-accounted :
      (o : Option (List PendingDnsRequest))
      → IsMap s.pending
      → lookup key s.pending ≡ o
      → accounted (response_with key p s o) ≡ accounted s
  unfolding response_with matched_transaction orphan_transaction
  response_with-accounted none h e =
      omega (arith, total-append attempts s.transactions (orphan_transaction key p ∷ []))
  response_with-accounted (some []) h e =
      omega (arith, total-append attempts s.transactions (orphan_transaction key p ∷ []))
  response_with-accounted (some (x ∷ xs)) h e = omega (
    arith,
    total-append attempts s.transactions (matched_transaction key p x ∷ []),
    weight-shift_pending x xs h e,
  )

  request_with-IsMap :
      (o : Option (List PendingDnsRequest))
      → IsMap s.pending
      → IsMap (request_with timeout key p s o).pending
  unfolding request_with
  request_with-IsMap none h = insert-IsMap key _ s.pending h
  request_with-IsMap (some []) h = insert-IsMap key _ s.pending h
  request_with-IsMap (some (x ∷ xs)) h = insert-IsMap key _ s.pending h

  response_with-IsMap :
      (o : Option (List PendingDnsRequest))
      → IsMap s.pending
      → IsMap (response_with key p s o).pending
  unfolding response_with shift_pending
  response_with-IsMap none h = h
  response_with-IsMap (some []) h = h
  response_with-IsMap (some (x ∷ [])) h = delete-IsMap key s.pending h
  response_with-IsMap (some (x ∷ y ∷ ys)) h = insert-IsMap key (y ∷ ys) s.pending h

  request_with-transactions :
      (o : Option (List PendingDnsRequest))
      → (request_with timeout key p s o).transactions ≡ s.transactions
  unfolding request_with
  request_with-transactions none = refl
  request_with-transactions (some []) = refl
  request_with-transactions (some (x ∷ xs)) = refl

  response_with-length :
      (o : Option (List PendingDnsRequest))
      → length (response_with key p s o).transactions ≡ length s.transactions + 1
  unfolding response_with
  response_with-length none = length-append s.transactions _
  response_with-length (some []) = length-append s.transactions _
  response_with-length (some (x ∷ xs)) = length-append s.transactions _

-- What one event adds: an attempt if it is a request, and a transaction at once unless it is a
-- request that can be matched.
abbrev pub is_request : ParsedDnsEvent → Bool
is_request p = not p.is_response

abbrev pub is_immediate : ParsedDnsEvent → Bool
is_immediate p = p.ambiguous || p.is_response

record Step (p : ParsedDnsEvent) (s t : State) : Type 0 where
  is_map : IsMap t.pending
  requests : accounted t ≡ accounted s + bit (is_request p)
  entries : length t.transactions ≡ length s.transactions + bit (is_immediate p)

attempts-ambiguous :
    (p : ParsedDnsEvent) (n : ℕ) → attempts (ambiguous_transaction p n) ≡ bit (is_request p)
unfolding ambiguous_transaction
attempts-ambiguous p n = ground arith

dispatch-Step :
    (a r : Bool) (timeout : ℤ) (key : String) (p : ParsedDnsEvent) (s : State)
    → p.ambiguous ≡ a
    → p.is_response ≡ r
    → IsMap s.pending
    → Step p s (dispatch a r timeout key p s)
unfolding dispatch
dispatch-Step true r timeout key p s ea er h =
    let t = ambiguous_transaction p (length s.transactions) in
    record {
      is_map = h;
      requests = omega (
        arith,
        total-append attempts s.transactions (t ∷ []),
        attempts-ambiguous p (length s.transactions),
      );
      entries = ground (arith, length-append s.transactions (t ∷ []));
    }
dispatch-Step false true timeout key p s ea er h =
    let o = lookup key s.pending in
    record {
      is_map = response_with-IsMap timeout key p s o h;
      requests = ground (arith, response_with-accounted timeout key p s o h refl);
      entries = ground (arith, response_with-length timeout key p s o);
    }
dispatch-Step false false timeout key p s ea er h =
    let o = lookup key s.pending in
    record {
      is_map = request_with-IsMap timeout key p s o h;
      requests = ground (arith, request_with-accounted timeout key p s o refl);
      entries = ground (arith, ap length (request_with-transactions timeout key p s o));
    }

-- Sums over the events that parse.
abbrev pub of_event : (ParsedDnsEvent → Bool) → DnsFieldConfig → Event → ℕ
of_event f config event = elim (parse_dns_event event config) [ none ↦ 0 | some p ↦ bit (f p) ]

-- How many of the events are requests, and how many are shown at once.
abbrev pub requests_in : DnsFieldConfig → List Event → ℕ
requests_in config = total (of_event is_request config)

abbrev pub immediate_in : DnsFieldConfig → List Event → ℕ
immediate_in config = total (of_event is_immediate config)

record Ran (n k : ℕ) (s t : State) : Type 0 where
  is_map : IsMap t.pending
  requests : accounted t ≡ accounted s + n
  entries : length t.transactions ≡ length s.transactions + k

event-Ran :
    (timeout : ℤ) (o : Option ParsedDnsEvent) (s : State)
    → IsMap s.pending
    → Ran
        (elim o [ none ↦ 0 | some p ↦ bit (is_request p) ])
        (elim o [ none ↦ 0 | some p ↦ bit (is_immediate p) ])
        s
        (elim o [ none ↦ s | some p ↦ handle timeout p s ])
event-Ran timeout none s h = record { is_map = h; requests = omega arith; entries = omega arith }
event-Ran timeout (some p) s h =
    unfold handle in
    let k = dispatch-Step p.ambiguous p.is_response timeout (build_key p) p s refl refl h in
    record { is_map = k.is_map; requests = k.requests; entries = k.entries }

correlate-Ran :
    (timeout : ℤ) (config : DnsFieldConfig) (events : List Event) (s : State)
    → IsMap s.pending
    → Ran
        (requests_in config events)
        (immediate_in config events)
        s
        (correlate timeout config events s)
unfolding correlate
correlate-Ran timeout config [] s h = record {
  is_map = h;
  requests = omega arith;
  entries = omega arith;
}
correlate-Ran timeout config (event ∷ events) s h =
    let o = parse_dns_event event config in
    let a = event-Ran timeout o s h in
    let b =
      correlate-Ran timeout config events (elim o [ none ↦ s | some p ↦ handle timeout p s ])
        a.is_map in
    record {
      is_map = b.is_map;
      requests = omega (arith, a.requests, b.requests);
      entries = omega (arith, a.entries, b.entries);
    }

-- The state after the loop of `computeDnsCorrelation`.
abbrev pub final : List Event → DnsFieldConfig → ℤ → State
final events config timeout_ms =
    correlate (timeout_ns timeout_ms) config (dedupe_and_sort events config) start

start-Ran :
    (events : List Event) (config : DnsFieldConfig) (timeout_ms : ℤ)
    → Ran
        (requests_in config (dedupe_and_sort events config))
        (immediate_in config (dedupe_and_sort events config))
        start
        (final events config timeout_ms)
start-Ran events config timeout_ms =
    correlate-Ran (timeout_ns timeout_ms) config (dedupe_and_sort events config) start
      (unfold start in tt)

module _ (events : List Event) (config : DnsFieldConfig) (now timeout_ms : ℤ) where
  -- Every request that was read is in exactly one attempt count: the attempts of the transactions,
  -- with those of the requests that stay pending, add up to the number of requests.
  pub attempts_conserved :
      total attempts (compute_dns_correlation events config now timeout_ms).transactions
        + total (total (waiting_tries now)) (values (final events config timeout_ms).pending)
      ≡ requests_in config (dedupe_and_sort events config)
  unfolding compute_dns_correlation swept sorted start
  attempts_conserved =
      let s = final events config timeout_ms in
      let r : DnsCorrelationResult = record {
        transactions = s.transactions;
        pending_count = 0;
        next_deadline = none;
      } in
      omega (
        arith,
        total-sort newer attempts (swept now s).transactions,
        (sweep-Swept now (values s.pending) r).moved,
        total-values list_tries s.pending,
        (start-Ran events config timeout_ms).requests,
      )

  -- Each response and each ambiguous packet is one transaction, and each request that is left over is
  -- one transaction or counted as pending.
  pub transactions_counted :
      length (compute_dns_correlation events config now timeout_ms).transactions
        + (compute_dns_correlation events config now timeout_ms).pending_count
      ≡ immediate_in config (dedupe_and_sort events config)
        + total length (values (final events config timeout_ms).pending)
  unfolding compute_dns_correlation swept sorted start
  transactions_counted =
      let s = final events config timeout_ms in
      let r : DnsCorrelationResult = record {
        transactions = s.transactions;
        pending_count = 0;
        next_deadline = none;
      } in
      omega (
        arith,
        length-sort newer (swept now s).transactions,
        (sweep-Swept now (values s.pending) r).entries,
        (start-Ran events config timeout_ms).entries,
      )
