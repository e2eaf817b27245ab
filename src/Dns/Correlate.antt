-- ===== src/Dns/Correlate.antt =====
-- `computeDnsCorrelation` of frontend/src/lib/utils/dns/dnsCorrelator.ts: requests wait in a map of
-- lists, by key, until a response or the deadline turns them into transactions.
pub mod Conserve
pub mod Sweep
pub mod Deadline
pub mod Sound
pub mod Exchange
pub mod Dedupe
use ig_desktop.Prelude.{
  ℕ, ◌+◌, String, Bool, true, false, ◌||◌, Option, none, some, List, [], ◌∷◌, ◌++◌, map,
  if◌then◌else◌, coalesce, or_default, length, ltb,
}
use ig_desktop.Prelude.Int.{ℤ, pos, ltb_ℤ, leb_ℤ, eqb_ℤ}
use ig_desktop.Prelude.Assoc.{lookup, insert, delete, values}
use ig_desktop.Prelude.Sort.{sort}
use ig_desktop.Js.{Event, Value, num, field}
use ig_desktop.Dns.Types.{DnsTransaction, DnsFieldConfig, DnsCorrelationResult}
use ig_desktop.Dns.Address.{resolve_event_time}
use ig_desktop.Dns.Parse.{ParsedDnsEvent, parse_dns_event, build_key}
use ig_desktop.Dns.Entries.{
  PendingDnsRequest, timeout_ns, ambiguous_transaction, new_pending, retried, matched_transaction,
  orphan_transaction, timeout_transaction,
}

-- The two variables of the loop.
pub record State : Type 0 where
  pub pending : List (String × List PendingDnsRequest)
  pub transactions : List DnsTransaction

unfoldable pub start : State
start = record { pending = []; transactions = [] }

-- `transactions.push(t)`.
abbrev pub emit : DnsTransaction → State → State
emit t s = record s { transactions = s.transactions ++ t ∷ [] }

-- The branch of a request, by the list that is pending under its key.
unfoldable pub request_with :
    ℤ → String → ParsedDnsEvent → State → Option (List PendingDnsRequest) → State
unfolding retried new_pending insert
request_with timeout key p s (some (e ∷ es)) = record s {
  pending = insert key (retried timeout p e ∷ es) s.pending;
}
request_with timeout key p s _ = record s {
  pending = insert key (new_pending timeout key p ∷ []) s.pending;
}

-- `list.shift()`, and `pending.delete(key)` when nothing is left.
unfoldable pub shift_pending :
    String
    → List PendingDnsRequest
    → List (String × List PendingDnsRequest)
    → List (String × List PendingDnsRequest)
unfolding insert delete
shift_pending key [] m = delete key m
shift_pending key (e ∷ es) m = insert key (e ∷ es) m

-- The branch of a response.
unfoldable pub response_with :
    String → ParsedDnsEvent → State → Option (List PendingDnsRequest) → State
unfolding matched_transaction orphan_transaction shift_pending
response_with key p s (some (e ∷ es)) =
    emit (matched_transaction key p e) (record s { pending = shift_pending key es s.pending })
response_with key p s _ = emit (orphan_transaction key p) s

-- The three ways of one parsed event: ambiguous, a response, a request.
unfoldable pub dispatch : Bool → Bool → ℤ → String → ParsedDnsEvent → State → State
unfolding ambiguous_transaction request_with response_with lookup
dispatch true is_response timeout key p s = emit (ambiguous_transaction p (length s.transactions)) s
dispatch false true timeout key p s = response_with key p s (lookup key s.pending)
dispatch false false timeout key p s = request_with timeout key p s (lookup key s.pending)

unfoldable pub handle : ℤ → ParsedDnsEvent → State → State
unfolding dispatch build_key
handle timeout p s = dispatch p.ambiguous p.is_response timeout (build_key p) p s

-- The loop over the ordered events; one that does not parse is skipped.
unfoldable pub correlate : ℤ → DnsFieldConfig → List Event → State → State
unfolding handle parse_dns_event
correlate timeout config [] s = s
correlate timeout config (event ∷ events) s =
    correlate timeout config events
      (elim (parse_dns_event event config) [ none ↦ s | some p ↦ handle timeout p s ])

-- What `dedupeAndSort` keeps of an event.
pub record Item : Type 0 where
  pub event : Event
  pub ts : Option ℤ
  pub msg_id : ℤ
  pub idx : ℕ

abbrev pub number_of : Value → Option ℤ
number_of (num n) = some n
number_of _ = none

unfoldable pub msg_id_of : Event → Option ℤ
unfolding field
msg_id_of event = number_of (field "msgID" event)

unfoldable pub contains_id : ℤ → List ℤ → Bool
contains_id id [] = false
contains_id id (x ∷ xs) = eqb_ℤ x id || contains_id id xs

abbrev pub item_of : DnsFieldConfig → Event → ℕ → Option ℤ → Item
item_of config event idx id = record {
  event = event;
  ts = resolve_event_time event config;
  msg_id = or_default id (pos idx);
  idx = idx;
}

-- One round of the loop of `dedupeAndSort`: an event whose `msgID` was seen is dropped. `rest` is
-- the loop over the other events, from the ids seen.
unfoldable pub collect_next :
    DnsFieldConfig → Event → ℕ → Option ℤ → List ℤ → (List ℤ → List Item) → List Item
unfolding contains_id resolve_event_time
collect_next config event idx none seen rest = item_of config event idx none ∷ rest seen
collect_next config event idx (some id) seen rest =
    if contains_id id seen then rest seen else item_of config event idx (some id) ∷ rest (id ∷ seen)

unfoldable pub collect : DnsFieldConfig → List Event → ℕ → List ℤ → List Item
unfolding collect_next msg_id_of
collect config [] idx seen = []
collect config (event ∷ events) idx seen =
    collect_next config event idx (msg_id_of event) seen
      (λ seen'. collect config events (idx + 1) seen')

abbrev pub id_before : Item → Item → Bool
id_before a b = if eqb_ℤ a.msg_id b.msg_id then ltb a.idx b.idx else ltb_ℤ a.msg_id b.msg_id

abbrev pub time_before : Option ℤ → Option ℤ → Bool → Bool
time_before (some s) (some t) otherwise = if eqb_ℤ s t then otherwise else ltb_ℤ s t
time_before _ _ otherwise = otherwise

-- The comparison of `dedupeAndSort`: by time where both are known and differ, then by id, then by
-- position.
unfoldable pub item_before : Item → Item → Bool
item_before a b = time_before a.ts b.ts (id_before a b)

unfoldable pub dedupe_and_sort : List Event → DnsFieldConfig → List Event
unfolding collect item_before sort
dedupe_and_sort events config = map (λ i. i.event) (sort item_before (collect config events 0 []))

-- `sortTime`, with `primaryTime` of dnsFormat.ts.
unfoldable pub primary_time : DnsTransaction → Option ℤ
primary_time t = coalesce t.first_request_time t.response_time

unfoldable pub sort_time : DnsTransaction → ℤ
unfolding primary_time
sort_time t = or_default (primary_time t) (pos 0)

unfoldable pub newer : DnsTransaction → DnsTransaction → Bool
unfolding sort_time
newer a b = ltb_ℤ (sort_time b) (sort_time a)

unfoldable pub is_expired : ℤ → Option ℤ → Bool
is_expired now none = false
is_expired now (some deadline) = leb_ℤ deadline now

abbrev pub sooner : Option ℤ → Option ℤ → Option ℤ
sooner next none = next
sooner none (some d) = some d
sooner (some n) (some d) = if ltb_ℤ d n then some d else some n

-- One pending request of the final sweep.
unfoldable pub sweep_entry : ℤ → PendingDnsRequest → DnsCorrelationResult → DnsCorrelationResult
unfolding is_expired timeout_transaction
sweep_entry now e r =
    if is_expired now e.deadline
    then record r { transactions = r.transactions ++ timeout_transaction e ∷ [] }
    else record r {
      pending_count = r.pending_count + 1;
      next_deadline = sooner r.next_deadline e.deadline;
    }

unfoldable pub sweep_list : ℤ → List PendingDnsRequest → DnsCorrelationResult → DnsCorrelationResult
unfolding sweep_entry
sweep_list now [] r = r
sweep_list now (e ∷ es) r = sweep_list now es (sweep_entry now e r)

unfoldable pub sweep :
    ℤ → List (List PendingDnsRequest) → DnsCorrelationResult → DnsCorrelationResult
unfolding sweep_list
sweep now [] r = r
sweep now (l ∷ ls) r = sweep now ls (sweep_list now l r)

-- The sweep of a state, before the transactions are sorted.
unfoldable pub swept : ℤ → State → DnsCorrelationResult
unfolding sweep values
swept now s =
    sweep now (values s.pending)
      (record { transactions = s.transactions; pending_count = 0; next_deadline = none })

unfoldable pub sorted : DnsCorrelationResult → DnsCorrelationResult
unfolding sort newer
sorted r = record r { transactions = sort newer r.transactions }

unfoldable pub compute_dns_correlation : List Event → DnsFieldConfig → ℤ → ℤ → DnsCorrelationResult
unfolding correlate dedupe_and_sort swept sorted start timeout_ns
compute_dns_correlation events config now timeout_ms =
    sorted
      (swept now (correlate (timeout_ns timeout_ms) config (dedupe_and_sort events config) start))
