-- ===== src/Dns/Correlate/Sound.antt =====
-- What every transaction and every pending request of the correlation satisfies.
use mathlib.Core.Path.{subst}
use ig_desktop.Prelude.{
  ℕ, ◌+◌, ◌≤◌, ◌≡◌, refl, ◌⊎◌, String, Bool, true, false, Option, none, some, List, [], ◌∷◌, ◌++◌,
  arith, Bool-cases, inl, inr, length, All, All-append,
}
use ig_desktop.Prelude.Int.{ℤ, ◌≤ℤ◌, ◌<ℤ◌, ltb_ℤ}
use ig_desktop.Prelude.Assoc.{
  lookup, values, AllEntries, AllEntries-lookup, AllEntries-insert, AllEntries-delete,
}
use ig_desktop.Prelude.Sort.{sort-All, sort-IsSorted, IsSorted}
use ig_desktop.Js.{Event}
use ig_desktop.Dns.Types.{
  DnsTransaction, DnsTransactionState, DnsFieldConfig, DnsCorrelationResult, answered, no_response,
  late_response, orphan_response, ambiguous,
}
use ig_desktop.Dns.Parse.{ParsedDnsEvent, parse_dns_event, build_key}
use ig_desktop.Dns.Entries.{
  PendingDnsRequest, timeout_ns, deadline_of, ambiguous_transaction, new_pending, retried, is_late,
  matched_transaction, orphan_transaction, timeout_transaction,
}
use ig_desktop.Dns.Correlate.{
  State, start, request_with, response_with, shift_pending, dispatch, handle, correlate,
  dedupe_and_sort, is_expired, sweep_entry, sweep_list, sweep, swept, sorted, newer,
  compute_dns_correlation,
}

-- The response came by the deadline, where both times are known.
abbrev pub InTime : Option ℤ → Option ℤ → Type 0
InTime (some deadline) (some t) = t ≤ℤ deadline
InTime _ _ = Unit

-- The response came after a known deadline.
abbrev pub IsOverdue : Option ℤ → Option ℤ → Type 0
IsOverdue (some deadline) (some t) = deadline <ℤ t
IsOverdue _ _ = ⊥

-- The deadline is known and has passed.
abbrev pub HasPassed : ℤ → Option ℤ → Type 0
HasPassed now none = ⊥
HasPassed now (some deadline) = deadline ≤ℤ now

module _ (timeout now : ℤ) where
  abbrev pub IsSoundBy : DnsTransactionState → DnsTransaction → Type 0
  IsSoundBy answered t =
      (t.retry_count + 1 ≡ t.attempt_count)
      × InTime (deadline_of timeout t.latest_attempt_time) t.response_time
  IsSoundBy late_response t =
      (t.retry_count + 1 ≡ t.attempt_count)
      × IsOverdue (deadline_of timeout t.latest_attempt_time) t.response_time
  IsSoundBy no_response t =
      (t.retry_count + 1 ≡ t.attempt_count)
      × HasPassed now (deadline_of timeout t.latest_attempt_time)
      × (t.response_time ≡ none)
      × (t.latency_ns ≡ none)
  IsSoundBy orphan_response t =
      (t.attempt_count ≡ 0) × (t.retry_count ≡ 0) × (t.first_request_time ≡ none)
  IsSoundBy ambiguous t = (t.attempt_count ≤ 1) × (t.retry_count ≡ 0)

  -- What the state of a transaction says of its times and counts.
  abbrev pub IsSound : DnsTransaction → Type 0
  IsSound t = IsSoundBy t.state t

  -- One request waits under its own key, tried at least once, until its deadline.
  abbrev pub IsWaiting : String → List PendingDnsRequest → Type 0
  IsWaiting key [] = ⊥
  IsWaiting key (e ∷ []) =
      (e.key ≡ key)
      × (1 ≤ e.attempt_count)
      × (e.deadline ≡ deadline_of timeout e.latest_attempt_time)
  IsWaiting key (e ∷ f ∷ es) = ⊥

  pub record IsValid (s : State) : Type 0 where
    pub waiting : AllEntries IsWaiting s.pending
    pub sound : All IsSound s.transactions

  ambiguous-IsSound : (p : ParsedDnsEvent) (n : ℕ) → IsSound (ambiguous_transaction p n)
  unfolding ambiguous_transaction
  ambiguous-IsSound p n = ground arith

  orphan-IsSound : (key : String) (p : ParsedDnsEvent) → IsSound (orphan_transaction key p)
  unfolding orphan_transaction
  orphan-IsSound key p = (refl, refl, refl)

  late-cases :
      (d t : Option ℤ) → (is_late d t ≡ true) × IsOverdue d t ⊎ (is_late d t ≡ false) × InTime d t
  unfolding is_late
  late-cases none none = inr (refl, tt)
  late-cases none (some t) = inr (refl, tt)
  late-cases (some d) none = inr (refl, tt)
  late-cases (some d) (some t) = elim (Bool-cases (ltb_ℤ d t)) [
    | inl e ↦ inl (e, ground arith)
    | inr e ↦ inr (e, ground arith)
  ]

  matched-IsSound :
      (key : String) (p : ParsedDnsEvent) (e : PendingDnsRequest)
      → IsWaiting key (e ∷ [])
      → IsSound (matched_transaction key p e)
  unfolding matched_transaction
  matched-IsSound key p e (_, n, d) = elim (late-cases e.deadline p.timestamp) [
    | inl (b, h) ↦ simp b (omega arith, subst (λ x. IsOverdue x p.timestamp) d h)
    | inr (b, h) ↦ simp b (omega arith, subst (λ x. InTime x p.timestamp) d h)
  ]

  timeout-IsSound :
      (key : String) (e : PendingDnsRequest)
      → IsWaiting key (e ∷ [])
      → is_expired now e.deadline ≡ true
      → IsSound (timeout_transaction e)
  unfolding timeout_transaction is_expired
  timeout-IsSound key e (_, n, d) h =
      (omega arith, subst (HasPassed now) d (passed e.deadline h), refl, refl)
    where
      passed : (o : Option ℤ) → is_expired now o ≡ true → HasPassed now o
      passed none k = cc
      passed (some x) k = ground arith

  module _ (key : String) (p : ParsedDnsEvent) (s : State) where
    emit-IsSound :
        (t : DnsTransaction)
        → IsSound t
        → All IsSound s.transactions
        → All IsSound (s.transactions ++ t ∷ [])
    emit-IsSound t h k = All-append IsSound s.transactions (t ∷ []) k (h, tt)

    request_with-IsValid :
        (o : Option (List PendingDnsRequest))
        → lookup key s.pending ≡ o
        → IsValid s
        → IsValid (request_with timeout key p s o)
    unfolding request_with retried new_pending
    request_with-IsValid none e v = record {
      waiting = AllEntries-insert IsWaiting key _ s.pending (refl, omega arith, refl) v.waiting;
      sound = v.sound;
    }
    request_with-IsValid (some []) e v =
        absurd (AllEntries-lookup IsWaiting key [] s.pending e v.waiting)
    request_with-IsValid (some (x ∷ [])) e v =
        let (k, n, d) = AllEntries-lookup IsWaiting key (x ∷ []) s.pending e v.waiting in
        record {
          waiting = AllEntries-insert IsWaiting key _ s.pending (k, omega arith, refl) v.waiting;
          sound = v.sound;
        }
    request_with-IsValid (some (x ∷ y ∷ ys)) e v =
        absurd (AllEntries-lookup IsWaiting key (x ∷ y ∷ ys) s.pending e v.waiting)

    response_with-IsValid :
        (o : Option (List PendingDnsRequest))
        → lookup key s.pending ≡ o
        → IsValid s
        → IsValid (response_with key p s o)
    unfolding response_with shift_pending
    response_with-IsValid none e v = record {
      waiting = v.waiting;
      sound = emit-IsSound (orphan_transaction key p) (orphan-IsSound key p) v.sound;
    }
    response_with-IsValid (some []) e v =
        absurd (AllEntries-lookup IsWaiting key [] s.pending e v.waiting)
    response_with-IsValid (some (x ∷ [])) e v = record {
      waiting = AllEntries-delete IsWaiting key s.pending v.waiting;
      sound =
          emit-IsSound (matched_transaction key p x)
            (matched-IsSound key p x
              (AllEntries-lookup IsWaiting key (x ∷ []) s.pending e v.waiting))
            v.sound;
    }
    response_with-IsValid (some (x ∷ y ∷ ys)) e v =
        absurd (AllEntries-lookup IsWaiting key (x ∷ y ∷ ys) s.pending e v.waiting)

    dispatch-IsValid : (a r : Bool) → IsValid s → IsValid (dispatch a r timeout key p s)
    unfolding dispatch
    dispatch-IsValid true r v = record {
      waiting = v.waiting;
      sound =
          emit-IsSound (ambiguous_transaction p (length s.transactions))
            (ambiguous-IsSound p (length s.transactions)) v.sound;
    }
    dispatch-IsValid false true v = response_with-IsValid (lookup key s.pending) refl v
    dispatch-IsValid false false v = request_with-IsValid (lookup key s.pending) refl v

  event-IsValid :
      (o : Option ParsedDnsEvent) (s : State)
      → IsValid s
      → IsValid (elim o [ none ↦ s | some p ↦ handle timeout p s ])
  unfolding handle
  event-IsValid none s v = v
  event-IsValid (some p) s v = dispatch-IsValid (build_key p) p s p.ambiguous p.is_response v

  pub correlate-IsValid :
      (config : DnsFieldConfig) (events : List Event) (s : State)
      → IsValid s
      → IsValid (correlate timeout config events s)
  unfolding correlate
  correlate-IsValid config [] s v = v
  correlate-IsValid config (event ∷ events) s v =
      let o = parse_dns_event event config in
      correlate-IsValid config events (elim o [ none ↦ s | some p ↦ handle timeout p s ])
        (event-IsValid o s v)

  sweep_list-IsSound :
      (key : String) (es : List PendingDnsRequest) (r : DnsCorrelationResult)
      → IsWaiting key es
      → All IsSound r.transactions
      → All IsSound (sweep_list now es r).transactions
  unfolding sweep_list sweep_entry
  sweep_list-IsSound key [] r w h = absurd w
  sweep_list-IsSound key (e ∷ []) r w h = elim (Bool-cases (is_expired now e.deadline)) [
    | inl b ↦ simp b (
        All-append IsSound r.transactions (timeout_transaction e ∷ []) h
          (timeout-IsSound key e w b, tt))
    | inr b ↦ simp b h
  ]
  sweep_list-IsSound key (e ∷ f ∷ es) r w h = absurd w

  sweep-IsSound :
      (m : List (String × List PendingDnsRequest)) (r : DnsCorrelationResult)
      → AllEntries IsWaiting m
      → All IsSound r.transactions
      → All IsSound (sweep now (values m) r).transactions
  unfolding sweep values
  sweep-IsSound [] r w h = h
  sweep-IsSound ((k, es) ∷ m) r (p, w) h =
      sweep-IsSound m (sweep_list now es r) w (sweep_list-IsSound k es r p h)

newer_asym : (a b : DnsTransaction) → newer b a ≡ true → newer a b ≡ false
unfolding newer
newer_asym a b h = ground arith

newer_trans : (a b c : DnsTransaction) → newer b a ≡ false → newer c b ≡ false → newer c a ≡ false
unfolding newer
newer_trans a b c h k = ground arith

-- The transactions come newest first, and each one's state agrees with its times and counts, for
-- the timeout in force.
pub compute_dns_correlation-IsSound :
    (events : List Event) (config : DnsFieldConfig) (now timeout_ms : ℤ)
    → All
        (IsSound (timeout_ns timeout_ms) now)
        (compute_dns_correlation events config now timeout_ms).transactions
      × IsSorted newer (compute_dns_correlation events config now timeout_ms).transactions
unfolding compute_dns_correlation sorted swept start
compute_dns_correlation-IsSound events config now timeout_ms =
    let timeout = timeout_ns timeout_ms in
    let s = correlate timeout config (dedupe_and_sort events config) start in
    let v : IsValid timeout now s =
      correlate-IsValid timeout now config (dedupe_and_sort events config) start
        (record { waiting = tt; sound = tt }) in
    (
      sort-All newer (IsSound timeout now) (swept now s).transactions
          (sweep-IsSound timeout now s.pending _ v.waiting v.sound),
      sort-IsSorted newer newer_asym newer_trans (swept now s).transactions,
    )
