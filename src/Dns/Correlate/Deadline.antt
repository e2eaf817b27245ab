-- ===== src/Dns/Correlate/Deadline.antt =====
-- The next deadline that the sweep of the correlation reports.
use ig_desktop.Prelude.{
  ◌≡◌, false, Option, none, some, List, [], ◌∷◌, arith, Bool-cases, inl, inr, if◌then◌else◌, All,
}
use ig_desktop.Prelude.Int.{ℤ, ◌≤ℤ◌, ◌<ℤ◌, ltb_ℤ}
use ig_desktop.Prelude.Assoc.{values}
use ig_desktop.Js.{Event}
use ig_desktop.Dns.Types.{DnsFieldConfig, DnsCorrelationResult}
use ig_desktop.Dns.Entries.{PendingDnsRequest, timeout_ns}
use ig_desktop.Dns.Correlate.{
  start, correlate, dedupe_and_sort, is_expired, sooner, sweep_entry, sweep_list, sweep, swept,
  sorted, compute_dns_correlation,
}

-- `none` is the latest time of all.
abbrev pub AtMost : Option ℤ → Option ℤ → Type 0
AtMost a none = Unit
AtMost none (some x) = ⊥
AtMost (some d) (some x) = d ≤ℤ x

AtMost-refl : (a : Option ℤ) → AtMost a a
AtMost-refl none = tt
AtMost-refl (some d) = omega arith

AtMost-trans : (a b c : Option ℤ) → AtMost a b → AtMost b c → AtMost a c
AtMost-trans a b none h k = tt
AtMost-trans none none (some z) h k = k
AtMost-trans none (some y) (some z) h k = h
AtMost-trans (some x) none (some z) h k = absurd k
AtMost-trans (some x) (some y) (some z) h k = omega arith

abbrev pub IsAfter : ℤ → Option ℤ → Type 0
IsAfter now none = Unit
IsAfter now (some d) = now <ℤ d

module _ (now : ℤ) where
  -- The deadline of a request that stays pending.
  abbrev pub open_deadline : PendingDnsRequest → Option ℤ
  open_deadline e = if is_expired now e.deadline then none else e.deadline

  sooner-AtMost : (a b : Option ℤ) → AtMost (sooner a b) a × AtMost (sooner a b) b
  sooner-AtMost none none = (tt, tt)
  sooner-AtMost (some n) none = (omega arith, tt)
  sooner-AtMost none (some d) = (tt, omega arith)
  sooner-AtMost (some n) (some d) = elim (Bool-cases (ltb_ℤ d n)) [
    | inl e ↦ rw e (ground arith, ground arith)
    | inr e ↦ rw e (ground arith, ground arith)
  ]

  sweep_entry-AtMost :
      (e : PendingDnsRequest) (r : DnsCorrelationResult)
      → AtMost (sweep_entry now e r).next_deadline r.next_deadline
        × AtMost (sweep_entry now e r).next_deadline (open_deadline e)
  unfolding sweep_entry
  sweep_entry-AtMost e r = elim (Bool-cases (is_expired now e.deadline)) [
    | inl h ↦ simp h (AtMost-refl r.next_deadline, tt)
    | inr h ↦ simp h (sooner-AtMost r.next_deadline e.deadline)
  ]

  sweep_list-AtMost :
      (es : List PendingDnsRequest) (r : DnsCorrelationResult)
      → AtMost (sweep_list now es r).next_deadline r.next_deadline
        × All (λ e. AtMost (sweep_list now es r).next_deadline (open_deadline e)) es
  unfolding sweep_list
  sweep_list-AtMost [] r = (AtMost-refl r.next_deadline, tt)
  sweep_list-AtMost (e ∷ es) r =
      let (a, b) = sweep_entry-AtMost e r in
      let (c, d) = sweep_list-AtMost es (sweep_entry now e r) in
      (AtMost-trans _ _ _ c a, (AtMost-trans _ _ _ c b, d))

  All-lower :
      (a b : Option ℤ) (es : List PendingDnsRequest)
      → AtMost a b
      → All (λ e. AtMost b (open_deadline e)) es
      → All (λ e. AtMost a (open_deadline e)) es
  All-lower a b [] h k = tt
  All-lower a b (e ∷ es) h (p, k) = (AtMost-trans a b _ h p, All-lower a b es h k)

  -- The sweep reports a deadline no later than that of any request that stays pending.
  pub sweep-AtMost :
      (ls : List (List PendingDnsRequest)) (r : DnsCorrelationResult)
      → AtMost (sweep now ls r).next_deadline r.next_deadline
        × All (λ es. All (λ e. AtMost (sweep now ls r).next_deadline (open_deadline e)) es) ls
  unfolding sweep
  sweep-AtMost [] r = (AtMost-refl r.next_deadline, tt)
  sweep-AtMost (es ∷ ls) r =
      let (a, b) = sweep_list-AtMost es r in
      let (c, d) = sweep-AtMost ls (sweep_list now es r) in
      (AtMost-trans _ _ _ c a, (All-lower _ _ es c b, d))

  sooner-IsAfter : (a b : Option ℤ) → IsAfter now a → IsAfter now b → IsAfter now (sooner a b)
  sooner-IsAfter none none h k = tt
  sooner-IsAfter (some n) none h k = h
  sooner-IsAfter none (some d) h k = k
  sooner-IsAfter (some n) (some d) h k = elim (Bool-cases (ltb_ℤ d n)) [
    | inl e ↦ rw e k
    | inr e ↦ rw e h
  ]

  open-IsAfter : (d : Option ℤ) → is_expired now d ≡ false → IsAfter now d
  unfolding is_expired
  open-IsAfter none h = tt
  open-IsAfter (some d) h = ground arith

  sweep_entry-IsAfter :
      (e : PendingDnsRequest) (r : DnsCorrelationResult)
      → IsAfter now r.next_deadline
      → IsAfter now (sweep_entry now e r).next_deadline
  unfolding sweep_entry
  sweep_entry-IsAfter e r k = elim (Bool-cases (is_expired now e.deadline)) [
    | inl h ↦ simp h k
    | inr h ↦ simp h (sooner-IsAfter r.next_deadline e.deadline k (open-IsAfter e.deadline h))
  ]

  sweep_list-IsAfter :
      (es : List PendingDnsRequest) (r : DnsCorrelationResult)
      → IsAfter now r.next_deadline
      → IsAfter now (sweep_list now es r).next_deadline
  unfolding sweep_list
  sweep_list-IsAfter [] r h = h
  sweep_list-IsAfter (e ∷ es) r h =
      sweep_list-IsAfter es (sweep_entry now e r) (sweep_entry-IsAfter e r h)

  -- A deadline that is reported lies in the future.
  pub sweep-IsAfter :
      (ls : List (List PendingDnsRequest)) (r : DnsCorrelationResult)
      → IsAfter now r.next_deadline
      → IsAfter now (sweep now ls r).next_deadline
  unfolding sweep
  sweep-IsAfter [] r h = h
  sweep-IsAfter (es ∷ ls) r h = sweep-IsAfter ls (sweep_list now es r) (sweep_list-IsAfter es r h)

-- The deadline that is reported lies after `now`, and no request that stays pending has an earlier
-- one; with none reported, none of them has a deadline.
pub next_deadline_least :
    (events : List Event) (config : DnsFieldConfig) (now timeout_ms : ℤ)
    → IsAfter now (compute_dns_correlation events config now timeout_ms).next_deadline
      × All
          (All (λ e.
            AtMost
              (compute_dns_correlation events config now timeout_ms).next_deadline
              (open_deadline now e)))
          (values
            (correlate
              (timeout_ns timeout_ms)
              config
              (dedupe_and_sort events config)
              start).pending)
unfolding compute_dns_correlation sorted swept
next_deadline_least events config now timeout_ms =
    let s = correlate (timeout_ns timeout_ms) config (dedupe_and_sort events config) start in
    let r : DnsCorrelationResult = record {
      transactions = s.transactions;
      pending_count = 0;
      next_deadline = none;
    } in
    (sweep-IsAfter now (values s.pending) r tt, (sweep-AtMost now (values s.pending) r).1)
