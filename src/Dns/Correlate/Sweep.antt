-- ===== src/Dns/Correlate/Sweep.antt =====
-- The final sweep of the correlation: which requests time out, what stays pending, and the next
-- deadline.
use ig_desktop.Prelude.{
  ℕ, ◌+◌, ◌≡◌, refl, List, [], ◌∷◌, arith, total, total-append, length, length-append,
  if◌then◌else◌,
}
use ig_desktop.Prelude.Int.{ℤ}
use ig_desktop.Dns.Types.{DnsTransaction, DnsCorrelationResult}
use ig_desktop.Dns.Entries.{PendingDnsRequest, timeout_transaction}
use ig_desktop.Dns.Correlate.{is_expired, sweep_entry, sweep_list, sweep}

abbrev pub attempts : DnsTransaction → ℕ
attempts t = t.attempt_count

abbrev pub tries : PendingDnsRequest → ℕ
tries e = e.attempt_count

-- What a request that stays pending counts for.
abbrev pub waiting_tries : ℤ → PendingDnsRequest → ℕ
waiting_tries now e = if is_expired now e.deadline then 0 else e.attempt_count

abbrev pub waiting : ℤ → PendingDnsRequest → ℕ
waiting now e = if is_expired now e.deadline then 0 else 1

module _ (now : ℤ) where
  pub record Swept (f g : ℕ) (n : ℕ) (w : ℕ) (r q : DnsCorrelationResult) : Type 0 where
    pub moved : total attempts q.transactions + w ≡ total attempts r.transactions + f
    pub kept : q.pending_count ≡ r.pending_count + g
    pub entries :
        length q.transactions + q.pending_count ≡ length r.transactions + r.pending_count + n

  sweep_entry-Swept :
      (e : PendingDnsRequest) (r : DnsCorrelationResult)
      → Swept (tries e) (waiting now e) 1 (waiting_tries now e) r (sweep_entry now e r)
  unfolding sweep_entry timeout_transaction
  sweep_entry-Swept e r = record {
    moved = ground (arith, total-append attempts r.transactions (timeout_transaction e ∷ []));
    kept = ground arith;
    entries = ground (arith, length-append r.transactions (timeout_transaction e ∷ []));
  }

  sweep_list-Swept :
      (es : List PendingDnsRequest) (r : DnsCorrelationResult)
      → Swept
          (total tries es)
          (total (waiting now) es)
          (length es)
          (total (waiting_tries now) es)
          r
          (sweep_list now es r)
  unfolding sweep_list
  sweep_list-Swept [] r = record { moved = refl; kept = omega arith; entries = omega arith }
  sweep_list-Swept (e ∷ es) r =
      let h = sweep_entry-Swept e r in
      let k = sweep_list-Swept es (sweep_entry now e r) in
      record {
        moved = omega (arith, h.moved, k.moved);
        kept = omega (arith, h.kept, k.kept);
        entries = omega (arith, h.entries, k.entries);
      }

  -- The sweep moves the attempts of the expired requests into transactions, and counts the others.
  pub sweep-Swept :
      (ls : List (List PendingDnsRequest)) (r : DnsCorrelationResult)
      → Swept
          (total (total tries) ls)
          (total (total (waiting now)) ls)
          (total length ls)
          (total (total (waiting_tries now)) ls)
          r
          (sweep now ls r)
  unfolding sweep
  sweep-Swept [] r = record { moved = refl; kept = omega arith; entries = omega arith }
  sweep-Swept (es ∷ ls) r =
      let h = sweep_list-Swept es r in
      let k = sweep-Swept ls (sweep_list now es r) in
      record {
        moved = omega (arith, h.moved, k.moved);
        kept = omega (arith, h.kept, k.kept);
        entries = omega (arith, h.entries, k.entries);
      }
