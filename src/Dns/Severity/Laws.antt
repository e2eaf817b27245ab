-- ===== src/Dns/Severity/Laws.antt =====
-- The counts of a set of transactions.
use mathlib.Core.Path.{subst}
use native.Mathlib.Decide.{dec_lt}
use ig_desktop.Prelude.{
  ℕ, ltb, ◌+◌, ◌≤◌, ◌<◌, ◌≡◌, refl, sym, ap, ◌∙◌, ◌≢◌, Bool, true, false, none, List, [], ◌∷◌,
  arith, length, bit, ◌↔◌, ◌⊎◌, ◌||◌, inl, inr, if◌then◌else◌,
}
use ig_desktop.Dns.Types.{DnsTransaction}
use ig_desktop.Dns.Severity.{
  DnsSeverity, error, warning, info, healthy, rank, transaction_severity, worse_severity,
  DnsSeverityCounts, no_counts, count_severity, count_reasons, add_transaction, add_transactions,
  summarize_dns_severity, slow_threshold_ns, primary_severity_reason, is_slow, is_no_response,
  is_late_response, is_unmatched, is_server_error_rcode, is_nx_domain_rcode,
}

-- How the severity counters and the reason counters bear on each other.
pub record IsConsistent (c : DnsSeverityCounts) : Type 0 where
  pub timeouts : c.timeout_count ≤ c.error_count
  pub server_errors : c.server_error_count ≤ c.error_count
  pub retries : c.retrying_count ≤ c.error_count + c.warning_count
  pub lates : c.late_count ≤ c.error_count + c.warning_count
  pub slows : c.slow_count ≤ c.error_count + c.warning_count
  pub nxdomains : c.nxdomain_count ≤ c.error_count + c.warning_count + c.info_count
  pub explained :
      c.error_count + c.warning_count
      ≤ c.timeout_count + c.server_error_count + c.retrying_count + c.late_count + c.slow_count

-- The severity of the highest counter that is not 0.
abbrev ladder : ℕ → ℕ → ℕ → DnsSeverity
ladder e w i =
    if ltb 0 e then error else if ltb 0 w then warning else if ltb 0 i then info else healthy

abbrev pub highest : DnsSeverityCounts → DnsSeverity
highest c = ladder c.error_count c.warning_count c.info_count

-- The four severity counters together.
abbrev pub classified : DnsSeverityCounts → ℕ
classified c = c.error_count + c.warning_count + c.info_count + c.healthy_count

worse-ladder_error : (e w i : ℕ) → worse_severity (ladder e w i) error ≡ ladder (e + 1) w i
unfolding worse_severity
worse-ladder_error e w i = ground arith

worse-ladder_warning : (e w i : ℕ) → worse_severity (ladder e w i) warning ≡ ladder e (w + 1) i
unfolding worse_severity
worse-ladder_warning e w i = ground arith

worse-ladder_info : (e w i : ℕ) → worse_severity (ladder e w i) info ≡ ladder e w (i + 1)
unfolding worse_severity
worse-ladder_info e w i = ground arith

worse-ladder_healthy : (e w i : ℕ) → worse_severity (ladder e w i) healthy ≡ ladder e w i
unfolding worse_severity
worse-ladder_healthy e w i = ground arith

-- What a classification says of the reasons: no response, server error, late, retried, slow, NXDOMAIN.
abbrev Reasons : DnsSeverity → ℕ → ℕ → ℕ → ℕ → ℕ → ℕ → Type 0
Reasons error a b c d e f = 1 ≤ a + b
Reasons warning a b c d e f = (a ≡ 0) × (b ≡ 0) × (1 ≤ c + d + e)
Reasons info a b c d e f = (a ≡ 0) × (b ≡ 0) × (c ≡ 0) × (d ≡ 0) × (e ≡ 0)
Reasons healthy a b c d e f = (a ≡ 0) × (b ≡ 0) × (c ≡ 0) × (d ≡ 0) × (e ≡ 0) × (f ≡ 0)

ladder-Reasons :
    (a b c d e f g : Bool)
    → Reasons
        (if a || b
          then error
          else if c || d || e
          then warning
          else if f || g
          then info
          else healthy)
        (bit a)
        (bit b)
        (bit c)
        (bit d)
        (bit e)
        (bit f)
ladder-Reasons true b c d e f g = omega arith
ladder-Reasons false true c d e f g = omega arith
ladder-Reasons false false true d e f g = (refl, refl, omega arith)
ladder-Reasons false false false true e f g = (refl, refl, omega arith)
ladder-Reasons false false false false true f g = (refl, refl, omega arith)
ladder-Reasons false false false false false true g = (refl, refl, refl, refl, refl)
ladder-Reasons false false false false false false true = (refl, refl, refl, refl, refl)
ladder-Reasons false false false false false false false = (refl, refl, refl, refl, refl, refl)

bit-le : (b : Bool) → bit b ≤ 1
bit-le true = omega arith
bit-le false = omega arith

module _ (slow_ns : ℕ) (t : DnsTransaction) (c : DnsSeverityCounts) where
  abbrev stepped : DnsSeverity → DnsSeverityCounts
  stepped s =
      count_reasons t slow_ns
        (count_severity s (record c { severity = worse_severity c.severity s }))

  stepped-highest :
      (s : DnsSeverity) → c.severity ≡ highest c → (stepped s).severity ≡ highest (stepped s)
  unfolding count_severity count_reasons
  stepped-highest error h =
      ap (λ x. worse_severity x error) h
      ∙ worse-ladder_error c.error_count c.warning_count c.info_count
  stepped-highest warning h =
      ap (λ x. worse_severity x warning) h
      ∙ worse-ladder_warning c.error_count c.warning_count c.info_count
  stepped-highest info h =
      ap (λ x. worse_severity x info) h
      ∙ worse-ladder_info c.error_count c.warning_count c.info_count
  stepped-highest healthy h =
      ap (λ x. worse_severity x healthy) h
      ∙ worse-ladder_healthy c.error_count c.warning_count c.info_count

  stepped-classified : (s : DnsSeverity) → classified (stepped s) ≡ classified c + 1
  unfolding count_severity count_reasons
  stepped-classified error = omega arith
  stepped-classified warning = omega arith
  stepped-classified info = omega arith
  stepped-classified healthy = omega arith

  stepped-total : (s : DnsSeverity) → (stepped s).total ≡ c.total
  unfolding count_severity count_reasons
  stepped-total error = refl
  stepped-total _ = refl

  abbrev ReasonsOf : DnsSeverity → Type 0
  ReasonsOf s =
      Reasons s (bit (is_no_response t.state)) (bit (is_server_error_rcode t.rcode_raw t.rcode))
        (bit (is_late_response t.state)) (bit (ltb 0 t.retry_count))
        (bit (is_slow t.latency_ns slow_ns)) (bit (is_nx_domain_rcode t.rcode_raw t.rcode))

  transaction_severity-Reasons : ReasonsOf (transaction_severity t slow_ns)
  unfolding transaction_severity
  transaction_severity-Reasons =
      ladder-Reasons (is_no_response t.state) (is_server_error_rcode t.rcode_raw t.rcode)
        (is_late_response t.state) (ltb 0 t.retry_count) (is_slow t.latency_ns slow_ns)
        (is_nx_domain_rcode t.rcode_raw t.rcode) (is_unmatched t.state)

  bits_small :
      (bit (is_no_response t.state) ≤ 1)
      × (bit (is_server_error_rcode t.rcode_raw t.rcode) ≤ 1)
      × (bit (is_late_response t.state) ≤ 1)
      × (bit (ltb 0 t.retry_count) ≤ 1)
      × (bit (is_slow t.latency_ns slow_ns) ≤ 1)
      × (bit (is_nx_domain_rcode t.rcode_raw t.rcode) ≤ 1)
  bits_small = (bit-le _, bit-le _, bit-le _, bit-le _, bit-le _, bit-le _)

  stepped-IsConsistent : (s : DnsSeverity) → ReasonsOf s → IsConsistent c → IsConsistent (stepped s)
  unfolding count_severity count_reasons
  stepped-IsConsistent error r h = omega (arith, bits_small)
  stepped-IsConsistent warning r h = omega (arith, bits_small)
  stepped-IsConsistent info r h = omega (arith, bits_small)
  stepped-IsConsistent healthy r h = omega (arith, bits_small)

-- What holds of the counts at every round of the loop over `n` transactions so far.
record Inv (n m : ℕ) (c : DnsSeverityCounts) : Type 0 where
  counted : classified c ≡ n
  listed : c.total ≡ m
  worst : c.severity ≡ highest c
  consistent : IsConsistent c

add_transactions-Inv :
    (slow_ns : ℕ) (txns : List DnsTransaction) (n m : ℕ) (c : DnsSeverityCounts)
    → Inv n m c
    → Inv (n + length txns) m (add_transactions slow_ns txns c)
unfolding add_transactions add_transaction
add_transactions-Inv slow_ns [] n m c v = record {
  counted = omega (arith, v.counted);
  listed = v.listed;
  worst = v.worst;
  consistent = v.consistent;
}
add_transactions-Inv slow_ns (t ∷ ts) n m c v =
    let s = transaction_severity t slow_ns in
    let k = add_transactions-Inv slow_ns ts (n + 1) m (stepped slow_ns t c s) (record {
      counted = omega (arith, stepped-classified slow_ns t c s, v.counted);
      listed = stepped-total slow_ns t c s ∙ v.listed;
      worst = stepped-highest slow_ns t c s v.worst;
      consistent =
          stepped-IsConsistent slow_ns t c s (transaction_severity-Reasons slow_ns t c)
            v.consistent;
    }) in
    record {
      counted = omega (arith, k.counted);
      listed = k.listed;
      worst = k.worst;
      consistent = k.consistent;
    }

summarize-Inv :
    (txns : List DnsTransaction) (timeout_ms : ℕ)
    → Inv (length txns) (length txns) (summarize_dns_severity txns timeout_ms)
unfolding summarize_dns_severity no_counts
summarize-Inv txns timeout_ms =
    let v =
      add_transactions-Inv (slow_threshold_ns timeout_ms) txns 0 (length txns)
        (no_counts (length txns))
        (record { counted = refl; listed = refl; worst = refl; consistent = omega arith }) in
    record {
      counted = omega (arith, v.counted);
      listed = v.listed;
      worst = v.worst;
      consistent = v.consistent;
    }

-- Every transaction is in exactly one of the four severity counters, the counters of the reasons
-- agree with them, and the severity shown is that of the highest counter that is not 0.
pub summarize_dns_severity-IsConsistent :
    (txns : List DnsTransaction) (timeout_ms : ℕ)
    → let c = summarize_dns_severity txns timeout_ms in
      (classified c ≡ c.total) × (c.total ≡ length txns) × (c.severity ≡ highest c) × IsConsistent c
summarize_dns_severity-IsConsistent txns timeout_ms =
    let v = summarize-Inv txns timeout_ms in
    (v.counted ∙ sym v.listed, v.listed, v.worst, v.consistent)

-- All the reasons together.
abbrev reasons : DnsSeverityCounts → ℕ
reasons c =
    c.server_error_count + c.timeout_count + c.nxdomain_count + c.retrying_count + c.late_count
    + c.slow_count

no_reason : (c : DnsSeverityCounts) → reasons c ≡ 0 → primary_severity_reason c ≡ none
unfolding primary_severity_reason
no_reason c h = ground arith

some_reason : (c : DnsSeverityCounts) → 0 < reasons c → primary_severity_reason c ≢ none
unfolding primary_severity_reason
some_reason c h = ground arith

rank-ladder : (e w i : ℕ) → (2 ≤ rank (ladder e w i)) ↔ (0 < e + w)
rank-ladder e w i = ground arith

reason_iff :
    (c : DnsSeverityCounts)
    → IsConsistent c
    → c.severity ≡ highest c
    → (primary_severity_reason c ≢ none) ↔ ((2 ≤ rank c.severity) ⊎ (0 < c.nxdomain_count))
reason_iff c h e =
    let (to, from) = rank-ladder c.error_count c.warning_count c.info_count in
    (
      λ shown. elim (dec_lt 0 (reasons c)) [
        | yes p ↦ elim (dec_lt 0 c.nxdomain_count) [
          | yes q ↦ inr q
          | no q ↦ inl (subst (λ s. 2 ≤ rank s) (sym e) (from (omega (arith, h))))
        ]
        | no p ↦ absurd (shown (no_reason c (omega arith)))
      ],
      λ side. some_reason c (elim side [
        | inl r ↦ let busy = to (subst (λ s. 2 ≤ rank s) e r) in omega (arith, h, busy)
        | inr q ↦ omega arith
      ]),
    )

-- A reason is shown exactly when the severity is a warning or an error, or some answer was NXDOMAIN.
primary_severity_reason_iff :
    (txns : List DnsTransaction) (timeout_ms : ℕ)
    → let c = summarize_dns_severity txns timeout_ms in
      (primary_severity_reason c ≢ none) ↔ ((2 ≤ rank c.severity) ⊎ (0 < c.nxdomain_count))
primary_severity_reason_iff txns timeout_ms =
    let v = summarize-Inv txns timeout_ms in
    reason_iff (summarize_dns_severity txns timeout_ms) v.consistent v.worst
