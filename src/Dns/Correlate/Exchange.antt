-- ===== src/Dns/Correlate/Exchange.antt =====
-- One exchange: a request, its retransmissions, and the response.
use mathlib.Core.Path.{ap₂, subst}
use ig_desktop.Prelude.{
  ℕ, ◌+◌, ◌≡◌, refl, sym, ap, ◌∙◌, String, Bool, true, false, Option, none, some, List, [], ◌∷◌,
  ◌++◌, arith, length, All,
}
use ig_desktop.Prelude.Int.{ℤ}
use ig_desktop.Prelude.Assoc.{lookup, lookup-insert_self, lookup-delete_self}
use ig_desktop.Dns.Types.{DnsTransaction}
use ig_desktop.Dns.Parse.{ParsedDnsEvent, build_key}
use ig_desktop.Dns.Entries.{PendingDnsRequest, new_pending, retried, matched_transaction}
use ig_desktop.Dns.Correlate.{State, request_with, response_with, shift_pending, dispatch, handle}

-- Parsed events handled in turn.
abbrev pub handle_all : ℤ → List ParsedDnsEvent → State → State
handle_all timeout [] s = s
handle_all timeout (p ∷ ps) s = handle_all timeout ps (handle timeout p s)

-- A request, or a response, that can be matched under a key.
pub record IsFor (key : String) (response : Bool) (p : ParsedDnsEvent) : Type 0 where
  pub own_key : build_key p ≡ key
  pub unambiguous : p.ambiguous ≡ false
  pub direction : p.is_response ≡ response

module _ (timeout : ℤ) (key : String) where
  handle-request :
      (p : ParsedDnsEvent) (s : State)
      → IsFor key false p
      → handle timeout p s ≡ request_with timeout key p s (lookup key s.pending)
  unfolding handle dispatch
  handle-request p s h =
      ap (λ k. dispatch p.ambiguous p.is_response timeout k p s) h.own_key
      ∙ ap₂ (λ a r. dispatch a r timeout key p s) h.unambiguous h.direction

  handle-response :
      (p : ParsedDnsEvent) (s : State)
      → IsFor key true p
      → handle timeout p s ≡ response_with key p s (lookup key s.pending)
  unfolding handle dispatch
  handle-response p s h =
      ap (λ k. dispatch p.ambiguous p.is_response timeout k p s) h.own_key
      ∙ ap₂ (λ a r. dispatch a r timeout key p s) h.unambiguous h.direction

  -- One request waits under the key, tried `n` times since `first`; the transactions are `ts`.
  record Waits (n : ℕ) (first : Option ℤ) (ts : List DnsTransaction) (s : State) : Type 0 where
    entry : PendingDnsRequest
    found : lookup key s.pending ≡ some (entry ∷ [])
    tried : entry.attempt_count ≡ n
    since : entry.first_request_time ≡ first
    kept : s.transactions ≡ ts

  first-Waits :
      (p : ParsedDnsEvent) (s : State)
      → IsFor key false p
      → lookup key s.pending ≡ none
      → Waits 1 p.timestamp s.transactions (handle timeout p s)
  unfolding request_with new_pending
  first-Waits p s h free =
      subst (Waits 1 p.timestamp s.transactions)
        (sym (handle-request p s h ∙ ap (request_with timeout key p s) free))
        (record {
          entry = new_pending timeout key p;
          found = lookup-insert_self key _ s.pending;
          tried = refl;
          since = refl;
          kept = refl;
        })

  again-Waits :
      (p : ParsedDnsEvent) (s : State) (n : ℕ) (first : Option ℤ) (ts : List DnsTransaction)
      → IsFor key false p
      → Waits n first ts s
      → Waits (n + 1) first ts (handle timeout p s)
  unfolding request_with retried
  again-Waits p s n first ts h w =
      subst (Waits (n + 1) first ts)
        (sym (handle-request p s h ∙ ap (request_with timeout key p s) w.found))
        (record {
          entry = retried timeout p w.entry;
          found = lookup-insert_self key _ s.pending;
          tried = ap (λ k. k + 1) w.tried;
          since = w.since;
          kept = w.kept;
        })

  handle_all-Waits :
      (ps : List ParsedDnsEvent) (s : State) (n : ℕ) (first : Option ℤ) (ts : List DnsTransaction)
      → All (IsFor key false) ps
      → Waits n first ts s
      → Waits (n + length ps) first ts (handle_all timeout ps s)
  handle_all-Waits [] s n first ts h w = subst (λ k. Waits k first ts s) (omega arith) w
  handle_all-Waits (p ∷ ps) s n first ts (h, hs) w =
      subst (λ k. Waits k first ts (handle_all timeout ps (handle timeout p s))) (omega arith)
        (handle_all-Waits ps (handle timeout p s) (n + 1) first ts hs
          (again-Waits p s n first ts h w))

  answered_once :
      (q : ParsedDnsEvent) (s : State) (n : ℕ) (first : Option ℤ) (ts : List DnsTransaction)
      → IsFor key true q
      → Waits n first ts s
      → (t : DnsTransaction) × ((handle timeout q s).transactions ≡ ts ++ t ∷ [])
        × (lookup key (handle timeout q s).pending ≡ none)
        × (t.attempt_count ≡ n)
        × (t.first_request_time ≡ first)
        × (t.response_time ≡ q.timestamp)
  unfolding response_with shift_pending matched_transaction
  answered_once q s n first ts h w =
      let t = matched_transaction key q w.entry in
      let e : handle timeout q s ≡ response_with key q s (some (w.entry ∷ [])) =
        handle-response q s h ∙ ap (response_with key q s) w.found in
      (
        t,
        ap (λ (x : State). x.transactions) e ∙ ap (λ l. l ++ t ∷ []) w.kept,
        ap (λ (x : State). lookup key x.pending) e ∙ lookup-delete_self key s.pending,
        w.tried,
        w.since,
        refl,
      )

-- A request sent `1 + length ps` times and then answered, with nothing else of its key pending before:
-- one transaction with that many attempts, that starts with the first request and ends with the
-- response, and nothing of its key pending afterwards.
pub handle-exchange :
    (timeout : ℤ) (key : String) (p : ParsedDnsEvent) (ps : List ParsedDnsEvent)
    (q : ParsedDnsEvent) (s : State)
    → All (IsFor key false) (p ∷ ps)
    → IsFor key true q
    → lookup key s.pending ≡ none
    → let u = handle timeout q (handle_all timeout (p ∷ ps) s) in
      (t : DnsTransaction) × (u.transactions ≡ s.transactions ++ t ∷ [])
      × (lookup key u.pending ≡ none)
      × (t.attempt_count ≡ 1 + length ps)
      × (t.first_request_time ≡ p.timestamp)
      × (t.response_time ≡ q.timestamp)
handle-exchange timeout key p ps q s (h, hs) hq free =
    answered_once timeout key q (handle_all timeout (p ∷ ps) s) (1 + length ps) p.timestamp
      s.transactions hq
      (handle_all-Waits timeout key ps (handle timeout p s) 1 p.timestamp s.transactions hs
        (first-Waits timeout key p s h free))
