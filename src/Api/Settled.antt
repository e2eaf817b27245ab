-- ===== src/Api/Settled.antt =====
-- Each promise is settled at most once.
use mathlib.Core.Option.{none-ne-some, some-injective}
use ig_desktop.Prelude.{
  ℕ, suc, ◌+◌, ◌≤◌, ◌<◌, ◌≡◌, refl, sym, ap, ◌∙◌, String, Bool, false, Option, none, some, List, [],
  ◌∷◌, if◌then◌else◌, str_eq, eq_iff, arith, Bool-cases, inl, inr, total, bit, leb, ◌==◌, ==_iff,
  is_some, map_option,
}
use ig_desktop.Prelude.Assoc.{
  lookup, delete, lookup-insert, lookup-delete, AllEntries, AllEntries-lookup, AllEntries-insert,
  AllEntries-delete,
}
use ig_desktop.Js.Numerals.{show_ℕ, show_ℕ-injective}
use ig_desktop.Js.Json.{Members}
use ig_desktop.Api.{
  Api, Settlement, Response, Action, ask, answer, act, run, new_api, collect, request,
  handle_response, settle, pending,
}

-- The number of settlements of a promise.
abbrev pub times_settled : ℕ → List (ℕ × Settlement) → ℕ
times_settled n = total (λ t. bit (t.0 == n))

abbrev pub is_pending : ℕ → Api → Bool
is_pending n api = is_some (lookup (show_ℕ n) api.requests)

-- Whether a request has the number.
abbrev pub is_made : ℕ → Api → Bool
is_made n api = if leb 1 n then leb n api.req_id else false

-- Each entry stands under its number, and no number to come has one.
pub record IsNumbered (api : Api) : Type 0 where
  pub own : AllEntries (λ k n. k ≡ show_ℕ n) api.requests
  pub fresh : (n : ℕ) → api.req_id < n → lookup (show_ℕ n) api.requests ≡ none

pub new_api-IsNumbered : IsNumbered new_api
unfolding lookup
new_api-IsNumbered = record { own = tt; fresh = λ n h. refl }

pub numeral_eq : (m n : ℕ) → str_eq (show_ℕ m) (show_ℕ n) ≡ (m == n)
numeral_eq m n = elim (Bool-cases (m == n)) [
  | inl b ↦ (eq_iff (show_ℕ m) (show_ℕ n)).1 (ap show_ℕ ((==_iff m n).0 b)) ∙ sym b
  | inr b ↦ ground (arith, b, eq_iff (show_ℕ m) (show_ℕ n), show_ℕ-injective m n)
]

pub lookup-request :
    (cmd : Members) (api : Api) (n : ℕ)
    → lookup (show_ℕ n) (request cmd api).1.requests
      ≡ (if suc api.req_id == n then some (suc api.req_id) else lookup (show_ℕ n) api.requests)
unfolding request
lookup-request cmd api n =
    lookup-insert (show_ℕ (suc api.req_id)) (show_ℕ n) (suc api.req_id) api.requests
    ∙ ap (λ b. if b then some (suc api.req_id) else lookup (show_ℕ n) api.requests)
        (numeral_eq (suc api.req_id) n)

pub request-IsNumbered :
    (cmd : Members) (api : Api) → IsNumbered api → IsNumbered (request cmd api).1
unfolding request
request-IsNumbered cmd api h = record {
  own =
      AllEntries-insert (λ k n. k ≡ show_ℕ n) (show_ℕ (suc api.req_id)) (suc api.req_id)
        api.requests refl h.own;
  fresh = λ n b. lookup-request cmd api n ∙ ground (arith, h.fresh n);
}

delete-IsNumbered :
    (id : String) (api : Api)
    → IsNumbered api
    → IsNumbered (record api { requests = delete id api.requests })
delete-IsNumbered id api h = record {
  own = AllEntries-delete (λ k n. k ≡ show_ℕ n) id api.requests h.own;
  fresh = λ n b. lookup-delete id (show_ℕ n) api.requests ∙ ground (arith, h.fresh n b);
}

settle-IsNumbered :
    (msg : Response) (o : Option (String × ℕ)) (api : Api)
    → IsNumbered api
    → IsNumbered (settle msg o api).1
unfolding settle
settle-IsNumbered msg none api h = h
settle-IsNumbered msg (some (id, n)) api h = delete-IsNumbered id api h

pub act-IsNumbered : (a : Action) (api : Api) → IsNumbered api → IsNumbered (act a api).1
unfolding act handle_response
act-IsNumbered (ask cmd) api h = request-IsNumbered cmd api h
act-IsNumbered (answer msg) api h = settle-IsNumbered msg (pending msg.req_id api) api h

pub map-pair :
    (o : Option ℕ) (i id : String) (n : ℕ)
    → map_option {B = String × ℕ} (λ m. (i, m)) o ≡ some (id, n)
    → (o ≡ some n) × (i ≡ id)
map-pair none i id n e = absurd (none-ne-some (id, n) e)
map-pair (some m) i id n e =
    let same = some-injective (i, m) (id, n) e in (ap (λ t. some (t.1)) same, ap (λ t. t.0) same)

-- A promise that is pending is found under its number.
pending-lookup :
    (o : Option String) (api : Api) (id : String) (n : ℕ)
    → IsNumbered api
    → pending o api ≡ some (id, n)
    → (lookup id api.requests ≡ some n) × (id ≡ show_ℕ n)
unfolding pending
pending-lookup none api id n h e = absurd (none-ne-some (id, n) e)
pending-lookup (some i) api id n h e = elim (Bool-cases (str_eq i "")) [
  | inl b ↦ absurd (none-ne-some (id, n) (rw b at e))
  | inr b ↦
      let (l, same) = map-pair (lookup i api.requests) i id n (rw b at e) in
      let found : lookup id api.requests ≡ some n =
        ap (λ j. lookup j api.requests) (sym same) ∙ l in
      (found, AllEntries-lookup (λ k n. k ≡ show_ℕ n) id n api.requests found h.own)
]

abbrev settled_now : ℕ → Option (ℕ × Settlement) → ℕ
settled_now n none = 0
settled_now n (some t) = bit (t.0 == n)

settle_balance :
    (n : ℕ) (msg : Response) (o : Option (String × ℕ)) (api : Api)
    → IsNumbered api
    → pending msg.req_id api ≡ o
    → settled_now n (settle msg o api).0 + bit (is_pending n (settle msg o api).1)
      ≡ bit (is_pending n api)
unfolding settle
settle_balance n msg none api h e = omega arith
settle_balance n msg (some (id, m)) api h e =
    let (found, own) = pending-lookup msg.req_id api id m h e in
    let under : str_eq id (show_ℕ n) ≡ (m == n) =
      ap (λ k. str_eq k (show_ℕ n)) own ∙ numeral_eq m n in
    let left = lookup-delete id (show_ℕ n) api.requests in
    elim (Bool-cases (m == n)) [
      | inl b ↦
          let there : lookup (show_ℕ n) api.requests ≡ some m =
            ap (λ k. lookup k api.requests) (sym ((eq_iff id (show_ℕ n)).0 (under ∙ b))) ∙ found in
          omega (
            arith,
            ap bit b,
            ap (λ o. bit (is_some o)) there,
            ap (λ o. bit (is_some o)) left,
            ap (λ c. bit (is_some (if c then none else lookup (show_ℕ n) api.requests)))
                (under ∙ b),
          )
      | inr b ↦ omega (
        arith,
        ap bit b,
        ap (λ o. bit (is_some o)) left,
        ap (λ c. bit (is_some (if c then none else lookup (show_ℕ n) api.requests))) (under ∙ b),
      )
    ]

settle_made :
    (msg : Response) (o : Option (String × ℕ)) (api : Api)
    → (settle msg o api).1.req_id ≡ api.req_id
unfolding settle
settle_made msg none api = refl
settle_made msg (some (id, n)) api = refl

pub act-req_id : (a : Action) (api : Api) → api.req_id ≤ (act a api).1.req_id
unfolding act handle_response request
act-req_id (ask cmd) api = omega arith
act-req_id (answer msg) api = omega (arith, settle_made msg (pending msg.req_id api) api)

request_balance :
    (n : ℕ) (cmd : Members) (api : Api)
    → IsNumbered api
    → bit (is_pending n (request cmd api).1) + bit (is_made n api)
      ≡ bit (is_pending n api) + bit (is_made n (request cmd api).1)
unfolding request
request_balance n cmd api h = elim (Bool-cases (suc api.req_id == n)) [
  | inl b ↦
      let now : lookup (show_ℕ n) (request cmd api).1.requests ≡ some (suc api.req_id) =
        lookup-request cmd api n ∙ rw b refl in
      ground (arith, b, ap is_some now, ap is_some (h.fresh n (ground (arith, b))))
  | inr b ↦
      let now : lookup (show_ℕ n) (request cmd api).1.requests ≡ lookup (show_ℕ n) api.requests =
        lookup-request cmd api n ∙ rw b refl in
      ground (arith, b, ap is_some now)
]

act_balance :
    (n : ℕ) (a : Action) (api : Api)
    → IsNumbered api
    → settled_now n (act a api).0 + bit (is_pending n (act a api).1) + bit (is_made n api)
      ≡ bit (is_pending n api) + bit (is_made n (act a api).1)
unfolding act handle_response
act_balance n (ask cmd) api h = omega (arith, request_balance n cmd api h)
act_balance n (answer msg) api h =
    let o = pending msg.req_id api in
    omega (
      arith,
      settle_balance n msg o api h refl,
      ap (λ k. bit (if leb 1 n then leb n k else false)) (settle_made msg o api),
    )

total-collect :
    (n : ℕ) (o : Option (ℕ × Settlement)) (l : List (ℕ × Settlement))
    → times_settled n (collect o l) ≡ settled_now n o + times_settled n l
total-collect n none l = omega arith
total-collect n (some t) l = omega arith

run_balance :
    (n : ℕ) (actions : List Action) (api : Api)
    → IsNumbered api
    → times_settled n (run actions api).0
        + bit (is_pending n (run actions api).1)
        + bit (is_made n api)
      ≡ bit (is_pending n api) + bit (is_made n (run actions api).1)
unfolding run
run_balance n [] api h = omega arith
run_balance n (a ∷ actions) api h = omega (
  arith,
  act_balance n a api h,
  run_balance n actions (act a api).1 (act-IsNumbered a api h),
  total-collect n (act a api).0 (run actions (act a api).1).0,
)

-- Whatever requests are made and whatever responses come, in any order: each promise that was made is
-- either pending or was settled exactly once, and nothing else is pending or settled.
pub run_once :
    (n : ℕ) (actions : List Action)
    → times_settled n (run actions new_api).0 + bit (is_pending n (run actions new_api).1)
      ≡ bit (is_made n (run actions new_api).1)
unfolding lookup
run_once n actions = ground (arith, run_balance n actions new_api new_api-IsNumbered)
