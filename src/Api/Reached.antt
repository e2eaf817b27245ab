-- ===== src/Api/Reached.antt =====
-- The response to a request reaches its promise.
use mathlib.Core.Option.{none-ne-some}
use ig_desktop.Prelude.{
  ℕ, suc, ◌≤◌, ◌≡◌, refl, sym, ap, ◌∙◌, String, Bool, false, Option, none, some, List, [], ◌∷◌,
  if◌then◌else◌, str_eq, arith, Bool-cases, inl, inr, map_option, All,
}
use ig_desktop.Prelude.Assoc.{lookup, lookup-insert_self, lookup-delete}
use ig_desktop.Js.Numerals.{show_ℕ, show_ℕ_some}
use ig_desktop.Js.Json.{Members}
use ig_desktop.Api.{
  Api, Response, Action, ask, answer, act, run, new_api, request, handle_response, settle, pending,
  outcome,
}
use ig_desktop.Api.Settled.{
  IsNumbered, new_api-IsNumbered, act-IsNumbered, lookup-request, request-IsNumbered, map-pair,
  act-req_id,
}

-- The id of a response names the promise.
abbrev names : ℕ → Option String → Bool
names n none = false
names n (some id) = str_eq id (show_ℕ n)

abbrev pub answers : ℕ → Action → Bool
answers n (ask cmd) = false
answers n (answer msg) = names n msg.req_id

-- The promise is pending, and was made.
pub record IsWaiting (n : ℕ) (api : Api) : Type 0 where
  pub numbered : IsNumbered api
  pub waits : lookup (show_ℕ n) api.requests ≡ some n
  pub made : n ≤ api.req_id

pending-id :
    (o : Option String) (api : Api) (id : String) (n : ℕ)
    → pending o api ≡ some (id, n)
    → o ≡ some id
unfolding pending
pending-id none api id n e = absurd (none-ne-some (id, n) e)
pending-id (some i) api id n e = elim (Bool-cases (str_eq i "")) [
  | inl b ↦ absurd (none-ne-some (id, n) (rw b at e))
  | inr b ↦ ap some (map-pair (lookup i api.requests) i id n (rw b at e)).1
]

settle-waits :
    (n : ℕ) (msg : Response) (o : Option (String × ℕ)) (api : Api)
    → names n msg.req_id ≡ false
    → pending msg.req_id api ≡ o
    → lookup (show_ℕ n) (settle msg o api).1.requests ≡ lookup (show_ℕ n) api.requests
unfolding settle
settle-waits n msg none api f e = refl
settle-waits n msg (some (id, m)) api f e =
    lookup-delete id (show_ℕ n) api.requests
    ∙ ap (λ c. if c then none else lookup (show_ℕ n) api.requests)
        (ap (names n) (sym (pending-id msg.req_id api id m e)) ∙ f)

act-IsWaiting :
    (n : ℕ) (a : Action) (api : Api)
    → answers n a ≡ false
    → IsWaiting n api
    → IsWaiting n (act a api).1
unfolding act handle_response
act-IsWaiting n (ask cmd) api f h = record {
  numbered = act-IsNumbered (ask cmd) api h.numbered;
  waits = lookup-request cmd api n ∙ ground (arith, h.waits, h.made);
  made = omega (arith, h.made, act-req_id (ask cmd) api);
}
act-IsWaiting n (answer msg) api f h = record {
  numbered = act-IsNumbered (answer msg) api h.numbered;
  waits = settle-waits n msg (pending msg.req_id api) api f refl ∙ h.waits;
  made = omega (arith, h.made, act-req_id (answer msg) api);
}

run-IsWaiting :
    (n : ℕ) (actions : List Action) (api : Api)
    → All (λ a. answers n a ≡ false) actions
    → IsWaiting n api
    → IsWaiting n (run actions api).1
unfolding run
run-IsWaiting n [] api f h = h
run-IsWaiting n (a ∷ actions) api (f, fs) h =
    run-IsWaiting n actions (act a api).1 fs (act-IsWaiting n a api f h)

run-IsNumbered :
    (actions : List Action) (api : Api) → IsNumbered api → IsNumbered (run actions api).1
unfolding run
run-IsNumbered [] api h = h
run-IsNumbered (a ∷ actions) api h = run-IsNumbered actions (act a api).1 (act-IsNumbered a api h)

answer-IsWaiting :
    (n : ℕ) (msg : Response) (api : Api)
    → IsWaiting n api
    → msg.req_id ≡ some (show_ℕ n)
    → (handle_response msg api).0 ≡ some (n, outcome msg)
unfolding handle_response settle pending
answer-IsWaiting n msg api h e =
    let found : pending (some (show_ℕ n)) api ≡ some (show_ℕ n, n) =
      ap (λ c. if c then none else map_option (λ m. (show_ℕ n, m)) (lookup (show_ℕ n) api.requests))
        (show_ℕ_some n)
      ∙ ap (λ o. map_option (λ m. (show_ℕ n, m)) o) h.waits in
    ap (λ o. (settle msg o api).0) (ap (λ o. pending o api) e ∙ found)

request-IsWaiting :
    (cmd : Members) (api : Api) → IsNumbered api → IsWaiting (suc api.req_id) (request cmd api).1
unfolding request
request-IsWaiting cmd api h = record {
  numbered = request-IsNumbered cmd api h;
  waits = lookup-insert_self (show_ℕ (suc api.req_id)) (suc api.req_id) api.requests;
  made = omega arith;
}

-- The promise of a request is settled by the first response with its id, with the data of the response
-- if it tells of success and with its error otherwise, whatever requests and other responses came
-- before and in between.
pub request_reached :
    (earlier between : List Action) (cmd : Members) (msg : Response)
    → (let api = (run earlier new_api).1 in
        let n = (request cmd api).0.1 in
        All (λ a. answers n a ≡ false) between
        → msg.req_id ≡ some (show_ℕ n)
        → (handle_response msg (run between (request cmd api).1).1).0 ≡ some (n, outcome msg))
unfolding request
request_reached earlier between cmd msg others named =
    let api = (run earlier new_api).1 in
    let h = run-IsNumbered earlier new_api new_api-IsNumbered in
    let n = suc api.req_id in
    answer-IsWaiting n msg (run between (request cmd api).1).1
      (run-IsWaiting n between (request cmd api).1 others (request-IsWaiting cmd api h)) named
