-- ===== src/Api.antt =====
-- Requests to the backend and their responses (frontend/src/lib/services/api.service.svelte.ts). A
-- promise is the number of the request that made it.
mod Settled
mod Reached
mod Tests
use ig_desktop.Prelude.{
  ℕ, suc, String, Bool, Option, none, some, List, [], ◌∷◌, if◌then◌else◌, str_eq, map_option,
}
use ig_desktop.Prelude.Assoc.{lookup, insert, delete}
use ig_desktop.Js.Json.{Json, Members, str, obj, no_member, member, put}
use ig_desktop.Js.Numerals.{show_ℕ}

-- A response as it was parsed; `success` tells whether it is truthy.
pub record Response : Type 0 where
  pub req_id : Option String
  pub success : Bool
  pub error : Option Json
  pub response_data : Option Json

-- How a promise is settled.
pub data Settlement : Type 0 where
  resolved rejected : Option Json → Settlement

pub record Api : Type 0 where
  pub req_id : ℕ
  pub requests : List (String × ℕ)

abbrev pub new_api : Api
new_api = record { req_id = 0; requests = [] }

-- The command that is sent, with its id, and the promise.
unfoldable pub request : Members → Api → (Members × ℕ) × Api
unfolding put insert
request cmd api =
    let n = suc api.req_id in
    (
      (put "reqID" (str (show_ℕ n)) cmd, n),
      record { req_id = n; requests = insert (show_ℕ n) n api.requests },
    )

-- `msg.reqID && this.requests[msg.reqID]`.
unfoldable pub pending : Option String → Api → Option (String × ℕ)
unfolding lookup
pending none api = none
pending (some id) api =
    if str_eq id "" then none else map_option (λ n. (id, n)) (lookup id api.requests)

unfoldable pub outcome : Response → Settlement
outcome msg = if msg.success then resolved msg.response_data else rejected msg.error

-- The promise that is settled is settled first, and forgotten then.
unfoldable pub settle : Response → Option (String × ℕ) → Api → Option (ℕ × Settlement) × Api
unfolding outcome delete
settle msg none api = (none, api)
settle msg (some (id, n)) api =
    (some (n, outcome msg), record api { requests = delete id api.requests })

unfoldable pub handle_response : Response → Api → Option (ℕ × Settlement) × Api
unfolding settle pending
handle_response msg api = settle msg (pending msg.req_id api) api

-- The commands that the service has methods for.
abbrev with_data : String → Members → Members
with_data cmd args = member "cmd" (str cmd) (member "data" (obj args) no_member)

unfoldable pub list_sessions : String → Api → (Members × ℕ) × Api
unfolding request
list_sessions environment_id =
    request (with_data "listSessions" (member "environmentId" (str environment_id) no_member))

unfoldable pub delete_session : String → Api → (Members × ℕ) × Api
unfolding request
delete_session session_id =
    request (with_data "deleteSession" (member "sessionId" (str session_id) no_member))

unfoldable pub get_session : String → Api → (Members × ℕ) × Api
unfolding request
get_session session_id =
    request (with_data "getSession" (member "sessionId" (str session_id) no_member))

abbrev run_args : String → String → Members
run_args session_id run_id =
    member "sessionId" (str session_id) (member "runId" (str run_id) no_member)

unfoldable pub get_run : String → String → Api → (Members × ℕ) × Api
unfolding request
get_run session_id run_id = request (with_data "getRun" (run_args session_id run_id))

unfoldable pub get_run_events : String → String → Api → (Members × ℕ) × Api
unfolding request
get_run_events session_id run_id = request (with_data "getRunEvents" (run_args session_id run_id))

unfoldable pub list_plugins : Api → (Members × ℕ) × Api
unfolding request
list_plugins = request (member "cmd" (str "listPlugins") no_member)

unfoldable pub get_plugin : String → Api → (Members × ℕ) × Api
unfolding request
get_plugin id = request (with_data "getPlugin" (member "id" (str id) no_member))

-- What can happen to the service: a request, or a response.
pub data Action : Type 0 where
  ask : Members → Action
  answer : Response → Action

unfoldable pub act : Action → Api → Option (ℕ × Settlement) × Api
unfolding request handle_response
act (ask cmd) api = (none, (request cmd api).1)
act (answer msg) api = handle_response msg api

abbrev pub collect {ℓ} : {A : Type ℓ} → Option A → List A → List A
collect none l = l
collect (some a) l = a ∷ l

-- The settlements in their order, and the service at the end.
unfoldable pub run : List Action → Api → List (ℕ × Settlement) × Api
unfolding act
run [] api = ([], api)
run (a ∷ actions) api =
    let (o, api') = act a api in let (rest, last) = run actions api' in (collect o rest, last)
