-- ===== src/Api/Tests.antt =====
-- The requests on small inputs.
use ig_desktop.Prelude.{◌+◌, ◌≡◌, refl, true, false, none, some, List, [], ◌∷◌, bit}
use ig_desktop.Js.Json.{Json, Members, str, member, no_member}
use ig_desktop.Js.Numerals.{show_ℕ}
use ig_desktop.Api.{
  Response, resolved, rejected, Action, ask, answer, run, new_api, request, handle_response,
  outcome, delete_session,
}
use ig_desktop.Api.Settled.{run_once, times_settled, is_pending, is_made}
use ig_desktop.Api.Reached.{request_reached}

abbrev list_command : Members
list_command = member "cmd" (str "listPlugins") no_member

abbrev good : Response
good = record { req_id = some "2"; success = true; error = none; response_data = some (str "x") }

abbrev bad : Response
bad = record { req_id = some "1"; success = false; error = some (str "no"); response_data = none }

abbrev actions : List Action
actions = ask list_command ∷ ask list_command ∷ answer good ∷ answer bad ∷ answer good ∷ []

settled_once_each :
    (run actions new_api).0 ≡ (2, resolved (some (str "x"))) ∷ (1, rejected (some (str "no"))) ∷ []
unfolding run show_ℕ
settled_once_each = refl

sent_command :
    (delete_session "s" new_api).0.0
    ≡ member "cmd" (str "deleteSession") (
        member "data"
          (Json.obj (member "sessionId" (str "s") no_member))
          (member "reqID" (str "1") no_member))
unfolding delete_session show_ℕ
sent_command = refl

run_once_example :
    times_settled 2 (run actions new_api).0 + bit (is_pending 2 (run actions new_api).1)
    ≡ bit (is_made 2 (run actions new_api).1)
run_once_example = run_once 2 actions

request_reached_example :
    (handle_response good
      (run
        (ask list_command ∷ answer bad ∷ [])
        (request list_command (run (ask list_command ∷ []) new_api).1).1).1).0
    ≡ some ((request list_command (run (ask list_command ∷ []) new_api).1).0.1, outcome good)
unfolding run request show_ℕ
request_reached_example =
    request_reached (ask list_command ∷ []) (ask list_command ∷ answer bad ∷ []) list_command good
      (refl, (refl, tt)) refl
