-- ===== src/Messages/Tests.antt =====
-- Messages on small stores.
use ig_desktop.Prelude.{◌≡◌, refl, Option, none, some, List, [], ◌∷◌}
use ig_desktop.Prelude.Int.{pos}
use ig_desktop.Prelude.Assoc.{lookup}
use ig_desktop.Js.Json.{Json, null, num, str, obj, member, no_member}
use ig_desktop.Messages.Router.{
  Handlers, route, handle_environment_create, handle_environment_delete,
}
use ig_desktop.Messages.Deployments.{
  Deployments, DeploymentEventData, create, handle_deployment_progress, handle_deployment_complete,
  handle_deployment_error,
}
use ig_desktop.Messages.Updates.{
  lookup-handle_deployment, only_named, progressed, completed, broken,
}

-- Handlers that note the data of the messages of progress.
abbrev noting : Handlers (List (Option Json))
noting = record {
  request_response = λ m s. s;
  gadget_info = λ m s. s;
  gadget_event = λ m s. s;
  gadget_logging = λ m s. s;
  gadget_quit = λ m s. s;
  gadget_array_data = λ m s. s;
  environment_create = λ m s. s;
  environment_delete = λ m s. s;
  deployment_progress = λ m s. m.message_data ∷ s;
  deployment_complete = λ m s. s;
  deployment_error = λ m s. s;
}

object_data :
    route noting (record { kind = 200; message_data = some (obj no_member) }) 4 []
    ≡ (5, some (obj (member "msgID" (num (pos 4)) no_member)) ∷ [])
unfolding route
object_data = refl

-- The data of a deployment as a text never reaches its handler.
text_data : route noting (record { kind = 200; message_data = some (str "{}") }) 4 [] ≡ (5, [])
unfolding route
text_data = refl

created_and_deleted :
    handle_environment_delete
      (some (obj (member "id" (str "e") no_member)))
      (handle_environment_create (some (obj (member "id" (str "e") no_member))) [])
    ≡ []
unfolding handle_environment_create handle_environment_delete
created_and_deleted = refl

abbrev store : Deployments
store = (create null 9 []).1

abbrev event : DeploymentEventData
event = record {
  deployment_id = some "deploy-9";
  progress = some (pos 50);
  message = some "half";
  error = none;
}

lookup-handle_deployment_example :
    (lookup "deploy-9" (handle_deployment_progress event store)
      ≡ only_named (some "deploy-9") "deploy-9" (progressed event) (lookup "deploy-9" store))
    × ((lookup "deploy-9" (handle_deployment_complete 10 event store)
          ≡ only_named (some "deploy-9") "deploy-9" (completed 10 event) (lookup "deploy-9" store))
        × (lookup "deploy-9" (handle_deployment_error 10 event store)
            ≡ only_named (some "deploy-9") "deploy-9" (broken 10 event) (lookup "deploy-9" store)))
lookup-handle_deployment_example = lookup-handle_deployment 10 event "deploy-9" store
