-- ===== src/Messages/Deployments.antt =====
-- The deployments: frontend/src/lib/shared/deployments.svelte.ts and handlers/deployment.handler.ts. A
-- time is the milliseconds that the clock shows.
use ig_desktop.Prelude.{
  ℕ, String, Bool, true, false, Option, none, some, List, [], ◌∷◌, ◌++◌, if◌then◌else◌, str_eq,
  find, or_default, map_option,
}
use ig_desktop.Prelude.Int.{ℤ, pos}
use ig_desktop.Prelude.Assoc.{lookup, insert, delete, values}
use ig_desktop.Js.Text.{join}
use ig_desktop.Js.Numerals.{show_ℕ, show_ℤ}
use ig_desktop.Js.Json.{Json}

pub data DeploymentStatus : Type 0 where
  configuring deploying success failed : DeploymentStatus

pub record DeploymentProgress : Type 0 where
  pub id : String
  pub status : DeploymentStatus
  pub config : Json
  pub progress : Option ℤ
  pub current_step : Option String
  pub logs : List String
  pub debug_logs : List String
  pub error : Option String
  pub timestamp : ℕ
  pub completed_at : Option ℕ

abbrev pub Deployments : Type 0
Deployments = List (String × DeploymentProgress)

-- The id, and the store.
unfoldable pub create : Json → ℕ → Deployments → String × Deployments
unfolding insert show_ℕ
create config now store =
    let id = join "" ("deploy-" ∷ show_ℕ now ∷ []) in
    (
      id,
      insert id
          (record {
            id = id;
            status = configuring;
            config = config;
            progress = some (pos 0);
            current_step = none;
            logs = [];
            debug_logs = [];
            error = none;
            timestamp = now;
            completed_at = none;
          })
          store,
    )

abbrev pub modified :
    String
    → (DeploymentProgress → DeploymentProgress)
    → Option DeploymentProgress
    → Deployments
    → Deployments
modified id f none store = store
modified id f (some d) store = insert id (f d) store

-- `update`: nothing is done for an id that is not there. The updates are a function.
unfoldable pub update :
    String → (DeploymentProgress → DeploymentProgress) → Deployments → Deployments
unfolding lookup insert
update id f store = modified id f (lookup id store) store

unfoldable pub add_log : String → String → Deployments → Deployments
unfolding update
add_log id log = update id (λ d. record d { logs = d.logs ++ log ∷ [] })

unfoldable pub add_debug_log : String → String → Deployments → Deployments
unfolding update
add_debug_log id log = update id (λ d. record d { debug_logs = d.debug_logs ++ log ∷ [] })

unfoldable pub remove : String → Deployments → Deployments
unfolding delete
remove id store = delete id store

unfoldable pub get : String → Deployments → Option DeploymentProgress
unfolding lookup
get id store = lookup id store

abbrev is_active : DeploymentStatus → Bool
is_active configuring = true
is_active deploying = true
is_active s = false

unfoldable pub get_active : Deployments → Option DeploymentProgress
unfolding values
get_active store = find (λ d. is_active d.status) (values store)

abbrev is_completed : DeploymentStatus → Bool
is_completed success = true
is_completed failed = true
is_completed s = false

unfoldable pub clear_completed : Deployments → Deployments
clear_completed [] = []
clear_completed ((id, d) ∷ store) =
    let rest = clear_completed store in if is_completed d.status then rest else (id, d) ∷ rest

pub record DeploymentEventData : Type 0 where
  pub deployment_id : Option String
  pub progress : Option ℤ
  pub message : Option String
  pub error : Option String

-- A template literal prints a missing value as `undefined`.
abbrev shown : Option String → String
shown o = or_default o "undefined"

-- What the three handlers write to the debug log, to the log and to the deployment.
unfoldable pub progress_debug : DeploymentEventData → String
unfolding show_ℤ join
progress_debug e =
    join ""
      ("[WS] Progress: " ∷ shown (map_option show_ℤ e.progress) ∷ "% - " ∷ shown e.message ∷ [])

unfoldable pub on_progress : String → DeploymentEventData → Deployments → Deployments
unfolding add_log add_debug_log update progress_debug
on_progress id e store = add_log id (or_default e.message "") (
    update id (λ d. record d { progress = e.progress; current_step = e.message })
      (add_debug_log id (progress_debug e) store))

-- `message || 'Deployment completed successfully'`.
abbrev pub completed_message : Option String → String
completed_message none = "Deployment completed successfully"
completed_message (some m) = if str_eq m "" then "Deployment completed successfully" else m

unfoldable pub on_complete : ℕ → String → DeploymentEventData → Deployments → Deployments
unfolding add_log add_debug_log update
on_complete now id e store = add_log id (completed_message e.message) (
    update id
      (λ d. record d { status = success; progress = some (pos 100); completed_at = some now })
      (add_debug_log id "[WS] Deployment completed!" store))

unfoldable pub error_log : Option String → String → Deployments → Deployments
unfolding add_log join
error_log none id store = store
error_log (some e) id store =
    if str_eq e "" then store else add_log id (join "" ("Error: " ∷ e ∷ [])) store

unfoldable pub error_debug : DeploymentEventData → String
unfolding join
error_debug e = join "" ("[WS] Error: " ∷ shown e.error ∷ [])

unfoldable pub on_error : ℕ → String → DeploymentEventData → Deployments → Deployments
unfolding error_log add_debug_log update error_debug
on_error now id e store = error_log e.error id (
    update id (λ d. record d { status = failed; error = e.error; completed_at = some now })
      (add_debug_log id (error_debug e) store))

-- A message without an id, or with an empty one, changes nothing.
abbrev pub with_id :
    Option String → (String → Deployments → Deployments) → Deployments → Deployments
with_id none f store = store
with_id (some id) f store = if str_eq id "" then store else f id store

unfoldable pub handle_deployment_progress : DeploymentEventData → Deployments → Deployments
unfolding on_progress
handle_deployment_progress e = with_id e.deployment_id (λ id. on_progress id e)

unfoldable pub handle_deployment_complete : ℕ → DeploymentEventData → Deployments → Deployments
unfolding on_complete
handle_deployment_complete now e = with_id e.deployment_id (λ id. on_complete now id e)

unfoldable pub handle_deployment_error : ℕ → DeploymentEventData → Deployments → Deployments
unfolding on_error
handle_deployment_error now e = with_id e.deployment_id (λ id. on_error now id e)
