-- ===== src/Messages/Router.antt =====
-- The message router and the environments: services/message-router.service.svelte.ts,
-- handlers/environment.handler.ts and stores/current-session.svelte.ts of frontend/src/lib.
use ig_desktop.Prelude.{ℕ, suc, String, Option, none, some, List, [], if◌then◌else◌, str_eq, ◌==◌}
use ig_desktop.Prelude.Int.{pos, eqb_ℤ}
use ig_desktop.Prelude.Assoc.{lookup, insert, delete}
use ig_desktop.Js.Json.{Json, Members, null, bool, num, str, arr, obj, put, at}

-- A message as it was parsed.
pub record Message : Type 0 where
  pub kind : ℕ
  pub message_data : Option Json

-- What is done with the data before the dispatch: nothing, a new id, or an exception, since a
-- property of a text, a number or a Boolean cannot be set.
pub data Numbered : Type 0 where
  untouched : Numbered
  stamped : Json → Numbered
  cannot_stamp : Numbered

-- `msg.data.msgID = this.msgID++` under `if (msg.data)`. The id of an array is not one of its items.
unfoldable pub stamp_data : ℕ → Option Json → Numbered
unfolding put
stamp_data id none = untouched
stamp_data id (some null) = untouched
stamp_data id (some (bool b)) = if b then cannot_stamp else untouched
stamp_data id (some (num n)) = if eqb_ℤ n (pos 0) then untouched else cannot_stamp
stamp_data id (some (str s)) = if str_eq s "" then untouched else cannot_stamp
stamp_data id (some (arr vs)) = stamped (arr vs)
stamp_data id (some (obj ms)) = stamped (obj (put "msgID" (num (pos id)) ms))

-- The handlers, over the state of the program.
pub record Handlers {ℓ} (S : Type ℓ) : Type ℓ where
  pub request_response : Message → S → S
  pub gadget_info : Message → S → S
  pub gadget_event : Message → S → S
  pub gadget_logging : Message → S → S
  pub gadget_quit : Message → S → S
  pub gadget_array_data : Message → S → S
  pub environment_create : Message → S → S
  pub environment_delete : Message → S → S
  pub deployment_progress : Message → S → S
  pub deployment_complete : Message → S → S
  pub deployment_error : Message → S → S

module _ {ℓ} {S : Type ℓ} (handlers : Handlers S) where
  -- The `switch`; a message of another type changes nothing.
  unfoldable pub dispatch : Message → S → S
  dispatch msg s =
      if msg.kind == 1
      then handlers.request_response msg s
      else if msg.kind == 2
      then handlers.gadget_info msg s
      else if msg.kind == 3
      then handlers.gadget_event msg s
      else if msg.kind == 4
      then handlers.gadget_logging msg s
      else if msg.kind == 5
      then handlers.gadget_quit msg s
      else if msg.kind == 6
      then handlers.gadget_array_data msg s
      else if msg.kind == 100
      then handlers.environment_create msg s
      else if msg.kind == 101
      then handlers.environment_delete msg s
      else if msg.kind == 200
      then handlers.deployment_progress msg s
      else if msg.kind == 201
      then handlers.deployment_complete msg s
      else if msg.kind == 202
      then handlers.deployment_error msg s
      else s

  unfoldable pub route_numbered : Numbered → ℕ → Message → S → ℕ × S
  unfolding dispatch
  route_numbered untouched id msg s = (id, dispatch msg s)
  route_numbered (stamped v) id msg s = (suc id, dispatch (record msg { message_data = some v }) s)
  route_numbered cannot_stamp id msg s = (suc id, s)

  -- `route` for a text that parses: the next id, and the state.
  unfoldable pub route : Message → ℕ → S → ℕ × S
  unfolding route_numbered stamp_data
  route msg id s = route_numbered (stamp_data id msg.message_data) id msg s

-- The environments by their id, and the sessions by environment.
abbrev pub Environments : Type 0
Environments = List (String × Members)

abbrev environment_id : Members → Option String
environment_id ms = elim (at "id" ms) [ some (str id) ↦ some id | _ ↦ none ]

abbrev store_environment : Option String → Members → Environments → Environments
store_environment none ms store = store
store_environment (some id) ms store = if str_eq id "" then store else insert id ms store

abbrev delete_environment : Option String → Environments → Environments
delete_environment none store = store
delete_environment (some id) store = if str_eq id "" then store else delete id store

unfoldable pub handle_environment_create : Option Json → Environments → Environments
unfolding at insert
handle_environment_create (some (obj ms)) store = store_environment (environment_id ms) ms store
handle_environment_create _ store = store

unfoldable pub handle_environment_delete : Option Json → Environments → Environments
unfolding at delete
handle_environment_delete (some (obj ms)) store = delete_environment (environment_id ms) store
handle_environment_delete _ store = store

abbrev pub Sessions : Type 0
Sessions = List (String × String)

unfoldable pub get_session : String → Sessions → Option String
unfolding lookup
get_session environment sessions = lookup environment sessions

unfoldable pub set_session : String → String → Sessions → Sessions
unfolding insert
set_session environment session sessions = insert environment session sessions

unfoldable pub clear_session : String → Sessions → Sessions
unfolding delete
clear_session environment sessions = delete environment sessions

unfoldable pub clear_all_sessions : Sessions → Sessions
clear_all_sessions sessions = []
