-- ===== src/Messages/Updates.antt =====
-- What the messages of a deployment change.
use mathlib.Core.Path.{subst}
use mathlib.Core.List.{append-nil}
use ig_desktop.Prelude.{
  ℕ, ◌≡◌, refl, sym, ap, ◌∙◌, String, Option, none, some, List, [], ◌∷◌, ◌++◌, if◌then◌else◌,
  str_eq, eq_iff, or_default, map_option, Bool-cases, inl, inr,
}
use ig_desktop.Prelude.Int.{pos}
use ig_desktop.Prelude.Assoc.{lookup, lookup-insert}
use ig_desktop.Js.Text.{join}
use ig_desktop.Messages.Deployments.{
  Deployments, DeploymentProgress, DeploymentEventData, modified, update, add_log, add_debug_log,
  on_progress, on_complete, on_error, error_log, handle_deployment_progress,
  handle_deployment_complete, handle_deployment_error, progress_debug, completed_message,
  error_debug, success, failed, with_id,
}

module _ (id k : String) where
  -- What is found of a store in which one deployment was changed.
  abbrev changed :
      (DeploymentProgress → DeploymentProgress)
      → Option DeploymentProgress
      → Option DeploymentProgress
  changed f o = if str_eq id k then map_option f o else o

  lookup-modified :
      (f : DeploymentProgress → DeploymentProgress) (o : Option DeploymentProgress)
      (store : Deployments)
      → lookup id store ≡ o
      → lookup k (modified id f o store) ≡ changed f (lookup k store)
  lookup-modified f none store e = elim (Bool-cases (str_eq id k)) [
    | inl b ↦
        let gone : lookup k store ≡ none =
          subst (λ i. lookup i store ≡ none) ((eq_iff id k).0 b) e in
        rw (b, gone) refl
    | inr b ↦ rw b refl
  ]
  lookup-modified f (some d) store e = elim (Bool-cases (str_eq id k)) [
    | inl b ↦
        let there : lookup k store ≡ some d =
          subst (λ i. lookup i store ≡ some d) ((eq_iff id k).0 b) e in
        lookup-insert id k (f d) store ∙ rw (b, there) refl
    | inr b ↦ lookup-insert id k (f d) store ∙ rw b refl
  ]

  lookup-update :
      (f : DeploymentProgress → DeploymentProgress) (store : Deployments)
      → lookup k (update id f store) ≡ changed f (lookup k store)
  unfolding update
  lookup-update f store = lookup-modified f (lookup id store) store refl

  -- Three changes in a row are one.
  changed-changed :
      (f g h : DeploymentProgress → DeploymentProgress) (o : Option DeploymentProgress)
      → changed f (changed g (changed h o)) ≡ changed (λ d. f (g (h d))) o
  changed-changed f g h none = elim (Bool-cases (str_eq id k)) [
    | inl b ↦ rw b refl
    | inr b ↦ rw b refl
  ]
  changed-changed f g h (some d) = elim (Bool-cases (str_eq id k)) [
    | inl b ↦ rw b refl
    | inr b ↦ rw b refl
  ]

  lookup-three :
      (f g h : DeploymentProgress → DeploymentProgress) (store : Deployments)
      → lookup k (update id f (update id g (update id h store)))
        ≡ changed (λ d. f (g (h d))) (lookup k store)
  lookup-three f g h store =
      lookup-update f (update id g (update id h store))
      ∙ ap (changed f)
          (lookup-update g (update id h store) ∙ ap (changed g) (lookup-update h store))
      ∙ changed-changed f g h (lookup k store)

-- What each message makes of its deployment.
abbrev pub progressed : DeploymentEventData → DeploymentProgress → DeploymentProgress
progressed e d = record d {
  progress = e.progress;
  current_step = e.message;
  logs = d.logs ++ or_default e.message "" ∷ [];
  debug_logs = d.debug_logs ++ progress_debug e ∷ [];
}

abbrev pub completed : ℕ → DeploymentEventData → DeploymentProgress → DeploymentProgress
completed now e d = record d {
  status = success;
  progress = some (pos 100);
  completed_at = some now;
  logs = d.logs ++ completed_message e.message ∷ [];
  debug_logs = d.debug_logs ++ "[WS] Deployment completed!" ∷ [];
}

-- An error without a text is not logged.
abbrev pub error_logs : Option String → List String
error_logs none = []
error_logs (some e) = if str_eq e "" then [] else join "" ("Error: " ∷ e ∷ []) ∷ []

abbrev broken_with : List String → ℕ → DeploymentEventData → DeploymentProgress → DeploymentProgress
broken_with logged now e d = record d {
  status = failed;
  error = e.error;
  completed_at = some now;
  logs = d.logs ++ logged;
  debug_logs = d.debug_logs ++ error_debug e ∷ [];
}

abbrev pub broken : ℕ → DeploymentEventData → DeploymentProgress → DeploymentProgress
broken now e = broken_with (error_logs e.error) now e

-- A deployment under its id, if the message names it and it is there; the others as they were.
abbrev pub only_named :
    Option String
    → String
    → (DeploymentProgress → DeploymentProgress)
    → Option DeploymentProgress
    → Option DeploymentProgress
only_named none k f o = o
only_named (some id) k f o = if str_eq id "" then o else (if str_eq id k then map_option f o else o)

lookup-with_id :
    (o : Option String) (k : String) (f : DeploymentProgress → DeploymentProgress)
    (g : String → Deployments → Deployments) (store : Deployments)
    → ((id : String)
        → lookup k (g id store)
          ≡ (if str_eq id k then map_option f (lookup k store) else lookup k store))
    → lookup k (with_id o g store) ≡ only_named o k f (lookup k store)
lookup-with_id none k f g store h = refl
lookup-with_id (some id) k f g store h = elim (Bool-cases (str_eq id "")) [
  | inl b ↦ rw b refl
  | inr b ↦ rw b (h id)
]

module _ (id k : String) (now : ℕ) (e : DeploymentEventData) (store : Deployments) where
  abbrev set_failed : DeploymentProgress → DeploymentProgress
  set_failed d = record d { status = failed; error = e.error; completed_at = some now }

  abbrev set_debug : DeploymentProgress → DeploymentProgress
  set_debug d = record d { debug_logs = d.debug_logs ++ error_debug e ∷ [] }

  abbrev before_log : Deployments
  before_log = update id set_failed (update id set_debug store)

  no_log :
      (o : Option DeploymentProgress)
      → changed id k set_failed (changed id k set_debug o) ≡ changed id k (broken_with [] now e) o
  no_log none = elim (Bool-cases (str_eq id k)) [ inl b ↦ rw b refl | inr b ↦ rw b refl ]
  no_log (some d) = elim (Bool-cases (str_eq id k)) [
    | inl b ↦ rw b (
        ap
          (λ l. some (record d {
            status = failed;
            error = e.error;
            completed_at = some now;
            logs = l;
            debug_logs = d.debug_logs ++ error_debug e ∷ [];
          }))
          (sym (append-nil d.logs)))
    | inr b ↦ rw b refl
  ]

  lookup-before_log : lookup k before_log ≡ changed id k (broken_with [] now e) (lookup k store)
  lookup-before_log =
      lookup-update id k set_failed (update id set_debug store)
      ∙ ap (changed id k set_failed) (lookup-update id k set_debug store)
      ∙ no_log (lookup k store)

  lookup-error_log :
      (o : Option String)
      → lookup k (error_log o id before_log)
        ≡ changed id k (broken_with (error_logs o) now e) (lookup k store)
  unfolding error_log add_log
  lookup-error_log none = lookup-before_log
  lookup-error_log (some text) = elim (Bool-cases (str_eq text "")) [
    | inl b ↦ rw b lookup-before_log
    | inr b ↦ rw b (
        lookup-three id k (λ d. record d { logs = d.logs ++ join "" ("Error: " ∷ text ∷ []) ∷ [] })
          set_failed set_debug store)
  ]

-- A message of progress, of completion or of an error changes the deployment that it names, if there is
-- one, and no other: it sets the fields of its kind and adds to the logs. No message makes a deployment,
-- and one without an id changes nothing.
pub lookup-handle_deployment :
    (now : ℕ) (e : DeploymentEventData) (k : String) (store : Deployments)
    → (lookup k (handle_deployment_progress e store)
        ≡ only_named e.deployment_id k (progressed e) (lookup k store))
      × ((lookup k (handle_deployment_complete now e store)
            ≡ only_named e.deployment_id k (completed now e) (lookup k store))
          × (lookup k (handle_deployment_error now e store)
              ≡ only_named e.deployment_id k (broken now e) (lookup k store)))
unfolding handle_deployment_progress handle_deployment_complete handle_deployment_error on_progress
    on_complete on_error add_log add_debug_log
lookup-handle_deployment now e k store = (
  lookup-with_id e.deployment_id k (progressed e) (λ id. on_progress id e) store
      (λ id.
        lookup-three id k (λ d. record d { logs = d.logs ++ or_default e.message "" ∷ [] })
          (λ d. record d { progress = e.progress; current_step = e.message })
          (λ d. record d { debug_logs = d.debug_logs ++ progress_debug e ∷ [] }) store),
  (
    lookup-with_id e.deployment_id k (completed now e) (λ id. on_complete now id e) store
        (λ id.
          lookup-three id k (λ d. record d { logs = d.logs ++ completed_message e.message ∷ [] })
            (λ d. record d { status = success; progress = some (pos 100); completed_at = some now })
            (λ d. record d { debug_logs = d.debug_logs ++ "[WS] Deployment completed!" ∷ [] })
            store),
    lookup-with_id e.deployment_id k (broken now e) (λ id. on_error now id e) store
        (λ id. lookup-error_log id k now e store e.error),
  ),
)
