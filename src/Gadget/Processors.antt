-- ===== src/Gadget/Processors.antt =====
-- The data processors of frontend/src/lib/handlers/gadget.handler.svelte.ts, and the queue of
-- services/processor-state.service.ts. A processor is a plugin's code: what its calls do is a
-- parameter, over a state `S` of the plugin's own. A call tells whether it threw and which synthetic
-- events it emitted.
use ig_desktop.Prelude.{
  String, Bool, true, false, Option, none, some, List, [], ◌∷◌, ◌++◌, any, str_eq, or_default,
  if◌then◌else◌,
}
use ig_desktop.Prelude.Assoc.{lookup, insert, delete}
use ig_desktop.Js.{Event, bool}

-- What `processEvent` does: `null`, `undefined`, an event, or an exception.
pub data Outcome : Type 0 where
  filtered unchanged threw : Outcome
  replaced : Event → Outcome

-- What `processBatch` does.
pub data BatchOutcome : Type 0 where
  batch_threw : BatchOutcome
  batch : List Event → BatchOutcome

pub record Plugin : Type 0 where
  pub id : String
  pub has_process_event : Bool
  pub has_process_batch : Bool
  pub applies_to : Option (List String)

-- `plugin.dataProcessor.appliesTo`, tested against a datasource's name.
unfoldable pub applies : Plugin → String → Bool
applies p datasource = elim p.applies_to [
  | none ↦ true
  | some names ↦ any (λ n. str_eq n datasource) names
]

-- `syntheticEventsQueue`, and the plugins' state.
pub record World {ℓ} (S : Type ℓ) : Type ℓ where
  pub queue : List (String × List Event)
  pub inner : S

module _ {ℓ} {S : Type ℓ} where
  unfoldable pub emit_event : String → Event → World S → World S
  unfolding insert lookup
  emit_event instance_id event w = record w {
    queue = insert instance_id (or_default (lookup instance_id w.queue) [] ++ event ∷ []) w.queue;
  }

  unfoldable pub emit_events : String → List Event → World S → World S
  unfolding emit_event
  emit_events instance_id [] w = w
  emit_events instance_id (e ∷ es) w = emit_events instance_id es (emit_event instance_id e w)

  unfoldable pub drain_synthetic_events : String → World S → List Event × World S
  unfolding lookup delete
  drain_synthetic_events instance_id w =
      (or_default (lookup instance_id w.queue) [], record w { queue = delete instance_id w.queue })

-- `event._synthetic = true`.
unfoldable pub set_synthetic : Event → Event
unfolding insert
set_synthetic event = insert "_synthetic" (bool true) event

-- The events that `pushSyntheticEvents` pushes.
unfoldable pub marked : List Event → List Event
unfolding set_synthetic
marked [] = []
marked (e ∷ es) = set_synthetic e ∷ marked es

-- The calls of the plugins: by plugin, datasource and event.
pub record Calls {ℓ} (S : Type ℓ) : Type ℓ where
  pub process_event : String → String → Event → S → Outcome × List Event × S
  pub process_batch : String → String → List Event → S → BatchOutcome × List Event × S

module _ {ℓ} {S : Type ℓ} (calls : Calls S) (instance_id datasource : String) where
  unfoldable pub call_event : Plugin → Event → World S → Outcome × World S
  unfolding emit_events
  call_event p event w =
      let (o, emitted, s) = calls.process_event p.id datasource event w.inner in
      (o, emit_events instance_id emitted (record w { inner = s }))

  unfoldable pub call_batch : Plugin → List Event → World S → BatchOutcome × World S
  unfolding emit_events
  call_batch p events w =
      let (o, emitted, s) = calls.process_batch p.id datasource events w.inner in
      (o, emit_events instance_id emitted (record w { inner = s }))

  -- Whether the loop of `runEventProcessors` calls the plugin.
  unfoldable pub is_called : Plugin → Bool
  unfolding applies
  is_called p = if p.has_process_event then applies p datasource else false

  -- What the loop goes on with, and `none` where it returns `null`.
  unfoldable pub after : Outcome → Event → Option Event
  after filtered event = none
  after unchanged event = some event
  after threw event = some event
  after (replaced e) event = some e

  abbrev go_on :
      Option Event → World S → (Event → World S → Option Event × World S) → Option Event × World S
  go_on none w k = (none, w)
  go_on (some e) w k = k e w

  -- The loop of `runEventProcessors`.
  unfoldable pub run_processors : List Plugin → Event → World S → Option Event × World S
  unfolding is_called call_event after
  run_processors [] event w = (some event, w)
  run_processors (p ∷ ps) event w =
      let (o, w') = call_event p event w in
      let skip = run_processors ps event w in
      if is_called p then go_on (after o event) w' (run_processors ps) else skip

  -- Without gadget info an event passes unprocessed.
  unfoldable pub run_event_processors :
      Bool → List Plugin → Event → World S → Option Event × World S
  unfolding run_processors
  run_event_processors has_info ps event w =
      if has_info then run_processors ps event w else (some event, w)

  -- The fallback of `runBatchProcessors`: an exception ends the loop, and leaves the batch as it was.
  unfoldable pub each_event : Plugin → List Event → World S → Option (List Event) × World S
  unfolding call_event
  each_event p [] w = (some [], w)
  each_event p (event ∷ events) w =
      let (o, w') = call_event p event w in
      let (rest, w'') = each_event p events w' in
      elim o [
        | filtered ↦ (rest, w'')
        | unchanged ↦ (elim rest [ none ↦ none | some es ↦ some (event ∷ es) ], w'')
        | threw ↦ (none, w')
        | replaced e ↦ (elim rest [ none ↦ none | some es ↦ some (e ∷ es) ], w'')
      ]

  unfoldable pub batch_or : BatchOutcome → List Event → List Event
  batch_or batch_threw events = events
  batch_or (batch es) events = es

  -- One plugin of `runBatchProcessors`.
  unfoldable pub run_batch_processor : Plugin → List Event → World S → List Event × World S
  unfolding applies call_batch each_event batch_or
  run_batch_processor p events w =
      if applies p datasource
      then if p.has_process_batch
        then (let (o, w') = call_batch p events w in (batch_or o events, w'))
        else if p.has_process_event
        then (let (o, w') = each_event p events w in (or_default o events, w'))
        else (events, w)
      else (events, w)

  unfoldable pub run_batch_processors :
      Bool → List Plugin → List Event → World S → List Event × World S
  unfolding run_batch_processor
  run_batch_processors has_info [] events w = (events, w)
  run_batch_processors has_info (p ∷ ps) events w =
      let (events', w') = run_batch_processor p events w in
      let rest = run_batch_processors has_info ps events' w' in
      if has_info then rest else (events, w)
