-- ===== src/Gadget/Arrays.antt =====
-- `handleGadgetArrayData` of frontend/src/lib/handlers/gadget.handler.svelte.ts: a whole array of
-- events becomes a snapshot, and its events go to the ring buffer, numbered and dated. The clock is
-- an argument.
pub mod Laws
use ig_desktop.Prelude.{
  ℕ, ◌+◌, String, Bool, true, false, Option, none, some, List, [], ◌∷◌, ◌++◌, or_default, length,
  if◌then◌else◌, ◌==◌,
}
use ig_desktop.Prelude.Int.{ℤ, pos}
use ig_desktop.Prelude.Assoc.{lookup, insert}
use ig_desktop.Js.{Event, num, str, non_empty}
use ig_desktop.Ring.{Ring, create, push}
use ig_desktop.Gadget.Processors.{Calls, Plugin, World, run_batch_processors}
use ig_desktop.Gadget.Flush.{Instance, Pushed, push_synthetic_events}
use ig_desktop.Gadget.Snapshots.{ArraySnapshot, add_snapshot}

-- `configuration.get('maxEventsPerGadget') || DEFAULT_MAX_EVENTS`.
unfoldable pub get_max_events : Option ℕ → ℕ
get_max_events none = 10000
get_max_events (some n) = if n == 0 then 10000 else n

abbrev pub SnapshotStore : Type 0
SnapshotStore = List (String × List (String × List ArraySnapshot))

-- The shared variables of the handlers. `thrown` is that the constructor of a ring buffer threw.
pub record Gadgets {ℓ} (S : Type ℓ) : Type ℓ where
  pub instances : List (String × Instance)
  pub snapshots : SnapshotStore
  pub world : World S
  pub batch_id_counter : ℕ
  pub msg_id : ℕ
  pub thrown : Bool

-- The fields that an event gets before it is pushed.
unfoldable pub stamp : ℕ → ℤ → ℕ → String → Event → Event
unfolding insert
stamp msg_id received_at batch_id datasource_id event = insert "_datasourceID" (str datasource_id) (
    insert "_batchId" (num (pos batch_id))
      (insert "_receivedAt" (num received_at) (insert "msgID" (num (pos msg_id)) event)))

unfoldable pub store_snapshot : ℕ → String → String → ArraySnapshot → SnapshotStore → SnapshotStore
unfolding lookup insert add_snapshot
store_snapshot max_events instance_id datasource_id snapshot store =
    let of_instance = or_default (lookup instance_id store) [] in
    let existing = or_default (lookup datasource_id of_instance) [] in
    insert instance_id
      (insert datasource_id (add_snapshot max_events snapshot existing) of_instance) store

-- The loop that stamps and pushes the events.
unfoldable pub push_stamped : ℤ → ℕ → String → List Event → ℕ → Ring Event → Ring Event × ℕ
unfolding stamp push
push_stamped received_at batch_id datasource_id [] msg_id ring = (ring, msg_id)
push_stamped received_at batch_id datasource_id (e ∷ es) msg_id ring =
    push_stamped received_at batch_id datasource_id es (msg_id + 1)
      (push (stamp msg_id received_at batch_id datasource_id e) ring)

module _ {ℓ} {S : Type ℓ} (calls : Calls S) (plugins : List Plugin) (max_events : ℕ) (now : ℤ)
    (instance_id : String) where
  -- All events were filtered out: the synthetic ones are pushed, if there is a ring buffer.
  unfoldable pub only_synthetic : Instance → World S → Gadgets S → Gadgets S
  unfolding push_synthetic_events insert
  only_synthetic i w g = elim i.events [
    | none ↦ record g { world = w }
    | some ring ↦
        let p =
          push_synthetic_events calls plugins instance_id
            (record { ring = ring; pushed_count = 0; world = w }) in
        record g {
          instances =
              insert instance_id
                (record i { events = some p.ring; event_count = i.event_count + p.pushed_count })
                g.instances;
          world = p.world;
        }
  ]

  -- The events that the processors left, with the ring buffer to push to.
  unfoldable pub store_events :
      String → List Event → ℕ → Instance → Ring Event → World S → Gadgets S → Gadgets S
  unfolding store_snapshot push_stamped push_synthetic_events insert
  store_events datasource_id events batch_id i ring w g =
      let snapshot : ArraySnapshot = record {
        batch_id = batch_id;
        received_at = now;
        events = events;
      } in
      let (pushed, msg_id) = push_stamped now batch_id datasource_id events g.msg_id ring in
      let p =
        push_synthetic_events calls plugins instance_id
          (record { ring = pushed; pushed_count = length events; world = w }) in
      record g {
        instances =
            insert instance_id
              (record i { events = some p.ring; event_count = i.event_count + p.pushed_count })
              g.instances;
        snapshots = store_snapshot max_events instance_id datasource_id snapshot g.snapshots;
        world = p.world;
        msg_id = msg_id;
      }

  -- The ring buffer of the instance, or a new one.
  unfoldable pub ring_of : Instance → Option (Ring Event)
  unfolding create
  ring_of i = elim i.events [ none ↦ create max_events | some ring ↦ some ring ]

  unfoldable pub after_processors :
      String → ℕ → Instance → List Event → World S → Gadgets S → Gadgets S
  unfolding only_synthetic store_events ring_of
  after_processors datasource_id batch_id i [] w g = only_synthetic i w g
  after_processors datasource_id batch_id i (e ∷ es) w g = elim (ring_of i) [
    | none ↦ record g { world = w; thrown = true }
    | some ring ↦ store_events datasource_id (e ∷ es) batch_id i ring w g
  ]

  unfoldable pub handle_gadget_array_data : Option String → List Event → Gadgets S → Gadgets S
  unfolding run_batch_processors after_processors lookup
  handle_gadget_array_data datasource events g = elim (lookup instance_id g.instances) [
    | none ↦ g
    | some i ↦
        let datasource_id = or_default (some_text datasource) "default" in
        let (es, w) =
          run_batch_processors calls instance_id datasource_id i.has_info plugins events g.world in
        after_processors datasource_id g.batch_id_counter i es w
          (record g { batch_id_counter = g.batch_id_counter + 1 })
  ]
    where
      some_text : Option String → Option String
      some_text none = none
      some_text (some s) = non_empty s
