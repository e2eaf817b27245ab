-- ===== src/Gadget/Flush.antt =====
-- `EventBuffer.flush` of frontend/src/lib/handlers/gadget.handler.svelte.ts: the messages that were
-- taken are grouped by instance, run through the processors and pushed to the ring buffers. The
-- datasource that a processor sees is known by its name, which `toDatasource` gives the same as the
-- message, found or not.
pub mod Laws
use ig_desktop.Prelude.{
  ℕ, ◌+◌, String, Bool, true, false, Option, none, some, List, [], ◌∷◌, ◌++◌, reverse, or_default,
  length, if◌then◌else◌, ltb,
}
use ig_desktop.Prelude.Assoc.{lookup, insert}
use ig_desktop.Js.{Event, field, text_of}
use ig_desktop.Ring.{Ring, push, push_many}
use ig_desktop.Gadget.Processors.{
  Calls, Plugin, World, run_event_processors, drain_synthetic_events, marked,
}

pub record GadgetEventMessage : Type 0 where
  pub instance_id : String
  pub payload : Event

-- What the handlers read of an instance: whether it has gadget info, its ring buffer, its counter.
pub record Instance : Type 0 where
  pub has_info : Bool
  pub events : Option (Ring Event)
  pub event_count : ℕ

-- The grouping loop of `flush`.
unfoldable pub group_message :
    GadgetEventMessage
    → List (String × List GadgetEventMessage)
    → List (String × List GadgetEventMessage)
unfolding insert lookup
group_message msg groups =
    insert msg.instance_id (or_default (lookup msg.instance_id groups) [] ++ msg ∷ []) groups

unfoldable pub group_messages :
    List GadgetEventMessage
    → List (String × List GadgetEventMessage)
    → List (String × List GadgetEventMessage)
unfolding group_message
group_messages [] groups = groups
group_messages (m ∷ ms) groups = group_messages ms (group_message m groups)

-- `msgs[0].data._datasourceID || 'default'`.
unfoldable pub datasource_of : List GadgetEventMessage → String
unfolding text_of field
datasource_of [] = "default"
datasource_of (m ∷ ms) = or_default (text_of (field "_datasourceID" m.payload)) "default"

-- The loop's variables: the ring buffer, `pushedCount`, and the processors' world.
pub record Pushed {ℓ} (S : Type ℓ) : Type ℓ where
  pub ring : Ring Event
  pub pushed_count : ℕ
  pub world : World S

module _ {ℓ} {S : Type ℓ} (calls : Calls S) (plugins : List Plugin) where
  unfoldable pub push_if_kept : Option Event → World S → Pushed S → Pushed S
  unfolding push
  push_if_kept o w p = record {
    ring = elim o [ none ↦ p.ring | some e ↦ push e p.ring ];
    pushed_count = elim o [ none ↦ p.pushed_count | some e ↦ p.pushed_count + 1 ];
    world = w;
  }

  -- The loop over the messages of one instance, given in the order in which it takes them.
  unfoldable pub push_messages :
      String → String → Bool → List GadgetEventMessage → Pushed S → Pushed S
  unfolding run_event_processors push_if_kept
  push_messages instance_id datasource has_info [] p = p
  push_messages instance_id datasource has_info (m ∷ ms) p =
      let (o, w) =
        run_event_processors calls instance_id datasource has_info plugins m.payload p.world in
      push_messages instance_id datasource has_info ms (push_if_kept o w p)

  -- `pushSyntheticEvents`, with what its result is added to.
  unfoldable pub push_synthetic_events : String → Pushed S → Pushed S
  unfolding drain_synthetic_events marked push_many
  push_synthetic_events instance_id p =
      let (events, w) = drain_synthetic_events instance_id p.world in
      record {
        ring = push_many (marked events) p.ring;
        pushed_count = p.pushed_count + length events;
        world = w;
      }

  -- One instance: last message first, then the synthetic events.
  unfoldable pub flush_ring :
      String → Bool → List GadgetEventMessage → Ring Event → World S → Pushed S
  unfolding push_messages push_synthetic_events datasource_of
  flush_ring instance_id has_info msgs ring w = push_synthetic_events instance_id (
      push_messages instance_id (datasource_of msgs) has_info (reverse msgs)
        (record { ring = ring; pushed_count = 0; world = w }))

  unfoldable pub flush_instance :
      String
      → List GadgetEventMessage
      → Option Instance
      → List (String × Instance)
      → World S
      → List (String × Instance) × World S
  unfolding flush_ring insert
  flush_instance instance_id msgs none instances w = (instances, w)
  flush_instance instance_id msgs (some i) instances w = elim i.events [
    | none ↦ (instances, w)
    | some ring ↦
        let p = flush_ring instance_id i.has_info msgs ring w in
        (
          insert instance_id
              (record i { events = some p.ring; event_count = i.event_count + p.pushed_count })
              instances,
          p.world,
        )
  ]

  -- The loop over the groups.
  unfoldable pub flush_groups :
      List (String × List GadgetEventMessage)
      → List (String × Instance)
      → World S
      → List (String × Instance) × World S
  unfolding flush_instance lookup
  flush_groups [] instances w = (instances, w)
  flush_groups ((id, msgs) ∷ groups) instances w =
      let (instances', w') = flush_instance id msgs (lookup id instances) instances w in
      flush_groups groups instances' w'

  -- What `flush` does with the messages it took.
  unfoldable pub flush :
      List GadgetEventMessage
      → List (String × Instance)
      → World S
      → List (String × Instance) × World S
  unfolding group_messages flush_groups
  flush msgs instances w = flush_groups (group_messages msgs []) instances w
