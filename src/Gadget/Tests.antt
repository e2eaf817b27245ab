-- ===== src/Gadget/Tests.antt =====
-- The gadget messages at concrete inputs, and their theorems applied to them.
use ig_desktop.Prelude.{
  ℕ, ◌+◌, ◌≡◌, refl, String, true, false, none, some, List, [], ◌∷◌, ◌++◌, map, reverse, take,
  length,
}
use ig_desktop.Prelude.Int.{pos}
use ig_desktop.Prelude.Assoc.{lookup}
use ig_desktop.Js.{Event, num}
use ig_desktop.Ring.{Ring, create, to_array}
use ig_desktop.Ring.Refine.{Holds, create-Holds}
use ig_desktop.Gadget.Buffer.{
  EventBuffer, empty_buffer, add_event, start_flush, Reaches, init, arrive, fire,
}
use ig_desktop.Gadget.Buffer.Order.{Keeps, reached-Keeps, delivers}
use ig_desktop.Gadget.Processors.{Calls, Plugin, World, Outcome, filtered, unchanged, batch}
use ig_desktop.Gadget.Flush.{GadgetEventMessage, Instance, flush_ring}
use ig_desktop.Gadget.Flush.Laws.{outputs, flush_ring_refines, flush_ring-order}
use ig_desktop.Gadget.Arrays.{Gadgets, handle_gadget_array_data}
use ig_desktop.Gadget.Snapshots.{ArraySnapshot, add_snapshot}
use ig_desktop.Gadget.Snapshots.Limit.{IsLongestFit, add_snapshot-IsLongestFit}

abbrev taking : EventBuffer ℕ
taking = start_flush (add_event 1 empty_buffer)

abbrev busy : EventBuffer ℕ
busy = add_event 2 taking

busy-Reaches : Reaches (1 ∷ 2 ∷ []) busy
unfolding empty_buffer add_event start_flush
busy-Reaches =
    arrive (1 ∷ []) taking 2
      (fire (1 ∷ []) (add_event 1 empty_buffer) refl (arrive [] empty_buffer 1 init))

reached-Keeps_example : Keeps (1 ∷ 2 ∷ []) busy
reached-Keeps_example = reached-Keeps (1 ∷ 2 ∷ []) busy busy-Reaches

delivers_example : (c : EventBuffer ℕ) × Reaches (1 ∷ 2 ∷ []) c × (c.delivered ≡ 1 ∷ 2 ∷ [])
delivers_example = delivers (1 ∷ 2 ∷ []) busy busy-Reaches

abbrev message : String → ℕ → GadgetEventMessage
message id n = record { instance_id = id; payload = ("n", num (pos n)) ∷ [] }

abbrev messages : List GadgetEventMessage
messages = message "a" 1 ∷ message "b" 2 ∷ message "a" 3 ∷ []

-- A plugin that drops the events of one key and emits one event for each call; its state counts.
dropping : Event → Outcome
dropping [] = filtered
dropping (f ∷ fs) = unchanged

abbrev calls : Calls ℕ
calls = record {
  process_event = λ p d e n. (dropping e, (("count", num (pos n)) ∷ []) ∷ [], n + 1);
  process_batch = λ p d es n. (batch es, [], n + 1);
}

abbrev plugin : Plugin
plugin = record {
  id = "counter";
  has_process_event = true;
  has_process_batch = false;
  applies_to = none;
}

abbrev world : World ℕ
world = record { queue = []; inner = 0 }

abbrev ring : Ring Event
ring = record { buffer = none ∷ none ∷ []; head = 0; len = 0; version = 0; capacity = 2 }

ring-Holds : Holds ring []
unfolding create
ring-Holds = create-Holds 2 ring refl

flush_ring_refines_example :
    Holds
      (flush_ring calls (plugin ∷ []) "a" true messages ring world).ring
      (take 2 (reverse (outputs calls (plugin ∷ []) "a" true messages ring world) ++ []))
    × ((flush_ring calls (plugin ∷ []) "a" true messages ring world).pushed_count
        ≡ length (outputs calls (plugin ∷ []) "a" true messages ring world))
flush_ring_refines_example =
    flush_ring_refines calls (plugin ∷ []) "a" true messages ring world [] ring-Holds

flush_ring-order_example :
    Holds
      (flush_ring calls [] "a" true messages ring world).ring
      (take 2 (map (λ m. m.payload) messages ++ []))
unfolding lookup
flush_ring-order_example = flush_ring-order calls "a" true messages ring world [] ring-Holds refl

-- The oldest message of a batch is the newest item.
oldest_in_front :
    to_array (flush_ring calls [] "a" true messages ring world).ring
    ≡ some (("n", num (pos 1)) ∷ []) ∷ some (("n", num (pos 2)) ∷ []) ∷ []
unfolding to_array flush_ring
oldest_in_front = refl

abbrev instance : Instance
instance = record { has_info = true; events = some ring; event_count = 0 }

abbrev snapshot : ℕ → List Event → ArraySnapshot
snapshot id events = record { batch_id = id; received_at = pos 0; events = events }

add_snapshot-IsLongestFit_example :
    IsLongestFit 2
      (snapshot 1 ([] ∷ []) ∷ snapshot 0 ([] ∷ [] ∷ []) ∷ [])
      (add_snapshot 2 (snapshot 1 ([] ∷ [])) (snapshot 0 ([] ∷ [] ∷ []) ∷ []))
add_snapshot-IsLongestFit_example =
    add_snapshot-IsLongestFit 2 (snapshot 1 ([] ∷ [])) (snapshot 0 ([] ∷ [] ∷ []) ∷ [])

-- A snapshot that is larger than the limit is not kept either.
too_large : add_snapshot 1 (snapshot 0 ([] ∷ [] ∷ [])) [] ≡ []
unfolding add_snapshot
too_large = refl

abbrev gadgets : Gadgets ℕ
gadgets = record {
  instances = ("a", instance) ∷ [];
  snapshots = [];
  world = world;
  batch_id_counter = 0;
  msg_id = 7;
  thrown = false;
}

-- The event is counted, and the synthetic event that its call emits.
array_counts :
    map {B = String × ℕ}
      (λ e. (e.0, e.1.event_count))
      (handle_gadget_array_data calls
        (plugin ∷ [])
        2
        (pos 5)
        "a"
        none
        ((("n", num (pos 1)) ∷ []) ∷ [])
        gadgets).instances
    ≡ ("a", 2) ∷ []
unfolding handle_gadget_array_data dropping
array_counts = refl
