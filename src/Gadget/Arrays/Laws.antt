-- ===== src/Gadget/Arrays/Laws.antt =====
-- What an array of events leaves in the store of its instance.
use ig_desktop.Prelude.{ℕ, ◌+◌, ◌≡◌, String, some, List, [], ◌∷◌, ◌++◌, reverse, take, length}
use ig_desktop.Prelude.Int.{ℤ}
use ig_desktop.Prelude.Assoc.{lookup}
use ig_desktop.Js.{Event}
use ig_desktop.Ring.{Ring}
use ig_desktop.Ring.Refine.{Holds}
use ig_desktop.Gadget.Processors.{Calls, Plugin, World, drain_synthetic_events, marked}
use ig_desktop.Gadget.Flush.{Instance}
use ig_desktop.Gadget.Arrays.{Gadgets, stamp}

-- The events with the numbers from `n` on.
abbrev pub stamped : ℤ → ℕ → String → List Event → ℕ → List Event
stamped at batch_id source [] n = []
stamped at batch_id source (e ∷ es) n =
    stamp n at batch_id source e ∷ stamped at batch_id source es (n + 1)

module _ {ℓ} {S : Type ℓ} (calls : Calls S) (plugins : List Plugin) (max_events : ℕ) (now : ℤ)
    (instance_id source : String) (events : List Event) (batch_id : ℕ) (i : Instance)
    (ring : Ring Event) (w : World S) (g : Gadgets S) where
  -- What is pushed, first to last.
  abbrev pub pushed_events : List Event
  pushed_events =
      stamped now batch_id source events g.msg_id ++ marked (drain_synthetic_events instance_id w).0

  -- The store after the events of an array, that has the events `xs` before it.
  pub record IsStored (xs : List Event) (after : Gadgets S) : Type ℓ where
    pub instance : Instance
    pub ring_after : Ring Event
    pub found : lookup instance_id after.instances ≡ some instance
    pub events_after : instance.events ≡ some ring_after
    pub holds : Holds ring_after (take ring.capacity (reverse pushed_events ++ xs))
    pub counted : instance.event_count ≡ i.event_count + length pushed_events
    pub numbered : after.msg_id ≡ g.msg_id + length events
