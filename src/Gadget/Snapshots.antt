-- ===== src/Gadget/Snapshots.antt =====
-- The snapshots of `handleGadgetArrayData` in frontend/src/lib/handlers/gadget.handler.svelte.ts.
pub mod Limit
use ig_desktop.Prelude.{
  ℕ, ◌+◌, List, [], ◌∷◌, Option, none, some, length, take, ltb, leb, if◌then◌else◌,
}
use ig_desktop.Prelude.Int.{ℤ}
use ig_desktop.Js.{Event}

pub record ArraySnapshot : Type 0 where
  pub batch_id : ℕ
  pub received_at : ℤ
  pub events : List Event

-- The loop that finds `trimIndex`, from index `i` with `totalEntries` counted; `none` is that it
-- runs to the end.
unfoldable pub trim_index : ℕ → List ArraySnapshot → ℕ → ℕ → Option ℕ
trim_index max_events [] i total_entries = none
trim_index max_events (s ∷ ss) i total_entries =
    let rest = trim_index max_events ss (i + 1) (total_entries + length s.events) in
    if ltb max_events (total_entries + length s.events) then some i else rest

unfoldable pub trim_at : Option ℕ → List ArraySnapshot → List ArraySnapshot
trim_at none snapshots = snapshots
trim_at (some i) snapshots = take i snapshots

unfoldable pub trim_snapshots : ℕ → List ArraySnapshot → List ArraySnapshot
unfolding trim_index trim_at
trim_snapshots max_events snapshots = trim_at (trim_index max_events snapshots 0 0) snapshots

-- The new snapshot in front of those that are there.
unfoldable pub add_snapshot : ℕ → ArraySnapshot → List ArraySnapshot → List ArraySnapshot
unfolding trim_snapshots
add_snapshot max_events snapshot existing = trim_snapshots max_events (snapshot ∷ existing)
