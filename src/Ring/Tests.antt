-- ===== src/Ring/Tests.antt =====
-- The ring buffer of capacity 3 at concrete inputs, and the theorems applied to them.
use ig_desktop.Prelude.{ℕ, ◌≡◌, refl, [], ◌∷◌, none, some, map, take, drop, get_elem?}
use ig_desktop.Prelude.Int.{pos, negsuc}
use ig_desktop.Ring.{Ring, create, push, push_many, get, slice, to_array, oldest}
use ig_desktop.Ring.Refine.{Holds, push_refines, recent, create-Holds}
use ig_desktop.Ring.Slices.{slice_refines}

abbrev fresh : Ring ℕ
fresh = record { buffer = none ∷ none ∷ none ∷ []; head = 0; len = 0; version = 0; capacity = 3 }

fresh_lem : create 3 ≡ some fresh
unfolding create
fresh_lem = refl

fresh-Holds : Holds fresh []
fresh-Holds = create-Holds 3 fresh fresh_lem

-- 5 items go into 3 slots.
wraps : to_array (push_many (1 ∷ 2 ∷ 3 ∷ 4 ∷ 5 ∷ []) fresh) ≡ some 5 ∷ some 4 ∷ some 3 ∷ []
unfolding to_array push_many
wraps = refl

oldest_of_empty : oldest fresh ≡ none
unfolding oldest
oldest_of_empty = refl

recent_example :
    Holds (push_many (1 ∷ 2 ∷ 3 ∷ 4 ∷ []) fresh) (4 ∷ 3 ∷ 2 ∷ [])
    × ((i : ℕ) → get (push_many (1 ∷ 2 ∷ 3 ∷ 4 ∷ []) fresh) (pos i) ≡ get_elem? (4 ∷ 3 ∷ 2 ∷ []) i)
recent_example = recent 3 fresh (1 ∷ 2 ∷ 3 ∷ 4 ∷ []) fresh_lem

slice_refines_example :
    slice (push 7 fresh) (negsuc 1) (pos 9) ≡ map some (take 1 (drop 0 (7 ∷ [])))
unfolding push
slice_refines_example =
    slice_refines (push 7 fresh) (7 ∷ []) (negsuc 1) (pos 9) (push_refines 7 fresh [] fresh-Holds)
