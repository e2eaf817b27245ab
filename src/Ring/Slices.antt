-- ===== src/Ring/Slices.antt =====
-- Reading a range of the ring buffer: `slice`, `toArray`, the iterator, `newest`, `oldest`.
use native.Mathlib.Numerals.{add-one}
use ig_desktop.Prelude.{
  ℕ, zero, suc, ◌≤◌, ◌<◌, ◌+◌, ◌-◌, ◌≡◌, refl, ap, ◌∙◌, sym, ◌⊎◌, true, false, List, [], ◌∷◌,
  Option, none, some, arith, length, map, get_elem?, take, drop, min, take_of_length-le, Bool-cases,
  inl, inr, leb,
}
use ig_desktop.Prelude.Int.{ℤ, pos, negsuc, pos_part, sub_ℕ}
use ig_desktop.Ring.{Ring, get, read_from, slice, to_array, iterate, newest, oldest}
use ig_desktop.Ring.Refine.{Holds, get_refines, get_elem?-none}

module _ {ℓ} {A : Type ℓ} where
  drop-step :
      (xs : List A) (i n : ℕ) (x : A)
      → get_elem? xs i ≡ some x
      → take (suc n) (drop i xs) ≡ x ∷ take n (drop (suc i) xs)
  drop-step [] i n x h = ground arith
  drop-step (y ∷ ys) zero n x h = ground arith
  drop-step (y ∷ ys) (suc i) n x h = drop-step ys i n x h

  get_elem?-some : (xs : List A) (i : ℕ) → i < length xs → (x : A) × (get_elem? xs i ≡ some x)
  get_elem?-some [] i h = absurd (omega arith)
  get_elem?-some (x ∷ xs) zero h = (x, refl)
  get_elem?-some (x ∷ xs) (suc i) h = get_elem?-some xs i (omega arith)

  read_from_refines :
      (r : Ring A) (xs : List A) (i n : ℕ)
      → Holds r xs
      → i + n ≤ length xs
      → read_from r i n ≡ map some (take n (drop i xs))
  unfolding read_from
  read_from_refines r xs i zero h k = refl
  read_from_refines r xs i (suc n) h k =
      let (x, e) = get_elem?-some xs i (omega arith) in
      rw (get_refines r xs i h, e, drop-step xs i n x e)
        (ap (◌∷◌ (some x)) (rw add-one (read_from_refines r xs (suc i) n h (omega arith))))

  -- `slice` never yields `undefined`: it is the range of the contents that the bounds name, cut at
  -- the length.
  pub slice_refines :
      (r : Ring A) (xs : List A) (start end : ℤ)
      → Holds r xs
      → slice r start end
        ≡ map some (take (min (pos_part end) r.len - pos_part start) (drop (pos_part start) xs))
  unfolding slice
  slice_refines r xs start end h =
      let n : ℕ = min (pos_part end) r.len in
      let i : ℕ = pos_part start in
      elim (Bool-cases (leb n i)) [
        | inl e ↦ rw e (nothing (n - i) (ground arith) (drop i xs))
        | inr e ↦ rw e (read_from_refines r xs i (n - i) h (ground (arith, h.count)))
      ]
    where
      nothing :
          (k : ℕ) → k ≡ 0 → (ys : List A) → ◌≡◌ {A = List (Option A)} [] (map some (take k ys))
      nothing zero e ys = refl
      nothing (suc k) e ys = absurd (omega arith)

  whole : (r : Ring A) (xs : List A) → Holds r xs → read_from r 0 r.len ≡ map some xs
  whole r xs h =
      read_from_refines r xs 0 r.len h (omega (arith, h.count))
      ∙ ap (map some) (take_of_length-le r.len xs (omega (arith, h.count)))

  -- `toArray` and the iterator give all the contents, newest first.
  to_array_refines :
      (r : Ring A) (xs : List A)
      → Holds r xs
      → (to_array r ≡ map some xs) × (iterate r ≡ map some xs)
  unfolding to_array iterate
  to_array_refines r xs h = (
    slice_refines r xs (pos 0) (pos r.len) h
        ∙ ap (map some) (take_of_length-le (min r.len r.len - 0) xs (omega (arith, h.count))),
    whole r xs h,
  )

  below : (r : Ring A) (k : ℕ) → get r (negsuc k) ≡ none
  unfolding get
  below r k = ground arith

  -- `newest` is the first item and `oldest` the last one; both are `undefined` on an empty buffer.
  ends_refine :
      (r : Ring A) (xs : List A)
      → Holds r xs
      → (newest r ≡ get_elem? xs 0) × (oldest r ≡ get_elem? xs (length xs - 1))
  unfolding newest oldest
  ends_refine r xs h = (get_refines r xs 0 h, last (Bool-cases (leb 1 r.len)))
    where
      last :
          (leb 1 r.len ≡ true) ⊎ (leb 1 r.len ≡ false)
          → get r (sub_ℕ r.len 1) ≡ get_elem? xs (length xs - 1)
      last (inl e) = rw (e, h.count) (get_refines r xs (r.len - 1) h)
      last (inr e) = rw e (below r _ ∙ sym (get_elem?-none xs _ (ground (arith, h.count))))
