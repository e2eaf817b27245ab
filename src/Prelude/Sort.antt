-- ===== src/Prelude/Sort.antt =====
-- `Array.prototype.sort`: a stable sort by a comparison, as an insertion sort. `before a b` is the
-- test that `a` has to stand in front of `b`, so the comparison of `b` with `a` is positive.
use Prim.Native.Nat.{ℕ, suc, ◌+◌}
use mathlib.Core.Path.{◌≡◌, refl}
use mathlib.Core.Logic.{inl, inr}
use mathlib.Core.Bool.{Bool, true, false}
use mathlib.Core.List.{List, [], ◌∷◌, Perm}
use mathlib.Core.List.Perm
use native.Mathlib.Omega.{arith}
use ig_desktop.Prelude.Tests.{Bool-cases, if◌then◌else◌}
use ig_desktop.Prelude.Totals.{All, total}
use ig_desktop.Prelude.Lists.{length}

module _ {ℓ} {A : Type ℓ} (before : A → A → Bool) where
  -- `x` stood in front of the list: it stays in front of its equals.
  unfoldable pub place : A → List A → List A
  place x [] = x ∷ []
  place x (y ∷ ys) = if before y x then y ∷ place x ys else x ∷ y ∷ ys

  unfoldable pub sort : List A → List A
  unfolding place
  sort [] = []
  sort (x ∷ xs) = place x (sort xs)

  place-perm : (x : A) (xs : List A) → Perm (place x xs) (x ∷ xs)
  unfolding place
  place-perm x [] = Perm.refl (x ∷ [])
  place-perm x (y ∷ ys) = elim (Bool-cases (before y x)) [
    | inl b ↦ rw b (Perm.trans (Perm.cons y (place-perm x ys)) (Perm.swap x y ys))
    | inr b ↦ rw b (Perm.refl (x ∷ y ∷ ys))
  ]

  pub sort-perm : (xs : List A) → Perm (sort xs) xs
  unfolding sort
  sort-perm [] = Perm.refl []
  sort-perm (x ∷ xs) = Perm.trans (place-perm x (sort xs)) (Perm.cons x (sort-perm xs))

  total-place : (f : A → ℕ) (x : A) (xs : List A) → total f (place x xs) ≡ f x + total f xs
  unfolding place
  total-place f x [] = refl
  total-place f x (y ∷ ys) = ground (arith, total-place f x ys)

  pub total-sort : (f : A → ℕ) (xs : List A) → total f (sort xs) ≡ total f xs
  unfolding sort
  total-sort f [] = refl
  total-sort f (x ∷ xs) = ground (arith, total-place f x (sort xs), total-sort f xs)

  length-place : (x : A) (xs : List A) → length (place x xs) ≡ suc (length xs)
  unfolding place
  length-place x [] = refl
  length-place x (y ∷ ys) = ground (arith, length-place x ys)

  pub length-sort : (xs : List A) → length (sort xs) ≡ length xs
  unfolding sort
  length-sort [] = refl
  length-sort (x ∷ xs) = omega (arith, length-place x (sort xs), length-sort xs)

  module _ {κ} (P : A → Type κ) where
    place-All : (x : A) (xs : List A) → P x → All P xs → All P (place x xs)
    unfolding place
    place-All x [] p h = (p, tt)
    place-All x (y ∷ ys) p (q, h) = elim (Bool-cases (before y x)) [
      | inl b ↦ rw b (q, place-All x ys p h)
      | inr b ↦ rw b (p, (q, h))
    ]

    pub sort-All : (xs : List A) → All P xs → All P (sort xs)
    unfolding sort
    sort-All [] h = tt
    sort-All (x ∷ xs) (p, h) = place-All x (sort xs) p (sort-All xs h)

  -- Each entry has to stand in front of none that comes before it.
  abbrev pub IsSorted : List A → Type 0
  IsSorted [] = Unit
  IsSorted (x ∷ xs) = All (λ y. before y x ≡ false) xs × IsSorted xs

  All-trans :
      ((x y z : A) → before y x ≡ false → before z y ≡ false → before z x ≡ false)
      → (x y : A) (ys : List A) → before y x ≡ false
      → All (λ z. before z y ≡ false) ys
      → All (λ z. before z x ≡ false) ys
  All-trans tr x y [] b h = tt
  All-trans tr x y (z ∷ zs) b (p, h) = (tr x y z b p, All-trans tr x y zs b h)

  module _ (asym : (x y : A) → before y x ≡ true → before x y ≡ false)
      (tr : (x y z : A) → before y x ≡ false → before z y ≡ false → before z x ≡ false) where
    place-IsSorted : (x : A) (xs : List A) → IsSorted xs → IsSorted (place x xs)
    unfolding place
    place-IsSorted x [] h = (tt, tt)
    place-IsSorted x (y ∷ ys) (p, h) = elim (Bool-cases (before y x)) [
      | inl b ↦
          rw b (place-All (λ z. before z y ≡ false) x ys (asym x y b) p, place-IsSorted x ys h)
      | inr b ↦ rw b ((b, All-trans tr x y ys b p), (p, h))
    ]

    pub sort-IsSorted : (xs : List A) → IsSorted (sort xs)
    unfolding sort
    sort-IsSorted [] = tt
    sort-IsSorted (x ∷ xs) = place-IsSorted x (sort xs) (sort-IsSorted xs)
