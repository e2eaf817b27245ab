-- ===== src/Prelude/Totals.antt =====
-- Sums and counts over lists, and predicates of every entry.
use Prim.Native.Nat.{ℕ, ◌+◌}
use mathlib.Core.Path.{◌≡◌, refl, sym, ap, subst}
use mathlib.Core.Logic.{inl, inr}
use mathlib.Core.Bool.{Bool, true, false}
use mathlib.Core.List.{List, [], ◌∷◌, ◌++◌, map}
use native.Mathlib.Omega.{arith}
use ig_desktop.Prelude.Tests.{Bool-cases}
use ig_desktop.Prelude.Lists.{keep, keep-cons}

module _ {ℓ} {A : Type ℓ} where
  -- The sum of `f` over a list.
  abbrev pub total : (A → ℕ) → List A → ℕ
  total f [] = 0
  total f (x ∷ xs) = f x + total f xs

  pub total-append : (f : A → ℕ) (xs ys : List A) → total f (xs ++ ys) ≡ total f xs + total f ys
  total-append f [] ys = omega arith
  total-append f (x ∷ xs) ys = omega (arith, total-append f xs ys)

pub total-map {ℓ κ} :
    {A : Type ℓ} {B : Type κ} (f : B → ℕ) (g : A → B) (xs : List A)
    → total f (map g xs) ≡ total (λ x. f (g x)) xs
total-map f g [] = refl
total-map f g (x ∷ xs) = omega (arith, total-map f g xs)

pub total-cong {ℓ} :
    {A : Type ℓ} (f g : A → ℕ) (xs : List A) → ((x : A) → f x ≡ g x) → total f xs ≡ total g xs
total-cong f g [] h = refl
total-cong f g (x ∷ xs) h = omega (arith, h x, total-cong f g xs h)

-- What a test leaves out counts nothing.
pub total-keep {ℓ} :
    {A : Type ℓ} (f : A → ℕ) (p : A → Bool) (xs : List A)
    → ((x : A) → p x ≡ false → f x ≡ 0)
    → total f (keep p xs) ≡ total f xs
total-keep f p [] h = refl
total-keep f p (x ∷ xs) h = elim (Bool-cases (p x)) [
  | inl b ↦ omega (arith, ap (total f) (keep-cons p x xs true b), total-keep f p xs h)
  | inr b ↦ omega (arith, ap (total f) (keep-cons p x xs false b), total-keep f p xs h, h x b)
]

module _ {ℓ κ} {A : Type ℓ} where
  abbrev pub All : (A → Type κ) → List A → Type κ
  All P [] = Unit
  All P (x ∷ xs) = P x × All P xs

  pub All-append : (P : A → Type κ) (xs ys : List A) → All P xs → All P ys → All P (xs ++ ys)
  All-append P [] ys _ k = k
  All-append P (x ∷ xs) ys (p, h) k = (p, All-append P xs ys h k)

  pub keep-All : (P : A → Type κ) (p : A → Bool) (xs : List A) → All P xs → All P (keep p xs)
  keep-All P p [] h = tt
  keep-All P p (x ∷ xs) (q, h) = elim (Bool-cases (p x)) [
    | inl b ↦ subst (All P) (sym (keep-cons p x xs true b)) (q, keep-All P p xs h)
    | inr b ↦ subst (All P) (sym (keep-cons p x xs false b)) (keep-All P p xs h)
  ]

pub All-map {ℓ κ η} :
    {A : Type ℓ} {B : Type η} (P : A → Type κ) (f : B → A) (xs : List B)
    → All (λ x. P (f x)) xs
    → All P (map f xs)
All-map P f [] h = tt
All-map P f (x ∷ xs) (p, h) = (p, All-map P f xs h)

pub All-imp {ℓ κ η} :
    {A : Type ℓ} (P : A → Type κ) (Q : A → Type η) (xs : List A)
    → ((x : A) → P x → Q x)
    → All P xs
    → All Q xs
All-imp P Q [] f h = tt
All-imp P Q (x ∷ xs) f (p, h) = (f x p, All-imp P Q xs f h)

-- What is kept passes the test.
pub keep-passes {ℓ} : {A : Type ℓ} (p : A → Bool) (xs : List A) → All (λ x. p x ≡ true) (keep p xs)
keep-passes p [] = tt
keep-passes p (x ∷ xs) = elim (Bool-cases (p x)) [
  | inl b ↦ subst (All (λ x. p x ≡ true)) (sym (keep-cons p x xs true b)) (b, keep-passes p xs)
  | inr b ↦ subst (All (λ x. p x ≡ true)) (sym (keep-cons p x xs false b)) (keep-passes p xs)
]
