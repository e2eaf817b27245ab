-- ===== src/Ring/Valid.antt =====
-- The representation invariant of the ring buffer, and that every operation keeps it.
use ig_desktop.Prelude.{
  ℕ, ◌≤◌, ◌<◌, ◌+◌, ◌≡◌, refl, List, [], ◌∷◌, Option, none, some, arith, length, length-set,
  length-replicate,
}
use ig_desktop.Ring.{Ring, create, push, push_many, clear}

module _ {ℓ} {A : Type ℓ} where
  pub record IsValid (r : Ring A) : Type 0 where
    pub positive : 0 < r.capacity
    pub allocated : length r.buffer ≡ r.capacity
    pub head_in : r.head < r.capacity
    pub len_in : r.len ≤ r.capacity

  -- What the constructor returns is valid and empty.
  pub create-IsValid : (n : ℕ) (r : Ring A) → create n ≡ some r → IsValid r × (r.len ≡ 0)
  unfolding create
  create-IsValid n r h = ground (arith, length-replicate {A = Option A} n none)

  -- `push` keeps the invariant.
  pub push-IsValid : (x : A) (r : Ring A) → IsValid r → IsValid (push x r)
  unfolding push
  push-IsValid x r v = ground (arith, length-set r.buffer r.head (some x))

  pub clear-IsValid : (r : Ring A) → IsValid r → IsValid (clear r)
  unfolding clear
  clear-IsValid r v = ground (arith, length-replicate {A = Option A} r.capacity none)

  pub push_many-IsValid : (xs : List A) (r : Ring A) → IsValid r → IsValid (push_many xs r)
  unfolding push_many
  push_many-IsValid [] r v = v
  push_many-IsValid (x ∷ xs) r v = push_many-IsValid xs (push x r) (push-IsValid x r v)

  pub capacity-push_many : (xs : List A) (r : Ring A) → (push_many xs r).capacity ≡ r.capacity
  unfolding push_many push
  capacity-push_many [] r = refl
  capacity-push_many (x ∷ xs) r = capacity-push_many xs (push x r)

  -- Every item pushed raises the version by one, whether or not it overwrites another.
  pub version-push_many :
      (xs : List A) (r : Ring A) → (push_many xs r).version ≡ r.version + length xs
  unfolding push_many push
  version-push_many [] r = omega arith
  version-push_many (x ∷ xs) r = omega (arith, version-push_many xs (push x r))
