-- ===== src/Ring/Refine.antt =====
-- The ring buffer against its contents: the list of the last items, newest first.
use native.Mathlib.Nat.{mod-eq_of_lt, mod-eq-sub-mod}
use native.Mathlib.Decide.{dec_lt}
use mathlib.Core.Path.{subst}
use mathlib.Core.List.{reverse_aux, reverse_aux-eq, append-nil}
use ig_desktop.Prelude.{
  ℕ, zero, suc, ◌≤◌, ◌<◌, ◌+◌, ◌-◌, ◌%◌, ◌≡◌, ◌≢◌, refl, sym, ◌∙◌, List, [], ◌∷◌, ◌++◌, reverse,
  none, some, arith, length, length-take, get_elem?, get_or, take, get_or-set_self, get_or-set_ne,
  take_of_length-le, take-take-append, min,
}
use ig_desktop.Prelude.Int.{pos}
use ig_desktop.Ring.{Ring, create, push, push_many, slot, get, clear}
use ig_desktop.Ring.Valid.{IsValid, create-IsValid, push-IsValid, clear-IsValid}

-- Indices that run backwards round a buffer of `c` slots.
abbrev back : ℕ → ℕ → ℕ → ℕ
back h c i = (h + c - 1 - i) % c

mod_once : (n c : ℕ) → c ≤ n → n < c + c → n % c ≡ n - c
mod_once n c h k = mod-eq-sub-mod h ∙ mod-eq_of_lt (omega arith)

back_below : (h c i : ℕ) → h < c → i < h → back h c i ≡ h - 1 - i
back_below h c i p q = mod_once (h + c - 1 - i) c (omega arith) (omega arith) ∙ omega arith

back_above : (h c i : ℕ) → h < c → h ≤ i → i < c → back h c i ≡ h + c - 1 - i
back_above h c i p q k = mod-eq_of_lt (omega arith)

next_inside : (h c : ℕ) → h + 1 < c → (h + 1) % c ≡ h + 1
next_inside h c p = mod-eq_of_lt p

next_wraps : (h c : ℕ) → h < c → c ≤ h + 1 → (h + 1) % c ≡ 0
next_wraps h c p q = mod_once (h + 1) c q (omega arith) ∙ omega arith

back-next_zero : (h c : ℕ) → h < c → back ((h + 1) % c) c 0 ≡ h
back-next_zero h c p = elim (dec_lt (h + 1) c) [
  | yes q ↦ rw (next_inside h c q) (back_below (h + 1) c 0 q (omega arith) ∙ omega arith)
  | no q ↦
      rw (next_wraps h c p (omega arith))
        (back_above 0 c 0 (omega arith) (omega arith) (omega arith) ∙ omega arith)
]

back-next_suc : (h c i : ℕ) → h < c → suc i < c → back ((h + 1) % c) c (suc i) ≡ back h c i
back-next_suc h c i p k = elim (dec_lt (h + 1) c) [
  | yes q ↦ rw (next_inside h c q) (elim (dec_lt i h) [
    | yes l ↦ back_below (h + 1) c (suc i) q (omega arith) ∙ omega (arith, back_below h c i p l)
    | no l ↦
        back_above (h + 1) c (suc i) q (omega arith) k
        ∙ omega (arith, back_above h c i p (omega arith) (omega arith))
  ])
  | no q ↦ rw (next_wraps h c p (omega arith)) (
      back_above 0 c (suc i) (omega arith) (omega arith) k
      ∙ omega (arith, back_below h c i p (omega arith)))
]

back-ne-head : (h c i : ℕ) → h < c → suc i < c → h ≢ back h c i
back-ne-head h c i p k = elim (dec_lt i h) [
  | yes l ↦ omega (arith, back_below h c i p l)
  | no l ↦ omega (arith, back_above h c i p (omega arith) (omega arith))
]

module _ {ℓ} {A : Type ℓ} where
  -- The buffer is valid and holds `xs`: as many items, and each read gives the item of that place.
  pub record Holds (r : Ring A) (xs : List A) : Type ℓ where
    pub valid : IsValid r
    pub count : length xs ≡ r.len
    pub reads : (i : ℕ) → i < r.len → get_or r.buffer (slot r i) none ≡ get_elem? xs i

  take-reverse_aux :
      (n : ℕ) (ys xs : List A) → take n (reverse_aux ys (take n xs)) ≡ take n (reverse_aux ys xs)
  take-reverse_aux n ys xs =
      rw (reverse_aux-eq ys (take n xs), reverse_aux-eq ys xs) (take-take-append n (reverse ys) xs)

  capacity-push : (x : A) (r : Ring A) → (push x r).capacity ≡ r.capacity
  unfolding push
  capacity-push x r = refl

  pub get_elem?-none : (xs : List A) (i : ℕ) → length xs ≤ i → get_elem? xs i ≡ none
  get_elem?-none [] i h = refl
  get_elem?-none (x ∷ xs) zero h = absurd (omega arith)
  get_elem?-none (x ∷ xs) (suc i) h = get_elem?-none xs i (omega arith)

  capacity-create : (n : ℕ) (r : Ring A) → create n ≡ some r → r.capacity ≡ n
  unfolding create
  capacity-create n r e = ground arith

  get_elem?-take : (n : ℕ) (xs : List A) (i : ℕ) → i < n → get_elem? (take n xs) i ≡ get_elem? xs i
  get_elem?-take zero xs i h = absurd (omega arith)
  get_elem?-take (suc n) [] i h = refl
  get_elem?-take (suc n) (x ∷ xs) zero h = refl
  get_elem?-take (suc n) (x ∷ xs) (suc i) h = get_elem?-take n xs i (omega arith)

  -- `get` at any index, in range or not, is the lookup in the list that the buffer holds.
  pub get_refines : (r : Ring A) (xs : List A) (i : ℕ) → Holds r xs → get r (pos i) ≡ get_elem? xs i
  unfolding get
  get_refines r xs i h = elim (dec_lt i r.len) [
    | yes p ↦ ground (arith, h.reads i p)
    | no p ↦ ground (arith, get_elem?-none xs i)
  ]

  push-reads :
      (x : A) (r : Ring A) (xs : List A) (i : ℕ)
      → Holds r xs
      → i < (push x r).len
      → get_or (push x r).buffer (slot (push x r) i) none ≡ get_elem? (x ∷ xs) i
  unfolding push
  push-reads x r xs zero h k =
      rw (back-next_zero r.head r.capacity h.valid.head_in)
        (get_or-set_self r.buffer r.head (some x) none (omega (arith, h.valid)))
  push-reads x r xs (suc i) h k =
      let room : suc i < r.capacity = ground (arith, h.valid) in
      rw (back-next_suc r.head r.capacity i h.valid.head_in room) (
        get_or-set_ne r.buffer r.head (slot r i) (some x) none
          (back-ne-head r.head r.capacity i h.valid.head_in room)
        ∙ h.reads i (ground (arith, h.valid)))

  len-push : (x : A) (r : Ring A) → IsValid r → (push x r).len ≡ min r.capacity (suc r.len)
  unfolding push
  len-push x r v = ground arith

  -- `push` puts the item in front, and drops the oldest one if the buffer is full.
  pub push_refines :
      (x : A) (r : Ring A) (xs : List A) → Holds r xs → Holds (push x r) (take r.capacity (x ∷ xs))
  push_refines x r xs h = record {
    valid = push-IsValid x r h.valid;
    count = omega (arith, length-take r.capacity (x ∷ xs), len-push x r h.valid, h.count);
    reads = λ i k.
        push-reads x r xs i h k
        ∙ sym (get_elem?-take r.capacity (x ∷ xs) i (omega (arith, len-push x r h.valid)));
  }

  fits : (r : Ring A) (xs : List A) → Holds r xs → take r.capacity xs ≡ xs
  fits r xs h = take_of_length-le r.capacity xs (omega (arith, h.count, h.valid))

  Holds-push_many :
      (ys : List A) (r : Ring A) (xs : List A)
      → Holds r xs
      → Holds (push_many ys r) (take r.capacity (reverse_aux ys xs))
  unfolding push_many
  Holds-push_many [] r xs h = rw (fits r xs h) h
  Holds-push_many (y ∷ ys) r xs h =
      subst (Holds (push_many ys (push y r)))
        (rw (capacity-push y r) (take-reverse_aux r.capacity ys (y ∷ xs)))
        (Holds-push_many ys (push y r) (take r.capacity (y ∷ xs)) (push_refines y r xs h))

  -- `pushMany` leaves the last `capacity` items of the old contents followed by the new ones, the
  -- newest in front.
  pub push_many_refines :
      (ys : List A) (r : Ring A) (xs : List A)
      → Holds r xs
      → Holds (push_many ys r) (take r.capacity (reverse ys ++ xs))
  push_many_refines ys r xs h = rw (← reverse_aux-eq ys xs) (Holds-push_many ys r xs h)

  -- A new buffer, and one that was cleared, hold nothing.
  pub create-Holds : (n : ℕ) (r : Ring A) → create n ≡ some r → Holds r []
  create-Holds n r e =
      let (v, z) = create-IsValid n r e in
      record { valid = v; count = sym z; reads = λ i k. absurd (omega arith) }

  pub clear-Holds : (r : Ring A) → IsValid r → Holds (clear r) []
  unfolding clear
  clear-Holds r v = record {
    valid = clear-IsValid r v;
    count = refl;
    reads = λ i k. absurd (omega arith);
  }

  -- A buffer made with capacity `n` and given any items holds the last `n` of them, newest first,
  -- and `get i` is the one pushed `i` items before the last (`undefined` past that).
  pub recent :
      (n : ℕ) (r : Ring A) (ys : List A)
      → create n ≡ some r
      → Holds (push_many ys r) (take n (reverse ys))
        × ((i : ℕ) → get (push_many ys r) (pos i) ≡ get_elem? (take n (reverse ys)) i)
  recent n r ys e =
      let h : Holds (push_many ys r) (take n (reverse ys)) =
        subst (Holds (push_many ys r)) (rw (capacity-create n r e, append-nil (reverse ys)))
          (push_many_refines ys r [] (create-Holds n r e)) in
      (h, λ i. get_refines (push_many ys r) (take n (reverse ys)) i h)
