-- ===== src/Ring.antt =====
-- `EventRingBuffer` of frontend/src/lib/utils/ring-buffer.ts: the last `capacity` items, newest first.
pub mod Valid
pub mod Refine
pub mod Slices
mod Tests
use ig_desktop.Prelude.{
  ℕ, suc, zero, ◌+◌, ◌-◌, ◌%◌, Bool, false, true, ◌||◌, List, [], ◌∷◌, Option, none, some, ltb, leb,
  ◌==◌, if◌then◌else◌, get_or, set, replicate, min,
}
use ig_desktop.Prelude.Int.{ℤ, pos, negsuc, pos_part, ltb_ℤ, leb_ℤ, sub_ℕ}

-- The class. An array slot that was never written is `none`, JavaScript's `undefined`.
pub record Ring {ℓ} (A : Type ℓ) : Type ℓ where
  pub buffer : List (Option A)
  pub head : ℕ
  pub len : ℕ
  pub version : ℕ
  pub capacity : ℕ

module _ {ℓ} {A : Type ℓ} where
  -- The constructor; `none` is its exception.
  unfoldable pub create : ℕ → Option (Ring A)
  create capacity =
      if leb capacity 0
      then none
      else some (record {
        buffer = replicate capacity none;
        head = 0;
        len = 0;
        version = 0;
        capacity = capacity;
      })

  unfoldable pub push : A → Ring A → Ring A
  push item r = record r {
    buffer = set r.buffer r.head (some item);
    head = (r.head + 1) % r.capacity;
    len = if ltb r.len r.capacity then r.len + 1 else r.len;
    version = r.version + 1;
  }

  -- The loop of `pushMany`, over the items left.
  unfoldable pub push_many : List A → Ring A → Ring A
  unfolding push
  push_many [] r = r
  push_many (x ∷ xs) r = push_many xs (push x r)

  -- The slot that `get` reads. `head - 1 - index + capacity` is not negative where the code reads it,
  -- since `index < len` and `len` is at most the capacity.
  abbrev pub slot : Ring A → ℕ → ℕ
  slot r index = (r.head + r.capacity - 1 - index) % r.capacity

  unfoldable pub get : Ring A → ℤ → Option A
  get r index =
      if ltb_ℤ index (pos 0) || leb_ℤ (pos r.len) index
      then none
      else get_or r.buffer (slot r (pos_part index)) none

  -- The loop of `slice` and of the iterator: `count` reads from `index` on.
  unfoldable pub read_from : Ring A → ℕ → ℕ → List (Option A)
  unfolding get
  read_from r index zero = []
  read_from r index (suc count) = get r (pos index) ∷ read_from r (index + 1) count

  -- `Math.min(end, len)` and `Math.max(0, start)`: a negative end stops the slice as 0 does.
  unfoldable pub slice : Ring A → ℤ → ℤ → List (Option A)
  unfolding read_from
  slice r start end =
      let actual_end = min (pos_part end) r.len in
      let actual_start = pos_part start in
      if leb actual_end actual_start
      then []
      else read_from r actual_start (actual_end - actual_start)

  unfoldable pub to_array : Ring A → List (Option A)
  unfolding slice
  to_array r = slice r (pos 0) (pos r.len)

  -- What the iterator yields.
  unfoldable pub iterate : Ring A → List (Option A)
  unfolding read_from
  iterate r = read_from r 0 r.len

  unfoldable pub clear : Ring A → Ring A
  clear r = record r {
    buffer = replicate r.capacity none;
    head = 0;
    len = 0;
    version = r.version + 1;
  }

  unfoldable pub is_empty : Ring A → Bool
  is_empty r = r.len == 0

  unfoldable pub is_full : Ring A → Bool
  is_full r = r.len == r.capacity

  unfoldable pub newest : Ring A → Option A
  unfolding get
  newest r = get r (pos 0)

  -- At length 0 the index is -1.
  unfoldable pub oldest : Ring A → Option A
  unfolding get
  oldest r = get r (sub_ℕ r.len 1)
