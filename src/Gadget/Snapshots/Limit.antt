-- ===== src/Gadget/Snapshots/Limit.antt =====
-- The limit on the entries of the snapshots.
use ig_desktop.Prelude.{
  ℕ, suc, ◌+◌, ◌≤◌, ◌<◌, ◌≡◌, refl, sym, ap, List, [], ◌∷◌, Option, none, some, length, take, total,
  arith, ltb, Bool-cases, inl, inr, take_of_length-le, length-take, ◌∙◌,
}
use mathlib.Core.Option.{none-ne-some}
use ig_desktop.Gadget.Snapshots.{ArraySnapshot, trim_index, trim_at, trim_snapshots, add_snapshot}

abbrev pub entries : ArraySnapshot → ℕ
entries s = length s.events

-- The snapshots kept are the first ones whose entries together do not exceed a limit: they fit, and
-- if any is cut off, then with the next one they would not fit.
pub record IsLongestFit (max_events : ℕ) (all l : List ArraySnapshot) : Type 0 where
  pub fits : total entries l ≤ max_events
  pub first : l ≡ take (length l) all
  pub longest : length l < length all → max_events < total entries (take (suc (length l)) all)

index_none :
    (m : ℕ) (ss : List ArraySnapshot) (i t : ℕ)
    → trim_index m ss i t ≡ none
    → t ≤ m
    → t + total entries ss ≤ m
unfolding trim_index
index_none m [] i t e h = omega arith
index_none m (s ∷ ss) i t e h = ground (arith, index_none m ss (i + 1) (t + length s.events))

record IsCut (m : ℕ) (ss : List ArraySnapshot) (t k : ℕ) : Type 0 where
  short : k < length ss
  fits : t + total entries (take k ss) ≤ m
  over : m < t + total entries (take (suc k) ss)

index_some :
    (m : ℕ) (ss : List ArraySnapshot) (i t j : ℕ)
    → trim_index m ss i t ≡ some j
    → t ≤ m
    → (k : ℕ) × (j ≡ i + k) × IsCut m ss t k
unfolding trim_index
index_some m [] i t j e h = absurd (none-ne-some j e)
index_some m (s ∷ ss) i t j e h = elim (Bool-cases (ltb m (t + length s.events))) [
  | inl b ↦
      (0, ground arith, record { short = omega arith; fits = omega arith; over = ground arith })
  | inr b ↦
      let (k, q, c) = index_some m ss (i + 1) (t + length s.events) j (rw b at e) (ground arith) in
      (
        suc k,
        omega arith,
        record {
          short = omega (arith, c.short);
          fits = omega (arith, c.fits);
          over = omega (arith, c.over);
        },
      )
]

trimmed :
    (m : ℕ) (ss : List ArraySnapshot) (o : Option ℕ)
    → trim_index m ss 0 0 ≡ o
    → IsLongestFit m ss (trim_at o ss)
unfolding trim_at
trimmed m ss none e = record {
  fits = omega (arith, index_none m ss 0 0 e (omega arith));
  first = sym (take_of_length-le (length ss) ss (omega arith));
  longest = λ h. absurd (omega arith);
}
trimmed m ss (some j) e =
    let (k, q, c) = index_some m ss 0 0 j e (omega arith) in
    let same : j ≡ k = omega arith in
    let long : length (take j ss) ≡ k = omega (arith, length-take j ss, c.short) in
    record {
      fits = omega (arith, c.fits, ap (λ i. total entries (take i ss)) same);
      first = ap (λ i. take i ss) (same ∙ sym long);
      longest = λ h. omega (arith, c.over, ap (λ i. total entries (take (suc i) ss)) long);
    }

-- Of the new snapshot and those before it, the newest ones are kept, as many as hold no more than
-- the limit of entries together; the first one past the limit and all older ones are dropped.
pub add_snapshot-IsLongestFit :
    (m : ℕ) (s : ArraySnapshot) (ss : List ArraySnapshot)
    → IsLongestFit m (s ∷ ss) (add_snapshot m s ss)
unfolding add_snapshot trim_snapshots
add_snapshot-IsLongestFit m s ss = trimmed m (s ∷ ss) (trim_index m (s ∷ ss) 0 0) refl
