-- ===== src/Prelude/Grouping.antt =====
-- A loop that puts each item into the group of its key, and what the groups hold afterwards.
use Prim.Native.Nat.{ℕ, ◌+◌}
use Prim.Native.String.{String}
use mathlib.Core.Path.{◌≡◌, refl, sym, ap, ◌∙◌}
use mathlib.Core.Logic.{inl, inr}
use mathlib.Core.Bool.{Bool, true, false}
use mathlib.Core.Option.{Option, none, some}
use mathlib.Core.List.{List, [], ◌∷◌, ◌++◌, append_assoc, append-nil}
use native.Mathlib.Omega.{arith}
use text.Mathlib.Text.{◌==◌}
use text.Mathlib.TextEquality.{eq_iff}
use ig_desktop.Prelude.Tests.{Bool-cases, if◌then◌else◌}
use ig_desktop.Prelude.Lists.{keep, keep-cons, length, length-append}
use ig_desktop.Prelude.Assoc.{lookup, upsert, lookup-insert, weight, weight?, weight-insert}

-- `add t` is what the loop makes of a group, missing or not, for the item `t`.
module _ {ℓ κ} {T : Type ℓ} {A : Type κ} (key : T → String) (add : T → Option A → A)
    (items : A → List T) where
  unfoldable pub group : List T → List (String × A) → List (String × A)
  unfolding upsert
  group [] m = m
  group (t ∷ ts) m = group ts (upsert (key t) (add t) m)

  -- The items of a group; a missing group has none.
  abbrev pub items? : Option A → List T
  items? none = []
  items? (some a) = items a

  abbrev pub is_in : String → T → Bool
  is_in k t = key t == k

  module _ (adds : (t : T) (o : Option A) → items (add t o) ≡ items? o ++ t ∷ []) where
    items-upsert :
        (k : String) (t : T) (m : List (String × A))
        → items? (lookup k (upsert (key t) (add t) m))
          ≡ items? (lookup k m) ++ keep (is_in k) (t ∷ [])
    unfolding upsert
    items-upsert k t m =
        let new = add t (lookup (key t) m) in
        ap items? (lookup-insert (key t) k new m) ∙ elim (Bool-cases (key t == k)) [
          | inl b ↦
              ap (λ c. items? (if c then some new else lookup k m)) b
              ∙ adds t (lookup (key t) m)
              ∙ ap (λ i. items? (lookup i m) ++ t ∷ []) ((eq_iff (key t) k).0 b)
              ∙ ap (λ l. items? (lookup k m) ++ l) (sym (keep-cons (is_in k) t [] true b))
          | inr b ↦
              ap (λ c. items? (if c then some new else lookup k m)) b
              ∙ sym (append-nil (items? (lookup k m)))
              ∙ ap (λ l. items? (lookup k m) ++ l) (sym (keep-cons (is_in k) t [] false b))
        ]

    keep-append_one :
        (k : String) (t : T) (ts : List T)
        → keep (is_in k) (t ∷ []) ++ keep (is_in k) ts ≡ keep (is_in k) (t ∷ ts)
    keep-append_one k t ts = elim (Bool-cases (key t == k)) [
      | inl b ↦
          ap (λ l. l ++ keep (is_in k) ts) (keep-cons (is_in k) t [] true b)
          ∙ sym (keep-cons (is_in k) t ts true b)
      | inr b ↦
          ap (λ l. l ++ keep (is_in k) ts) (keep-cons (is_in k) t [] false b)
          ∙ sym (keep-cons (is_in k) t ts false b)
    ]

    -- A group holds the items of its key, in their order, behind what it held.
    pub items-group :
        (k : String) (ts : List T) (m : List (String × A))
        → items? (lookup k (group ts m)) ≡ items? (lookup k m) ++ keep (is_in k) ts
    unfolding group
    items-group k [] m = sym (append-nil (items? (lookup k m)))
    items-group k (t ∷ ts) m =
        items-group k ts (upsert (key t) (add t) m)
        ∙ ap (λ l. l ++ keep (is_in k) ts) (items-upsert k t m)
        ∙ append_assoc (items? (lookup k m)) (keep (is_in k) (t ∷ [])) (keep (is_in k) ts)
        ∙ ap (λ l. items? (lookup k m) ++ l) (keep-append_one k t ts)

    abbrev pub size : A → ℕ
    size a = length (items a)

    size?-items? : (o : Option A) → weight? size o ≡ length (items? o)
    size?-items? none = refl
    size?-items? (some a) = refl

    -- Each item is in one group.
    pub weight-group :
        (ts : List T) (m : List (String × A)) → weight size (group ts m) ≡ weight size m + length ts
    unfolding group upsert
    weight-group [] m = omega arith
    weight-group (t ∷ ts) m =
        let o = lookup (key t) m in
        omega (
          arith,
          weight-group ts (upsert (key t) (add t) m),
          weight-insert size (key t) (add t o) m,
          ap length (adds t o),
          length-append (items? o) (t ∷ []),
          size?-items? o,
        )

    -- The same for a loop that starts with no group.
    pub weight-group_empty : (ts : List T) → weight size (group ts []) ≡ length ts
    weight-group_empty ts = omega (arith, weight-group ts [])
