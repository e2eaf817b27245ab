-- ===== src/Routes/CatchAll.antt =====
-- No pattern has a catch-all group: its dots are escaped before it is looked for.
use Prim.Native.Char.{Char, code}
use Prim.Native.String.{String, [], ◌∷◌}
use Prim.Native.String.append
use mathlib.Core.Bool.{true≢false}
use ig_desktop.Prelude.{
  ℕ, ◌≡◌, refl, sym, ap, ◌∙◌, Bool, true, false, none, List, ◌==◌, ==_iff, Bool-cases, inl, inr,
  not, ◌⊎◌,
}
use ig_desktop.Js.Text.{contains}
use ig_desktop.Routes.{
  is_special, escape, after_opening, bracketed?, group_at, replace, replace_catch_all, skip, emit,
  create_route_matcher, replace_params, normalize, read,
}

not-fixed : (b : Bool) → not b ≡ b → ⊥
not-fixed true e = true≢false (sym e)
not-fixed false e = true≢false e

-- A character of the same code as a special one is special.
pub differs :
    (k : ℕ) (c : Char) (b : Bool)
    → contains k ".*+?^${}()|\\" ≡ not b
    → is_special c ≡ b
    → (k == code c) ≡ false
unfolding is_special
differs k c b f e = elim (Bool-cases (k == code c)) [
  | inl same ↦
      absurd (
        not-fixed b (sym f ∙ ap (λ i. contains i ".*+?^${}()|\\") ((==_iff k (code c)).0 same) ∙ e))
  | inr other ↦ other
]

-- No escaped text begins with a dot.
after_opening-escape : (s : String) → after_opening "..." (escape s) ≡ none
unfolding after_opening escape
after_opening-escape [] = refl
after_opening-escape (c ∷ s) = elim (Bool-cases (is_special c)) [
  | inl b ↦ rw (b, append.cons) refl
  | inr b ↦ rw (b, differs b'.' c false (unfold contains in refl) b) refl
]

group_at-escape :
    (c : Char) (s : String)
    → (b'[' == code c) ≡ false ⊎ (after_opening "..." s ≡ none)
    → group_at "[..." (c ∷ s) ≡ none
unfolding group_at after_opening bracketed?
group_at-escape c s (inl b) = rw b refl
group_at-escape c s (inr e) = elim (Bool-cases (b'[' == code c)) [
  | inl b ↦ rw (b, e) refl
  | inr b ↦ rw b refl
]

replace-step :
    (c : Char) (s : String)
    → group_at "[..." (c ∷ s) ≡ none
    → replace_catch_all s ≡ (s, List.[])
    → replace_catch_all (c ∷ s) ≡ (c ∷ s, List.[])
unfolding replace_catch_all replace skip
replace-step c s g e =
    ap (λ o. emit "(.+)" c o (replace "[..." "(.+)" (skip "[..." o) s)) g
    ∙ ap (emit "(.+)" c none) e

-- The step that looks for `[...name]` changes no pattern and finds no name.
pub replace_catch_all-escape : (s : String) → replace_catch_all (escape s) ≡ (escape s, List.[])
unfolding escape
replace_catch_all-escape [] = unfold replace_catch_all in refl
replace_catch_all-escape (c ∷ s) =
    let rest = replace_catch_all-escape s in
    elim (Bool-cases (is_special c)) [
      | inl b ↦
          rw (b, append.cons, append.nil)
            (replace-step "\\" (c ∷ escape s) (group_at-escape "\\" (c ∷ escape s) (inl refl)) (
              replace-step c (escape s)
                (group_at-escape c (escape s)
                  (inl (differs b'[' c true (unfold contains in refl) b)))
                rest))
      | inr b ↦ rw b (
          replace-step c (escape s) (group_at-escape c (escape s) (inr (after_opening-escape s)))
            rest)
    ]

-- `[...name]` is no catch-all group in a pattern: a pattern compiles to what the two steps after it
-- make of the escaped text, and has only the names of `[name]` groups.
pub create_route_matcher-catch_all :
    (pattern : String)
    → (let (regex, names) = replace_params (escape (normalize pattern)) in
        create_route_matcher pattern ≡ record { names = names; pieces = read 0 regex })
unfolding create_route_matcher
create_route_matcher-catch_all pattern = rw (replace_catch_all-escape (normalize pattern)) refl
