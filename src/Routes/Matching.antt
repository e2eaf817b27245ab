-- ===== src/Routes/Matching.antt =====
-- An expression matches exactly the texts that fill it.
use Prim.Native.Char.{Char, code}
use Prim.Native.String.{String, [], ◌∷◌, ◌++◌}
use Prim.Native.String.append
use text.Mathlib.TextEquality.{Char-path}
use mathlib.Core.Path.{subst}
use mathlib.Core.Bool.{true≢false}
use mathlib.Core.List.{cons≢nil}
use mathlib.Core.Option.{none-ne-some, some-injective}
use ig_desktop.Prelude.{
  ◌≡◌, refl, sym, ap, ◌∙◌, Bool, true, false, Option, none, some, List, ◌==◌, if◌then◌else◌, str_eq,
  eq_iff, map_option, arith, Bool-cases, inl, inr, is_some, ==_iff,
}
use ig_desktop.Js.Numerals.{cons_eq_empty}
use ig_desktop.Routes.{
  Piece, literal, segment, anything, never, in_segment, in_line, or_else, longer, take_some,
  matches,
}

-- All characters of a text pass a test.
abbrev all_chars : (Char → Bool) → String → Bool
all_chars p [] = true
all_chars p (c ∷ s) = if p c then all_chars p s else false

-- What a group may capture.
abbrev pub IsCapture : (Char → Bool) → String → Type 0
IsCapture p cap = (all_chars p cap ≡ true) × (str_eq cap "" ≡ false)

abbrev pub AreCaptures : List Piece → List String → Type 0
AreCaptures List.[] List.[] = Unit
AreCaptures List.[] (List.◌∷◌ group caps) = ⊥
AreCaptures (List.◌∷◌ (literal c) ps) caps = AreCaptures ps caps
AreCaptures (List.◌∷◌ segment ps) List.[] = ⊥
AreCaptures (List.◌∷◌ segment ps) (List.◌∷◌ group caps) =
    IsCapture in_segment group × AreCaptures ps caps
AreCaptures (List.◌∷◌ anything ps) List.[] = ⊥
AreCaptures (List.◌∷◌ anything ps) (List.◌∷◌ group caps) =
    IsCapture in_line group × AreCaptures ps caps
AreCaptures (List.◌∷◌ never ps) caps = ⊥

-- The path that has the captures in the places of the groups.
abbrev pub fill : List Piece → List String → String
fill List.[] caps = ""
fill (List.◌∷◌ (literal c) ps) caps = c ∷ fill ps caps
fill (List.◌∷◌ segment ps) List.[] = ""
fill (List.◌∷◌ segment ps) (List.◌∷◌ group caps) = group ++ fill ps caps
fill (List.◌∷◌ anything ps) List.[] = ""
fill (List.◌∷◌ anything ps) (List.◌∷◌ group caps) = group ++ fill ps caps
fill (List.◌∷◌ never ps) caps = ""

-- A capture, those behind it, and the text behind the group.
record Taken (allowed : Char → Bool) (k : String → Option (List String)) (s : String)
    (out : List String) : Type 0 where
  cap : String
  caps : List String
  rest : String
  fits : IsCapture allowed cap
  parts : s ≡ cap ++ rest
  result : out ≡ List.◌∷◌ cap caps
  goes_on : k rest ≡ some caps

abbrev bump : Char → List String → List String
bump c List.[] = List.[]
bump c (List.◌∷◌ group caps) = List.◌∷◌ (c ∷ group) caps

or_else-some {ℓ} : {A : Type ℓ} (o p : Option A) → is_some o ≡ true → is_some (or_else o p) ≡ true
or_else-some none p h = absurd (true≢false (sym h))
or_else-some (some a) p h = refl

some-or_else :
    (o : Option (List String)) (p : Option (List String)) (group : String)
    → is_some p ≡ true
    → is_some (or_else o (map_option (λ caps. List.◌∷◌ group caps) p)) ≡ true
some-or_else (some a) p group h = refl
some-or_else none none group h = h
some-or_else none (some a) group h = refl

module _ (allowed : Char → Bool) (k : String → Option (List String)) where
  map_option-Taken :
      (c : Char) (s : String) (l : Option (List String)) (out : List String)
      → allowed c ≡ true
      → k s ≡ l
      → map_option (λ caps. List.◌∷◌ (c ∷ "") caps) l ≡ some out
      → Taken allowed k (c ∷ s) out
  map_option-Taken c s none out b f e = absurd (none-ne-some out e)
  map_option-Taken c s (some caps) out b f e = record {
    cap = c ∷ "";
    caps = caps;
    rest = s;
    fits = (ap (λ t. if t then true else false) b, cons_eq_empty c "");
    parts = sym (append.cons c "" s ∙ ap (λ i. c ∷ i) (append.nil s));
    result = sym (some-injective (List.◌∷◌ (c ∷ "") caps) out e);
    goes_on = f;
  }

  or_else-Taken :
      (c : Char) (s : String) (o l : Option (List String)) (out : List String)
      → allowed c ≡ true
      → k s ≡ l
      → ((x : List String) → o ≡ some x → Taken allowed k s x)
      → or_else (longer c o) (map_option (λ caps. List.◌∷◌ (c ∷ "") caps) l) ≡ some out
      → Taken allowed k (c ∷ s) out
  or_else-Taken c s none l out b f h e = map_option-Taken c s l out b f e
  or_else-Taken c s (some List.[]) l out b f h e = map_option-Taken c s l out b f e
  or_else-Taken c s (some (List.◌∷◌ group caps)) l out b f h e =
      let t = h (List.◌∷◌ group caps) refl in
      record {
        cap = c ∷ t.cap;
        caps = t.caps;
        rest = t.rest;
        fits = (
          ap (λ i. if i then all_chars allowed t.cap else false) b ∙ t.fits.0,
          cons_eq_empty c t.cap,
        );
        parts = ap (λ i. c ∷ i) t.parts ∙ sym (append.cons c t.cap t.rest);
        result = sym (some-injective (List.◌∷◌ (c ∷ group) caps) out e) ∙ ap (bump c) t.result;
        goes_on = t.goes_on;
      }

  take_some-Taken :
      (s : String) (out : List String) → take_some allowed k s ≡ some out → Taken allowed k s out
  unfolding take_some
  take_some-Taken [] out e = absurd (none-ne-some out e)
  take_some-Taken (c ∷ s) out e = elim (Bool-cases (allowed c)) [
    | inl b ↦
        or_else-Taken c s (take_some allowed k s) (k s) out b refl (take_some-Taken s) (rw b at e)
    | inr b ↦ absurd (none-ne-some out (rw b at e))
  ]

  longer-take_some :
      (c : Char) (s : String) (o : Option (List String))
      → take_some allowed k s ≡ o
      → is_some o ≡ true
      → is_some (longer c o) ≡ true
  longer-take_some c s none f h = h
  longer-take_some c s (some List.[]) f h =
      absurd (cons≢nil (sym (take_some-Taken s List.[] f).result))
  longer-take_some c s (some (List.◌∷◌ group caps)) f h = refl

  passes_first : (c : Char) (s : String) → all_chars allowed (c ∷ s) ≡ true → allowed c ≡ true
  passes_first c s a = ground (arith, a)

  passes_rest :
      (c : Char) (s : String) → all_chars allowed (c ∷ s) ≡ true → all_chars allowed s ≡ true
  passes_rest c s a = ground (arith, a)

  take_some-capture :
      (group rest : String)
      → IsCapture allowed group
      → is_some (k rest) ≡ true
      → is_some (take_some allowed k (group ++ rest)) ≡ true
  unfolding take_some
  take_some-capture [] rest (a, n) h = absurd (true≢false n)
  take_some-capture (c ∷ []) rest (a, n) h =
      rw (append.cons c "" rest, append.nil rest)
        (rw (passes_first c "" a)
          (some-or_else (longer c (take_some allowed k rest)) (k rest) (c ∷ "") h))
  take_some-capture (c ∷ d ∷ group) rest (a, n) h = rw (append.cons c (d ∷ group) rest) (
      rw (passes_first c (d ∷ group) a) (
        or_else-some (longer c (take_some allowed k (d ∷ group ++ rest)))
          (map_option (λ caps. List.◌∷◌ (c ∷ "") caps) (k (d ∷ group ++ rest)))
          (longer-take_some c ((d ∷ group) ++ rest) (take_some allowed k ((d ∷ group) ++ rest)) refl
            (take_some-capture (d ∷ group) rest (passes_rest c (d ∷ group) a, cons_eq_empty d group)
              h))))

same_char : (c d : Char) → (code c == code d) ≡ true → c ≡ d
same_char c d e = Char-path c d ((==_iff (code c) (code d)).0 e)

-- A path matches with some captures only if it is the pattern filled with them.
pub sound :
    (ps : List Piece) (s : String) (out : List String)
    → matches ps s ≡ some out
    → AreCaptures ps out × (fill ps out ≡ s)
unfolding matches
sound List.[] s out e = elim (Bool-cases (str_eq s "")) [
  | inl b ↦
      subst (λ x. AreCaptures List.[] x × (fill List.[] x ≡ s))
        (some-injective List.[] out (rw b at e)) (tt, sym ((eq_iff s "").0 b))
  | inr b ↦ absurd (none-ne-some out (rw b at e))
]
sound (List.◌∷◌ (literal c) ps) [] out e = absurd (none-ne-some out e)
sound (List.◌∷◌ (literal c) ps) (d ∷ s) out e = elim (Bool-cases (code c == code d)) [
  | inl b ↦
      let (h, f) = sound ps s out (rw b at e) in
      (h, ap (λ x. x ∷ fill ps out) (same_char c d b) ∙ ap (λ x. d ∷ x) f)
  | inr b ↦ absurd (none-ne-some out (rw b at e))
]
sound (List.◌∷◌ segment ps) s out e =
    let t = take_some-Taken in_segment (matches ps) s out e in
    let (h, f) = sound ps t.rest t.caps t.goes_on in
    subst (λ x. AreCaptures (List.◌∷◌ segment ps) x × (fill (List.◌∷◌ segment ps) x ≡ s))
      (sym t.result) ((t.fits, h), ap (λ x. t.cap ++ x) f ∙ sym t.parts)
sound (List.◌∷◌ anything ps) s out e =
    let t = take_some-Taken in_line (matches ps) s out e in
    let (h, f) = sound ps t.rest t.caps t.goes_on in
    subst (λ x. AreCaptures (List.◌∷◌ anything ps) x × (fill (List.◌∷◌ anything ps) x ≡ s))
      (sym t.result) ((t.fits, h), ap (λ x. t.cap ++ x) f ∙ sym t.parts)
sound (List.◌∷◌ never ps) s out e = absurd (none-ne-some out e)

-- A text that fills an expression is matched.
pub complete :
    (ps : List Piece) (caps : List String)
    → AreCaptures ps caps
    → is_some (matches ps (fill ps caps)) ≡ true
unfolding matches
complete List.[] List.[] h = refl
complete List.[] (List.◌∷◌ group caps) h = absurd h
complete (List.◌∷◌ (literal c) ps) caps h =
    rw ((==_iff (code c) (code c)).1 refl) (complete ps caps h)
complete (List.◌∷◌ segment ps) List.[] h = absurd h
complete (List.◌∷◌ segment ps) (List.◌∷◌ group caps) (g, h) =
    take_some-capture in_segment (matches ps) group (fill ps caps) g (complete ps caps h)
complete (List.◌∷◌ anything ps) List.[] h = absurd h
complete (List.◌∷◌ anything ps) (List.◌∷◌ group caps) (g, h) =
    take_some-capture in_line (matches ps) group (fill ps caps) g (complete ps caps h)
complete (List.◌∷◌ never ps) caps h = absurd h
