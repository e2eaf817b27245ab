-- ===== src/Routes/Compile.antt =====
-- What a pattern of plain characters and `[name]` groups compiles to.
use Prim.Native.Char.{Char, code}
use Prim.Native.String.{String, [], ◌∷◌, ◌++◌}
use Prim.Native.String.append
use ig_desktop.Prelude.{
  ℕ, suc, ◌≡◌, refl, ap, ◌∙◌, false, none, some, List, ◌==◌, if◌then◌else◌, str_eq, map_option,
  arith, Bool-cases, inl, inr,
}
use ig_desktop.Js.Text.{starts_with, contains}
use ig_desktop.Routes.{
  Piece, literal, segment, is_special, escape, bracketed, bracketed?, after_opening, nonempty,
  group_at, size, skip, emit, replace, replace_params, piece_at, read, Compiled,
  create_route_matcher, normalize,
}
use ig_desktop.Routes.CatchAll.{differs, create_route_matcher-catch_all}
use ig_desktop.Routes.Parts.{Part, char, param, print, names_of, IsPlain, IsPattern, pieces_of}

-- The escaped text, and the text of the expression.
abbrev quoted : Char → String → String
quoted c s = if is_special c then "\\" ∷ (c ∷ s) else c ∷ s

abbrev escaped : List Part → String
escaped List.[] = ""
escaped (List.◌∷◌ (char c) ps) = quoted c (escaped ps)
escaped (List.◌∷◌ (param name) ps) = "[" ∷ (name ++ ("]" ∷ escaped ps))

abbrev regex_of : List Part → String
regex_of List.[] = ""
regex_of (List.◌∷◌ (char c) ps) = quoted c (regex_of ps)
regex_of (List.◌∷◌ (param name) ps) = "([^/]+)" ++ regex_of ps

escape_char : (c : Char) (s : String) → escape (c ∷ s) ≡ quoted c (escape s)
unfolding escape
escape_char c s = elim (Bool-cases (is_special c)) [
  | inl b ↦ rw b (append.cons "\\" "" (c ∷ escape s) ∙ ap (◌∷◌ "\\") (append.nil (c ∷ escape s)))
  | inr b ↦ rw b refl
]

escape_plain : (c : Char) (s : String) → is_special c ≡ false → escape (c ∷ s) ≡ c ∷ escape s
unfolding escape
escape_plain c s h = rw h refl

escape-name : (name s : String) → IsPlain name → escape (name ++ s) ≡ name ++ escape s
escape-name [] s h = rw (append.nil s, append.nil (escape s)) refl
escape-name (c ∷ name) s (p, (b, h)) =
    rw (append.cons c name s, append.cons c name (escape s))
      (escape_plain c (name ++ s) p ∙ ap (◌∷◌ c) (escape-name name s h))

no_bracket : (is_special "[" ≡ false) × (is_special "]" ≡ false) × (escape "" ≡ "")
unfolding is_special escape
no_bracket = (refl, refl, refl)

escape-print : (ps : List Part) → IsPattern ps → escape (print ps) ≡ escaped ps
escape-print List.[] h = no_bracket.2
escape-print (List.◌∷◌ (char c) ps) (b, h) =
    escape_char c (print ps) ∙ ap (quoted c) (escape-print ps h)
escape-print (List.◌∷◌ (param name) ps) ((e, p), h) =
    escape_plain "[" (name ++ ("]" ∷ print ps)) no_bracket.0
    ∙ ap (◌∷◌ "[") (
        escape-name name ("]" ∷ print ps) p
        ∙ ap (◌++◌ name)
            (escape_plain "]" (print ps) no_bracket.1 ∙ ap (◌∷◌ "]") (escape-print ps h)))

bracketed-plain : (name s : String) → IsPlain name → bracketed (name ++ ("]" ∷ s)) ≡ some (name, s)
unfolding bracketed
bracketed-plain [] s h = rw (append.nil ("]" ∷ s)) refl
bracketed-plain (c ∷ name) s (p, (b, h)) =
    rw (append.cons c name ("]" ∷ s))
      (rw b (ap (map_option (λ t. (c ∷ t.0, t.1))) (bracketed-plain name s h)))

group_at-plain :
    (name s : String)
    → IsPlain name
    → str_eq name "" ≡ false
    → group_at "[" ("[" ∷ (name ++ ("]" ∷ s))) ≡ some (name, s)
unfolding group_at after_opening bracketed? nonempty
group_at-plain name s h e = rw (bracketed-plain name s h) (rw e refl)

replace-skip :
    (opening group name s : String)
    → replace opening group (suc (size name)) (name ++ ("]" ∷ s)) ≡ replace opening group 0 s
unfolding replace size
replace-skip opening group [] s = rw (append.nil ("]" ∷ s)) refl
replace-skip opening group (c ∷ name) s =
    rw (append.cons c name ("]" ∷ s)) (replace-skip opening group name s)

replace-char :
    (c : Char) (s t : String) (names : List String)
    → (b'[' == code c) ≡ false
    → replace_params s ≡ (t, names)
    → replace_params (c ∷ s) ≡ (c ∷ t, names)
unfolding replace_params
replace-char c s t names h e =
    let absent : group_at "[" (c ∷ s) ≡ none =
      unfold group_at after_opening bracketed? in rw h refl in
    unfold replace in
    ap (λ o. emit "([^/]+)" c o (replace "[" "([^/]+)" (skip "[" o) s)) absent
    ∙ unfold skip in ap (emit "([^/]+)" c none) e

replace-quoted :
    (c : Char) (s t : String) (names : List String)
    → (b'[' == code c) ≡ false
    → replace_params s ≡ (t, names)
    → replace_params (quoted c s) ≡ (quoted c t, names)
replace-quoted c s t names h e = elim (Bool-cases (is_special c)) [
  | inr b ↦ rw b (replace-char c s t names h e)
  | inl b ↦ rw b (replace-char "\\" (c ∷ s) (c ∷ t) names refl (replace-char c s t names h e))
]

replace-group :
    (name s t : String) (names : List String)
    → IsPlain name
    → str_eq name "" ≡ false
    → replace_params s ≡ (t, names)
    → replace_params ("[" ∷ (name ++ ("]" ∷ s))) ≡ ("([^/]+)" ++ t, List.◌∷◌ name names)
unfolding replace_params
replace-group name s t names p e h =
    let behind = name ++ ("]" ∷ s) in
    let count : skip "[" (some (name, s)) ≡ suc (size name) = unfold skip size in omega arith in
    unfold replace in
    ap (λ o. emit "([^/]+)" "[" o (replace "[" "([^/]+)" (skip "[" o) behind))
      (group_at-plain name s p e)
    ∙ ap (λ k. emit "([^/]+)" "[" (some (name, s)) (replace "[" "([^/]+)" k behind)) count
    ∙ ap (emit "([^/]+)" "[" (some (name, s))) (replace-skip "[" "([^/]+)" name s ∙ h)

replace-escaped :
    (ps : List Part) → IsPattern ps → replace_params (escaped ps) ≡ (regex_of ps, names_of ps)
replace-escaped List.[] h = unfold replace_params replace in refl
replace-escaped (List.◌∷◌ (char c) ps) (b, h) =
    replace-quoted c (escaped ps) (regex_of ps) (names_of ps) b (replace-escaped ps h)
replace-escaped (List.◌∷◌ (param name) ps) ((e, p), h) =
    replace-group name (escaped ps) (regex_of ps) (names_of ps) p e (replace-escaped ps h)

flip : (a b : ℕ) → (a == b) ≡ false → (b == a) ≡ false
flip a b h = ground arith

-- A character that is neither special nor an opening bracket stands for itself.
piece_at-plain :
    (c : Char) (s : String)
    → is_special c ≡ false
    → (b'[' == code c) ≡ false
    → piece_at c s ≡ some (literal c, 0)
unfolding piece_at starts_with
piece_at-plain c s b h =
    let slash = flip b'\\' (code c) (differs b'\\' c false (unfold contains in refl) b) in
    let opening = differs b'(' c false (unfold contains in refl) b in
    rw (slash, opening, h, flip b'[' (code c) h) refl

read-plain :
    (c : Char) (s : String) (ps : List Piece)
    → is_special c ≡ false
    → (b'[' == code c) ≡ false
    → read 0 s ≡ some ps
    → read 0 (c ∷ s) ≡ some (List.◌∷◌ (literal c) ps)
unfolding read
read-plain c s ps b h e = rw (read, piece_at-plain c s b h) (rw e refl)

read-quoted :
    (c : Char) (s : String) (ps : List Piece)
    → (b'[' == code c) ≡ false
    → read 0 s ≡ some ps
    → read 0 (quoted c s) ≡ some (List.◌∷◌ (literal c) ps)
unfolding read piece_at
read-quoted c s ps h e = elim (Bool-cases (is_special c)) [
  | inl b ↦ rw b (ap (map_option (λ ps. List.◌∷◌ (literal c) ps)) e)
  | inr b ↦ rw b (read-plain c s ps b h e)
]

spelled : (s : String) → "([^/]+)" ++ s ≡ "(" ∷ ("[" ∷ ("^" ∷ ("/" ∷ ("]" ∷ ("+" ∷ (")" ∷ s))))))
spelled s =
    append.cons "(" "[^/]+)" s
    ∙ ap (◌∷◌ "(") (
        append.cons "[" "^/]+)" s
        ∙ ap (◌∷◌ "[") (
            append.cons "^" "/]+)" s
            ∙ ap (◌∷◌ "^") (
                append.cons "/" "]+)" s
                ∙ ap (◌∷◌ "/") (
                    append.cons "]" "+)" s
                    ∙ ap (◌∷◌ "]") (
                        append.cons "+" ")" s
                        ∙ ap (◌∷◌ "+") (append.cons ")" "" s ∙ ap (◌∷◌ ")") (append.nil s)))))))

read-group :
    (s : String) (ps : List Piece)
    → read 0 s ≡ some ps
    → read 0 ("([^/]+)" ++ s) ≡ some (List.◌∷◌ segment ps)
unfolding read piece_at
read-group s ps e = ap (read 0) (spelled s) ∙ ap (map_option (λ ps. List.◌∷◌ segment ps)) e

read-regex : (ps : List Part) → IsPattern ps → read 0 (regex_of ps) ≡ some (pieces_of ps)
read-regex List.[] h = unfold read in refl
read-regex (List.◌∷◌ (char c) ps) (b, h) =
    read-quoted c (regex_of ps) (pieces_of ps) b (read-regex ps h)
read-regex (List.◌∷◌ (param name) ps) (n, h) =
    read-group (regex_of ps) (pieces_of ps) (read-regex ps h)

-- A pattern compiles to its expression and the names of its groups.
pub compiled :
    (ps : List Part)
    → IsPattern ps
    → normalize (print ps) ≡ print ps
    → create_route_matcher (print ps) ≡ record { names = names_of ps; pieces = some (pieces_of ps) }
compiled ps h n =
    let made = λ (r : String × List String).
      let c : Compiled = record { names = r.1; pieces = read 0 (r.0) } in c in
    create_route_matcher-catch_all (print ps)
    ∙ ap (λ s. made (replace_params (escape s))) n
    ∙ ap (λ s. made (replace_params s)) (escape-print ps h)
    ∙ ap made (replace-escaped ps h)
    ∙ ap (λ o. let c : Compiled = record { names = names_of ps; pieces = o } in c) (read-regex ps h)
