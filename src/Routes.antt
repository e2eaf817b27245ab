-- ===== src/Routes.antt =====
-- The patterns of plugin routes (frontend/src/lib/utils/route-matcher.ts). The regular expression is
-- built as a text, in the steps of the source, and then read: it has characters, the groups that the
-- steps write, and the brackets that they leave.
mod Matching
mod CatchAll
mod Parts
mod Compile
mod Params
mod Fills
mod Tests
use Prim.Native.Char.{Char, code}
use Prim.Native.String.{String, [], ◌∷◌, ◌++◌}
use ig_desktop.Prelude.{
  ℕ, zero, suc, ◌+◌, ◌++◌ as append, Bool, true, false, ◌||◌, not, Option, none, some, List, ◌==◌,
  if◌then◌else◌, str_eq, map_option,
}
use ig_desktop.Prelude.Assoc.{insert}
use ig_desktop.Js.Text.{starts_with, ends_with, contains, strip_last}

-- With a slash in front, and without one at the end.
unfoldable pub normalize : String → String
unfolding starts_with strip_last
normalize path =
    let rooted = if starts_with "/" path then path else "/" ++ path in
    if str_eq rooted "/" then rooted else strip_last b'/' rooted

-- `[.*+?^${}()|\\]`.
unfoldable pub is_special : Char → Bool
unfolding contains
is_special c = contains (code c) ".*+?^${}()|\\"

unfoldable pub escape : String → String
escape [] = []
escape (c ∷ s) = let rest = escape s in if is_special c then "\\" ++ (c ∷ rest) else c ∷ rest

-- A text up to the first `]`, and what follows that; `none` where there is no `]`.
unfoldable pub bracketed : String → Option (String × String)
bracketed [] = none
bracketed (c ∷ s) =
    let rest = map_option (λ t. (c ∷ t.0, t.1)) (bracketed s) in
    if code c == b']' then some ("", s) else rest

-- The name of a group at this place, and what follows it: `\[opening([^\]]+)\]` with the text that has
-- to stand behind the bracket.
unfoldable pub after_opening : String → String → Option String
after_opening [] s = some s
after_opening (o ∷ opening) [] = none
after_opening (o ∷ opening) (c ∷ s) =
    let rest = after_opening opening s in if code o == code c then rest else none

unfoldable pub nonempty : Option (String × String) → Option (String × String)
nonempty none = none
nonempty (some (name, rest)) = if str_eq name "" then none else some (name, rest)

unfoldable pub bracketed? : Option String → Option (String × String)
unfolding bracketed nonempty
bracketed? none = none
bracketed? (some s) = nonempty (bracketed s)

unfoldable pub group_at : String → String → Option (String × String)
unfolding after_opening bracketed?
group_at opening s = bracketed? (after_opening opening s)

-- The number of characters of a text.
unfoldable pub size : String → ℕ
size [] = 0
size (c ∷ s) = suc (size s)

-- The characters behind the first one of a match.
unfoldable pub skip : String → Option (String × String) → ℕ
unfolding size
skip opening none = 0
skip opening (some (name, rest)) = size opening + size name

abbrev pub emit :
    String → Char → Option (String × String) → String × List String → String × List String
emit group c none (text, names) = (c ∷ text, names)
emit group c (some (name, rest)) (text, names) = (group ++ text, List.◌∷◌ name names)

-- `regexStr.replace(/\[opening([^\]]+)\]/g, ...)`: the text with `group` for each match, and the
-- names. The first number counts the characters that still belong to the last match.
unfoldable pub replace : String → String → ℕ → String → String × List String
unfolding group_at skip
replace opening group k [] = ("", List.[])
replace opening group (suc k) (c ∷ s) = replace opening group k s
replace opening group zero (c ∷ s) =
    let o = group_at opening (c ∷ s) in emit group c o (replace opening group (skip opening o) s)

unfoldable pub replace_catch_all : String → String × List String
unfolding replace
replace_catch_all = replace "[..." "(.+)" 0

unfoldable pub replace_params : String → String × List String
unfolding replace
replace_params = replace "[" "([^/]+)" 0

-- What a regular expression is made of here. `[]` matches nothing.
pub data Piece : Type 0 where
  literal : Char → Piece
  segment anything never : Piece

-- The piece that begins with a character, and how many characters more it has; `none` is a bracket
-- that is not closed, where `RegExp` throws.
unfoldable pub piece_at : Char → String → Option (Piece × ℕ)
unfolding starts_with
piece_at c s =
    if code c == b'\\'
    then (elim s [ [] ↦ none | d ∷ rest ↦ some (literal d, 1) ])
    else if starts_with "(.+)" (c ∷ s)
    then some (anything, 3)
    else if starts_with "([^/]+)" (c ∷ s)
    then some (segment, 6)
    else if starts_with "[]" (c ∷ s)
    then some (never, 1)
    else if code c == b'['
    then none
    else some (literal c, 0)

unfoldable pub read : ℕ → String → Option (List Piece)
unfolding piece_at
read k [] = some List.[]
read (suc k) (c ∷ s) = read k s
read zero (c ∷ s) = elim (piece_at c s) [
  | none ↦ none
  | some (p, k) ↦ map_option (λ ps. List.◌∷◌ p ps) (read k s)
]

-- `/` ends a segment; `.` stands for no line end.
unfoldable pub in_segment : Char → Bool
in_segment c = not (code c == b'/')

unfoldable pub in_line : Char → Bool
in_line c = not (code c == 10 || code c == 13 || code c == 8232 || code c == 8233)

abbrev pub or_else {ℓ} : {A : Type ℓ} → Option A → Option A → Option A
or_else none o = o
or_else (some a) o = some a

-- One character more in the first capture.
abbrev pub longer : Char → Option (List String) → Option (List String)
longer c none = none
longer c (some List.[]) = none
longer c (some (List.◌∷◌ cap caps)) = some (List.◌∷◌ (c ∷ cap) caps)

-- A group of one character or more, as many as the rest of the expression lets it have.
unfoldable pub take_some :
    (Char → Bool) → (String → Option (List String)) → String → Option (List String)
take_some allowed k [] = none
take_some allowed k (c ∷ s) =
    let more = longer c (take_some allowed k s) in
    let last = map_option (λ caps. List.◌∷◌ (c ∷ "") caps) (k s) in
    if allowed c then or_else more last else none

-- `normalizedPath.match(regex)`: the captures.
unfoldable pub matches : List Piece → String → Option (List String)
unfolding take_some in_segment in_line
matches List.[] s = if str_eq s "" then some List.[] else none
matches (List.◌∷◌ (literal c) ps) [] = none
matches (List.◌∷◌ (literal c) ps) (d ∷ s) =
    let rest = matches ps s in if code c == code d then rest else none
matches (List.◌∷◌ segment ps) s = take_some in_segment (matches ps) s
matches (List.◌∷◌ anything ps) s = take_some in_line (matches ps) s
matches (List.◌∷◌ never ps) s = none

-- What a pattern compiles to; `none` where `RegExp` throws.
pub record Compiled : Type 0 where
  pub names : List String
  pub pieces : Option (List Piece)

unfoldable pub create_route_matcher : String → Compiled
unfolding normalize escape replace_catch_all replace_params read
create_route_matcher pattern =
    let (text, catch_names) = replace_catch_all (escape (normalize pattern)) in
    let (regex, names) = replace_params text in
    record { names = append catch_names names; pieces = read 0 regex }

-- `params[name] = decodeURIComponent(match[i + 1])`, where `decode` is `none` if that throws.
unfoldable pub params_of :
    (String → Option String)
    → List String
    → List String
    → List (String × String)
    → Option (List (String × String))
unfolding insert
params_of decode List.[] caps params = some params
params_of decode (List.◌∷◌ name names) List.[] params = none
params_of decode (List.◌∷◌ name names) (List.◌∷◌ cap caps) params = elim (decode cap) [
  | none ↦ none
  | some value ↦ params_of decode names caps (insert name value params)
]

-- The result of a route: an exception, no match, or the parameters.
pub data RouteMatch : Type 0 where
  route_threw no_match : RouteMatch
  matched : List (String × String) → RouteMatch

unfoldable pub params_match :
    (String → Option String) → List String → Option (List String) → RouteMatch
unfolding params_of
params_match decode names none = no_match
params_match decode names (some caps) = elim (params_of decode names caps List.[]) [
  | none ↦ route_threw
  | some params ↦ matched params
]

unfoldable pub run_matcher : (String → Option String) → Compiled → String → RouteMatch
unfolding normalize matches params_match
run_matcher decode compiled path = elim compiled.pieces [
  | none ↦ route_threw
  | some pieces ↦ params_match decode compiled.names (matches pieces (normalize path))
]

unfoldable pub match_route : (String → Option String) → String → String → RouteMatch
unfolding create_route_matcher run_matcher
match_route decode pattern path = run_matcher decode (create_route_matcher pattern) path
