-- ===== src/Routes/Parts.antt =====
-- The patterns of route-matcher.ts as they are meant, and the paths that they are meant to match.
use Prim.Native.Char.{Char, code}
use Prim.Native.String.{String, [], ◌∷◌, ◌++◌}
use ig_desktop.Prelude.{◌≡◌, false, List, ◌==◌, str_eq}
use ig_desktop.Routes.{Piece, literal, segment, in_segment, is_special}
use ig_desktop.Routes.Matching.{IsCapture}

-- A pattern as it is meant: characters that stand for themselves, and `[name]` groups.
pub data Part : Type 0 where
  char : Char → Part
  param : String → Part

-- The text of a pattern.
abbrev pub print : List Part → String
print List.[] = ""
print (List.◌∷◌ (char c) ps) = c ∷ print ps
print (List.◌∷◌ (param name) ps) = "[" ∷ (name ++ ("]" ∷ print ps))

abbrev pub names_of : List Part → List String
names_of List.[] = List.[]
names_of (List.◌∷◌ (char c) ps) = names_of ps
names_of (List.◌∷◌ (param name) ps) = List.◌∷◌ name (names_of ps)

-- A character of a name: no special one and no closing bracket.
abbrev pub IsPlain : String → Type 0
IsPlain [] = Unit
IsPlain (c ∷ s) = (is_special c ≡ false) × (((code c == b']') ≡ false) × IsPlain s)

-- A character that opens no group, and names that are not empty.
abbrev pub IsPattern : List Part → Type 0
IsPattern List.[] = Unit
IsPattern (List.◌∷◌ (char c) ps) = ((b'[' == code c) ≡ false) × IsPattern ps
IsPattern (List.◌∷◌ (param name) ps) = ((str_eq name "" ≡ false) × IsPlain name) × IsPattern ps

-- One text for each group, not empty and without a slash.
abbrev pub Fits : List Part → List String → Type 0
Fits List.[] List.[] = Unit
Fits List.[] (List.◌∷◌ cap caps) = ⊥
Fits (List.◌∷◌ (char c) ps) caps = Fits ps caps
Fits (List.◌∷◌ (param name) ps) List.[] = ⊥
Fits (List.◌∷◌ (param name) ps) (List.◌∷◌ cap caps) = IsCapture in_segment cap × Fits ps caps

-- The pattern with texts in the places of its groups.
abbrev pub filled : List Part → List String → String
filled List.[] caps = ""
filled (List.◌∷◌ (char c) ps) caps = c ∷ filled ps caps
filled (List.◌∷◌ (param name) ps) List.[] = ""
filled (List.◌∷◌ (param name) ps) (List.◌∷◌ cap caps) = cap ++ filled ps caps

-- The expression of a pattern.
abbrev pub pieces_of : List Part → List Piece
pieces_of List.[] = List.[]
pieces_of (List.◌∷◌ (char c) ps) = List.◌∷◌ (literal c) (pieces_of ps)
pieces_of (List.◌∷◌ (param name) ps) = List.◌∷◌ segment (pieces_of ps)
