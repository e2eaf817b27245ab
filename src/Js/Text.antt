-- ===== src/Js/Text.antt =====
-- JavaScript's string functions over native strings, as far as the source uses them.
use Prim.Native.Char.{Char, code}
use Prim.Native.String.{String, [], ◌∷◌, ◌++◌}
use ig_desktop.Prelude.{
  ℕ, zero, suc, ◌-◌, Bool, true, false, ◌||◌, ◌&&◌, List, leb, ◌==◌, if◌then◌else◌, str_eq,
}

-- The white space that `trim` removes, line ends included.
unfoldable pub is_space : ℕ → Bool
is_space c =
    (leb 9 c && leb c 13)
    || c == 32
    || c == 160
    || c == 0x1680
    || (leb 0x2000 c && leb c 0x200a)
    || c == 0x2028
    || c == 0x2029
    || c == 0x202f
    || c == 0x205f
    || c == 0x3000
    || c == 0xfeff

unfoldable pub trim_start : String → String
unfolding is_space
trim_start [] = []
trim_start (c ∷ s) = if is_space (code c) then trim_start s else c ∷ s

-- The text without trailing white space: a character stays if it, or one behind it, is no space.
unfoldable pub trim_end : String → String
unfolding is_space
trim_end [] = []
trim_end (c ∷ s) =
    let rest = trim_end s in if is_space (code c) && str_eq rest "" then "" else c ∷ rest

unfoldable pub trim : String → String
unfolding trim_start trim_end
trim s = trim_end (trim_start s)

-- The character at a place, or `c`.
unfoldable pub nth : String → ℕ → Char → Char
nth [] n c = c
nth (d ∷ s) zero c = d
nth (d ∷ s) (suc n) c = nth s n c

lower_char : Char → Char
unfolding nth
lower_char c =
    if leb b'A' (code c) && leb (code c) b'Z'
    then nth "abcdefghijklmnopqrstuvwxyz" (code c - b'A') c
    else c

upper_char : Char → Char
unfolding nth
upper_char c =
    if leb b'a' (code c) && leb (code c) b'z'
    then nth "ABCDEFGHIJKLMNOPQRSTUVWXYZ" (code c - b'a') c
    else c

-- `toLowerCase` and `toUpperCase`.
unfoldable pub lower : String → String
unfolding lower_char
lower [] = []
lower (c ∷ s) = lower_char c ∷ lower s

unfoldable pub upper : String → String
unfolding upper_char
upper [] = []
upper (c ∷ s) = upper_char c ∷ upper s

-- `parts.join(sep)`.
unfoldable pub join : String → List String → String
join sep List.[] = ""
join sep (List.◌∷◌ s List.[]) = s
join sep (List.◌∷◌ s rest) = s ++ (sep ++ join sep rest)

-- `s.split(sep)[0]` and `s.includes(sep)` for a separator of one character.
unfoldable pub before : ℕ → String → String
before sep [] = []
before sep (c ∷ s) = let rest = c ∷ before sep s in if code c == sep then "" else rest

unfoldable pub contains : ℕ → String → Bool
contains sep [] = false
contains sep (c ∷ s) = code c == sep || contains sep s

-- `s.split(sep)` for a separator of one character.
unfoldable pub split : ℕ → String → List String
split sep [] = List.◌∷◌ "" List.[]
split sep (c ∷ s) = elim (split sep s) [
  | List.[] ↦ List.[]
  | List.◌∷◌ p ps ↦ if code c == sep then List.◌∷◌ "" (List.◌∷◌ p ps) else List.◌∷◌ (c ∷ p) ps
]

-- `s.replace(/\.$/, '')`, for the character given: one trailing occurrence goes.
unfoldable pub strip_last : ℕ → String → String
strip_last d [] = []
strip_last d (c ∷ s) =
    let rest = c ∷ strip_last d s in if code c == d && str_eq s "" then "" else rest

-- `s.replace(/^c/, '')` for one character.
unfoldable pub strip_first : ℕ → String → String
strip_first d [] = []
strip_first d (c ∷ s) = if code c == d then s else c ∷ s

-- `s.startsWith(prefix)`, `s.endsWith(suffix)` and `s.includes(part)`.
unfoldable pub starts_with : String → String → Bool
starts_with [] s = true
starts_with (p ∷ prefix) [] = false
starts_with (p ∷ prefix) (c ∷ s) = code p == code c && starts_with prefix s

unfoldable pub ends_with : String → String → Bool
ends_with suffix [] = str_eq suffix ""
ends_with suffix (c ∷ s) = str_eq suffix (c ∷ s) || ends_with suffix s

unfoldable pub includes : String → String → Bool
unfolding starts_with
includes part [] = str_eq part ""
includes part (c ∷ s) = starts_with part (c ∷ s) || includes part s

-- The order of `sort()` on texts, by code points: `a` stands in front of `b`.
unfoldable pub text_before : String → String → Bool
text_before a [] = false
text_before [] (d ∷ b) = true
text_before (c ∷ a) (d ∷ b) =
    let rest = text_before a b in if code c == code d then rest else leb (code c) (code d)
