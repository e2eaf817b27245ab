-- ===== src/Js.antt =====
-- The JavaScript values that the events of a gadget hold, and the string and number functions that
-- the source calls on them. Numbers are whole numbers: the fields of the gadgets are flags, ports,
-- codes, counters and nanoseconds, and JSON has no NaN and no infinity. Text is folded to lower and
-- upper case in ASCII.
pub mod Text
pub mod Numerals
pub mod Json
use ig_desktop.Prelude.{
  ℕ, String, Bool, true, false, ◌||◌, Option, none, some, List, [], ◌∷◌, if◌then◌else◌, or_default,
  str_eq,
}
use ig_desktop.Prelude.Int.{ℤ, pos}
use ig_desktop.Prelude.Assoc.{lookup}
use ig_desktop.Js.Numerals.{show_ℤ, parse_number}
use ig_desktop.Js.Text.{trim, lower}

pub data Value : Type 0 where
  undefined null : Value
  bool : Bool → Value
  num : ℤ → Value
  str : String → Value

-- `Record<string, unknown>`.
abbrev pub Event : Type 0
Event = List (String × Value)

-- `event[name]`.
unfoldable pub field : String → Event → Value
unfolding lookup
field name event = or_default (lookup name event) undefined

-- `config.f ? e : d`: an optional field name, which is falsy when missing or empty.
unfoldable pub with_field {ℓ} : {A : Type ℓ} → Option String → A → (String → A) → A
with_field none d k = d
with_field (some name) d k = if str_eq name "" then d else k name

unfoldable pub to_number : Value → Option ℤ
unfolding parse_number
to_number (num n) = some n
to_number (str s) = if str_eq (trim s) "" then none else parse_number (trim s)
to_number _ = none

-- `toStr`, with `String(value)` written out.
unfoldable pub to_str : Value → String
unfolding show_ℤ
to_str undefined = ""
to_str null = ""
to_str (bool true) = "true"
to_str (bool false) = "false"
to_str (num n) = show_ℤ n
to_str (str s) = s

-- `s || undefined`: empty text is falsy.
unfoldable pub non_empty : String → Option String
non_empty s = if str_eq s "" then none else some s

unfoldable pub to_str_or_undefined : Value → Option String
unfolding non_empty to_str trim
to_str_or_undefined value = non_empty (trim (to_str value))

unfoldable pub interpret_qr : Value → Option Bool
unfolding trim lower
interpret_qr (bool b) = some b
interpret_qr (num (pos n)) = elim n [ ℕ.zero ↦ some false | _ ↦ some true ]
interpret_qr (num _) = some true
interpret_qr (str s) =
    let v = lower (trim s) in
    if str_eq v "true" || str_eq v "1" || str_eq v "r"
    then some true
    else if str_eq v "false" || str_eq v "0" || str_eq v "q"
    then some false
    else none
interpret_qr _ = none

-- `value as string | undefined`, tested for truth: empty text is falsy.
unfoldable pub text_of : Value → Option String
unfolding non_empty
text_of (str s) = non_empty s
text_of _ = none
