-- ===== src/Js/Numerals.antt =====
-- JavaScript's numerals over native strings, as far as the source uses them.
use Prim.Native.Char.{Char, code}
use Prim.Native.String.{String, [], ◌∷◌, ◌++◌}
use mathlib.Core.Bool.{true≢false}
use mathlib.Core.Option.{some-injective}
use ig_desktop.Prelude.{
  ℕ, zero, suc, ◌+◌, ◌-◌, ◌*◌, ◌/◌, ◌%◌, ◌<◌, ◌≡◌, refl, sym, ap, ◌∙◌, Bool, true, false, ◌&&◌,
  Option, none, some, leb, ◌==◌, if◌then◌else◌, str_eq, eq_iff, arith, Bool-cases, inl, inr,
}
use ig_desktop.Prelude.Int.{ℤ, pos, negsuc, sub_ℕ}
use ig_desktop.Js.Text.{nth}

digit : ℕ → Char
unfolding nth
digit n = nth "0123456789" n (nth "0" 0 Prim.Native.Char.nul)

-- The decimal digits of a number in front of a text; the fuel is more than the number of digits.
show_from : ℕ → ℕ → String → String
unfolding digit
show_from zero n acc = acc
show_from (suc fuel) n acc =
    let shown = digit (n % 10) ∷ acc in
    let rest = show_from fuel (n / 10) shown in if n / 10 == 0 then shown else rest

unfoldable pub show_ℕ : ℕ → String
unfolding show_from
show_ℕ n = show_from (suc n) n ""

unfoldable pub show_ℤ : ℤ → String
unfolding show_ℕ
show_ℤ (pos n) = show_ℕ n
show_ℤ (negsuc n) = "-" ++ show_ℕ (suc n)

unfoldable pub is_digit : Char → Bool
is_digit c = leb b'0' (code c) && leb (code c) b'9'

-- 1 to 3 digits.
unfoldable pub is_octet : String → Bool
unfolding is_digit
is_octet (a ∷ []) = is_digit a
is_octet (a ∷ b ∷ []) = is_digit a && is_digit b
is_octet (a ∷ b ∷ c ∷ []) = is_digit a && is_digit b && is_digit c
is_octet _ = false

-- A thousandth of a thousandth, as a decimal fraction with no trailing zero: nanoseconds in the
-- milliseconds that the source prints.
strip_zeros : String → String
strip_zeros [] = []
strip_zeros (c ∷ s) =
    let rest = strip_zeros s in if code c == b'0' && str_eq rest "" then "" else c ∷ rest

behind_first : String → String
behind_first [] = []
behind_first (c ∷ s) = s

show_millionths : ℕ → String
unfolding show_ℕ strip_zeros behind_first
show_millionths n =
    if n % 1000000 == 0
    then show_ℕ (n / 1000000)
    else show_ℕ (n / 1000000)
      ++ ("." ++ strip_zeros (behind_first (show_ℕ (1000000 + n % 1000000))))

unfoldable pub show_ms : ℤ → String
unfolding show_millionths
show_ms (pos n) = show_millionths n
show_ms (negsuc n) = "-" ++ show_millionths (suc n)

scan : String → ℕ → Option ℕ
unfolding is_digit
scan [] n = some n
scan (c ∷ s) n = let rest = scan s (n * 10 + (code c - b'0')) in if is_digit c then rest else none

-- Digits, at least one.
unfoldable pub parse_ℕ : String → Option ℕ
unfolding scan
parse_ℕ [] = none
parse_ℕ (c ∷ s) = scan (c ∷ s) 0

signed : Bool → Option ℕ → Option ℤ
signed negative none = none
signed true (some n) = some (sub_ℕ 0 n)
signed false (some n) = some (pos n)

-- `Number(s)` on trimmed text: a decimal numeral with or without a sign. `none` is NaN, and stands
-- for the numerals too that have a fraction, an exponent or a radix prefix.
unfoldable pub parse_number : String → Option ℤ
unfolding parse_ℕ signed
parse_number [] = none
parse_number (c ∷ s) =
    if code c == b'-'
    then signed true (parse_ℕ s)
    else if code c == b'+'
    then signed false (parse_ℕ s)
    else signed false (parse_ℕ (c ∷ s))

digit_lem : (d : ℕ) → d < 10 → (code (digit d) ≡ b'0' + d) × (is_digit (digit d) ≡ true)
unfolding digit is_digit nth
digit_lem zero h = (refl, refl)
digit_lem (suc zero) h = (refl, refl)
digit_lem (suc (suc zero)) h = (refl, refl)
digit_lem (suc (suc (suc zero))) h = (refl, refl)
digit_lem (suc (suc (suc (suc zero)))) h = (refl, refl)
digit_lem (suc (suc (suc (suc (suc zero))))) h = (refl, refl)
digit_lem (suc (suc (suc (suc (suc (suc zero)))))) h = (refl, refl)
digit_lem (suc (suc (suc (suc (suc (suc (suc zero))))))) h = (refl, refl)
digit_lem (suc (suc (suc (suc (suc (suc (suc (suc zero)))))))) h = (refl, refl)
digit_lem (suc (suc (suc (suc (suc (suc (suc (suc (suc zero))))))))) h = (refl, refl)
digit_lem (suc (suc (suc (suc (suc (suc (suc (suc (suc (suc d)))))))))) h = absurd (omega arith)

scan-digit : (d n : ℕ) (s : String) → d < 10 → scan (digit d ∷ s) n ≡ scan s (n * 10 + d)
unfolding scan
scan-digit d n s h =
    let (c, i) = digit_lem d h in
    ap (λ b. if b then scan s (n * 10 + (code (digit d) - b'0')) else none) i
    ∙ ap (λ k. scan s (n * 10 + k)) (omega (arith, c))

scan-show_from : (fuel n : ℕ) (s : String) → n < fuel → scan (show_from fuel n s) 0 ≡ scan s n
unfolding show_from
scan-show_from zero n s h = absurd (omega arith)
scan-show_from (suc fuel) n s h = elim (Bool-cases (n / 10 == 0)) [
  | inl b ↦ rw b (scan-digit (n % 10) 0 s (omega arith) ∙ ap (scan s) (ground (arith, b)))
  | inr b ↦ rw b (
      scan-show_from fuel (n / 10) (digit (n % 10) ∷ s) (ground (arith, b, h))
      ∙ scan-digit (n % 10) (n / 10) s (omega arith)
      ∙ ap (scan s) (omega arith))
]

-- Two numbers with one numeral are equal.
pub show_ℕ-injective : (m n : ℕ) → show_ℕ m ≡ show_ℕ n → m ≡ n
unfolding show_ℕ scan
show_ℕ-injective m n e = some-injective m n (
    sym (scan-show_from (suc m) m "" (omega arith))
    ∙ ap (λ s. scan s 0) e
    ∙ scan-show_from (suc n) n "" (omega arith))

is_empty : String → Bool
is_empty [] = true
is_empty (c ∷ s) = false

pub cons_eq_empty : (c : Char) (s : String) → str_eq (c ∷ s) "" ≡ false
unfolding is_empty
cons_eq_empty c s = elim (Bool-cases (str_eq (c ∷ s) "")) [
  | inl b ↦ absurd (true≢false (sym (ap is_empty ((eq_iff (c ∷ s) "").0 b))))
  | inr b ↦ b
]

show_from-cons : (fuel n : ℕ) (c : Char) (s : String) → str_eq (show_from fuel n (c ∷ s)) "" ≡ false
unfolding show_from
show_from-cons zero n c s = cons_eq_empty c s
show_from-cons (suc fuel) n c s = elim (Bool-cases (n / 10 == 0)) [
  | inl b ↦ rw b (cons_eq_empty (digit (n % 10)) (c ∷ s))
  | inr b ↦ rw b (show_from-cons fuel (n / 10) (digit (n % 10)) (c ∷ s))
]

-- A numeral is not the empty text.
pub show_ℕ_some : (n : ℕ) → str_eq (show_ℕ n) "" ≡ false
unfolding show_ℕ show_from
show_ℕ_some n = elim (Bool-cases (n / 10 == 0)) [
  | inl b ↦ rw b (cons_eq_empty (digit (n % 10)) "")
  | inr b ↦ rw b (show_from-cons n (n / 10) (digit (n % 10)) "")
]
