-- ===== src/Prelude/Hex.antt =====
-- Texts and digits as the standard library has them: `split` at the characters of a closure,
-- `from_str_radix` of `u8`, and the format `{:02x}` of a byte.
use Prim.Native.Nat.{ℕ, zero, suc, ◌+◌, ◌*◌, ◌-◌, ◌/◌, ◌%◌, ◌<◌}
use Prim.Native.Char.{Char, code}
use Prim.Native.String.{String}
use mathlib.Core.Path.{◌≡◌, refl}
use mathlib.Core.Bool.{Bool, true, false, ◌&&◌, not}
use mathlib.Core.List.{List, [], ◌∷◌}
use mathlib.Core.Option.{Option, none, some}
use native.Mathlib.Omega.{arith}
use text.Mathlib.Text.{◌==◌ as str_eq}
use netavark.Prelude.Tests.{ltb, leb, ◌==◌, if◌then◌else◌}
use netavark.Prelude.Lists.{get_or}
use netavark.Prelude.Results.{Result, ok, err}

abbrev pub extend : Char → List String → List String
extend c [] = (String.◌∷◌ c String.[]) ∷ []
extend c (piece ∷ pieces) = (String.◌∷◌ c piece) ∷ pieces

-- `str::split`: the pieces between the characters that the closure holds of.
unfoldable pub split : (Char → Bool) → String → List String
split is_end String.[] = "" ∷ []
split is_end (String.◌∷◌ c s) =
    let pieces = split is_end s in if is_end c then "" ∷ pieces else extend c pieces

-- The digits, and the letters of both cases; 36 is no digit for any radix.
abbrev pub digit_value : ℕ → ℕ
digit_value n =
    if leb b'0' n && leb n b'9'
    then n - b'0'
    else if leb b'a' n && leb n b'z'
    then n - b'a' + 10
    else if leb b'A' n && leb n b'Z'
    then n - b'A' + 10
    else 36

-- `char::to_digit`
unfoldable pub to_digit : ℕ → Char → Option ℕ
to_digit radix c = let d = digit_value (code c) in if ltb d radix then some d else none

-- The digits behind a number, as long as the result is below 2 ^ 8.
unfoldable pub read_digits : ℕ → ℕ → String → Result String ℕ
read_digits radix n String.[] = ok n
read_digits radix n (String.◌∷◌ c s) = elim (to_digit radix c) [
  | none ↦ err "invalid digit found in string"
  | some d ↦
      let rest = read_digits radix (n * radix + d) s in
      if ltb (n * radix + d) 256 then rest else err "number too large to fit in target type"
]

-- `u8::from_str_radix`: a plus sign may stand in front.
unfoldable pub from_str_radix : String → ℕ → Result String ℕ
from_str_radix String.[] radix = err "cannot parse integer from empty string"
from_str_radix (String.◌∷◌ c s) radix =
    if code c == b'+'
    then if str_eq s "" then err "invalid digit found in string" else read_digits radix 0 s
    else read_digits radix 0 (String.◌∷◌ c s)

abbrev pub hex_char : ℕ → Char
hex_char d =
    get_or
      ("0" ∷ "1" ∷ "2" ∷ "3" ∷ "4" ∷ "5" ∷ "6" ∷ "7" ∷ "8" ∷ "9" ∷ "a" ∷ "b" ∷ "c" ∷ "d" ∷ "e" ∷ "f"
        ∷ [])
      d "0"

-- `format!("{:02x}", n)` of a byte.
unfoldable pub format_02x : ℕ → String
format_02x n = String.◌∷◌ (hex_char (n / 16)) (String.◌∷◌ (hex_char (n % 16)) String.[])

unfoldable pub all_below : ℕ → (ℕ → Bool) → Bool
all_below zero p = true
all_below (suc n) p = p n && all_below n p

all_below_lem : (n : ℕ) (p : ℕ → Bool) (x : ℕ) → all_below n p ≡ true → x < n → p x ≡ true
unfolding all_below
all_below_lem zero p x h lt = absurd (omega arith)
all_below_lem (suc n) p x h lt = ground (arith, all_below_lem n p x)

-- What holds of each of the sixteen digits, by evaluation.
pub hex_char_lem :
    (p : Char → Bool) (d : ℕ)
    → all_below 16 (λ n. p (hex_char n)) ≡ true
    → d < 16
    → p (hex_char d) ≡ true
hex_char_lem p d table h = all_below_lem 16 (λ n. p (hex_char n)) d table h

digit_value-hex_char : (d : ℕ) → d < 16 → digit_value (code (hex_char d)) ≡ d
unfolding all_below
digit_value-hex_char d h =
    let found = all_below_lem 16 (λ n. digit_value (code (hex_char n)) == n) d refl h in
    ground (arith, found)

to_digit-hex_char : (d : ℕ) → d < 16 → to_digit 16 (hex_char d) ≡ some d
unfolding to_digit
to_digit-hex_char d h = ground (arith, digit_value-hex_char d h)

not_plus : (d : ℕ) → d < 16 → (code (hex_char d) == b'+') ≡ false
unfolding all_below
not_plus d h =
    let found = all_below_lem 16 (λ n. not (code (hex_char n) == b'+')) d refl h in
    ground (arith, found)

-- A byte is read from its two digits.
pub from_str_radix-format_02x : (n : ℕ) → n < 256 → from_str_radix (format_02x n) 16 ≡ ok n
unfolding from_str_radix format_02x read_digits
from_str_radix-format_02x n h = ground (
  arith,
  not_plus (n / 16) (omega arith),
  to_digit-hex_char (n / 16) (omega arith),
  to_digit-hex_char (n % 16) (omega arith),
)
