-- ===== src/Prelude/Texts.antt =====
-- Texts: membership in a list of texts, joining, and the decimal print of a number.
use Prim.Native.Nat.{ℕ, zero, suc, ◌/◌, ◌%◌}
use Prim.Native.String.{String, ◌++◌ as ◌<>◌}
use mathlib.Core.Path.{◌≡◌, refl}
use mathlib.Core.Bool.{Bool, false, ◌||◌}
use mathlib.Core.List.{List, [], ◌∷◌, ◌++◌}
use native.Mathlib.Omega.{arith}
use text.Mathlib.Text.{◌==◌ as str_eq}
use netavark.Prelude.Tests.{ltb, if◌then◌else◌}
use netavark.Prelude.Lists.{get_or}

abbrev pub contains : String → List String → Bool
contains r [] = false
contains r (x ∷ xs) = str_eq x r || contains r xs

pub contains-append :
    (r : String) (xs ys : List String) → contains r (xs ++ ys) ≡ (contains r xs || contains r ys)
contains-append r [] ys = refl
contains-append r (x ∷ xs) ys = ground (arith, contains-append r xs ys)

-- `[String]::join`
abbrev pub join : String → List String → String
join sep [] = ""
join sep (x ∷ []) = x
join sep (x ∷ y ∷ xs) = x <> (sep <> join sep (y ∷ xs))

abbrev pub digit : ℕ → String
digit d = get_or ("0" ∷ "1" ∷ "2" ∷ "3" ∷ "4" ∷ "5" ∷ "6" ∷ "7" ∷ "8" ∷ "9" ∷ []) d ""

show_digits : ℕ → ℕ → String → String
show_digits zero n out = out
show_digits (suc fuel) n out =
    let rest = show_digits fuel (n / 10) (digit (n % 10) <> out) in
    if ltb n 10 then digit n <> out else rest

-- `to_string` of an unsigned integer: a number has at most as many digits as its value plus one.
unfoldable pub show_ℕ : ℕ → String
unfolding show_digits
show_ℕ n = show_digits (suc n) n ""
