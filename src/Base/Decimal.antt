-- ===== src/Base/Decimal.antt =====
-- `std::to_string` on integers and `std::stoi`, over bytes.
use Prim.Native.Nat.{ℕ, zero, suc, ◌+◌, ◌-◌, ◌*◌, ◌/◌, ◌%◌, ◌^◌}
use mathlib.Core.Bool.{Bool, true, false, ◌&&◌, ◌||◌}
use mathlib.Core.List.{[], ◌∷◌}
use mathlib.Core.Option.{Option, none, some}
use qwen_claw.Base.Tests.{◌==◌, leb, ltb, if◌then◌else◌}
use qwen_claw.Base.Int.{ℤ, pos, negsuc}
use qwen_claw.Base.Text.{Text}

-- The digits of `n` in front of `acc`, given a fuel above the number of digits.
digits_from : ℕ → ℕ → Text → Text
digits_from zero n acc = acc
digits_from (suc f) n acc =
    let longer = digits_from f (n / 10) ((n % 10 + b'0') ∷ acc) in
    if ltb n 10 then (n + b'0') ∷ acc else longer

unfoldable pub to_string_ℕ : ℕ → Text
unfolding digits_from
to_string_ℕ n = digits_from (suc n) n []

unfoldable pub to_string : ℤ → Text
unfolding to_string_ℕ
to_string (pos n) = to_string_ℕ n
to_string (negsuc n) = b'-' ∷ to_string_ℕ (suc n)

abbrev pub is_digit : ℕ → Bool
is_digit c = leb b'0' c && leb c b'9'

-- The blanks that `std::isspace` accepts in the "C" locale.
abbrev is_space : ℕ → Bool
is_space c = c == 32 || (leb 9 c && leb c 13)

-- The value of the leading digits, given the value read so far; `none` without a digit.
read_digits : Text → Option ℕ → Option ℕ
read_digits [] seen = seen
read_digits (c ∷ s) none = if is_digit c then read_digits s (some (c - b'0')) else none
read_digits (c ∷ s) (some v) =
    if is_digit c then read_digits s (some (v * 10 + (c - b'0'))) else some v

-- A value outside the 32-bit range is `std::out_of_range`.
in_range : Bool → Option ℕ → Option ℤ
in_range negative none = none
in_range true (some v) =
    if leb v 0x8000_0000 then some (if v == 0 then pos 0 else negsuc (v - 1)) else none
in_range false (some v) = if ltb v 0x8000_0000 then some (pos v) else none

-- `none` stands for both exceptions of `std::stoi`.
unfoldable pub stoi : Text → Option ℤ
unfolding read_digits in_range
stoi [] = none
stoi (c ∷ s) =
    if is_space c
    then stoi s
    else if c == b'-'
    then in_range true (read_digits s none)
    else in_range false (read_digits (if c == b'+' then s else c ∷ s) none)

-- A value outside the 64-bit range is `std::out_of_range`; a minus sign negates modulo 2 ^ 64.
word_range : Bool → Option ℕ → Option ℕ
word_range negative none = none
word_range negative (some v) =
    if ltb v (2 ^ 64) then some (if negative then (2 ^ 64 - v) % 2 ^ 64 else v) else none

-- `none` stands for both exceptions of `std::stoul`.
unfoldable pub stoul : Text → Option ℕ
unfolding read_digits word_range
stoul [] = none
stoul (c ∷ s) =
    if is_space c
    then stoul s
    else if c == b'-'
    then word_range true (read_digits s none)
    else word_range false (read_digits (if c == b'+' then s else c ∷ s) none)
