-- ===== src/Base/Text.antt =====
-- `std::string` as its bytes, with the searches and tests that the components use.
use Prim.Native.Char.{code}
use Prim.Native.String.{String}
use Prim.Native.Nat.{ℕ, suc, ◌+◌}
use mathlib.Core.Path.{◌≡◌, refl}
use mathlib.Core.Logic.{◌↔◌}
use mathlib.Core.Bool.{Bool, true, false, ◌&&◌, not}
use mathlib.Core.List.{List, [], ◌∷◌, ◌++◌}
use mathlib.Core.Option
use mathlib.Core.Option.{Option, none, some}
use native.Mathlib.Omega.{arith}
use qwen_claw.Base.Lists.{any_of}
use qwen_claw.Base.Tests.{◌==◌, leb, if◌then◌else◌}

abbrev pub Text : Type 0
Text = List ℕ

-- The bytes of an ASCII literal.
abbrev pub codes : String → Text
codes String.[] = []
codes (String.◌∷◌ c s) = code c ∷ codes s

-- `a == b` on strings.
unfoldable pub text_eq : Text → Text → Bool
text_eq [] [] = true
text_eq (x ∷ xs) (y ∷ ys) = x == y && text_eq xs ys
text_eq _ _ = false

pub text_eq_iff : (a b : Text) → (text_eq a b ≡ true) ↔ (a ≡ b)
unfolding text_eq
text_eq_iff [] [] = ground arith
text_eq_iff [] (y ∷ ys) = ground arith
text_eq_iff (x ∷ xs) [] = ground arith
text_eq_iff (x ∷ xs) (y ∷ ys) = ground (arith, text_eq_iff xs ys)

pub text_eq_refl : (a : Text) → text_eq a a ≡ true
text_eq_refl a = (text_eq_iff a a).1 refl

pub text_eq_comm : (a b : Text) → text_eq a b ≡ text_eq b a
unfolding text_eq
text_eq_comm [] [] = refl
text_eq_comm [] (y ∷ ys) = refl
text_eq_comm (x ∷ xs) [] = refl
text_eq_comm (x ∷ xs) (y ∷ ys) = ground (arith, text_eq_comm xs ys)

-- `s.empty()`
abbrev pub is_empty {ℓ} : {A : Type ℓ} → List A → Bool
is_empty [] = true
is_empty (x ∷ xs) = false

-- `s.substr(0, p.size()) == p`
unfoldable pub starts_with : Text → Text → Bool
starts_with [] s = true
starts_with (x ∷ p) [] = false
starts_with (x ∷ p) (y ∷ s) = x == y && starts_with p s

-- `s.find(p)`; `none` is `npos`.
unfoldable pub find_text : Text → Text → Option ℕ
unfolding starts_with
find_text p [] = if starts_with p [] then some 0 else none
find_text p (y ∷ s) = if starts_with p (y ∷ s) then some 0 else Option.map suc (find_text p s)

-- `s.find(c)` of a byte.
unfoldable pub find_byte : ℕ → Text → Option ℕ
find_byte c [] = none
find_byte c (y ∷ s) = if y == c then some 0 else Option.map suc (find_byte c s)

-- `std::tolower` in the "C" locale, on one byte.
unfoldable pub to_lower : ℕ → ℕ
to_lower c = if leb b'A' c && leb c b'Z' then c + 32 else c

-- No byte of the text is `c`.
abbrev pub lacks : ℕ → Text → Bool
lacks c s = not (any_of (λ x. x == c) s)

-- The tokens that `std::getline` reads, with `current` read so far of the one in hand; an empty
-- rest gives no token.
unfoldable pub tokens_from : ℕ → Text → Text → List Text
tokens_from sep current [] = current ∷ []
tokens_from sep current (c ∷ s) =
    if c == sep
    then current ∷ (if is_empty s then [] else tokens_from sep [] s)
    else tokens_from sep (current ++ (c ∷ [])) s

abbrev pub getline_tokens : ℕ → Text → List Text
getline_tokens sep [] = []
getline_tokens sep (c ∷ s) = tokens_from sep [] (c ∷ s)
