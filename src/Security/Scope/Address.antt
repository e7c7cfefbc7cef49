-- ===== src/Security/Scope/Address.antt =====
-- Dotted addresses, printed and read back.
use Prim.Native.Nat.{bit_or}
use qwen_claw.Base.{
  ℕ, zero, suc, ◌+◌, ◌*◌, ◌^◌, ◌<◌, ◌==◌, ==_iff, ◌≡◌, ◌∙◌, refl, ap, Bool, true, false, not, ◌&&◌,
  List, [], ◌∷◌, ◌++◌, append-nil, append_assoc, Option, none, some, Option-cases, inl, inr, arith,
}
use qwen_claw.Base.Text.{tokens_from, getline_tokens, Text, is_empty}
use qwen_claw.Base.Decimal.{to_string_ℕ, stoul, is_digit}
use qwen_claw.Base.Bits.{bit_or-shift}
use qwen_claw.Security.Scope.{parse_parts, shl32, address_of, parse_ipv4, count_dots, is_ipv4}

-- `a.b.c.d`
abbrev pub dotted : ℕ → ℕ → ℕ → ℕ → Text
dotted a b c d =
    to_string_ℕ a ++ (b'.' ∷ (to_string_ℕ b ++ (b'.' ∷ (to_string_ℕ c ++ (b'.' ∷ to_string_ℕ d)))))

-- The number that the four bytes stand for, the first being the highest.
abbrev pub value_of : ℕ → ℕ → ℕ → ℕ → ℕ
value_of a b c d = a * 2 ^ 24 + b * 2 ^ 16 + c * 2 ^ 8 + d

-- A test that holds of every number below a bound.
unfoldable pub all_below : ℕ → (ℕ → Bool) → Bool
all_below zero p = true
all_below (suc n) p = p n && all_below n p

pub all_below-at : (n : ℕ) (p : ℕ → Bool) (x : ℕ) → all_below n p ≡ true → x < n → p x ≡ true
unfolding all_below
all_below-at zero p x h lt = absurd (omega arith)
all_below-at (suc n) p x h lt = ground (arith, all_below-at n p x)

unfoldable pub all_digits : Text → Bool
all_digits [] = true
all_digits (c ∷ s) = is_digit c && all_digits s

abbrev is_some_number : Option ℕ → ℕ → Bool
is_some_number none x = false
is_some_number (some v) x = v == x

-- What is needed of the digits of a byte.
abbrev byte_text : ℕ → Bool
byte_text x =
    all_digits (to_string_ℕ x)
    && not (is_empty (to_string_ℕ x))
    && is_some_number (stoul (to_string_ℕ x)) x

byte_texts : all_below 256 byte_text ≡ true
unfolding all_below all_digits to_string_ℕ stoul
byte_texts = refl

pub byte_digits :
    (x : ℕ)
    → x < 256
    → (all_digits (to_string_ℕ x) ≡ true)
      × (is_empty (to_string_ℕ x) ≡ false)
      × (stoul (to_string_ℕ x) ≡ some x)
byte_digits x h =
    let found = all_below-at 256 byte_text x byte_texts h in
    elim (Option-cases (stoul (to_string_ℕ x))) [
      | inl missing ↦ absurd (ground (arith, found, missing))
      | inr (v, read) ↦ ground (arith, found, read, ==_iff v x)
    ]

-- Digits hold no dot, so `getline` reads them whole.
tokens_from-digits :
    (w current s : Text)
    → all_digits w ≡ true
    → is_empty s ≡ false
    → tokens_from b'.' current (w ++ (b'.' ∷ s)) ≡ (current ++ w) ∷ tokens_from b'.' [] s
unfolding tokens_from all_digits
tokens_from-digits [] current s h ne = ground (arith, ne, append-nil current)
tokens_from-digits (c ∷ w) current s h ne =
    ground
      (arith, h, tokens_from-digits w (current ++ (c ∷ [])) s, ne, append_assoc current (c ∷ []) w)

tokens_from_last :
    (w current : Text) → all_digits w ≡ true → tokens_from b'.' current w ≡ (current ++ w) ∷ []
unfolding tokens_from all_digits
tokens_from_last [] current h = ground (arith, append-nil current)
tokens_from_last (c ∷ w) current h =
    ground (arith, h, tokens_from_last w (current ++ (c ∷ [])), append_assoc current (c ∷ []) w)

getline_tokens-nonempty :
    (s : Text) → is_empty s ≡ false → getline_tokens b'.' s ≡ tokens_from b'.' [] s
getline_tokens-nonempty [] h = ground (arith, h)
getline_tokens-nonempty (c ∷ s) h = refl

pub is_empty-append : (w : Text) (c : ℕ) (s : Text) → is_empty (w ++ (c ∷ s)) ≡ false
is_empty-append [] c s = refl
is_empty-append (x ∷ w) c s = refl

getline_tokens-dotted :
    (a b c d : ℕ)
    → a < 256
    → b < 256
    → c < 256
    → d < 256
    → getline_tokens b'.' (dotted a b c d)
      ≡ to_string_ℕ a ∷ to_string_ℕ b ∷ to_string_ℕ c ∷ to_string_ℕ d ∷ []
getline_tokens-dotted a b c d ha hb hc hd =
    getline_tokens-nonempty (dotted a b c d) (is_empty-append (to_string_ℕ a) b'.' _)
    ∙ tokens_from-digits (to_string_ℕ a) [] _ (byte_digits a ha).0
        (is_empty-append (to_string_ℕ b) b'.' _)
    ∙ ap (λ ts. to_string_ℕ a ∷ ts)
        (tokens_from-digits (to_string_ℕ b) [] _ (byte_digits b hb).0
            (is_empty-append (to_string_ℕ c) b'.' _)
          ∙ ap (λ ts. to_string_ℕ b ∷ ts)
              (tokens_from-digits (to_string_ℕ c) [] _ (byte_digits c hc).0 (byte_digits d hd).1
                ∙ ap (λ ts. to_string_ℕ c ∷ ts)
                    (tokens_from_last (to_string_ℕ d) [] (byte_digits d hd).0)))

parse_parts-byte :
    (room x : ℕ) (tokens : List Text) (parts : List ℕ)
    → x < 256
    → parse_parts room tokens ≡ some parts
    → parse_parts (suc room) (to_string_ℕ x ∷ tokens) ≡ some (x ∷ parts)
unfolding parse_parts
parse_parts-byte room x tokens parts h rest = ground (arith, (byte_digits x h).2, rest, h)

parse_parts_end : (room : ℕ) → parse_parts room [] ≡ some []
unfolding parse_parts
parse_parts_end room = refl

-- Four bytes in their places.
address_of-bytes :
    (a b c d : ℕ)
    → a < 256
    → b < 256
    → c < 256
    → d < 256
    → address_of (a ∷ b ∷ c ∷ d ∷ []) ≡ some (value_of a b c d)
unfolding address_of
address_of-bytes a b c d ha hb hc hd =
    let first : shl32 a 24 ≡ a * 2 ^ 24 = omega (arith, ha) in
    let second : shl32 b 16 ≡ b * 2 ^ 16 = omega (arith, hb) in
    let third : shl32 c 8 ≡ c * 2 ^ 8 = omega (arith, hc) in
    let two : bit_or (shl32 a 24) (shl32 b 16) ≡ (a * 256 + b) * 2 ^ 16 =
      ap (λ x. bit_or x (shl32 b 16)) first
      ∙ bit_or-shift 24 a (shl32 b 16) (omega (arith, second, hb))
      ∙ omega (arith, second) in
    let three : bit_or (bit_or (shl32 a 24) (shl32 b 16)) (shl32 c 8)
        ≡ ((a * 256 + b) * 256 + c) * 2 ^ 8 =
      ap (λ x. bit_or x (shl32 c 8)) two
      ∙ bit_or-shift 16 (a * 256 + b) (shl32 c 8) (omega (arith, third, hc))
      ∙ omega (arith, third) in
    ap some (
      ap (λ x. bit_or x d) three
      ∙ bit_or-shift 8 ((a * 256 + b) * 256 + c) d (omega (arith, hd))
      ∙ omega arith)

parse_ipv4_rule :
    (s : Text) (parts : List ℕ)
    → parse_parts 4 (getline_tokens b'.' s) ≡ some parts
    → parse_ipv4 s ≡ address_of parts
unfolding parse_ipv4
parse_ipv4_rule s parts h = ground (arith, h)

is_ipv4_rule : (s : Text) → count_dots s 0 ≡ some 3 → is_ipv4 s ≡ true
unfolding is_ipv4
is_ipv4_rule s h = ground (arith, h)

-- Reading a printed address gives its four bytes as one number of 32 bits.
pub parse_ipv4-dotted :
    (a b c d : ℕ)
    → a < 256
    → b < 256
    → c < 256
    → d < 256
    → parse_ipv4 (dotted a b c d) ≡ some (value_of a b c d)
parse_ipv4-dotted a b c d ha hb hc hd =
    let parts : parse_parts 4 (getline_tokens b'.' (dotted a b c d)) ≡ some (a ∷ b ∷ c ∷ d ∷ []) =
      ap (λ ts. parse_parts 4 ts) (getline_tokens-dotted a b c d ha hb hc hd)
      ∙ parse_parts-byte 3 a _ _ ha (
          parse_parts-byte 2 b _ _ hb
            (parse_parts-byte 1 c _ _ hc (parse_parts-byte 0 d _ _ hd (parse_parts_end 0)))) in
    parse_ipv4_rule (dotted a b c d) _ parts ∙ address_of-bytes a b c d ha hb hc hd

count_dots-digits :
    (w s : Text) (dots : ℕ) → all_digits w ≡ true → count_dots (w ++ s) dots ≡ count_dots s dots
unfolding count_dots all_digits
count_dots-digits [] s dots h = refl
count_dots-digits (c ∷ w) s dots h = ground (arith, h, count_dots-digits w s dots)

count_dots_last : (w : Text) (dots : ℕ) → all_digits w ≡ true → count_dots w dots ≡ some dots
unfolding count_dots all_digits
count_dots_last [] dots h = refl
count_dots_last (c ∷ w) dots h = ground (arith, h, count_dots_last w dots)

count_dots_dot : (s : Text) (dots : ℕ) → count_dots (b'.' ∷ s) dots ≡ count_dots s (suc dots)
unfolding count_dots
count_dots_dot s dots = refl

pub is_ipv4-dotted :
    (a b c d : ℕ) → a < 256 → b < 256 → c < 256 → d < 256 → is_ipv4 (dotted a b c d) ≡ true
is_ipv4-dotted a b c d ha hb hc hd =
    let dots : count_dots (dotted a b c d) 0 ≡ some 3 =
      count_dots-digits (to_string_ℕ a) _ 0 (byte_digits a ha).0
      ∙ count_dots_dot _ 0
      ∙ count_dots-digits (to_string_ℕ b) _ 1 (byte_digits b hb).0
      ∙ count_dots_dot _ 1
      ∙ count_dots-digits (to_string_ℕ c) _ 2 (byte_digits c hc).0
      ∙ count_dots_dot _ 2
      ∙ count_dots_last (to_string_ℕ d) 3 (byte_digits d hd).0 in
    is_ipv4_rule (dotted a b c d) dots
