-- ===== src/Security/Scope/Ranges.antt =====
-- A range of addresses in the notation of the configuration, `a.b.c.d/n`, against an address.
use Prim.Native.Nat.{bit_and}
use qwen_claw.Base.{
  ℕ, zero, suc, ◌+◌, ◌-◌, ◌*◌, ◌/◌, ◌^◌, ◌≤◌, ◌<◌, ◌==◌, ==_iff, ◌≡◌, ◌∙◌, refl, sym, ap, subst,
  Bool, true, false, ◌&&◌, ◌||◌, [], ◌∷◌, ◌++◌, none, some, Option-cases, inl, inr, arith, length,
  take, drop,
}
use qwen_claw.Base.Int.{pos, negsuc}
use qwen_claw.Base.Text.{Text, text_eq, find_byte, to_lower, is_empty}
use qwen_claw.Base.Decimal.{to_string_ℕ, stoi, is_digit}
use qwen_claw.Base.Bits.{bit_and-mask, twice}
use qwen_claw.Security.Scope.{
  lower, mask_of, same_network, parse_ipv4, is_ipv4, is_cidr, matches_cidr, is_wildcard,
  matches_pattern,
}
use qwen_claw.Security.Scope.Address.{
  dotted, value_of, all_below, all_below-at, all_digits, byte_digits, is_empty-append,
  parse_ipv4-dotted, is_ipv4-dotted,
}

-- `a.b.c.d/n`
abbrev pub range_text : ℕ → ℕ → ℕ → ℕ → ℕ → Text
range_text a b c d n = dotted a b c d ++ (b'/' ∷ to_string_ℕ n)

-- Digits and dots.
all_plain : Text → Bool
all_plain [] = true
all_plain (c ∷ s) = (is_digit c || c == b'.') && all_plain s

all_plain-digits : (w s : Text) → all_digits w ≡ true → all_plain (w ++ s) ≡ all_plain s
unfolding all_plain all_digits
all_plain-digits [] s h = refl
all_plain-digits (c ∷ w) s h = ground (arith, h, all_plain-digits w s)

all_plain-dot : (s : Text) → all_plain (b'.' ∷ s) ≡ all_plain s
unfolding all_plain
all_plain-dot s = refl

all_plain_last : (w : Text) → all_digits w ≡ true → all_plain w ≡ true
unfolding all_plain all_digits
all_plain_last [] h = refl
all_plain_last (c ∷ w) h = ground (arith, h, all_plain_last w)

all_plain-dotted :
    (a b c d : ℕ) → a < 256 → b < 256 → c < 256 → d < 256 → all_plain (dotted a b c d) ≡ true
all_plain-dotted a b c d ha hb hc hd =
    all_plain-digits (to_string_ℕ a) _ (byte_digits a ha).0
    ∙ all_plain-dot _
    ∙ all_plain-digits (to_string_ℕ b) _ (byte_digits b hb).0
    ∙ all_plain-dot _
    ∙ all_plain-digits (to_string_ℕ c) _ (byte_digits c hc).0
    ∙ all_plain-dot _
    ∙ all_plain_last (to_string_ℕ d) (byte_digits d hd).0

-- What the matcher does with such bytes in front of a slash.
find_byte-slash :
    (w s : Text) → all_plain w ≡ true → find_byte b'/' (w ++ (b'/' ∷ s)) ≡ some (length w)
unfolding find_byte all_plain
find_byte-slash [] s h = refl
find_byte-slash (c ∷ w) s h = ground (arith, h, find_byte-slash w s)

take-front : (w s : Text) → take (length w) (w ++ s) ≡ w
take-front [] s = refl
take-front (c ∷ w) s = ap (λ t. c ∷ t) (take-front w s)

drop-front : (w : Text) (c : ℕ) (s : Text) → drop (suc (length w)) (w ++ (c ∷ s)) ≡ s
drop-front [] c s = refl
drop-front (x ∷ w) c s = drop-front w c s

lower-plain : (w s : Text) → all_plain w ≡ true → lower (w ++ s) ≡ w ++ lower s
unfolding all_plain to_lower
lower-plain [] s h = refl
lower-plain (c ∷ w) s h = ground (arith, h, lower-plain w s)

lower-slash : (w : Text) → lower (b'/' ∷ w) ≡ b'/' ∷ lower w
unfolding to_lower
lower-slash w = refl

lower_plain : (w : Text) → all_plain w ≡ true → lower w ≡ w
unfolding all_plain to_lower
lower_plain [] h = refl
lower_plain (c ∷ w) h = ground (arith, h, lower_plain w)

-- A plain text and one with a slash differ.
text_eq-slash : (v w s : Text) → all_plain v ≡ true → text_eq v (w ++ (b'/' ∷ s)) ≡ false
unfolding text_eq all_plain
text_eq-slash [] [] s h = refl
text_eq-slash [] (x ∷ w) s h = refl
text_eq-slash (c ∷ v) [] s h = ground (arith, h)
text_eq-slash (c ∷ v) (x ∷ w) s h = ground (arith, h, text_eq-slash v w s)

is_wildcard-plain :
    (w s : Text) → all_plain w ≡ true → is_empty w ≡ false → is_wildcard (w ++ s) ≡ false
unfolding is_wildcard all_plain
is_wildcard-plain [] s h ne = ground (arith, ne)
is_wildcard-plain (c ∷ []) [] h ne = refl
is_wildcard-plain (c ∷ []) (x ∷ []) h ne = refl
is_wildcard-plain (c ∷ []) (x ∷ y ∷ s) h ne = ground (arith, h)
is_wildcard-plain (c ∷ d ∷ []) [] h ne = refl
is_wildcard-plain (c ∷ d ∷ []) (x ∷ s) h ne = ground (arith, h)
is_wildcard-plain (c ∷ d ∷ e ∷ w) s h ne = ground (arith, h)

-- The prefix lengths, read and turned into masks.
abbrev is_length : ℕ → Bool
is_length n = elim (stoi (to_string_ℕ n)) [
  | some (pos v) ↦ v == n
  | some (negsuc v) ↦ false
  | none ↦ false
]

lengths_read : all_below 33 is_length ≡ true
unfolding all_below stoi to_string_ℕ
lengths_read = refl

stoi-length : (n : ℕ) → n ≤ 32 → stoi (to_string_ℕ n) ≡ some (pos n)
stoi-length n h =
    let found = all_below-at 33 is_length n lengths_read (omega (arith, h)) in
    elim (Option-cases (stoi (to_string_ℕ n))) [
      | inl missing ↦ absurd (ground (arith, found, missing))
      | inr (pos v, read) ↦ ground (arith, found, read, ==_iff v n)
      | inr (negsuc v, read) ↦ absurd (ground (arith, found, read))
    ]

masks : all_below 33 (λ n. mask_of n == (2 ^ n - 1) * 2 ^ (32 - n)) ≡ true
unfolding all_below
masks = refl

-- Under the mask two addresses agree when they are in the same block of `2 ^ (32 - n)`.
same_block : (k x y : ℕ) → (x * 2 ^ k == y * 2 ^ k) ≡ (x == y)
same_block zero x y = ground arith
same_block (suc k) x y = rw (twice k x, twice k y) (ground (arith, same_block k x y))

masked :
    (n x y : ℕ)
    → n ≤ 32
    → x < 2 ^ 32
    → y < 2 ^ 32
    → (bit_and x (mask_of n) == bit_and y (mask_of n)) ≡ (x / 2 ^ (32 - n) == y / 2 ^ (32 - n))
masked n x y h hx hy =
    let mask : mask_of n ≡ (2 ^ n - 1) * 2 ^ (32 - n) =
      (==_iff _ _).0 (all_below-at 33 _ n masks (omega (arith, h))) in
    let width : n + (32 - n) ≡ 32 = omega (arith, h) in
    ap (λ m. bit_and x m == bit_and y m) mask
    ∙ ap (λ z. z == bit_and y ((2 ^ n - 1) * 2 ^ (32 - n)))
        (bit_and-mask (32 - n) n x (subst (λ m. x < 2 ^ m) (sym width) hx))
    ∙ ap (λ z. x / 2 ^ (32 - n) * 2 ^ (32 - n) == z)
        (bit_and-mask (32 - n) n y (subst (λ m. y < 2 ^ m) (sym width) hy))
    ∙ same_block (32 - n) (x / 2 ^ (32 - n)) (y / 2 ^ (32 - n))

same_network_rule :
    (ip network : Text) (x y n : ℕ)
    → parse_ipv4 ip ≡ some x
    → parse_ipv4 network ≡ some y
    → same_network ip network n ≡ (bit_and x (mask_of n) == bit_and y (mask_of n))
unfolding same_network
same_network_rule ip network x y n e f = ground (arith, e, f)

matches_cidr_rule :
    (ip network digits : Text) (n : ℕ)
    → all_plain network ≡ true
    → stoi digits ≡ some (pos n)
    → n ≤ 32
    → matches_cidr ip (network ++ (b'/' ∷ digits)) ≡ same_network ip network n
unfolding matches_cidr
matches_cidr_rule ip network digits n plain read h = ground (
  arith,
  h,
  find_byte-slash network digits plain,
  drop-front network b'/' digits,
  read,
  take-front network (b'/' ∷ digits),
)

is_cidr_rule :
    (network digits : Text)
    → all_plain network ≡ true
    → is_ipv4 network ≡ true
    → is_cidr (network ++ (b'/' ∷ digits)) ≡ true
unfolding is_cidr
is_cidr_rule network digits plain four =
    ground (arith, find_byte-slash network digits plain, take-front network (b'/' ∷ digits), four)

lower-range :
    (network digits : Text)
    → all_plain network ≡ true
    → all_plain digits ≡ true
    → lower (network ++ (b'/' ∷ digits)) ≡ network ++ (b'/' ∷ digits)
lower-range network digits plain numbers =
    lower-plain network (b'/' ∷ digits) plain
    ∙ ap (λ s. network ++ s) (lower-slash digits ∙ ap (λ s. b'/' ∷ s) (lower_plain digits numbers))

matches_pattern_rule :
    (target network digits : Text)
    → all_plain target ≡ true
    → is_ipv4 target ≡ true
    → all_plain network ≡ true
    → is_empty network ≡ false
    → is_ipv4 network ≡ true
    → all_plain digits ≡ true
    → matches_pattern target (network ++ (b'/' ∷ digits))
      ≡ matches_cidr target (network ++ (b'/' ∷ digits))
unfolding matches_pattern
matches_pattern_rule target network digits plain four plain' ne four' numbers =
    rw (lower-range network digits plain' numbers) (
      ground (
        arith,
        text_eq-slash target network digits plain,
        is_wildcard-plain network (b'/' ∷ digits) plain' ne,
        is_cidr_rule network digits plain' four',
        four,
      ))

dotted-nonempty : (a b c d : ℕ) → is_empty (dotted a b c d) ≡ false
dotted-nonempty a b c d = is_empty-append (to_string_ℕ a) b'.' _

-- A range covers exactly the addresses that agree with its network on the first `n` of 32 digits,
-- whatever the network's other digits are.
pub matches_pattern-range :
    (a b c d a' b' c' d' n : ℕ)
    → a < 256
    → b < 256
    → c < 256
    → d < 256
    → a' < 256
    → b' < 256
    → c' < 256
    → d' < 256
    → n ≤ 32
    → matches_pattern (dotted a b c d) (range_text a' b' c' d' n)
      ≡ (value_of a b c d / 2 ^ (32 - n) == value_of a' b' c' d' / 2 ^ (32 - n))
matches_pattern-range a b c d a' b' c' d' n ha hb hc hd ha' hb' hc' hd' h =
    let plain = all_plain-dotted a' b' c' d' ha' hb' hc' hd' in
    matches_pattern_rule (dotted a b c d) (dotted a' b' c' d') (to_string_ℕ n)
      (all_plain-dotted a b c d ha hb hc hd) (is_ipv4-dotted a b c d ha hb hc hd) plain
      (dotted-nonempty a' b' c' d') (is_ipv4-dotted a' b' c' d' ha' hb' hc' hd')
      (all_plain_last (to_string_ℕ n) (byte_digits n (omega (arith, h))).0)
    ∙ matches_cidr_rule (dotted a b c d) (dotted a' b' c' d') (to_string_ℕ n) n plain
        (stoi-length n h) h
    ∙ same_network_rule (dotted a b c d) (dotted a' b' c' d') _ _ n
        (parse_ipv4-dotted a b c d ha hb hc hd) (parse_ipv4-dotted a' b' c' d' ha' hb' hc' hd')
    ∙ masked n (value_of a b c d) (value_of a' b' c' d') h (omega (arith, ha, hb, hc, hd))
        (omega (arith, ha', hb', hc', hd'))
