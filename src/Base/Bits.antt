-- ===== src/Base/Bits.antt =====
-- The bitwise operations of unsigned words, as arithmetic.
use Prim.Native.Nat.{
  ℕ, zero, suc, ◌+◌, ◌-◌, ◌*◌, ◌/◌, ◌%◌, ◌^◌, ◌≤◌, ◌<◌, min, max, bit_and, bit_or, digits,
  bit_and-bitwise, bit_or-bitwise,
}
use mathlib.Core.Path.{◌≡◌, ◌∙◌, refl, sym, ap, subst}
use native.Mathlib.Nat.{div-div-eq-div-mul}
use native.Mathlib.Omega.{arith}

-- The fuel of the library's recursion does not matter once it covers the first number.
digits_more :
    (z : ℕ → ℕ) (f : ℕ → ℕ → ℕ) (n m a b : ℕ) → a ≤ n → a ≤ m → digits z f n a b ≡ digits z f m a b
digits_more z f zero zero a b p q = refl
digits_more z f zero (suc m) zero b p q = refl
digits_more z f zero (suc m) (suc a) b p q = absurd (omega arith)
digits_more z f (suc n) zero zero b p q = refl
digits_more z f (suc n) zero (suc a) b p q = absurd (omega arith)
digits_more z f (suc n) (suc m) zero b p q = refl
digits_more z f (suc n) (suc m) (suc a) b p q =
    omega (arith, digits_more z f n m (suc a / 2) (b / 2) (omega arith) (omega arith))

bit_or_step : (a b : ℕ) → bit_or a b ≡ bit_or (a / 2) (b / 2) * 2 + max (a % 2) (b % 2)
bit_or_step zero b = omega (arith, bit_or-bitwise 0 b, bit_or-bitwise 0 (b / 2))
bit_or_step (suc a) b = omega (
  arith,
  bit_or-bitwise (suc a) b,
  bit_or-bitwise (suc a / 2) (b / 2),
  digits_more (λ b. b) max a (suc a / 2) (suc a / 2) (b / 2) (omega arith) (omega arith),
)

bit_and_step : (a b : ℕ) → bit_and a b ≡ bit_and (a / 2) (b / 2) * 2 + min (a % 2) (b % 2)
bit_and_step zero b = omega (arith, bit_and-bitwise 0 b, bit_and-bitwise 0 (b / 2))
bit_and_step (suc a) b = omega (
  arith,
  bit_and-bitwise (suc a) b,
  bit_and-bitwise (suc a / 2) (b / 2),
  digits_more (λ b. zero) min a (suc a / 2) (suc a / 2) (b / 2) (omega arith) (omega arith),
)

bit_or-zero : (n a : ℕ) → a ≤ n → bit_or a 0 ≡ a
bit_or-zero n zero h = omega (arith, bit_or-bitwise 0 0)
bit_or-zero zero (suc a) h = absurd (omega arith)
bit_or-zero (suc n) (suc a) h =
    omega (arith, bit_or_step (suc a) 0, bit_or-zero n (suc a / 2) (omega arith))

bit_and-zero : (n a : ℕ) → a ≤ n → bit_and a 0 ≡ 0
bit_and-zero n zero h = omega (arith, bit_and-bitwise 0 0)
bit_and-zero zero (suc a) h = absurd (omega arith)
bit_and-zero (suc n) (suc a) h =
    omega (arith, bit_and_step (suc a) 0, bit_and-zero n (suc a / 2) (omega arith))

half : (x : ℕ) → x * 2 / 2 ≡ x
half x = omega arith

pub twice : (k x : ℕ) → x * 2 ^ suc k ≡ x * 2 ^ k * 2
twice k x = grind arith

ones_half : (n : ℕ) → (2 ^ suc n - 1) / 2 ≡ 2 ^ n - 1
ones_half n = omega (arith, twice n 1)

-- A number put in front of `k` digits.
pub bit_or-shift : (k hi lo : ℕ) → lo < 2 ^ k → bit_or (hi * 2 ^ k) lo ≡ hi * 2 ^ k + lo
bit_or-shift zero hi zero h = omega (arith, bit_or-zero (hi * 1) (hi * 1) (omega arith))
bit_or-shift zero hi (suc lo) h = absurd (omega (arith, h))
bit_or-shift (suc k) hi lo h = rw (twice k hi) (
    omega (
      arith,
      bit_or_step (hi * 2 ^ k * 2) lo,
      ap (λ x. bit_or x (lo / 2)) (half (hi * 2 ^ k)),
      bit_or-shift k hi (lo / 2) (omega (arith, h, twice k 1)),
    ))

-- All of `n` digits.
bit_and-ones : (n x : ℕ) → x < 2 ^ n → bit_and x (2 ^ n - 1) ≡ x
bit_and-ones zero zero h = omega (arith, bit_and-zero 0 0 (omega arith))
bit_and-ones zero (suc x) h = absurd (omega (arith, h))
bit_and-ones (suc n) x h = omega (
  arith,
  bit_and_step x (2 ^ suc n - 1),
  ap (λ y. bit_and (x / 2) y) (ones_half n),
  twice n 1,
  bit_and-ones n (x / 2) (omega (arith, h, twice n 1)),
)

one_time : (x : ℕ) → x * 2 ^ 0 ≡ x
one_time x = omega arith

div_one : (x : ℕ) → x / 2 ^ 0 * 2 ^ 0 ≡ x
div_one x = omega arith

halve : (x k : ℕ) → x / 2 ^ suc k ≡ x / 2 / 2 ^ k
halve x k =
    let double : 2 ^ suc k ≡ 2 * 2 ^ k = omega (arith, twice k 1) in
    ap (λ m. x / m) double ∙ sym (div-div-eq-div-mul x 2 (2 ^ k))

-- The mask of `n` ones behind which `k` digits are cleared.
pub bit_and-mask :
    (k n x : ℕ) → x < 2 ^ (n + k) → bit_and x ((2 ^ n - 1) * 2 ^ k) ≡ x / 2 ^ k * 2 ^ k
bit_and-mask zero n x h =
    let e : n + 0 ≡ n = omega arith in
    omega (
      arith,
      ap (λ m. bit_and x m) (one_time (2 ^ n - 1)),
      div_one x,
      bit_and-ones n x (subst (λ m. x < 2 ^ m) e h),
    )
bit_and-mask (suc k) n x h =
    let e : n + suc k ≡ suc (n + k) = omega arith in
    let below : x < 2 ^ suc (n + k) = subst (λ m. x < 2 ^ m) e h in
    rw (twice k (2 ^ n - 1), twice k (x / 2 ^ suc k))
      (omega (
        arith,
        bit_and_step x ((2 ^ n - 1) * 2 ^ k * 2),
        ap (λ m. bit_and (x / 2) m) (half ((2 ^ n - 1) * 2 ^ k)),
        ap (λ q. q * 2 ^ k) (halve x k),
        bit_and-mask k n (x / 2) (omega (arith, below, twice (n + k) 1)),
      ))
