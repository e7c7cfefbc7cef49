-- ===== src/Security/Glob/Fuel.antt =====
-- How many rounds the matcher takes.
use qwen_claw.Base.{
  ℕ, zero, suc, ◌+◌, ◌*◌, ◌≤◌, ◌<◌, ◌≡◌, refl, inl, inr, Bool, true, false, [], ◌∷◌, Option, none,
  some, Option-cases, arith, length,
}
use qwen_claw.Base.Text.{Text}
use qwen_claw.Security.Glob.{Star, glob_loop, glob_fuel}

mul_mono : (a b k : ℕ) → a ≤ b → a * k ≤ b * k
mul_mono zero b k h = omega arith
mul_mono (suc a) zero k h = omega (arith, h)
mul_mono (suc a) (suc b) k h = omega (arith, mul_mono a b k (omega (arith, h)))

-- How often the loop may still go back.
abbrev rank : ℕ → Star → ℕ
rank most none = most
rank most (some (p, t)) = length t

-- The sizes that the rounds stay within.
abbrev Fits : ℕ → ℕ → Text → Text → Star → Type 0
Fits most k pattern text none = (length pattern + length text < k) × (length text ≤ most + 1)
Fits most k pattern text (some (p, t)) =
    (length pattern + length text < k) × (length p + length t < k) × (length text ≤ length t + 1)

abbrev returns : Option Bool → Bool
returns none = false
returns (some b) = true

abbrev Ends : ℕ → Text → Text → Star → Type 0
Ends fuel pattern text star = returns (glob_loop fuel pattern text star) ≡ true

Ends-text : (fuel : ℕ) (pattern : Text) (star : Star) → 0 < fuel → Ends fuel pattern [] star
unfolding glob_loop
Ends-text zero pattern star h = absurd (omega (arith, h))
Ends-text (suc fuel) pattern star h = refl

Ends-byte :
    (fuel c x : ℕ) (pattern text : Text) (star : Star)
    → Ends fuel pattern text star
    → Ends fuel pattern (x ∷ text) (some (pattern, text))
    → Ends (suc fuel) [] (x ∷ text) star
    → Ends (suc fuel) (c ∷ pattern) (x ∷ text) star
unfolding glob_loop
Ends-byte fuel c x pattern text none hit set back = ground (arith, hit, set, back)
Ends-byte fuel c x pattern text (some (p, t)) hit set back = ground (arith, hit, set, back)

loop-Ends :
    (most k fuel : ℕ) (pattern text : Text) (star : Star)
    → Fits most k pattern text star
    → rank most star * k + length pattern + length text < fuel
    → Ends fuel pattern text star
unfolding glob_loop
loop-Ends most k zero pattern text star f h = absurd (omega (arith, h))
loop-Ends most k (suc fuel) pattern [] star f h = refl
loop-Ends most k (suc fuel) [] (x ∷ text) none f h = refl
loop-Ends most k (suc fuel) [] (x ∷ text) (some (p, [])) f h =
    Ends-text fuel p (some (p, [])) (omega (arith, h))
loop-Ends most k (suc fuel) [] (x ∷ text) (some (p, y ∷ t)) f h =
    loop-Ends most k fuel p (y ∷ t) (some (p, t)) (omega (arith, f)) (omega (arith, f, h))
loop-Ends most k (suc fuel) (c ∷ pattern) (x ∷ text) none f h =
    Ends-byte fuel c x pattern text none
      (loop-Ends most k fuel pattern text none (omega (arith, f)) (omega (arith, h)))
      (loop-Ends most k fuel pattern (x ∷ text) (some (pattern, text)) (omega (arith, f))
        (omega (arith, h, f, mul_mono (length text) most k (omega (arith, f)))))
      refl
loop-Ends most k (suc fuel) (c ∷ pattern) (x ∷ text) (some (p, [])) f h =
    Ends-byte fuel c x pattern text (some (p, []))
      (loop-Ends most k fuel pattern text (some (p, [])) (omega (arith, f)) (omega (arith, h)))
      (loop-Ends most k fuel pattern (x ∷ text) (some (pattern, text)) (omega (arith, f))
        (omega (arith, h, f, mul_mono (length text) 0 k (omega (arith, f)))))
      (Ends-text fuel p (some (p, [])) (omega (arith, h)))
loop-Ends most k (suc fuel) (c ∷ pattern) (x ∷ text) (some (p, y ∷ t)) f h =
    Ends-byte fuel c x pattern text (some (p, y ∷ t))
      (loop-Ends most k fuel pattern text (some (p, y ∷ t)) (omega (arith, f)) (omega (arith, h)))
      (loop-Ends most k fuel pattern (x ∷ text) (some (pattern, text)) (omega (arith, f))
        (omega (arith, h, f, mul_mono (length text) (suc (length t)) k (omega (arith, f)))))
      (loop-Ends most k fuel p (y ∷ t) (some (p, t)) (omega (arith, f)) (omega (arith, f, h)))

-- The fuel of `glob_match` is enough, on any pattern and any text.
pub glob_loop-ends :
    (pattern text : Text)
    → (b : Bool) × (glob_loop (glob_fuel pattern text) pattern text none ≡ some b)
glob_loop-ends pattern text =
    let ends =
      loop-Ends (length text) (length pattern + length text + 1) (glob_fuel pattern text) pattern
        text none (omega arith)
        (omega (
          arith,
          mul_mono (length text) (length text + 2) (length pattern + length text + 1) (omega arith),
        )) in
    elim (Option-cases (glob_loop (glob_fuel pattern text) pattern text none)) [
      | inl out ↦ absurd (ground (arith, ends, out))
      | inr (b, eq) ↦ (b, eq)
    ]
