-- ===== src/Security/Glob/Stars.antt =====
-- A star of the pattern that meets a star of the text.
use qwen_claw.Base.{
  ℕ, zero, suc, ◌≡◌, inl, inr, true, false, [], ◌∷◌, ◌++◌, none, some, Option-cases, arith,
}
use qwen_claw.Base.Text.{Text}
use qwen_claw.Security.Glob.{glob_loop, glob_fuel, glob_match}

loop-star :
    (fuel : ℕ) (w : Text) (x : ℕ) (rest : Text)
    → glob_loop fuel (w ++ b'*' ∷ []) (w ++ b'*' ∷ x ∷ rest) none ≡ some true
    → true ≡ false
unfolding glob_loop
loop-star zero w x rest h = ground (arith, h)
loop-star (suc zero) [] x rest h = ground (arith, h)
loop-star (suc (suc fuel)) [] x rest h = ground (arith, h)
loop-star (suc fuel) (c ∷ w) x rest h = ground (arith, h, loop-star fuel w x rest)

-- The pattern `w*` refuses every text `w*` with more after it: the first star of the text is taken
-- as the byte of the pattern, and nothing is left for the rest.
pub glob_match-star_text :
    (w : Text) (x : ℕ) (rest : Text) → glob_match (w ++ b'*' ∷ []) (w ++ b'*' ∷ x ∷ rest) ≡ false
unfolding glob_match
glob_match-star_text w x rest =
    let pattern = w ++ b'*' ∷ [] in
    let text = w ++ b'*' ∷ x ∷ rest in
    elim (Option-cases (glob_loop (glob_fuel pattern text) pattern text none)) [
      | inl out ↦ ground (arith, out)
      | inr (b, eq) ↦ ground (arith, eq, loop-star (glob_fuel pattern text) w x rest)
    ]
