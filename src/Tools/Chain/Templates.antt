-- ===== src/Tools/Chain/Templates.antt =====
-- The references to earlier results in the arguments of a step.
use qwen_claw.Base.{ℕ, zero, ◌≡◌, ◌∙◌, refl, ap, true, List, [], ◌∷◌, ◌++◌, none, some, arith}
use qwen_claw.Base.Text.{Text, starts_with, lacks}
use qwen_claw.Tools.Chain.{
  ChainStepResult, prev_token, last_result, replace_prev, step_reference, replace_steps,
  resolve_string,
}

replace_prev-append :
    (r a s : Text) → lacks b'{' a ≡ true → replace_prev r zero (a ++ s) ≡ a ++ replace_prev r zero s
unfolding replace_prev starts_with
replace_prev-append r [] s h = refl
replace_prev-append r (c ∷ a) s h = ground (arith, h, replace_prev-append r a s)

replace_prev-token :
    (r s : Text) → replace_prev r zero (prev_token ++ s) ≡ r ++ replace_prev r zero s
unfolding replace_prev starts_with
replace_prev-token r s = refl

replace_prev_plain : (r s : Text) → lacks b'{' s ≡ true → replace_prev r zero s ≡ s
unfolding replace_prev starts_with
replace_prev_plain r [] h = refl
replace_prev_plain r (c ∷ s) h = ground (arith, h, replace_prev_plain r s)

step_reference_plain :
    (c : ℕ) (s : Text) → lacks b'{' (c ∷ s) ≡ true → step_reference (c ∷ s) ≡ none
unfolding step_reference starts_with
step_reference_plain c s h = ground (arith, h)

replace_steps_plain :
    (results : List ChainStepResult) (s : Text)
    → lacks b'{' s ≡ true
    → replace_steps results zero s ≡ some s
unfolding replace_steps
replace_steps_plain results [] h = refl
replace_steps_plain results (c ∷ s) h =
    ground (arith, h, step_reference_plain c s h, replace_steps_plain results s)

-- A template without a brace stands for itself.
pub resolve_string_plain :
    (results : List ChainStepResult) (s : Text)
    → lacks b'{' s ≡ true
    → resolve_string s results ≡ some s
unfolding resolve_string
resolve_string_plain results s h =
    ap (replace_steps results zero) (replace_prev_plain (last_result results) s h)
    ∙ replace_steps_plain results s h

-- In a text around one {{prev.result}} the token becomes the last result, and that result's own
-- text is then searched for references to steps.
pub resolve_string-prev :
    (results : List ChainStepResult) (a b : Text)
    → lacks b'{' a ≡ true
    → lacks b'{' b ≡ true
    → resolve_string (a ++ (prev_token ++ b)) results
      ≡ replace_steps results zero (a ++ (last_result results ++ b))
unfolding resolve_string
resolve_string-prev results a b ha hb = ap (replace_steps results zero) (
    replace_prev-append (last_result results) a (prev_token ++ b) ha
    ∙ ap (λ s. a ++ s)
        (replace_prev-token (last_result results) b
          ∙ ap (λ s. last_result results ++ s) (replace_prev_plain (last_result results) b hb)))
