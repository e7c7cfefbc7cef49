-- ===== src/Providers/Cooldown/Backoff.antt =====
-- How the cooldown grows with the failures.
use qwen_claw.Base.{ℕ, zero, suc, ◌*◌, ◌^◌, ◌-◌, ◌≤◌, ◌≡◌, refl, min, arith}
use qwen_claw.Providers.ProviderError.{
  ProviderErrorKind, rate_limit, auth_error, billing_error, transient, model_not_found, timeout,
  context_overflow, unknown,
}
use qwen_claw.Providers.Cooldown.{scale, backoff, compute_cooldown}

-- The multiplier is a power of 5, at most the fourth.
scale-pow : (n : ℕ) → scale 5 1 n 1 ≡ 5 ^ min (n - 1) 4
unfolding scale
scale-pow zero = refl
scale-pow (suc zero) = refl
scale-pow (suc (suc zero)) = refl
scale-pow (suc (suc (suc zero))) = refl
scale-pow (suc (suc (suc (suc zero)))) = refl
scale-pow (suc (suc (suc (suc (suc n))))) =
    let fifth : min (suc (suc (suc (suc (suc n)))) - 1) 4 ≡ 4 = omega arith in
    rw fifth (ground arith)

scale_bounds : (n : ℕ) → (scale 5 1 n 1 ≤ scale 5 1 (suc n) 1) × (scale 5 1 n 1 ≤ 625)
unfolding scale
scale_bounds n = ground arith

-- Each class backs off from its base by a factor of 5 for each failure after the first, four times at
-- most, and never beyond its cap; three classes have a fixed cooldown.
abbrev pub backoff_table : ProviderErrorKind → ℕ → ℕ
backoff_table rate_limit n = min (60 * 5 ^ min (n - 1) 4) 3600
backoff_table auth_error n = 3600
backoff_table billing_error n = min (18000 * 5 ^ min (n - 1) 4) 86400
backoff_table transient n = min (60 * 5 ^ min (n - 1) 4) 3600
backoff_table model_not_found n = 0
backoff_table timeout n = min (30 * 5 ^ min (n - 1) 4) 300
backoff_table context_overflow n = 0
backoff_table unknown n = min (60 * 5 ^ min (n - 1) 4) 600

-- The cooldown after `n` failures in a row is the class's base times the power of 5 of the failures
-- after the first, at most the fourth, cut at the class's cap; authentication errors always wait an
-- hour, unknown models and overflowing contexts not at all.
pub compute_cooldown-pow :
    (kind : ProviderErrorKind) (n : ℕ) → compute_cooldown kind n ≡ backoff_table kind n
unfolding compute_cooldown backoff
compute_cooldown-pow rate_limit n = rw (← scale-pow n)
compute_cooldown-pow auth_error n = refl
compute_cooldown-pow billing_error n = rw (← scale-pow n)
compute_cooldown-pow transient n = rw (← scale-pow n)
compute_cooldown-pow model_not_found n = refl
compute_cooldown-pow timeout n = rw (← scale-pow n)
compute_cooldown-pow context_overflow n = refl
compute_cooldown-pow unknown n = rw (← scale-pow n)

-- Another failure never shortens the cooldown of a class, and no cooldown lasts more than a day.
pub compute_cooldown_mono :
    (kind : ProviderErrorKind) (n : ℕ)
    → (compute_cooldown kind n ≤ compute_cooldown kind (suc n)) × (compute_cooldown kind n ≤ 86400)
unfolding compute_cooldown backoff
compute_cooldown_mono auth_error n = omega arith
compute_cooldown_mono kind n = omega (arith, scale_bounds n)
