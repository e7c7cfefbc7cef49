-- ===== src/Providers/Cooldown/Tests.antt =====
-- The theorems on cooldowns at a concrete tracker.
use qwen_claw.Base.{◌≡◌, [], ◌∷◌}
use qwen_claw.Base.Text.{codes}
use qwen_claw.Providers.ProviderError.{rate_limit}
use qwen_claw.Providers.Cooldown.{CooldownState, Tracker, compute_cooldown}
use qwen_claw.Providers.Cooldown.Backoff.{backoff_table, compute_cooldown-pow}

abbrev state : CooldownState
state = record {
  consecutive_failures = 2;
  last_error = rate_limit;
  cooldown_until = 300_000_000_000;
  last_failure_at = 0;
  last_probe_at = 0;
}

abbrev tracker : Tracker
tracker = (codes "a", state) ∷ []

compute_cooldown-pow_example : compute_cooldown rate_limit 3 ≡ backoff_table rate_limit 3
compute_cooldown-pow_example = compute_cooldown-pow rate_limit 3
