-- ===== src/Providers/Failover/Tests.antt =====
-- The theorem on the choice of a provider at a registry with one provider.
use qwen_claw.Base.{ℕ, ◌≡◌, refl, false, some, none, [], ◌∷◌}
use qwen_claw.Base.Int.{pos}
use qwen_claw.Base.Text.{Text, codes, text_eq}
use qwen_claw.Base.Dict.{find}
use qwen_claw.Providers.Cooldown
use qwen_claw.Providers.Failover.{
  AuthProfile, ResolvedProvider, Registry, FailoverResolver, cooldown_key, sort, insert_sorted,
  is_before, candidates, first_served, by_profiles, unpinned, try_resolve_model,
}
use qwen_claw.Providers.Failover.Chosen.{MayUse, try_resolve_model-MayUse}

abbrev registry : Registry Text
registry = record {
  resolve_model = λ name. (codes "p", name);
  get_provider = λ id. none;
  get_provider_with_key = λ id key. some key;
}

abbrev profile : Text → ℕ → AuthProfile
profile id priority = record { id = id; api_key = id; api_key_env = []; priority = pos priority }

abbrev resolver : FailoverResolver
resolver = record {
  cooldown = [];
  fallback_chain = [];
  profiles = (codes "p", profile (codes "backup") 1 ∷ profile (codes "prod") 0 ∷ []) ∷ [];
  profile_last_used = [];
  session_pins = [];
}

abbrev chosen : ResolvedProvider Text
chosen = record {
  provider = codes "prod";
  provider_id = codes "p";
  profile_id = codes "prod";
  model = codes "m";
  is_fallback = false;
}

chosen_first : (try_resolve_model registry (codes "m") [] 5 resolver).0 ≡ some chosen
unfolding try_resolve_model unpinned by_profiles first_served sort insert_sorted is_before
    candidates find text_eq Cooldown.is_in_cooldown
chosen_first = refl

try_resolve_model-MayUse_example : MayUse (cooldown_key (codes "p") (codes "prod")) 5 resolver
try_resolve_model-MayUse_example =
    try_resolve_model-MayUse registry (codes "m") [] 5 resolver chosen chosen_first
