-- ===== src/Providers/Failover.antt =====
-- providers/failover_resolver: which provider and key serve a call. The provider registry is an
-- argument of the operations that call it; one reading of the clock, in nanoseconds, stands for those
-- of a call.
pub mod Chosen
mod Tests
use qwen_claw.Base.{
  ℕ, zero, suc, ◌+◌, ◌/◌, ltb, ◌==◌, Bool, true, false, not, ◌&&◌, List, [], ◌∷◌, ◌++◌, Option,
  none, some, if◌then◌else◌,
}
use qwen_claw.Base.Int.{ℤ, ltb_ℤ}
use qwen_claw.Base.Text.{Text, codes, text_eq, is_empty}
use qwen_claw.Base.Dict.{Dict, find, insert, erase}
use qwen_claw.Providers.ProviderError.{ProviderErrorKind}
use qwen_claw.Providers.Cooldown

pub record AuthProfile : Type 0 where
  pub id : Text
  pub api_key : Text
  pub api_key_env : Text
  pub priority : ℤ

pub record ResolvedProvider (P : Type 0) : Type 0 where
  pub provider : P
  pub provider_id : Text
  pub profile_id : Text
  pub model : Text
  pub is_fallback : Bool

pub record SessionPin : Type 0 where
  pub provider_id : Text
  pub profile_id : Text

-- The calls of `ProviderRegistry`: the provider and the model of a name, and a provider by id, with
-- its own key or a given one.
pub record Registry (P : Type 0) : Type 0 where
  pub resolve_model : Text → Text × Text
  pub get_provider : Text → Option P
  pub get_provider_with_key : Text → Text → Option P

pub record FailoverResolver : Type 0 where
  pub cooldown : Cooldown.Tracker
  pub fallback_chain : List Text
  pub profiles : Dict (List AuthProfile)
  pub profile_last_used : Dict ℕ
  pub session_pins : Dict SessionPin

pub set_fallback_chain : List Text → FailoverResolver → FailoverResolver
set_fallback_chain models f = record f { fallback_chain = models }

pub set_profiles : Text → List AuthProfile → FailoverResolver → FailoverResolver
set_profiles provider_id profiles f = record f {
  profiles = insert provider_id profiles (f.profiles);
}

unfoldable pub cooldown_key : Text → Text → Text
cooldown_key provider_id profile_id =
    if is_empty profile_id then provider_id else provider_id ++ codes ":" ++ profile_id

-- The clock in milliseconds.
abbrev pub milliseconds : ℕ → ℕ
milliseconds now = now / 1000000

pub record_success : Text → Text → Text → ℕ → FailoverResolver → FailoverResolver
record_success provider_id profile_id session_key now f =
    let key = cooldown_key provider_id profile_id in
    record f {
      cooldown = Cooldown.record_success key (f.cooldown);
      profile_last_used = insert key (milliseconds now) (f.profile_last_used);
      session_pins =
          if is_empty session_key
          then f.session_pins
          else insert session_key (record { provider_id = provider_id; profile_id = profile_id })
              (f.session_pins);
    }

pub record_failure : Text → Text → ProviderErrorKind → ℤ → ℕ → FailoverResolver → FailoverResolver
record_failure provider_id profile_id kind retry_after now f = record f {
  cooldown =
      Cooldown.record_failure (cooldown_key provider_id profile_id) kind retry_after now
        (f.cooldown);
}

pub clear_session_pin : Text → FailoverResolver → FailoverResolver
clear_session_pin session_key f = record f { session_pins = erase session_key (f.session_pins) }

-- `Candidate`, without the flag that its list already gives.
pub record Candidate : Type 0 where
  pub profile : AuthProfile
  pub last_used : ℕ
  pub index : ℕ

-- The comparison of the sort.
pub is_before : Candidate → Candidate → Bool
is_before a b =
    if ltb_ℤ (a.profile.priority) (b.profile.priority)
    then true
    else if ltb_ℤ (b.profile.priority) (a.profile.priority)
    then false
    else if not (a.last_used == b.last_used)
    then ltb (a.last_used) (b.last_used)
    else ltb (a.index) (b.index)

-- `std::sort`: the comparison is a strict total order on distinct indices, so the order is its only one.
pub insert_sorted : Candidate → List Candidate → List Candidate
insert_sorted c [] = c ∷ []
insert_sorted c (d ∷ ds) = if is_before c d then c ∷ d ∷ ds else d ∷ insert_sorted c ds

pub sort : List Candidate → List Candidate
sort [] = []
sort (c ∷ cs) = insert_sorted c (sort cs)

abbrev pub last_used_of : Text → Dict ℕ → ℕ
last_used_of key times = elim (find key times) [ none ↦ 0 | some t ↦ t ]

-- The loop over the profiles, once for each of the lists that it fills: with the profiles in
-- cooldown, or with the others.
pub candidates : Bool → Text → ℕ → ℕ → FailoverResolver → List AuthProfile → List Candidate
candidates cooled provider_id now index f [] = []
candidates cooled provider_id now index f (profile ∷ profiles) =
    let key = cooldown_key provider_id (profile.id) in
    let last_used = last_used_of key (f.profile_last_used) in
    let rest = candidates cooled provider_id now (suc index) f profiles in
    elim (Cooldown.is_in_cooldown key now (f.cooldown)) [
      | true ↦
          if cooled
          then record { profile = profile; last_used = last_used; index = index } ∷ rest
          else rest
      | false ↦
          if cooled
          then rest
          else record { profile = profile; last_used = last_used; index = index } ∷ rest
    ]

module _ {P : Type 0} (registry : Registry P) where
  -- The loop over the profiles of a pinned provider.
  pub pinned_provider : Text → Text → List AuthProfile → Option P
  pinned_provider provider_id profile_id [] = none
  pinned_provider provider_id profile_id (profile ∷ profiles) =
      let rest = pinned_provider provider_id profile_id profiles in
      if text_eq (profile.id) profile_id
      then elim (registry.get_provider_with_key provider_id (profile.api_key)) [
        | some provider ↦ some provider
        | none ↦ rest
      ]
      else rest

  -- The provider of the pin, if its profile is not in cooldown and the registry has it.
  pub pin_choice : Text → Text → ℕ → FailoverResolver → Option P
  pin_choice provider_id profile_id now f =
      if Cooldown.is_in_cooldown (cooldown_key provider_id profile_id) now (f.cooldown)
      then none
      else elim (find provider_id (f.profiles)) [
        | none ↦ none
        | some profiles ↦ pinned_provider provider_id profile_id profiles
      ]

  -- The first candidate that the registry has a provider for.
  pub first_served : Text → List Candidate → Option (P × Candidate)
  first_served provider_id [] = none
  first_served provider_id (c ∷ cs) =
      let rest = first_served provider_id cs in
      elim (registry.get_provider_with_key provider_id (c.profile.api_key)) [
        | some provider ↦ some (provider, c)
        | none ↦ rest
      ]

  -- A probe of a key in cooldown, with the call that then looks for the provider.
  pub probe :
      Text
      → Text
      → Text
      → Option P
      → ℕ
      → FailoverResolver
      → Option (ResolvedProvider P) × FailoverResolver
  probe provider_id profile_id model found now f =
      let (tracker, granted) =
        Cooldown.try_probe (cooldown_key provider_id profile_id) now (f.cooldown) in
      let probed = record f { cooldown = tracker } in
      if granted
      then elim found [
        | none ↦ (none, probed)
        | some provider ↦ (
          some (record {
            provider = provider;
            provider_id = provider_id;
            profile_id = profile_id;
            model = model;
            is_fallback = false;
          }),
          probed,
        )
      ]
      else (none, probed)

  -- A probe of the first profile in cooldown.
  pub probe_first :
      Text
      → Text
      → List Candidate
      → ℕ
      → FailoverResolver
      → Option (ResolvedProvider P) × FailoverResolver
  probe_first provider_id model [] now f = (none, f)
  probe_first provider_id model (c ∷ cs) now f =
      probe provider_id (c.profile.id) model
        (registry.get_provider_with_key provider_id (c.profile.api_key)) now f

  -- The profiles that are not in cooldown, in their order; then a probe of the first of the others.
  pub by_profiles :
      Text
      → Text
      → List AuthProfile
      → ℕ
      → FailoverResolver
      → Option (ResolvedProvider P) × FailoverResolver
  by_profiles provider_id model profiles now f =
      elim (first_served provider_id (sort (candidates false provider_id now 0 f profiles))) [
        | some (provider, c) ↦ (
          some (record {
            provider = provider;
            provider_id = provider_id;
            profile_id = c.profile.id;
            model = model;
            is_fallback = false;
          }),
          record f {
            profile_last_used =
                insert (cooldown_key provider_id (c.profile.id)) (milliseconds now)
                  (f.profile_last_used);
          },
        )
        | none ↦ probe_first provider_id model (candidates true provider_id now 0 f profiles) now f
      ]

  -- A provider without profiles has one key, its own.
  pub without_profiles :
      Text → Text → ℕ → FailoverResolver → Option (ResolvedProvider P) × FailoverResolver
  without_profiles provider_id model now f =
      if Cooldown.is_in_cooldown (cooldown_key provider_id []) now (f.cooldown)
      then probe provider_id [] model (registry.get_provider provider_id) now f
      else elim (registry.get_provider provider_id) [
        | none ↦ (none, f)
        | some provider ↦ (
          some (record {
            provider = provider;
            provider_id = provider_id;
            profile_id = [];
            model = model;
            is_fallback = false;
          }),
          f,
        )
      ]

  pub unpinned : Text → Text → ℕ → FailoverResolver → Option (ResolvedProvider P) × FailoverResolver
  unpinned provider_id model now f = elim (find provider_id (f.profiles)) [
    | none ↦ without_profiles provider_id model now f
    | some profiles ↦
        if is_empty profiles
        then without_profiles provider_id model now f
        else by_profiles provider_id model profiles now f
  ]

  -- A pin to the provider: it is taken, or it is erased and the profiles are tried.
  pub from_pin :
      SessionPin
      → Text
      → Text
      → Text
      → ℕ
      → FailoverResolver
      → Option (ResolvedProvider P) × FailoverResolver
  from_pin pin session_key provider_id model now f =
      elim (pin_choice provider_id (pin.profile_id) now f) [
        | some provider ↦ (
          some (record {
            provider = provider;
            provider_id = provider_id;
            profile_id = pin.profile_id;
            model = model;
            is_fallback = false;
          }),
          f,
        )
        | none ↦
            unpinned provider_id model now
              (record f { session_pins = erase session_key (f.session_pins) })
      ]

  pub try_resolve_model :
      Text → Text → ℕ → FailoverResolver → Option (ResolvedProvider P) × FailoverResolver
  try_resolve_model name session_key now f =
      let (provider_id, model) = registry.resolve_model name in
      if is_empty session_key
      then unpinned provider_id model now f
      else elim (find session_key (f.session_pins)) [
        | none ↦ unpinned provider_id model now f
        | some pin ↦
            if text_eq (pin.provider_id) provider_id
            then from_pin pin session_key provider_id model now f
            else unpinned provider_id model now f
      ]

  -- The loop over the fallback models.
  pub try_fallbacks :
      Text
      → Text
      → List Text
      → ℕ
      → FailoverResolver
      → Option (ResolvedProvider P) × FailoverResolver
  try_fallbacks model session_key [] now f = (none, f)
  try_fallbacks model session_key (fallback ∷ chain) now f =
      let skipped = try_fallbacks model session_key chain now f in
      let tried = try_resolve_model fallback session_key now f in
      let failed = try_fallbacks model session_key chain now (tried.1) in
      if text_eq fallback model then skipped else elim (tried.0) [
        | some result ↦ (some (record result { is_fallback = true }), tried.1)
        | none ↦ failed
      ]

  pub resolve : Text → Text → ℕ → FailoverResolver → Option (ResolvedProvider P) × FailoverResolver
  resolve model session_key now f =
      let tried = try_resolve_model model session_key now f in
      elim (tried.0) [
        | some result ↦ (some result, tried.1)
        | none ↦ try_fallbacks model session_key (tried.1.fallback_chain) now (tried.1)
      ]
