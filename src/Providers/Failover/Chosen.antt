-- ===== src/Providers/Failover/Chosen.antt =====
-- What a resolution may choose.
use qwen_claw.Base.{
  ℕ, suc, ◌≡◌, ◌⊎◌, subst, inl, inr, true, false, List, [], ◌∷◌, Option, none, some, Option-cases,
  arith, All,
}
use qwen_claw.Base.Text.{Text}
use qwen_claw.Base.Dict.{find, erase}
use qwen_claw.Providers.Cooldown
use qwen_claw.Providers.Failover.{
  AuthProfile, ResolvedProvider, SessionPin, Registry, FailoverResolver, Candidate, cooldown_key,
  insert_sorted, sort, candidates, pin_choice, first_served, probe, probe_first, by_profiles,
  without_profiles, unpinned, from_pin, try_resolve_model,
}

-- A key that a call may use: one that is not in cooldown, or whose probe is granted.
abbrev pub MayUse : Text → ℕ → FailoverResolver → Type 0
MayUse key now f =
    (Cooldown.is_in_cooldown key now (f.cooldown) ≡ false)
    ⊎ ((Cooldown.try_probe key now (f.cooldown)).1 ≡ true)

abbrev Rested : Text → ℕ → FailoverResolver → Candidate → Type 0
Rested provider_id now f c =
    Cooldown.is_in_cooldown (cooldown_key provider_id (c.profile.id)) now (f.cooldown) ≡ false

candidates-Rested :
    (provider_id : Text) (now index : ℕ) (f : FailoverResolver) (profiles : List AuthProfile)
    → All (Rested provider_id now f) (candidates false provider_id now index f profiles)
unfolding candidates
candidates-Rested provider_id now index f [] = tt
candidates-Rested provider_id now index f (profile ∷ profiles) =
    ground (arith, candidates-Rested provider_id now (suc index) f profiles)

insert_sorted-All :
    (Q : Candidate → Type 0) (c : Candidate) (cs : List Candidate)
    → Q c
    → All Q cs
    → All Q (insert_sorted c cs)
unfolding insert_sorted
insert_sorted-All Q c [] h hs = (h, tt)
insert_sorted-All Q c (d ∷ ds) h hs = ground (arith, h, hs, insert_sorted-All Q c ds h hs.1)

sort-All : (Q : Candidate → Type 0) (cs : List Candidate) → All Q cs → All Q (sort cs)
unfolding sort
sort-All Q [] hs = tt
sort-All Q (c ∷ cs) hs = insert_sorted-All Q c (sort cs) (hs.0) (sort-All Q cs hs.1)

abbrev Served : {P : Type 0} → (Candidate → Type 0) → Option (P × Candidate) → Type 0
Served Q none = Unit
Served Q (some (p, c)) = Q c

-- A result is on a key that the call may use.
abbrev Allowed : {P : Type 0} → ℕ → FailoverResolver → Option (ResolvedProvider P) → Type 0
Allowed now f none = Unit
Allowed now f (some r) = MayUse (cooldown_key (r.provider_id) (r.profile_id)) now f

module _ {P : Type 0} (registry : Registry P) where
  first_served-All :
      (Q : Candidate → Type 0) (provider_id : Text) (cs : List Candidate)
      → All Q cs
      → Served Q (first_served registry provider_id cs)
  unfolding first_served
  first_served-All Q provider_id [] hs = tt
  first_served-All Q provider_id (d ∷ ds) hs =
      ground (arith, hs.0, first_served-All Q provider_id ds hs.1)

  probe-Allowed :
      (provider_id profile_id model : Text) (found : Option P) (now : ℕ) (f : FailoverResolver)
      → Allowed now f ((probe registry provider_id profile_id model found now f).0)
  unfolding probe
  probe-Allowed provider_id profile_id model found now f = ground arith

  probe_first-Allowed :
      (provider_id model : Text) (cs : List Candidate) (now : ℕ) (f : FailoverResolver)
      → Allowed now f ((probe_first registry provider_id model cs now f).0)
  unfolding probe_first
  probe_first-Allowed provider_id model [] now f = tt
  probe_first-Allowed provider_id model (c ∷ cs) now f =
      probe-Allowed provider_id (c.profile.id) model _ now f

  by_profiles-Allowed :
      (provider_id model : Text) (profiles : List AuthProfile) (now : ℕ) (f : FailoverResolver)
      → Allowed now f ((by_profiles registry provider_id model profiles now f).0)
  unfolding by_profiles
  by_profiles-Allowed provider_id model profiles now f =
      let free = candidates false provider_id now 0 f profiles in
      ground (
        arith,
        first_served-All (Rested provider_id now f) provider_id (sort free) (
            sort-All (Rested provider_id now f) free
              (candidates-Rested provider_id now 0 f profiles)),
        probe_first-Allowed provider_id model (candidates true provider_id now 0 f profiles) now f,
      )

  without_profiles-Allowed :
      (provider_id model : Text) (now : ℕ) (f : FailoverResolver)
      → Allowed now f ((without_profiles registry provider_id model now f).0)
  unfolding without_profiles
  without_profiles-Allowed provider_id model now f =
      ground (arith, probe-Allowed provider_id [] model (registry.get_provider provider_id) now f)

  unpinned-Allowed :
      (provider_id model : Text) (now : ℕ) (f : FailoverResolver)
      → Allowed now f ((unpinned registry provider_id model now f).0)
  unfolding unpinned
  unpinned-Allowed provider_id model now f = elim (Option-cases (find provider_id (f.profiles))) [
    | inl missing ↦ ground (arith, missing, without_profiles-Allowed provider_id model now f)
    | inr (profiles, found) ↦ ground (
      arith,
      found,
      without_profiles-Allowed provider_id model now f,
      by_profiles-Allowed provider_id model profiles now f,
    )
  ]

  unpinned-erased :
      (session_key provider_id model : Text) (now : ℕ) (f : FailoverResolver)
      → Allowed now f (
          (unpinned registry provider_id model now
            (record f { session_pins = erase session_key (f.session_pins) })).0)
  unpinned-erased session_key provider_id model now f =
      unpinned-Allowed provider_id model now
        (record f { session_pins = erase session_key (f.session_pins) })

  pin_choice-rested :
      (provider_id profile_id : Text) (now : ℕ) (f : FailoverResolver) (p : P)
      → pin_choice registry provider_id profile_id now f ≡ some p
      → Cooldown.is_in_cooldown (cooldown_key provider_id profile_id) now (f.cooldown) ≡ false
  unfolding pin_choice
  pin_choice-rested provider_id profile_id now f p h = ground (arith, h)

  from_pin-Allowed :
      (pin : SessionPin) (session_key provider_id model : Text) (now : ℕ) (f : FailoverResolver)
      → Allowed now f ((from_pin registry pin session_key provider_id model now f).0)
  unfolding from_pin
  from_pin-Allowed pin session_key provider_id model now f =
      elim (Option-cases (pin_choice registry provider_id (pin.profile_id) now f)) [
        | inl refused ↦ ground (arith, refused, unpinned-erased session_key provider_id model now f)
        | inr (p, taken) ↦
            ground (arith, taken, pin_choice-rested provider_id (pin.profile_id) now f p taken)
      ]

  try_resolve_model-Allowed :
      (name session_key : Text) (now : ℕ) (f : FailoverResolver)
      → Allowed now f ((try_resolve_model registry name session_key now f).0)
  unfolding try_resolve_model
  try_resolve_model-Allowed name session_key now f =
      let (provider_id, model) = registry.resolve_model name in
      elim (Option-cases (find session_key (f.session_pins))) [
        | inl missing ↦ ground (arith, missing, unpinned-Allowed provider_id model now f)
        | inr (pin, found) ↦ ground (
          arith,
          found,
          unpinned-Allowed provider_id model now f,
          from_pin-Allowed pin session_key provider_id model now f,
        )
      ]

  -- What is chosen for a model is on a profile that is not in cooldown, or on one whose probe the
  -- cooldown tracker grants.
  pub try_resolve_model-MayUse :
      (name session_key : Text) (now : ℕ) (f : FailoverResolver) (r : ResolvedProvider P)
      → (try_resolve_model registry name session_key now f).0 ≡ some r
      → MayUse (cooldown_key (r.provider_id) (r.profile_id)) now f
  try_resolve_model-MayUse name session_key now f r h =
      subst (Allowed now f) h (try_resolve_model-Allowed name session_key now f)
