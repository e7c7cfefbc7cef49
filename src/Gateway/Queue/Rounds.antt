-- ===== src/Gateway/Queue/Rounds.antt =====
-- The dispatcher's loops as rules: what every activation keeps, a round keeps.
use qwen_claw.Base.{
  ℕ, ◌≡◌, true, false, List, [], ◌∷◌, none, some, Option-cases, Bool-cases, inl, inr, arith,
}
use qwen_claw.Base.Int.{pos, ltb_ℤ}
use qwen_claw.Base.Text.{Text}
use qwen_claw.Base.Dict.{Dict, find, erase}
use qwen_claw.Gateway.Lane.{SessionLane, has_active, is_idle}
use qwen_claw.Gateway.Queue.{CommandQueue, dispatch_lane, dispatch_keys, sweep, sweep_one}

pub inactive :
    {J : Type 0} (lane : SessionLane J) → has_active lane ≡ false → lane.active_command ≡ none
inactive lane h = ground arith

module _ {J : Type 0} (set_collected : Text → J → J) (now : ℕ) where
  pub dispatch_keys_rule {ℓ} :
      (P : CommandQueue J → Type ℓ)
      → ((key : Text) (lane : SessionLane J) (q : CommandQueue J)
          → find key q.lanes ≡ some lane
          → lane.active_command ≡ none
          → ltb_ℤ (pos q.active_count) q.config.max_concurrent ≡ true
          → P q
          → P (dispatch_lane set_collected now key lane q))
      → (keys : List Text) (q : CommandQueue J) → P q
      → P (dispatch_keys set_collected now keys q)
  unfolding dispatch_keys
  dispatch_keys_rule P activates [] q h = h
  dispatch_keys_rule P activates (key ∷ keys) q h = elim (Option-cases (find key q.lanes)) [
    | inl missing ↦ rw (missing, dispatch_keys) (dispatch_keys_rule P activates keys q h)
    | inr (lane, found) ↦ elim (Bool-cases (has_active lane)) [
      | inl busy ↦ rw (found, dispatch_keys) (rw busy (dispatch_keys_rule P activates keys q h))
      | inr free ↦ elim (Bool-cases (ltb_ℤ (pos q.active_count) q.config.max_concurrent)) [
        | inl room ↦
            rw (found, dispatch_keys)
              (rw free (
                rw room (
                  dispatch_keys_rule P activates keys (dispatch_lane set_collected now key lane q)
                    (activates key lane q found (inactive lane free) room h))))
        | inr full ↦ rw (found, dispatch_keys) (rw free (rw full h))
      ]
    ]
  ]

pub sweep_rule {ℓ} :
    {J : Type 0} (P : Dict (SessionLane J) → Type ℓ)
    → ((key : Text) (lane : SessionLane J) (lanes : Dict (SessionLane J))
        → find key lanes ≡ some lane
        → is_idle lane ≡ true
        → P lanes
        → P (erase key lanes))
    → (keys : List Text) (lanes : Dict (SessionLane J)) → P lanes
    → P (sweep keys lanes)
unfolding sweep sweep_one
sweep_rule P erases [] lanes h = h
sweep_rule P erases (key ∷ keys) lanes h = elim (Option-cases (find key lanes)) [
  | inl missing ↦ sweep_rule P erases keys (sweep_one key lanes) (rw (missing, sweep_one) h)
  | inr (lane, found) ↦ elim (Bool-cases (is_idle lane)) [
    | inl idle ↦
        sweep_rule P erases keys (sweep_one key lanes)
          (rw (found, sweep_one) (rw idle (erases key lane lanes found idle h)))
    | inr used ↦ sweep_rule P erases keys (sweep_one key lanes) (rw (found, sweep_one) (rw used h))
  ]
]
