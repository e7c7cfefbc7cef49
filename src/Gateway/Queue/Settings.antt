-- ===== src/Gateway/Queue/Settings.antt =====
-- What the dispatcher's clean-up does to lanes, and to the settings of a session.
use qwen_claw.Base.{
  ℕ, ◌≡◌, refl, ap, ◌∙◌, ◌⊎◌, inl, inr, Bool, true, false, List, [], ◌∷◌, Option, none, some,
  Option-cases, Bool-cases, arith, any_of,
}
use qwen_claw.Base.Int.{ℤ}
use qwen_claw.Base.Text.{Text, text_eq, text_eq_iff, text_eq_refl}
use qwen_claw.Base.Dict.{Dict, find, insert, erase, find-insert, find-erase}
use qwen_claw.Gateway.Lane.{QueueMode, SessionLane, is_idle, try_activate}
use qwen_claw.Gateway.Queue.{
  CommandQueue, sweep, sweep_one, keys_of, get_lane, put_lane, configured_lane, configured,
  collected, configure_session, dispatch_lane, dispatch_keys, dispatch_round,
}
use qwen_claw.Gateway.Queue.Rounds.{dispatch_keys_rule, sweep_rule}

abbrev listed : Text → List Text → Bool
listed key = any_of (λ k. text_eq k key)

module _ {J : Type 0} where
  -- A clean-up only removes lanes.
  sweep-find :
      (key : Text) (keys : List Text) (lanes : Dict (SessionLane J))
      → (find key (sweep keys lanes) ≡ none) ⊎ (find key (sweep keys lanes) ≡ find key lanes)
  sweep-find key keys lanes =
      sweep_rule (λ ls. (find key ls ≡ none) ⊎ (find key ls ≡ find key lanes))
        (λ k lane ls _ _ h. erased k ls h) keys lanes (inr refl)
    where
      erased :
          (k : Text) (ls : Dict (SessionLane J))
          → (find key ls ≡ none) ⊎ (find key ls ≡ find key lanes)
          → (find key (erase k ls) ≡ none) ⊎ (find key (erase k ls) ≡ find key lanes)
      erased k ls h = rw find-erase (ground arith)

  find-listed :
      (key : Text) (lanes : Dict (SessionLane J)) (lane : SessionLane J)
      → find key lanes ≡ some lane
      → listed key (keys_of lanes) ≡ true
  unfolding find
  find-listed key [] lane e = cc
  find-listed key ((k, l) ∷ lanes) lane e = elim (Bool-cases (text_eq k key)) [
    | inl same ↦ rw same
    | inr other ↦ rw other (find-listed key lanes lane (rw (other, find) at e))
  ]

  abbrev InUse : Option (SessionLane J) → Type 0
  InUse none = Unit
  InUse (some lane) = is_idle lane ≡ false

  sweep_one-InUse :
      (key : Text) (lanes : Dict (SessionLane J)) → InUse (find key (sweep_one key lanes))
  unfolding sweep_one
  sweep_one-InUse key lanes = elim (Option-cases (find key lanes)) [
    | inl missing ↦ rw (missing, sweep_one) (rw missing tt)
    | inr (lane, found) ↦ elim (Bool-cases (is_idle lane)) [
      | inl idle ↦ rw (found, sweep_one) (rw idle (rw (find-erase, text_eq_refl key) tt))
      | inr used ↦ rw (found, sweep_one) (rw used (rw found used))
    ]
  ]

  sweep-InUse :
      (key : Text) (keys : List Text) (lanes : Dict (SessionLane J))
      → InUse (find key lanes)
      → InUse (find key (sweep keys lanes))
  sweep-InUse key keys lanes h = elim (sweep-find key keys lanes) [
    | inl gone ↦ rw gone tt
    | inr same ↦ rw same h
  ]

  -- A listed lane is in use once the clean-up has passed.
  sweep-listed-InUse :
      (key : Text) (keys : List Text) (lanes : Dict (SessionLane J))
      → listed key keys ≡ true
      → InUse (find key (sweep keys lanes))
  unfolding sweep
  sweep-listed-InUse key [] lanes l = cc
  sweep-listed-InUse key (k ∷ keys) lanes l = elim (Bool-cases (text_eq k key)) [
    | inr other ↦ sweep-listed-InUse key keys (sweep_one k lanes) (rw other at l)
    | inl same ↦
        sweep-InUse key keys (sweep_one k lanes)
          (rw ((text_eq_iff k key).0 same) (sweep_one-InUse key lanes))
  ]

  sweep_keys-InUse :
      (key : Text) (lanes : Dict (SessionLane J)) → InUse (find key (sweep (keys_of lanes) lanes))
  sweep_keys-InUse key lanes = elim (Option-cases (find key lanes)) [
    | inl missing ↦ sweep-InUse key (keys_of lanes) lanes (rw missing tt)
    | inr (lane, found) ↦
        sweep-listed-InUse key (keys_of lanes) lanes (find-listed key lanes lane found)
  ]

module _ {J : Type 0} (set_collected : Text → J → J) where
  -- After a round of the dispatcher every lane that is left has a command pending or active.
  pub dispatch_round-no_idle :
      (now : ℕ) (q : CommandQueue J) (key : Text) (lane : SessionLane J)
      → find key (dispatch_round set_collected now q).lanes ≡ some lane
      → is_idle lane ≡ false
  unfolding dispatch_round
  dispatch_round-no_idle now q key lane e =
      rw e at (sweep_keys-InUse key (dispatch_keys set_collected now (keys_of q.lanes) q).lanes)

  -- An activation changes one lane.
  dispatch_lane-lanes :
      (now : ℕ) (key : Text) (lane : SessionLane J) (q : CommandQueue J)
      → (lane' : SessionLane J) × ((dispatch_lane set_collected now key lane q).lanes
          ≡ insert key lane' q.lanes)
        × ((dispatch_lane set_collected now key lane q).config ≡ q.config)
  unfolding dispatch_lane
  dispatch_lane-lanes now key lane q = elim (Option-cases (try_activate now lane).1) [
    | inl waits ↦ rw (waits, dispatch_lane) ((try_activate now lane).0, refl, refl)
    | inr (cmd, starts) ↦
        rw (starts, dispatch_lane)
          ((collected set_collected cmd (try_activate now lane).0).1, refl, refl)
  ]

  dispatch_lane-empty :
      (now : ℕ) (key : Text) (lane : SessionLane J) (q : CommandQueue J)
      → lane.pending ≡ []
      → dispatch_lane set_collected now key lane q ≡ put_lane key lane q
  unfolding dispatch_lane try_activate
  dispatch_lane-empty now key lane q empty = ground arith

  -- The dispatcher leaves a lane with nothing pending, and the configuration.
  abbrev Stays : CommandQueue J → Text → SessionLane J → CommandQueue J → Type 0
  Stays q key lane p = (find key p.lanes ≡ some lane) × (p.config ≡ q.config)

  lane-Stays :
      (now : ℕ) (q : CommandQueue J) (key : Text) (lane : SessionLane J)
      → lane.pending ≡ []
      → (k : Text) (l : SessionLane J) (p : CommandQueue J) → find k p.lanes ≡ some l
      → Stays q key lane p
      → Stays q key lane (dispatch_lane set_collected now k l p)
  lane-Stays now q key lane empty k l p found h = elim (Bool-cases (text_eq k key)) [
    | inr other ↦
        let (l', lanes, config) = dispatch_lane-lanes now k l p in
        (rw (lanes, find-insert, other) h.0, config ∙ h.1)
    | inl same ↦
        let here : k ≡ key = (text_eq_iff k key).0 same in
        let it : l ≡ lane = cc (found, here, h.0) in
        rw (dispatch_lane-empty now k l p (rw it empty), find-insert, same) (ap some it, h.1)
  ]

  idle-Stays :
      (now : ℕ) (keys : List Text) (q : CommandQueue J) (key : Text) (lane : SessionLane J)
      → lane.pending ≡ []
      → find key q.lanes ≡ some lane
      → Stays q key lane (dispatch_keys set_collected now keys q)
  idle-Stays now keys q key lane empty e =
      dispatch_keys_rule set_collected now (Stays q key lane)
        (λ k l p found _ _ h. lane-Stays now q key lane empty k l p found h) keys q (e, refl)

  -- A round removes an idle lane.
  idle_removed :
      (now : ℕ) (q : CommandQueue J) (key : Text) (lane : SessionLane J)
      → lane.pending ≡ []
      → lane.active_command ≡ none
      → find key q.lanes ≡ some lane
      → (find key (dispatch_round set_collected now q).lanes ≡ none)
        × ((dispatch_round set_collected now q).config ≡ q.config)
  unfolding dispatch_round
  idle_removed now q key lane empty free e =
      let q' = dispatch_keys set_collected now (keys_of q.lanes) q in
      let (stays, config) = idle-Stays now (keys_of q.lanes) q key lane empty e in
      elim (sweep-find key (keys_of q'.lanes) q'.lanes) [
        | inl gone ↦ (gone, config)
        | inr same ↦
            let used : is_idle lane ≡ false =
              rw (same ∙ stays) at (sweep_keys-InUse key q'.lanes) in
            absurd (ground (arith, used))
      ]

  -- The settings that a client gives to a session with no lane are gone after the dispatcher's next
  -- round: the session has the defaults of the configuration again.
  pub configure_session-forgotten :
      (key : Text) (mode : QueueMode) (debounce_ms cap : ℤ) (name : Text) (now : ℕ)
      (q : CommandQueue J)
      → find key q.lanes ≡ none
      → get_lane key
          (dispatch_round set_collected now (configure_session key mode debounce_ms cap name q))
        ≡ configured_lane q.config key
  unfolding get_lane configure_session
  configure_session-forgotten key mode debounce_ms cap name now q e =
      let q' = configure_session key mode debounce_ms cap name q in
      let lane = configured mode debounce_ms cap name (configured_lane q.config key) in
      let fresh : get_lane key q ≡ configured_lane q.config key = rw (e, get_lane) in
      let put : find key q'.lanes ≡ some lane =
        rw (find-insert, text_eq_refl key)
          (ap (λ l. some (configured mode debounce_ms cap name l)) fresh) in
      let (gone, config) = idle_removed now q' key lane refl refl put in
      rw (gone, get_lane) (ap (λ c. configured_lane c key) config)
