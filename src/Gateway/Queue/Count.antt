-- ===== src/Gateway/Queue/Count.antt =====
-- The worker count of `CommandQueue` and its limit.
use qwen_claw.Base.{
  ℕ, suc, ◌≤◌, ◌≡◌, refl, ap, ◌∙◌, true, List, [], ◌∷◌, some, Option-cases, inl, inr, arith, All,
  length, length-append, max,
}
use qwen_claw.Base.Int.{ℤ, pos_part, pos, ltb_ℤ}
use qwen_claw.Base.Text.{Text}
use qwen_claw.Gateway.Lane.{QueueMode, QueuedCommand, SessionLane, try_activate}
use qwen_claw.Gateway.Queue.{
  CommandQueue, QueueConfig, Outcome, empty_queue, submit, settle_overflow, cancel, abort_session,
  configure_session, set_config, dispatch_lane, dispatch_round, take_worker, begin, finish,
}
use qwen_claw.Gateway.Queue.Rounds.{dispatch_keys_rule}
use qwen_claw.Gateway.Queue.Calls.{
  Call, submits, cancels, aborts, configures, sets, dispatches, begins, finishes, step, run,
  run_rule,
}

All-Unit {ℓ} : {A : Type ℓ} (xs : List A) → All (λ _. Unit {0}) xs
All-Unit [] = tt
All-Unit (x ∷ xs) = (tt, All-Unit xs)

module _ {J : Type 0} where
  abbrev pub Counted : CommandQueue J → Type 0
  Counted q = q.active_count ≡ length q.workers

  -- `q'` has the workers, the count and the settings of `q`.
  pub record SameWork (q q' : CommandQueue J) : Type 0 where
    pub count : q'.active_count ≡ q.active_count
    pub workers : q'.workers ≡ q.workers
    pub config : q'.config ≡ q.config

  settle_overflow-SameWork :
      (key conn : Text) (lane : SessionLane J) (q : CommandQueue J)
      → SameWork q (settle_overflow key conn lane q)
  unfolding settle_overflow
  settle_overflow-SameWork key conn lane q = ground arith

  pub submit-SameWork : (cmd : QueuedCommand J) (q : CommandQueue J) → SameWork q (submit cmd q)
  unfolding submit settle_overflow
  submit-SameWork cmd q = ground arith

  pub cancel-SameWork : (id : Text) (q : CommandQueue J) → SameWork q (cancel id q).0
  unfolding cancel
  cancel-SameWork id q = ground arith

  pub abort_session-SameWork :
      (key : Text) (q : CommandQueue J) → SameWork q (abort_session key q).0
  unfolding abort_session
  abort_session-SameWork key q = ground arith

  take_worker-length :
      (id : Text) (cs : List (QueuedCommand J)) (c : QueuedCommand J)
      (left : List (QueuedCommand J))
      → take_worker id cs ≡ some (c, left)
      → length cs ≡ suc (length left)
  unfolding take_worker
  take_worker-length id [] c left e = cc
  take_worker-length id (d ∷ cs) c left e = elim (Option-cases (take_worker id cs)) [
    | inl missing ↦ ground arith
    | inr ((f, rest), found) ↦ ground (arith, take_worker-length id cs f rest found)
  ]

  -- What the dispatcher keeps: the count is right, and within the limit once it was.
  pub record Within (limit : ℤ) (before : ℕ) (q : CommandQueue J) : Type 0 where
    pub counted : Counted q
    pub limited : q.active_count ≤ max before (pos_part limit)
    pub config : q.config.max_concurrent ≡ limit

module _ {J : Type 0} (set_collected : Text → J → J) where
  dispatch_lane-Within :
      (limit : ℤ) (before now : ℕ) (key : Text) (lane : SessionLane J) (q : CommandQueue J)
      → ltb_ℤ (pos q.active_count) q.config.max_concurrent ≡ true
      → Within limit before q
      → Within limit before (dispatch_lane set_collected now key lane q)
  unfolding dispatch_lane
  dispatch_lane-Within limit before now key lane q room w =
      elim (Option-cases (try_activate now lane).1) [
        | inl waits ↦
            rw (waits, dispatch_lane)
              (record { counted = w.counted; limited = w.limited; config = w.config })
        | inr (cmd, starts) ↦
            rw (starts, dispatch_lane)
              (record {
                counted = omega (arith, w.counted, length-append {0} q.workers);
                limited = ground (arith, w.limited, w.config);
                config = w.config;
              })
      ]

  pub dispatch_round-Within :
      (now : ℕ) (q : CommandQueue J)
      → Counted q
      → Within q.config.max_concurrent q.active_count (dispatch_round set_collected now q)
  unfolding dispatch_round
  dispatch_round-Within now q c =
      let w =
        dispatch_keys_rule set_collected now (Within q.config.max_concurrent q.active_count)
          (λ key lane p _ _ room h.
            dispatch_lane-Within q.config.max_concurrent q.active_count now key lane p room h)
          _ q (record { counted = c; limited = omega arith; config = refl }) in
      record { counted = w.counted; limited = w.limited; config = w.config }

  finish-Counted :
      (id : Text) (outcome : Outcome J) (q : CommandQueue J)
      → Counted q
      → Counted (step set_collected q (finishes id outcome))
  unfolding step finish
  finish-Counted id outcome q c = elim (Option-cases (take_worker id q.workers)) [
    | inl missing ↦ rw (missing, step) c
    | inr ((cmd, left), found) ↦
        rw (found, step) (omega (arith, c, take_worker-length id q.workers cmd left found))
  ]

  begin-SameWork : (id : Text) (q : CommandQueue J) → SameWork q (step set_collected q (begins id))
  unfolding step begin
  begin-SameWork id q = ground arith

  configure_session-SameWork :
      (key : Text) (mode : QueueMode) (debounce_ms cap : ℤ) (name : Text) (q : CommandQueue J)
      → SameWork q (configure_session key mode debounce_ms cap name q)
  unfolding configure_session
  configure_session-SameWork key mode debounce_ms cap name q = record {
    count = refl;
    workers = refl;
    config = refl;
  }

  same_count : {q q' : CommandQueue J} → SameWork q q' → Counted q → Counted q'
  same_count s c = ground arith

  pub step-Counted :
      (q : CommandQueue J) (call : Call J) → Counted q → Counted (step set_collected q call)
  unfolding step set_config
  step-Counted q (submits cmd) c = same_count (submit-SameWork cmd q) c
  step-Counted q (cancels id) c = same_count (cancel-SameWork id q) c
  step-Counted q (aborts key) c = same_count (abort_session-SameWork key q) c
  step-Counted q (configures key mode debounce_ms cap name) c =
      same_count (configure_session-SameWork key mode debounce_ms cap name q) c
  step-Counted q (sets config) c = c
  step-Counted q (dispatches now) c = (dispatch_round-Within now q c).counted
  step-Counted q (begins id) c = same_count (begin-SameWork id q) c
  step-Counted q (finishes id outcome) c = finish-Counted id outcome q c

  -- At every moment of every history of an initially empty queue, `active_count` is the number of
  -- commands that workers have in hand.
  pub run-Counted :
      (config : QueueConfig) (calls : List (Call J))
      → Counted (run set_collected (empty_queue config) calls)
  unfolding empty_queue
  run-Counted config calls =
      run_rule set_collected Counted (λ _. Unit {0}) (λ q c _. step-Counted q c) _ calls
        (All-Unit calls) refl

  -- A history in which nobody changes the configuration.
  abbrev pub KeepsConfig : Call J → Type 0
  KeepsConfig (sets config) = ⊥
  KeepsConfig call = Unit

  same_Within :
      (limit : ℤ) (q q' : CommandQueue J) → SameWork q q' → Within limit 0 q → Within limit 0 q'
  same_Within limit q q' s w = record {
    counted = same_count s w.counted;
    limited = rw s.count w.limited;
    config = ap (λ c. c.max_concurrent) s.config ∙ w.config;
  }

  finish-Within :
      (limit : ℤ) (q : CommandQueue J) (id : Text) (outcome : Outcome J)
      → Within limit 0 q
      → Within limit 0 (step set_collected q (finishes id outcome))
  unfolding step finish
  finish-Within limit q id outcome w = elim (Option-cases (take_worker id q.workers)) [
    | inl missing ↦ rw (missing, step) w
    | inr ((cmd, left), found) ↦
        rw (found, step)
          (record {
            counted = omega (arith, w.counted, take_worker-length id q.workers cmd left found);
            limited = omega (arith, w.limited);
            config = w.config;
          })
  ]

  step-Within :
      (limit : ℤ) (q : CommandQueue J) (call : Call J)
      → KeepsConfig call
      → Within limit 0 q
      → Within limit 0 (step set_collected q call)
  unfolding step
  step-Within limit q (submits cmd) _ w = same_Within limit _ _ (submit-SameWork cmd q) w
  step-Within limit q (cancels id) _ w = same_Within limit _ _ (cancel-SameWork id q) w
  step-Within limit q (aborts key) _ w = same_Within limit _ _ (abort_session-SameWork key q) w
  step-Within limit q (configures key mode debounce_ms cap name) _ w =
      same_Within limit _ _ (configure_session-SameWork key mode debounce_ms cap name q) w
  step-Within limit q (sets config) h w = absurd h
  step-Within limit q (dispatches now) _ w = ground (arith, dispatch_round-Within now q w.counted)
  step-Within limit q (begins id) _ w = same_Within limit _ _ (begin-SameWork id q) w
  step-Within limit q (finishes id outcome) _ w = finish-Within limit q id outcome w

  -- While the configuration stays as it is, workers never have more than `maxConcurrent` commands in
  -- hand at once (none at all where that is negative), whatever clients, dispatcher and workers do.
  pub run-workers-le :
      (config : QueueConfig) (calls : List (Call J))
      → All KeepsConfig calls
      → length (run set_collected (empty_queue config) calls).workers
        ≤ pos_part config.max_concurrent
  unfolding empty_queue
  run-workers-le config calls h =
      let w =
        run_rule set_collected (Within config.max_concurrent 0) KeepsConfig
          (step-Within config.max_concurrent) (empty_queue config) calls h
          (record { counted = refl; limited = omega arith; config = refl }) in
      omega (arith, w.counted, w.limited)
