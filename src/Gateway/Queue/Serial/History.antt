-- ===== src/Gateway/Queue/Serial/History.antt =====
-- The dispatcher and the workers keep one worker per session, and so does every history in which
-- nobody interrupts or aborts.
use qwen_claw.Base.{
  ℕ, suc, ◌+◌, ◌≤◌, ◌≡◌, refl, sym, ap, ◌∙◌, true, false, List, [], ◌∷◌, ◌++◌, Option, none, some,
  Option-cases, inl, inr, arith, All, if◌then◌else◌,
}
use qwen_claw.Base.Text.{Text, text_eq, text_eq_refl}
use qwen_claw.Base.Dict.{Dict, find, insert}
use qwen_claw.Gateway.Lane.{
  SessionLane, QueuedCommand, is_idle, complete_active, drain_pending_as_steering_text, active,
}
use qwen_claw.Gateway.Lane.Serial.{try_activate-cases}
use qwen_claw.Gateway.Lane.Owned.{Owned, KeepsLane}
use qwen_claw.Gateway.Queue.{
  CommandQueue, QueueConfig, Outcome, empty_queue, is_interrupt, set_config, collected,
  dispatch_lane, dispatch_round, take_worker, begin, finish,
}
use qwen_claw.Gateway.Queue.Serial.{
  flights, LaneFits, Fits, AllFit, IsSerial, AllFit-insert, AllFit-erase, submit-IsSerial,
  cancel-IsSerial, configure_session-IsSerial,
}
use qwen_claw.Gateway.Queue.Rounds.{dispatch_keys_rule, sweep_rule}
use qwen_claw.Gateway.Queue.Calls.{
  Call, submits, cancels, aborts, configures, sets, dispatches, begins, finishes, step, run,
  run_rule,
}

module _ {J : Type 0} where
  flights-append :
      (k : Text) (ws : List (QueuedCommand J)) (c : QueuedCommand J)
      → flights k (ws ++ c ∷ []) ≡ flights k ws + (if text_eq c.session_key k then 1 else 0)
  flights-append k [] c = ground arith
  flights-append k (w ∷ ws) c = ground (arith, flights-append k ws c)

  take_worker-flights :
      (k id : Text) (ws : List (QueuedCommand J)) (c : QueuedCommand J)
      (left : List (QueuedCommand J))
      → take_worker id ws ≡ some (c, left)
      → flights k ws ≡ flights k left + (if text_eq c.session_key k then 1 else 0)
  unfolding take_worker
  take_worker-flights k id [] c left e = cc
  take_worker-flights k id (d ∷ ws) c left e = elim (Option-cases (take_worker id ws)) [
    | inl missing ↦ ground arith
    | inr ((f, rest), found) ↦ ground (arith, take_worker-flights k id ws f rest found)
  ]

  own_flight :
      (key : Text) (ws : List (QueuedCommand J)) (c : QueuedCommand J)
      → c.session_key ≡ key
      → flights key (ws ++ c ∷ []) ≡ suc (flights key ws)
  own_flight key ws c e = ground (arith, flights-append key ws c, text_eq_refl key)

  other_flight :
      (key k : Text) (ws : List (QueuedCommand J)) (c : QueuedCommand J)
      → c.session_key ≡ key
      → text_eq key k ≡ false
      → flights k (ws ++ c ∷ []) ≡ flights k ws
  other_flight key k ws c e other = flights-append k ws c ∙ rw (e, other) (omega arith)

  Fits-le :
      (key : Text) (ws : List (QueuedCommand J)) (o : Option (SessionLane J))
      → Fits key ws o
      → flights key ws ≤ 1
  Fits-le key ws none h = omega (arith, h)
  Fits-le key ws (some lane) h = ground (arith, h.flag)

  own_taken :
      (id : Text) (ws : List (QueuedCommand J)) (cmd : QueuedCommand J)
      (left : List (QueuedCommand J))
      → take_worker id ws ≡ some (cmd, left)
      → flights cmd.session_key ws ≡ suc (flights cmd.session_key left)
  own_taken id ws cmd left taken =
      take_worker-flights cmd.session_key id ws cmd left taken
      ∙ rw (text_eq_refl cmd.session_key) (omega arith)

  freed :
      (key : Text) (ws left : List (QueuedCommand J)) (lane : SessionLane J)
      → flights key ws ≡ suc (flights key left)
      → LaneFits key ws lane
      → LaneFits key left (complete_active lane).0
  unfolding complete_active
  freed key ws left lane e h = ground (arith, h.flag, h.owned, h.calm)

  idle_flights :
      (key : Text) (ws : List (QueuedCommand J)) (lane : SessionLane J)
      → is_idle lane ≡ true
      → LaneFits key ws lane
      → flights key ws ≡ 0
  idle_flights key ws lane idle h = ground (arith, h.flag)

  -- The end of a command frees its lane.
  finish_fits :
      (ws left : List (QueuedCommand J)) (lanes : Dict (SessionLane J)) (id : Text)
      (cmd : QueuedCommand J) (lane : SessionLane J)
      → take_worker id ws ≡ some (cmd, left)
      → AllFit ws lanes
      → LaneFits cmd.session_key ws lane
      → AllFit left (insert cmd.session_key (complete_active lane).0 lanes)
  finish_fits ws left lanes id cmd lane taken all h =
      AllFit-insert ws left lanes cmd.session_key (complete_active lane).0
        (λ k other. sym (take_worker-flights k id ws cmd left taken ∙ rw other (omega arith))) all
        (freed cmd.session_key ws left lane (own_taken id ws cmd left taken) h)

module _ {J : Type 0} (set_collected : Text → J → J) where
  collected-KeepsLane :
      (key : Text) (cmd : QueuedCommand J) (lane : SessionLane J)
      → KeepsLane key lane (collected set_collected cmd lane).1
  unfolding collected drain_pending_as_steering_text
  collected-KeepsLane key cmd lane = ground arith

  collected-session :
      (cmd : QueuedCommand J) (lane : SessionLane J)
      → (collected set_collected cmd lane).0.session_key ≡ cmd.session_key
  unfolding collected drain_pending_as_steering_text
  collected-session cmd lane = ground arith

  -- A worker that takes up the oldest command of a free lane.
  taken_up :
      (key : Text) (lane : SessionLane J) (front : QueuedCommand J) (rest : List (QueuedCommand J))
      (ws : List (QueuedCommand J)) (lanes : Dict (SessionLane J))
      → lane.pending ≡ front ∷ rest
      → lane.active_command ≡ none
      → AllFit ws lanes
      → LaneFits key ws lane
      → let c = record front { state = active } in
        let r =
          collected set_collected c (record lane { pending = rest; active_command = some c }) in
        AllFit (ws ++ r.0 ∷ []) (insert key r.1 lanes)
  taken_up key lane front rest ws lanes e free all h =
      let c = record front { state = active } in
      let busy = record lane { pending = rest; active_command = some c } in
      let r = collected set_collected c busy in
      let k = collected-KeepsLane key c busy in
      let owned : Owned key (front ∷ rest) = rw e at h.owned in
      let session : r.0.session_key ≡ key = collected-session c busy ∙ owned.0 in
      AllFit-insert ws (ws ++ r.0 ∷ []) lanes key r.1
        (λ j other. other_flight key j ws r.0 session other) all
        (record {
          flag = own_flight key ws r.0 session ∙ rw (k.active, h.flag, free);
          owned = k.owned owned.1;
          calm = ap is_interrupt k.mode ∙ h.calm;
        })

  dispatch_lane-IsSerial :
      (now : ℕ) (key : Text) (lane : SessionLane J) (q : CommandQueue J)
      → find key q.lanes ≡ some lane
      → lane.active_command ≡ none
      → IsSerial q
      → IsSerial (dispatch_lane set_collected now key lane q)
  unfolding dispatch_lane
  dispatch_lane-IsSerial now key lane q found free s =
      let fits : LaneFits key q.workers lane = rw found at (s.fits key) in
      elim (try_activate-cases now lane free) [
        | inl waits ↦
            rw (waits, dispatch_lane)
              (record {
                calm = s.calm;
                fits =
                    rw waits (
                      AllFit-insert q.workers q.workers q.lanes key lane (λ k _. refl) s.fits fits);
              })
        | inr (front, rest, e, starts) ↦
            rw (starts, dispatch_lane)
              (record {
                calm = s.calm;
                fits =
                    rw starts (taken_up key lane front rest q.workers q.lanes e free s.fits fits);
              })
      ]

  dispatch_round-IsSerial :
      (now : ℕ) (q : CommandQueue J) → IsSerial q → IsSerial (dispatch_round set_collected now q)
  unfolding dispatch_round
  dispatch_round-IsSerial now q s =
      let d =
        dispatch_keys_rule set_collected now IsSerial
          (λ key lane p found free _ h. dispatch_lane-IsSerial now key lane p found free h) _ q s in
      record {
        calm = d.calm;
        fits =
            sweep_rule (AllFit _)
              (λ key lane lanes found idle h.
                AllFit-erase _ lanes key (idle_flights key _ lane idle (rw found at (h key))) h)
              _ _ d.fits;
      }

  begin-IsSerial :
      (id : Text) (q : CommandQueue J) → IsSerial q → IsSerial (step set_collected q (begins id))
  unfolding step begin
  begin-IsSerial id q s = elim (Option-cases (take_worker id q.workers)) [
    | inl missing ↦ rw (missing, step) s
    | inr ((cmd, left), taken) ↦ rw (taken, step) (record { calm = s.calm; fits = s.fits })
  ]

  finish-IsSerial :
      (id : Text) (outcome : Outcome J) (q : CommandQueue J)
      → IsSerial q
      → IsSerial (step set_collected q (finishes id outcome))
  unfolding step finish
  finish-IsSerial id outcome q s = elim (Option-cases (take_worker id q.workers)) [
    | inl missing ↦ rw (missing, step) s
    | inr ((cmd, left), taken) ↦ elim (Option-cases (find cmd.session_key q.lanes)) [
      | inl unknown ↦ absurd (
          omega
            (arith, rw unknown at (s.fits cmd.session_key), own_taken id q.workers cmd left taken))
      | inr (lane, found) ↦
          rw (taken, step)
            (record {
              calm = s.calm;
              fits =
                  rw (found, finish)
                    (finish_fits q.workers left q.lanes id cmd lane taken s.fits
                      (rw found at (s.fits cmd.session_key)));
            })
    ]
  ]

  -- Calls that interrupt nothing.
  abbrev pub LetsRun : Call J → Type 0
  LetsRun (submits cmd) = is_interrupt cmd.mode ≡ false
  LetsRun (aborts key) = ⊥
  LetsRun (configures key mode debounce_ms cap name) = is_interrupt mode ≡ false
  LetsRun (sets config) = is_interrupt config.default_mode ≡ false
  LetsRun call = Unit

  step-IsSerial :
      (q : CommandQueue J) (call : Call J)
      → LetsRun call
      → IsSerial q
      → IsSerial (step set_collected q call)
  unfolding step set_config
  step-IsSerial q (submits cmd) calm s = submit-IsSerial cmd q calm s
  step-IsSerial q (cancels id) _ s = cancel-IsSerial id q s
  step-IsSerial q (aborts key) never s = absurd never
  step-IsSerial q (configures key mode debounce_ms cap name) calm s =
      configure_session-IsSerial key mode debounce_ms cap name q calm s
  step-IsSerial q (sets config) calm s = record { calm = calm; fits = s.fits }
  step-IsSerial q (dispatches now) _ s = dispatch_round-IsSerial now q s
  step-IsSerial q (begins id) _ s = begin-IsSerial id q s
  step-IsSerial q (finishes id outcome) _ s = finish-IsSerial id outcome q s

  -- In every history that starts with an empty queue, in which no mode given to a command, a session
  -- or the configuration is `interrupt` and no session is aborted, at most one worker at a time runs
  -- a command of any one session, whatever the dispatcher, the workers and the other clients do.
  pub run-one_worker :
      (config : QueueConfig) (calls : List (Call J)) (key : Text)
      → is_interrupt config.default_mode ≡ false
      → All LetsRun calls
      → flights key (run set_collected (empty_queue config) calls).workers ≤ 1
  unfolding empty_queue find
  run-one_worker config calls key calm h =
      let s =
        run_rule set_collected IsSerial LetsRun step-IsSerial (empty_queue config) calls h
          (record { calm = calm; fits = λ k. refl }) in
      Fits-le key _ _ (s.fits key)
