-- ===== src/Gateway/Queue/Disturbed.antt =====
-- What an interrupt and an abort do to a session whose command is still running.
use qwen_claw.Base.{
  ℕ, suc, ◌≤◌, ◌≡◌, refl, ap, ◌∙◌, true, false, List, [], ◌∷◌, ◌++◌, none, some, arith,
}
use qwen_claw.Base.Int.{pos, ltb_ℤ}
use qwen_claw.Base.Text.{Text, text_eq_refl}
use qwen_claw.Base.Dict.{Dict, find, insert, erase, find-insert}
use qwen_claw.Gateway.Lane.{
  interrupt, SessionLane, QueuedCommand, has_active, active, pending, try_activate, elapsed_ms,
  enqueue, apply_cap_overflow,
}
use qwen_claw.Gateway.Lane.Overflow.{apply_cap_overflow-fits}
use qwen_claw.Gateway.Lane.Serial.{interrupted, interrupt_active-busy}
use qwen_claw.Gateway.Queue.{
  CommandQueue, submit, abort_session, dispatch_round, dispatch_keys, dispatch_lane, get_lane,
  put_lane, keys_of, collected, settle_overflow,
}

module _ {J : Type 0} where
  settle_overflow-fits :
      (key conn : Text) (lane : SessionLane J) (q : CommandQueue J)
      → apply_cap_overflow lane ≡ (lane, [])
      → settle_overflow key conn lane q ≡ put_lane key lane q
  unfolding settle_overflow
  settle_overflow-fits key conn lane q e = simp e

  -- An interrupt of a busy session, while an earlier message `old` is the last one queued, queues
  -- the new message behind `old`: once the lane is free the dispatcher starts `old`, which the
  -- interrupt was meant to discard. (The cap leaves room for two.)
  pub submit-interrupt_keeps_old :
      (cmd running old : QueuedCommand J) (before : List (QueuedCommand J)) (lane : SessionLane J)
      (room : ℕ) (q : CommandQueue J)
      → cmd.mode ≡ interrupt
      → find cmd.session_key q.lanes ≡ some lane
      → lane.active_command ≡ some running
      → lane.pending ≡ before ++ old ∷ []
      → lane.cap ≡ pos (suc (suc room))
      → find cmd.session_key (submit cmd q).lanes
        ≡ some (record lane {
          active_command = none;
          pending = old ∷ record cmd { state = pending } ∷ [];
        })
  unfolding submit enqueue get_lane
  submit-interrupt_keeps_old cmd running old before lane room q m e a p c =
      let key = cmd.session_key in
      let queued = record (interrupted lane old) {
        pending = old ∷ record cmd { mode = interrupt; state = pending } ∷ [];
      } in
      let g : get_lane key q ≡ lane = rw (e, get_lane) in
      let fits : apply_cap_overflow queued ≡ (queued, []) =
        apply_cap_overflow-fits queued (suc room) c (omega arith) in
      simp (g, m, a, interrupt_active-busy lane running old before a p)
        (ap (λ (r : CommandQueue J). find key r.lanes)
            (settle_overflow-fits key cmd.connection_id queued
              (record q { command_to_session = insert cmd.id key q.command_to_session }) fits)
          ∙ rw (find-insert, text_eq_refl))

module _ {J : Type 0} (set_collected : Text → J → J) where
  only_lane :
      (key : Text) (lane : SessionLane J) (lanes : Dict (SessionLane J))
      → lanes ≡ (key, lane) ∷ []
      → find key lanes ≡ some lane
  unfolding find
  only_lane key lane lanes l = rw (l, find, text_eq_refl)

  put_only :
      (key : Text) (lane lane' : SessionLane J) (lanes : Dict (SessionLane J))
      → lanes ≡ (key, lane) ∷ []
      → insert key lane' lanes ≡ (key, lane') ∷ []
  unfolding insert
  put_only key lane lane' lanes l = rw (l, insert, text_eq_refl)

  abort_session-busy :
      (key : Text) (running last : QueuedCommand J) (before : List (QueuedCommand J))
      (lane : SessionLane J) (q : CommandQueue J)
      → q.lanes ≡ (key, lane) ∷ []
      → lane.active_command ≡ some running
      → lane.pending ≡ before ++ last ∷ []
      → (abort_session key q).0 ≡ record q {
        lanes = (key, interrupted lane last) ∷ [];
        command_to_session = erase running.id q.command_to_session;
      }
  unfolding abort_session
  abort_session-busy key running last before lane q l a p =
      let stopped = interrupt_active-busy lane running last before a p in
      rw (only_lane key lane q.lanes l, abort_session)
        (rw (ap (λ r. r.1) stopped) (
          rw stopped (
            ap
              (λ ls. record q {
                lanes = ls;
                command_to_session = erase running.id q.command_to_session;
              })
              (put_only key lane (interrupted lane last) q.lanes l))))

  activates :
      (now debounce : ℕ) (lane : SessionLane J) (last : QueuedCommand J)
      → lane.debounce_ms ≡ pos debounce
      → debounce ≤ elapsed_ms now last
      → try_activate now (interrupted lane last) ≡ (
        record lane { pending = []; active_command = some (record last { state = active }) },
        some (record last { state = active }),
      )
  unfolding try_activate
  activates now debounce lane last d due = ground arith

  one_key :
      (now : ℕ) (key : Text) (lane : SessionLane J) (q : CommandQueue J)
      → find key q.lanes ≡ some lane
      → lane.active_command ≡ none
      → ltb_ℤ (pos q.active_count) q.config.max_concurrent ≡ true
      → dispatch_keys set_collected now (key ∷ []) q ≡ dispatch_lane set_collected now key lane q
  unfolding dispatch_keys
  one_key now key lane q found a room =
      let free : has_active lane ≡ false = rw a in
      rw (found, dispatch_keys) (rw free (rw room refl))

  nothing_to_collect :
      (cmd : QueuedCommand J) (lane : SessionLane J)
      → lane.pending ≡ []
      → (collected set_collected cmd lane).0 ≡ cmd
  unfolding collected
  nothing_to_collect cmd lane p = ground arith

  dispatch_lane-workers :
      (now : ℕ) (key : Text) (lane lane' : SessionLane J) (cmd : QueuedCommand J)
      (q : CommandQueue J)
      → try_activate now lane ≡ (lane', some cmd)
      → lane'.pending ≡ []
      → (dispatch_lane set_collected now key lane q).workers ≡ q.workers ++ cmd ∷ []
  unfolding dispatch_lane
  dispatch_lane-workers now key lane lane' cmd q t p =
      rw (t, dispatch_lane) (rw t (ap (λ c. q.workers ++ c ∷ []) (nothing_to_collect cmd lane' p)))

  dispatch_one :
      (now : ℕ) (key : Text) (lane lane' : SessionLane J) (cmd : QueuedCommand J)
      (q : CommandQueue J)
      → q.lanes ≡ (key, lane) ∷ []
      → lane.active_command ≡ none
      → ltb_ℤ (pos q.active_count) q.config.max_concurrent ≡ true
      → try_activate now lane ≡ (lane', some cmd)
      → lane'.pending ≡ []
      → (dispatch_round set_collected now q).workers ≡ q.workers ++ cmd ∷ []
  unfolding dispatch_round
  dispatch_one now key lane lane' cmd q l a room t p =
      ap (λ ls. (dispatch_keys set_collected now (keys_of ls) q).workers) l
      ∙ ap (λ r. r.workers) (one_key now key lane q (only_lane key lane q.lanes l) a room)
      ∙ dispatch_lane-workers now key lane lane' cmd q t p

  -- The session's lane is the only one, the worker with its running command the only worker, a slot is
  -- free, and other messages wait, the last of which has waited for the debounce time: an abort of the
  -- session and a dispatcher round after it start a second worker of the session beside the first.
  pub abort_session-overlap :
      (key : Text) (running last : QueuedCommand J) (before : List (QueuedCommand J))
      (lane : SessionLane J) (debounce now : ℕ) (q : CommandQueue J)
      → q.lanes ≡ (key, lane) ∷ []
      → q.workers ≡ running ∷ []
      → ltb_ℤ (pos q.active_count) q.config.max_concurrent ≡ true
      → lane.active_command ≡ some running
      → lane.pending ≡ before ++ last ∷ []
      → lane.debounce_ms ≡ pos debounce
      → debounce ≤ elapsed_ms now last
      → (dispatch_round set_collected now (abort_session key q).0).workers
        ≡ running ∷ record last { state = active } ∷ []
  abort_session-overlap key running last before lane debounce now q l w room a p d due =
      rw (abort_session-busy key running last before lane q l a p) (
        dispatch_one now key (interrupted lane last) _ _ _ refl refl room
          (activates now debounce lane last d due) refl
        ∙ ap (λ ws. ws ++ record last { state = active } ∷ []) w)
