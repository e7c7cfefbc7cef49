-- ===== src/Gateway/Queue/Serial.antt =====
-- The invariant behind one worker per session, and the calls of clients that keep it.
pub mod History
use qwen_claw.Base.{
  ℕ, suc, ◌+◌, ◌-◌, ◌≤◌, ◌≡◌, refl, ◌⊎◌, sym, ap, ◌∙◌, subst, Bool, true, false, ◌&&◌, List, [],
  ◌∷◌, ◌++◌, Option, none, some, Option-cases, Bool-cases, inl, inr, arith, All, length,
  if◌then◌else◌,
}
use qwen_claw.Base.Int.{ℤ}
use qwen_claw.Base.Text.{Text, text_eq, text_eq_iff, text_eq_refl}
use qwen_claw.Base.Dict.{Dict, find, insert, erase, find-insert, find-erase}
use qwen_claw.Gateway.Lane.{
  QueueMode, SessionLane, QueuedCommand, has_active, is_idle, try_activate, complete_active,
  apply_cap_overflow, enqueue, cancel_pending, active, pending, is_some,
}
use qwen_claw.Gateway.Lane.Owned.{
  Owned, KeepsLane, apply_cap_overflow-KeepsLane, enqueue-KeepsLane, cancel_pending-KeepsLane,
}
use qwen_claw.Gateway.Queue.{
  CommandQueue, QueueConfig, Outcome, empty_queue, get_lane, put_lane, is_interrupt, submit,
  settle_overflow, effective_mode, cleared_lane, cancel, configure_session, set_config, collected,
  dispatch_lane, dispatch_round, take_worker, begin, finish, configured_lane, is_steering,
}
use qwen_claw.Gateway.Queue.Rounds.{dispatch_keys_rule, sweep_rule}
use qwen_claw.Gateway.Queue.Calls.{
  Call, submits, cancels, aborts, configures, sets, dispatches, begins, finishes, step, run,
  run_rule,
}

module _ {J : Type 0} where
  -- How many workers run a command of the session.
  abbrev pub flights : Text → List (QueuedCommand J) → ℕ
  flights key [] = 0
  flights key (c ∷ cs) = (if text_eq c.session_key key then 1 else 0) + flights key cs

  -- A lane that fits the workers: its flag says whether a worker runs its session.
  pub record LaneFits (key : Text) (workers : List (QueuedCommand J)) (lane : SessionLane J)
      : Type 0 where
    pub flag : flights key workers ≡ (if has_active lane then 1 else 0)
    pub owned : Owned key lane.pending
    pub calm : is_interrupt lane.mode ≡ false

  abbrev pub Fits : Text → List (QueuedCommand J) → Option (SessionLane J) → Type 0
  Fits key workers none = flights key workers ≡ 0
  Fits key workers (some lane) = LaneFits key workers lane

  abbrev pub AllFit : List (QueuedCommand J) → Dict (SessionLane J) → Type 0
  AllFit workers lanes = (key : Text) → Fits key workers (find key lanes)

  pub record IsSerial (q : CommandQueue J) : Type 0 where
    pub calm : is_interrupt q.config.default_mode ≡ false
    pub fits : AllFit q.workers q.lanes

  Fits-workers :
      (key : Text) (ws ws' : List (QueuedCommand J)) (o : Option (SessionLane J))
      → flights key ws' ≡ flights key ws
      → Fits key ws o
      → Fits key ws' o
  Fits-workers key ws ws' none e h = e ∙ h
  Fits-workers key ws ws' (some lane) e h = record {
    flag = e ∙ h.flag;
    owned = h.owned;
    calm = h.calm;
  }

  -- A change of one lane and of its own workers.
  pub AllFit-insert :
      (ws ws' : List (QueuedCommand J)) (lanes : Dict (SessionLane J)) (key : Text)
      (lane : SessionLane J)
      → ((k : Text) → text_eq key k ≡ false → flights k ws' ≡ flights k ws)
      → AllFit ws lanes
      → LaneFits key ws' lane
      → AllFit ws' (insert key lane lanes)
  AllFit-insert ws ws' lanes key lane others all h k =
      rw find-insert (elim (Bool-cases (text_eq key k)) [
        | inl same ↦ rw same (rw (← (text_eq_iff key k).0 same) h)
        | inr other ↦ rw other (Fits-workers k ws ws' (find k lanes) (others k other) (all k))
      ])

  pub AllFit-erase :
      (ws : List (QueuedCommand J)) (lanes : Dict (SessionLane J)) (key : Text)
      → flights key ws ≡ 0
      → AllFit ws lanes
      → AllFit ws (erase key lanes)
  AllFit-erase ws lanes key h all k = rw find-erase (elim (Bool-cases (text_eq key k)) [
    | inl same ↦ rw same (rw (← (text_eq_iff key k).0 same) h)
    | inr other ↦ rw other (all k)
  ])

  get_lane-LaneFits :
      (key : Text) (q : CommandQueue J) → IsSerial q → LaneFits key q.workers (get_lane key q)
  unfolding get_lane
  get_lane-LaneFits key q s = elim (Option-cases (find key q.lanes)) [
    | inl missing ↦
        rw (missing, get_lane)
          (record { flag = rw missing at (s.fits key); owned = tt; calm = s.calm })
    | inr (lane, found) ↦ rw (found, get_lane) (rw found at (s.fits key))
  ]

  LaneFits-keeps :
      (key : Text) (ws : List (QueuedCommand J)) (lane lane' : SessionLane J)
      → KeepsLane key lane lane'
      → LaneFits key ws lane
      → LaneFits key ws lane'
  LaneFits-keeps key ws lane lane' k h = record {
    flag =
        h.flag ∙ ap (λ (a : Option (QueuedCommand J)). if is_some a then 1 else 0) (sym k.active);
    owned = k.owned h.owned;
    calm = ap is_interrupt k.mode ∙ h.calm;
  }

  -- `q'` differs from `q` in one lane, the answers and the registered ids.
  record PutsLane (key : Text) (lane : SessionLane J) (q q' : CommandQueue J) : Type 0 where
    workers : q'.workers ≡ q.workers
    config : q'.config ≡ q.config
    lanes : q'.lanes ≡ insert key lane q.lanes

  IsSerial-PutsLane :
      (key : Text) (lane : SessionLane J) (q q' : CommandQueue J)
      → PutsLane key lane q q'
      → LaneFits key q.workers lane
      → IsSerial q
      → IsSerial q'
  IsSerial-PutsLane key lane q q' p h s = record {
    calm = ap (λ c. is_interrupt c.default_mode) p.config ∙ s.calm;
    fits =
        rw (p.workers, p.lanes)
          (AllFit-insert q.workers q.workers q.lanes key lane (λ k _. refl) s.fits h);
  }

  settle_overflow-PutsLane :
      (key conn : Text) (lane : SessionLane J) (q : CommandQueue J)
      → PutsLane key (apply_cap_overflow lane).0 q (settle_overflow key conn lane q)
  unfolding settle_overflow
  settle_overflow-PutsLane key conn lane q = ground arith

  effective_mode-calm :
      (mode : QueueMode) (lane : SessionLane J)
      → is_interrupt mode ≡ false
      → is_interrupt lane.mode ≡ false
      → is_interrupt (effective_mode mode lane) ≡ false
  effective_mode-calm mode lane h k = ground arith

  -- The lane that `Submit` queues the command in, and what it queues.
  abbrev queued_lane : QueuedCommand J → CommandQueue J → SessionLane J
  queued_lane cmd q =
      let lane = get_lane cmd.session_key q in
      let mode = effective_mode cmd.mode lane in
      enqueue (record cmd { mode = mode; state = pending }) (cleared_lane mode lane)

  submit-PutsLane :
      (cmd : QueuedCommand J) (q : CommandQueue J)
      → PutsLane cmd.session_key (queued_lane cmd q) q (submit cmd q)
        ⊎ PutsLane cmd.session_key (apply_cap_overflow (queued_lane cmd q)).0 q (submit cmd q)
  unfolding submit
  submit-PutsLane cmd q =
      let lane = get_lane cmd.session_key q in
      let mode = effective_mode cmd.mode lane in
      elim (Bool-cases (is_steering mode && has_active (cleared_lane mode lane))) [
        | inl steered ↦ inl (rw steered (record { workers = refl; config = refl; lanes = refl }))
        | inr common ↦ inr (
            rw common (
              let p =
                settle_overflow-PutsLane cmd.session_key cmd.connection_id (queued_lane cmd q)
                  (record q {
                    command_to_session = insert cmd.id cmd.session_key q.command_to_session;
                  }) in
              record { workers = p.workers; config = p.config; lanes = p.lanes }))
      ]

  queued_lane-LaneFits :
      (cmd : QueuedCommand J) (q : CommandQueue J)
      → is_interrupt cmd.mode ≡ false
      → IsSerial q
      → LaneFits cmd.session_key q.workers (queued_lane cmd q)
  queued_lane-LaneFits cmd q calm s =
      let lane = get_lane cmd.session_key q in
      let fits = get_lane-LaneFits cmd.session_key q s in
      let mode = effective_mode cmd.mode lane in
      rw (effective_mode-calm cmd.mode lane calm fits.calm) (
        LaneFits-keeps cmd.session_key q.workers lane _
          (enqueue-KeepsLane cmd.session_key (record cmd { mode = mode; state = pending }) lane
            refl)
          fits)

  pub submit-IsSerial :
      (cmd : QueuedCommand J) (q : CommandQueue J)
      → is_interrupt cmd.mode ≡ false
      → IsSerial q
      → IsSerial (submit cmd q)
  submit-IsSerial cmd q calm s =
      let fits = queued_lane-LaneFits cmd q calm s in
      elim (submit-PutsLane cmd q) [
        | inl p ↦ IsSerial-PutsLane cmd.session_key _ q _ p fits s
        | inr p ↦
            IsSerial-PutsLane cmd.session_key _ q _ p
              (LaneFits-keeps cmd.session_key q.workers _ _
                (apply_cap_overflow-KeepsLane cmd.session_key (queued_lane cmd q)) fits)
              s
      ]

  pub cancel-IsSerial : (id : Text) (q : CommandQueue J) → IsSerial q → IsSerial (cancel id q).0
  unfolding cancel
  cancel-IsSerial id q s = elim (Option-cases (find id q.command_to_session)) [
    | inl missing ↦ rw (missing, cancel) s
    | inr (key, found) ↦
        rw (found, cancel)
          (IsSerial-PutsLane key (cancel_pending id (get_lane key q)).0 q _
            (record { workers = refl; config = refl; lanes = refl })
            (LaneFits-keeps key q.workers _ _ (cancel_pending-KeepsLane key id (get_lane key q))
              (get_lane-LaneFits key q s))
            s)
  ]

  pub configure_session-IsSerial :
      (key : Text) (mode : QueueMode) (debounce_ms cap : ℤ) (name : Text) (q : CommandQueue J)
      → is_interrupt mode ≡ false
      → IsSerial q
      → IsSerial (configure_session key mode debounce_ms cap name q)
  unfolding configure_session
  configure_session-IsSerial key mode debounce_ms cap name q calm s =
      let fits = get_lane-LaneFits key q s in
      IsSerial-PutsLane key _ q _ (record { workers = refl; config = refl; lanes = refl })
        (record { flag = fits.flag; owned = fits.owned; calm = calm }) s
