-- ===== src/Gateway/Queue/Calls.antt =====
-- The histories of a command queue: the critical sections that clients, the dispatcher and the
-- workers run, in any order.
use qwen_claw.Base.{ℕ, List, [], ◌∷◌, none, some, All}
use qwen_claw.Base.Int.{ℤ}
use qwen_claw.Base.Text.{Text}
use qwen_claw.Gateway.Lane.{QueueMode, QueuedCommand}
use qwen_claw.Gateway.Queue.{
  CommandQueue, QueueConfig, Outcome, submit, cancel, abort_session, configure_session, set_config,
  dispatch_round, take_worker, begin, finish,
}

pub data Call (J : Type 0) : Type 0 where
  submits : QueuedCommand J → Call J
  cancels : Text → Call J
  aborts : Text → Call J
  configures : Text → QueueMode → ℤ → ℤ → Text → Call J
  sets : QueueConfig → Call J
  dispatches : ℕ → Call J
  begins : Text → Call J
  finishes : Text → Outcome J → Call J

module _ {J : Type 0} (set_collected : Text → J → J) where
  -- A worker's step needs a worker that has the command in hand.
  unfoldable pub step : CommandQueue J → Call J → CommandQueue J
  step q (submits cmd) = submit cmd q
  step q (cancels id) = (cancel id q).0
  step q (aborts key) = (abort_session key q).0
  step q (configures key mode debounce_ms cap drop_name) =
      configure_session key mode debounce_ms cap drop_name q
  step q (sets config) = set_config config q
  step q (dispatches now) = dispatch_round set_collected now q
  step q (begins id) = elim (take_worker id q.workers) [ none ↦ q | some (cmd, left) ↦ begin cmd q ]
  step q (finishes id outcome) = elim (take_worker id q.workers) [
    | none ↦ q
    | some (cmd, left) ↦ record (finish cmd outcome q) { workers = left }
  ]

  unfoldable pub run : CommandQueue J → List (Call J) → CommandQueue J
  run q [] = q
  run q (c ∷ cs) = run (step q c) cs

  -- What every allowed call keeps, a history of allowed calls keeps.
  pub run_rule {ℓ κ} :
      (P : CommandQueue J → Type ℓ) (Allowed : Call J → Type κ)
      → ((q : CommandQueue J) (c : Call J) → Allowed c → P q → P (step q c))
      → (q : CommandQueue J) (cs : List (Call J)) → All Allowed cs
      → P q
      → P (run q cs)
  unfolding run
  run_rule P Allowed keeps q [] a h = h
  run_rule P Allowed keeps q (c ∷ cs) a h =
      run_rule P Allowed keeps (step q c) cs a.1 (keeps q c a.0 h)
