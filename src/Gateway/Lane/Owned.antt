-- ===== src/Gateway/Lane/Owned.antt =====
-- The session keys of a lane's commands under the lane's operations.
use qwen_claw.Base.{
  ℕ, zero, suc, ◌≡◌, refl, List, [], ◌∷◌, ◌++◌, All, All-append, arith, length, Bool-cases, inl,
  inr,
}
use qwen_claw.Base.Int.{ℤ, pos, ltb_ℤ}
use qwen_claw.Base.Text.{Text}
use qwen_claw.Gateway.Lane.{
  SessionLane, QueuedCommand, DropPolicy, summarize, drop_oldest, reject, overflow_pass,
  overflow_loop, apply_cap_overflow, pop_back, merge_oldest, enqueue, cancel_pending,
  remove_command,
}

module _ {J : Type 0} (key : Text) where
  abbrev pub Owned : List (QueuedCommand J) → Type 0
  Owned = All (λ c. c.session_key ≡ key)

  pop_back-Owned : (cs : List (QueuedCommand J)) → Owned cs → Owned (pop_back cs)
  unfolding pop_back
  pop_back-Owned [] h = tt
  pop_back-Owned (c ∷ []) h = tt
  pop_back-Owned (c ∷ d ∷ cs) h = (h.0, pop_back-Owned (d ∷ cs) h.1)

  overflow_pass-Owned :
      (p : DropPolicy) (cs : List (QueuedCommand J)) → Owned cs → Owned (overflow_pass p cs).0
  unfolding overflow_pass merge_oldest
  overflow_pass-Owned summarize [] h = tt
  overflow_pass-Owned summarize (c ∷ []) h = h
  overflow_pass-Owned summarize (c ∷ d ∷ cs) h = (h.0, h.1.1)
  overflow_pass-Owned drop_oldest [] h = tt
  overflow_pass-Owned drop_oldest (c ∷ cs) h = h.1
  overflow_pass-Owned reject cs h = pop_back-Owned cs h

  overflow_loop-Owned :
      (fuel : ℕ) (cap : ℤ) (p : DropPolicy) (cs : List (QueuedCommand J)) (ids : List Text)
      → Owned cs
      → Owned (overflow_loop fuel cap p cs ids).0
  unfolding overflow_loop
  overflow_loop-Owned zero cap p cs ids h = h
  overflow_loop-Owned (suc fuel) cap p cs ids h =
      let passed = overflow_pass-Owned p cs h in
      elim (Bool-cases (ltb_ℤ cap (pos (length cs)))) [
        | inr fits ↦ rw fits h
        | inl over ↦ elim (Bool-cases (ltb_ℤ (pos 0) cap)) [
          | inl positive ↦ rw over (
              rw positive (
                overflow_loop-Owned fuel cap p (overflow_pass p cs).0
                  (ids ++ (overflow_pass p cs).1) passed))
          | inr other ↦ rw over (rw other passed)
        ]
      ]

  -- What `Submit` does to a lane once the command is queued.
  pub record KeepsLane (lane lane' : SessionLane J) : Type 0 where
    pub active : lane'.active_command ≡ lane.active_command
    pub mode : lane'.mode ≡ lane.mode
    pub owned : Owned lane.pending → Owned lane'.pending

  pub apply_cap_overflow-KeepsLane :
      (lane : SessionLane J) → KeepsLane lane (apply_cap_overflow lane).0
  unfolding apply_cap_overflow
  apply_cap_overflow-KeepsLane lane = record {
    active = refl;
    mode = refl;
    owned =
        overflow_loop-Owned (suc (length lane.pending)) lane.cap lane.drop_policy lane.pending [];
  }

  pub enqueue-KeepsLane :
      (cmd : QueuedCommand J) (lane : SessionLane J)
      → cmd.session_key ≡ key
      → KeepsLane lane (enqueue cmd lane)
  unfolding enqueue
  enqueue-KeepsLane cmd lane e = record {
    active = refl;
    mode = refl;
    owned = λ h. All-append _ lane.pending (cmd ∷ []) h (e, tt);
  }

  remove_command-Owned :
      (id : Text) (cs : List (QueuedCommand J)) → Owned cs → Owned (remove_command id cs).0
  unfolding remove_command
  remove_command-Owned id [] h = tt
  remove_command-Owned id (c ∷ cs) h = ground (arith, remove_command-Owned id cs h.1)

  pub cancel_pending-KeepsLane :
      (id : Text) (lane : SessionLane J) → KeepsLane lane (cancel_pending id lane).0
  unfolding cancel_pending
  cancel_pending-KeepsLane id lane = record {
    active = refl;
    mode = refl;
    owned = remove_command-Owned id lane.pending;
  }
