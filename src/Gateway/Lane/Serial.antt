-- ===== src/Gateway/Lane/Serial.antt =====
-- One command at a time: what the operations of `SessionLane` do to the active command.
use qwen_claw.Base.{
  ℕ, ◌<◌, ◌≡◌, refl, ◌⊎◌, inl, inr, Bool-cases, List, [], ◌∷◌, ◌++◌, none, some, arith,
}
use qwen_claw.Base.Int.{pos, ltb_ℤ}
use qwen_claw.Gateway.Lane.{
  SessionLane, QueuedCommand, active, try_activate, elapsed_ms, keep_last, interrupt_active,
}

module _ {J : Type 0} where
  -- Nothing starts before the oldest command has waited for the debounce time, and the lane stays
  -- as it was.
  pub try_activate-early :
      (lane : SessionLane J) (front : QueuedCommand J) (rest : List (QueuedCommand J))
      (debounce now : ℕ)
      → lane.pending ≡ front ∷ rest
      → lane.debounce_ms ≡ pos debounce
      → elapsed_ms now front < debounce
      → try_activate now lane ≡ (lane, none)
  unfolding try_activate
  try_activate-early lane front rest debounce now e d h = ground arith

  -- The two ways in which a free lane answers the dispatcher.
  pub try_activate-cases :
      (now : ℕ) (lane : SessionLane J)
      → lane.active_command ≡ none
      → (try_activate now lane ≡ (lane, none))
        ⊎ ((front : QueuedCommand J) × (rest : List (QueuedCommand J)) × (lane.pending
              ≡ front ∷ rest)
            × (try_activate now lane ≡ (
              record lane {
                pending = rest;
                active_command = some (record front { state = active });
              },
              some (record front { state = active }),
            )))
  unfolding try_activate
  try_activate-cases now lane free = go lane.pending refl
    where
      go :
          (cs : List (QueuedCommand J))
          → lane.pending ≡ cs
          → (try_activate now lane ≡ (lane, none))
            ⊎ ((front : QueuedCommand J) × (rest : List (QueuedCommand J)) × (lane.pending
                  ≡ front ∷ rest)
                × (try_activate now lane ≡ (
                  record lane {
                    pending = rest;
                    active_command = some (record front { state = active });
                  },
                  some (record front { state = active }),
                )))
      go [] e = inl (ground arith)
      go (front ∷ rest) e =
          elim (Bool-cases (ltb_ℤ (pos (elapsed_ms now front)) lane.debounce_ms)) [
            | inl early ↦ inl (ground arith)
            | inr due ↦ inr (front, rest, e, ground arith)
          ]

  keep_last-append :
      (before : List (QueuedCommand J)) (c : QueuedCommand J)
      → keep_last (before ++ c ∷ []) ≡ c ∷ []
  unfolding keep_last
  keep_last-append [] c = refl
  keep_last-append (d ∷ []) c = refl
  keep_last-append (d ∷ e ∷ before) c = keep_last-append (e ∷ before) c

  -- What is left of a busy lane.
  abbrev pub interrupted : SessionLane J → QueuedCommand J → SessionLane J
  interrupted lane old = record lane { active_command = none; pending = old ∷ [] }

  pub interrupt_active-busy :
      (lane : SessionLane J) (running old : QueuedCommand J) (before : List (QueuedCommand J))
      → lane.active_command ≡ some running
      → lane.pending ≡ before ++ old ∷ []
      → interrupt_active lane ≡ (interrupted lane old, some running.id)
  unfolding interrupt_active
  interrupt_active-busy lane running old before a p = simp (a, p) (simp (keep_last-append))
