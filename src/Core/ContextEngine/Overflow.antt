-- ===== src/Core/ContextEngine/Overflow.antt =====
-- What is left of a conversation that has overflowed the context window.
use qwen_claw.Base.{
  ℕ, ◌≤◌, ◌/◌, min, ◌≡◌, ◌∙◌, refl, ap, not, List, ◌∷◌, ◌++◌, Option, none, some, arith, length,
  leb, keep_if, Bool-cases, inl, inr, if_true, if_false, ◌>>=◌,
}
use qwen_claw.Base.Int.{ℤ}
use qwen_claw.Base.Text.{Text, codes, text_eq}
use qwen_claw.Core.Messages.{Message, text_message}
use qwen_claw.Core.Compaction.{Summary}
use qwen_claw.Core.Compaction.Stages.{compact_multi_stage-one}
use qwen_claw.Core.ContextEngine.{
  AgentConfig, system_part, overflow_options, kept_count, last_messages, recovery_note, truncated,
  summed_up, compact_overflow,
}

-- A summary function that never throws, or none.
abbrev pub never_throws : Option (List Message → Text) → Option Summary
never_throws none = none
never_throws (some g) = some (λ messages. some (g messages))

truncated-recent :
    (messages : List Message) (prompt : Text) (keep_recent : ℤ)
    → (note : Message) × (k : ℕ) × (2 ≤ k)
      × (truncated messages prompt keep_recent
          ≡ system_part prompt ++ (note ∷ last_messages k messages))
unfolding truncated
truncated-recent messages prompt keep_recent =
    (recovery_note, kept_count keep_recent (length messages / 2), omega arith, refl)

summed_up-recent :
    (margin : ℤ → ℤ) (c : AgentConfig) (g : List Message → Text) (messages : List Message)
    (prompt : Text) (keep_recent : ℤ)
    → (note : Message) × (k : ℕ) × (2 ≤ k)
      × (summed_up margin c (λ ms. some (g ms)) messages prompt keep_recent
          ≡ some (system_part prompt ++ (note ∷ last_messages k messages)))
unfolding summed_up
summed_up-recent margin c g messages prompt keep_recent =
    let k = kept_count keep_recent (min 4 (length messages)) in
    let (s, e) =
      compact_multi_stage-one margin (overflow_options c) g
        (keep_if (λ m. not (text_eq m.role (codes "system"))) messages) in
    (
      text_message (codes "system") s,
      k,
      omega arith,
      ap (λ o. o >>= λ summary. some (system_part prompt ++ (summary ++ last_messages k messages)))
          e,
    )

-- If no summary throws, what is left after an overflow is the system prompt, if there is one, one
-- message that stands for what was removed, and at least the two most recent messages, as far as
-- there are two.
pub compact_overflow-recent :
    (margin : ℤ → ℤ) (c : AgentConfig) (g : Option (List Message → Text)) (messages : List Message)
    (prompt : Text) (keep_recent : ℤ)
    → (note : Message) × (k : ℕ) × (2 ≤ k)
      × (compact_overflow margin c (never_throws g) messages prompt keep_recent
          ≡ some (system_part prompt ++ (note ∷ last_messages k messages)))
unfolding compact_overflow
compact_overflow-recent margin c none messages prompt keep_recent =
    let (note, k, two, e) = truncated-recent messages prompt keep_recent in
    (note, k, two, ap some e)
compact_overflow-recent margin c (some g) messages prompt keep_recent =
    elim (Bool-cases (leb 8 (length messages))) [
      | inl long ↦
          let (note, k, two, e) = summed_up-recent margin c g messages prompt keep_recent in
          (note, k, two, if_true _ _ long ∙ e)
      | inr short ↦
          let (note, k, two, e) = truncated-recent messages prompt keep_recent in
          (note, k, two, if_false _ _ short ∙ ap some e)
    ]
