-- ===== src/Core/ContextEngine/Tests.antt =====
-- The theorems on contexts at a short history.
use qwen_claw.Base.{ℕ, ◌≤◌, ◌≡◌, refl, true, List, [], ◌∷◌, ◌++◌, some}
use qwen_claw.Base.Int.{pos}
use qwen_claw.Base.Text.{codes}
use qwen_claw.Core.Messages.{Message, text_message, estimate_all}
use qwen_claw.Core.Pruner.{Rounding}
use qwen_claw.Core.ContextEngine.{
  AgentConfig, system_part, assemble, compact_overflow, last_messages,
}
use qwen_claw.Core.ContextEngine.Assembled.{assemble-ends}
use qwen_claw.Core.ContextEngine.Overflow.{compact_overflow-recent}

abbrev config : AgentConfig
config = record {
  auto_compact = true;
  compact_max_messages = pos 2;
  compact_keep_recent = pos 1;
  context_window = pos 100;
}

abbrev rounding : Rounding
rounding = record { share = λ w. w; shrunk = λ tokens budget n. pos n }

abbrev history : List Message
history =
    text_message (codes "user") (codes "one")
    ∷ text_message (codes "assistant") (codes "two")
    ∷ text_message (codes "user") (codes "three")
    ∷ []

assemble-ends_example :
    (rest : List Message) × (assemble rounding config history
        (codes "be brief")
        (codes "four")
        (pos 100)
        (pos 50)
      ≡ some (
        system_part (codes "be brief")
            ++ (rest ++ (text_message (codes "user") (codes "four") ∷ [])),
        estimate_all (
            system_part (codes "be brief")
            ++ (rest ++ (text_message (codes "user") (codes "four") ∷ []))),
      ))
assemble-ends_example =
    assemble-ends rounding config 0 history (codes "be brief") (codes "four") (pos 100) (pos 50)
      refl

compact_overflow-recent_example :
    (note : Message) × (k : ℕ) × (2 ≤ k)
    × (compact_overflow (λ t. t) config (some (λ ms. some (codes "they talked"))) history [] (pos 0)
        ≡ some (system_part [] ++ (note ∷ last_messages k history)))
compact_overflow-recent_example =
    compact_overflow-recent (λ t. t) config (some (λ ms. codes "they talked")) history [] (pos 0)
