-- ===== src/Core/ContextEngine.antt =====
-- core/default_context_engine: the context of a model's call, put together from the history by
-- pruning and compaction. A summary function is an argument, `none` where none is set.
pub mod Assembled
pub mod Overflow
mod Tests
use qwen_claw.Base.{
  ℕ, suc, ◌+◌, ◌-◌, ◌/◌, ◌==◌, min, max, Bool, true, false, not, ◌&&◌, List, [], ◌∷◌, ◌++◌, Option,
  none, some, length, drop, keep_if, ltb, leb, if◌then◌else◌, ◌>>=◌,
}
use qwen_claw.Base.Int.{ℤ, pos, negsuc, pos_part, ltb_ℤ, sub_ℤ, add_ℤ}
use qwen_claw.Base.Text.{Text, codes, text_eq, is_empty}
use qwen_claw.Base.Decimal.{to_string_ℕ}
use qwen_claw.Core.Messages.{Message, text_message, estimate_all}
use qwen_claw.Core.Pruner.{Options, Rounding, prune}
use qwen_claw.Core.Compaction.{CompactionOptions, Summary, compact_multi_stage}

-- The fields of `AgentConfig` that the engine reads.
pub record AgentConfig : Type 0 where
  pub auto_compact : Bool
  pub compact_max_messages : ℤ
  pub compact_keep_recent : ℤ
  pub context_window : ℤ

abbrev pub default_options : Options
default_options = record {
  protect_recent = 3;
  soft_prune_lines = 5;
  hard_prune_after = 10;
  max_tool_result_chars = 2000;
  context_window = pos 0;
  max_tokens = pos 8192;
}

abbrev pub min_reserve : ℤ
min_reserve = pos 16384

pub removal_note : ℕ → Message
removal_note removed = text_message (codes "system") (
    codes "[Context compaction: "
    ++ (to_string_ℕ removed
        ++ codes
            " earlier messages were removed. Your system instructions remain active. Refer to the system prompt for your identity and capabilities.]"))

pub forced_note : Message
forced_note =
    text_message (codes "system")
      (codes "[Context compaction forced: context window nearly full. Earlier messages removed.]")

-- Step 1, with `k` messages to keep of a nonnegative setting.
pub keep_recent_messages : ℕ → List Message → List Message
keep_recent_messages k history =
    if ltb k (length history)
    then removal_note (length history - k) ∷ drop (length history - k) history
    else history

-- `none`: a negative setting makes an iterator behind the end, which is undefined.
pub auto_compacted : AgentConfig → List Message → Option (List Message)
auto_compacted c history =
    if c.auto_compact && ltb_ℤ c.compact_max_messages (pos (length history))
    then elim c.compact_keep_recent [
      | pos k ↦ some (keep_recent_messages k history)
      | negsuc n ↦ none
    ]
    else some history

abbrev pub system_part : Text → List Message
system_part prompt = if is_empty prompt then [] else text_message (codes "system") prompt ∷ []

-- Step 4, with `k` messages to keep of a nonnegative setting.
pub forced : Text → ℕ → List Message → List Message
forced prompt k context =
    let keep = min k (length context) in
    if ltb keep (length context)
    then system_part prompt ++ (forced_note ∷ drop (length context - keep) context)
    else context

pub guarded : AgentConfig → Text → ℤ → ℤ → List Message → Option (List Message)
guarded c prompt window max_tokens context =
    if ltb_ℤ (sub_ℤ window min_reserve) (add_ℤ (pos (estimate_all context)) max_tokens)
    then elim c.compact_keep_recent [ pos k ↦ some (forced prompt k context) | negsuc n ↦ none ]
    else some context

-- The messages, and the estimate of their tokens.
pub assemble :
    Rounding → AgentConfig → List Message → Text → Text → ℤ → ℤ → Option (List Message × ℕ)
assemble r c history prompt user window max_tokens = do
  shortened ← auto_compacted c history
  pruned ← prune r default_options shortened
  context ←
      guarded c prompt window max_tokens
        (system_part prompt ++ (pruned ++ (text_message (codes "user") user ∷ [])))
  some (context, estimate_all context)

-- `context_window / 4`, which rounds towards 0.
abbrev pub quarter : ℤ → ℤ
quarter (pos n) = pos (n / 4)
quarter (negsuc n) = if suc n / 4 == 0 then pos 0 else negsuc (suc n / 4 - 1)

abbrev pub overflow_options : AgentConfig → CompactionOptions
overflow_options c = record {
  target_tokens = quarter c.context_window;
  max_chunk_tokens = pos 16384;
  min_messages_for_multistage = pos 8;
}

-- `std::max(2, keep_recent > 0 ? keep_recent : fallback)`
abbrev pub kept_count : ℤ → ℕ → ℕ
kept_count keep_recent fallback =
    max 2 (if ltb_ℤ (pos 0) keep_recent then pos_part keep_recent else fallback)

abbrev pub last_messages : ℕ → List Message → List Message
last_messages keep messages = drop (length messages - min keep (length messages)) messages

pub recovery_note : Message
recovery_note =
    text_message (codes "system") (codes "[Context overflow recovery: older messages removed.]")

pub truncated : List Message → Text → ℤ → List Message
truncated messages prompt keep_recent =
    system_part prompt
    ++ (recovery_note ∷ last_messages (kept_count keep_recent (length messages / 2)) messages)

pub summed_up : (ℤ → ℤ) → AgentConfig → Summary → List Message → Text → ℤ → Option (List Message)
summed_up margin c f messages prompt keep_recent = do
  summary ←
      compact_multi_stage margin (overflow_options c) (some f)
        (keep_if (λ m. not (text_eq m.role (codes "system"))) messages)
  some (
      system_part prompt
      ++ (summary ++ last_messages (kept_count keep_recent (min 4 (length messages))) messages))

pub compact_overflow :
    (ℤ → ℤ) → AgentConfig → Option Summary → List Message → Text → ℤ → Option (List Message)
compact_overflow margin c none messages prompt keep_recent =
    some (truncated messages prompt keep_recent)
compact_overflow margin c (some f) messages prompt keep_recent =
    if leb 8 (length messages)
    then summed_up margin c f messages prompt keep_recent
    else some (truncated messages prompt keep_recent)
