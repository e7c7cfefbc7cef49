-- ===== src/Core/Compaction.antt =====
-- core/multi_stage_compaction: a long conversation cut into chunks, summed up chunk by chunk. The
-- summary of some messages is an argument, `none` where it throws, and so is the product of the
-- target and the floating-point margin, cut to an `int`.
pub mod Chunks
pub mod Shares
pub mod Stages
mod Tests
use qwen_claw.Base.{
  ℕ, zero, suc, ◌+◌, ◌-◌, ◌/◌, max, Bool, true, false, not, ◌&&◌, ◌||◌, List, [], ◌∷◌, ◌++◌, Option,
  none, some, length, ltb, leb, if◌then◌else◌, ◌>>=◌,
}
use qwen_claw.Base.Int.{ℤ, pos, pos_part, ltb_ℤ}
use qwen_claw.Base.Text.{Text, codes, is_empty}
use qwen_claw.Base.Decimal.{to_string_ℕ}
use qwen_claw.Core.Messages.{Message, text_message, estimate_tokens, estimate_all}

abbrev pub last_chunk : List Message → List (List Message)
last_chunk chunk = if is_empty chunk then [] else chunk ∷ []

-- The loop of `ChunkByMaxTokens`, with the chunk in hand and its tokens.
pub chunk_loop : ℕ → List Message → ℕ → List Message → List (List Message)
chunk_loop limit chunk tokens [] = last_chunk chunk
chunk_loop limit chunk tokens (m ∷ messages) =
    let opened = chunk_loop limit (m ∷ []) (estimate_tokens m) messages in
    let longer = chunk_loop limit (chunk ++ (m ∷ [])) (tokens + estimate_tokens m) messages in
    if not (is_empty chunk) && ltb limit (tokens + estimate_tokens m)
    then chunk ∷ opened
    else longer

pub chunk_by_max_tokens : List Message → ℤ → List (List Message)
chunk_by_max_tokens messages limit =
    if is_empty messages
    then []
    else if not (ltb_ℤ (pos 0) limit)
    then messages ∷ []
    else chunk_loop (pos_part limit) [] 0 messages

-- The loop of `SplitByTokenShare`; `left` is how many chunks may still be closed.
pub share_loop : ℕ → ℕ → List Message → ℕ → List Message → List (List Message)
share_loop target left chunk tokens [] = last_chunk chunk
share_loop target zero chunk tokens (m ∷ messages) =
    share_loop target zero (chunk ++ (m ∷ [])) (tokens + estimate_tokens m) messages
share_loop target (suc left) chunk tokens (m ∷ messages) =
    let opened = share_loop target left [] 0 messages in
    let longer =
      share_loop target (suc left) (chunk ++ (m ∷ [])) (tokens + estimate_tokens m) messages in
    if leb target (tokens + estimate_tokens m) then (chunk ++ (m ∷ [])) ∷ opened else longer

pub split_by_token_share : List Message → ℤ → List (List Message)
split_by_token_share messages parts =
    if not (ltb_ℤ (pos 1) parts) || is_empty messages
    then messages ∷ []
    else share_loop (max 1 (estimate_all messages / pos_part parts)) (pos_part parts - 1) [] 0
        messages

pub record CompactionOptions : Type 0 where
  pub target_tokens : ℤ
  pub max_chunk_tokens : ℤ
  pub min_messages_for_multistage : ℤ

abbrev pub Summary : Type 0
Summary = List Message → Option Text

-- Stage 1.
pub summaries : Summary → List (List Message) → Option (List Text)
summaries f [] = some []
summaries f (chunk ∷ chunks) = do s ← f chunk; rest ← summaries f chunks; some (s ∷ rest)

-- Stage 2, with the number of the next part and the text merged so far.
pub merge_from : ℕ → ℕ → Text → List Text → Text
merge_from total i merged [] = merged
merge_from total i merged (s ∷ parts) =
    merge_from total (suc i)
      (merged
        ++ ((if is_empty merged then [] else codes "\n\n---\n\n")
            ++ (codes "[Part "
                ++ (to_string_ℕ (suc i)
                    ++ (codes "/" ++ (to_string_ℕ total ++ (codes "]\n" ++ s)))))))
      parts

pub compacted_text : ℕ → ℕ → Text → Text → Text
compacted_text count tokens stages summary =
    codes "[Compacted context ("
    ++ (to_string_ℕ count
        ++ (codes " messages, ~"
            ++ (to_string_ℕ tokens
                ++ (codes " tokens" ++ (stages ++ (codes ")]\n\n" ++ summary))))))

abbrev pub compacted : ℕ → ℕ → Text → Text → List Message
compacted count tokens stages summary =
    text_message (codes "system") (compacted_text count tokens stages summary) ∷ []

-- The final pass where the merged text is too long for the target.
pub final_pass : (ℤ → ℤ) → ℤ → Summary → Text → Option Text
final_pass margin target f merged =
    if ltb_ℤ (pos 0) target && ltb_ℤ (margin target) (pos (length merged / 4))
    then f (text_message (codes "system") merged ∷ [])
    else some merged

pub in_stages : (ℤ → ℤ) → CompactionOptions → Summary → List Message → Option (List Message)
in_stages margin o f messages =
    let chunks = chunk_by_max_tokens messages o.max_chunk_tokens in
    do
      parts ← summaries f chunks
      merged ← final_pass margin o.target_tokens f (merge_from (length chunks) 0 [] parts)
      some (
          compacted (length messages) (estimate_all messages)
            (codes ", " ++ (to_string_ℕ (length chunks) ++ codes " stages")) merged)

pub is_single_pass : CompactionOptions → List Message → Bool
is_single_pass o messages =
    ltb_ℤ (pos (length messages)) o.min_messages_for_multistage
    || not (ltb_ℤ o.max_chunk_tokens (pos (estimate_all messages)))

pub compact_multi_stage :
    (ℤ → ℤ) → CompactionOptions → Option Summary → List Message → Option (List Message)
compact_multi_stage margin o none messages = some messages
compact_multi_stage margin o (some f) messages =
    let once =
      f messages >>= λ s. some (compacted (length messages) (estimate_all messages) [] s) in
    if is_single_pass o messages then once else in_stages margin o f messages
