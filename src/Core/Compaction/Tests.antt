-- ===== src/Core/Compaction/Tests.antt =====
-- The theorems on compaction at three messages.
use qwen_claw.Base.{
  ◌≡◌, refl, List, [], ◌∷◌, none, some, All, inl, inr, arith, leb, ltb, length, ◌||◌, if◌then◌else◌,
}
use qwen_claw.Base.Int.{pos}
use qwen_claw.Base.Text.{Text, codes}
use qwen_claw.Core.Messages.{Message, text_message, estimate_all}
use qwen_claw.Core.Compaction.{CompactionOptions, Summary, chunk_by_max_tokens, compact_multi_stage}
use qwen_claw.Core.Compaction.Chunks.{
  concat, IsWithin, concat-chunk_by_max_tokens, chunk_by_max_tokens-IsWithin,
}
use qwen_claw.Core.Compaction.Stages.{compact_multi_stage-asked}

abbrev talk : List Message
talk =
    text_message (codes "user") (codes "a question of some length")
    ∷ text_message (codes "assistant") (codes "an answer")
    ∷ text_message (codes "user") (codes "thanks")
    ∷ []

abbrev options : CompactionOptions
options = record {
  target_tokens = pos 1;
  max_chunk_tokens = pos 8;
  min_messages_for_multistage = pos 2;
}

abbrev summary : List Message → Text
summary messages = codes "they talked"

abbrev summary_fn : Summary
summary_fn messages = some (summary messages)

concat-chunk_by_max_tokens_example : concat (chunk_by_max_tokens talk (pos 8)) ≡ talk
concat-chunk_by_max_tokens_example = concat-chunk_by_max_tokens talk (pos 8)

chunk_by_max_tokens-IsWithin_example : All (IsWithin 8) (chunk_by_max_tokens talk (pos 8))
chunk_by_max_tokens-IsWithin_example = chunk_by_max_tokens-IsWithin talk 7

-- A function that throws where more than one message is over the limit agrees on what is asked.
abbrev wary : Summary
wary ms = if leb (estimate_all ms) 8 || ltb (length ms) 2 then some (summary ms) else none

wary-agrees : (ms : List Message) → IsWithin 8 ms → summary_fn ms ≡ wary ms
wary-agrees ms (filled, inl small) = ground (arith, small)
wary-agrees ms (filled, inr single) = ground (arith, single)

compact_multi_stage-asked_example :
    compact_multi_stage (λ t. t) options (some summary_fn) talk
    ≡ compact_multi_stage (λ t. t) options (some wary) talk
compact_multi_stage-asked_example =
    compact_multi_stage-asked (λ t. t) options 7 summary_fn wary wary-agrees talk
      (λ few. absurd (ground (arith, few))) refl refl
