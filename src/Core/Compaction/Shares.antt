-- ===== src/Core/Compaction/Shares.antt =====
-- The parts of `SplitByTokenShare`.
use qwen_claw.Base.{
  ℕ, zero, suc, ◌+◌, ◌-◌, ◌/◌, ◌≤◌, ◌≡◌, ◌∙◌, sym, List, [], ◌∷◌, ◌++◌, append_assoc, append-nil,
  arith, length, max,
}
use qwen_claw.Base.Int.{ℤ, pos_part}
use qwen_claw.Core.Messages.{Message, estimate_tokens, estimate_all}
use qwen_claw.Core.Compaction.{last_chunk, share_loop, split_by_token_share}
use qwen_claw.Core.Compaction.Chunks.{concat, concat-last_chunk}

concat-share_loop :
    (target left : ℕ) (chunk : List Message) (tokens : ℕ) (messages : List Message)
    → concat (share_loop target left chunk tokens messages) ≡ chunk ++ messages
unfolding share_loop
concat-share_loop target zero chunk tokens [] = concat-last_chunk chunk ∙ sym (append-nil chunk)
concat-share_loop target (suc left) chunk tokens [] =
    concat-last_chunk chunk ∙ sym (append-nil chunk)
concat-share_loop target zero chunk tokens (m ∷ messages) =
    concat-share_loop target zero (chunk ++ (m ∷ [])) (tokens + estimate_tokens m) messages
    ∙ append_assoc chunk (m ∷ []) messages
concat-share_loop target (suc left) chunk tokens (m ∷ messages) = ground (
  arith,
  concat-share_loop target left [] 0 messages,
  concat-share_loop target (suc left) (chunk ++ (m ∷ [])) (tokens + estimate_tokens m) messages,
  append_assoc chunk (m ∷ []) messages,
)

length-last_chunk : (chunk : List Message) → length (last_chunk chunk) ≤ 1
length-last_chunk [] = omega arith
length-last_chunk (m ∷ chunk) = omega arith

length-share_loop :
    (target left : ℕ) (chunk : List Message) (tokens : ℕ) (messages : List Message)
    → length (share_loop target left chunk tokens messages) ≤ left + 1
unfolding share_loop
length-share_loop target zero chunk tokens [] = length-last_chunk chunk
length-share_loop target (suc left) chunk tokens [] = omega (arith, length-last_chunk chunk)
length-share_loop target zero chunk tokens (m ∷ messages) =
    length-share_loop target zero (chunk ++ (m ∷ [])) (tokens + estimate_tokens m) messages
length-share_loop target (suc left) chunk tokens (m ∷ messages) = ground (
  arith,
  length-share_loop target left [] 0 messages,
  length-share_loop target (suc left) (chunk ++ (m ∷ [])) (tokens + estimate_tokens m) messages,
)

-- A split loses and moves no message, and has at most as many parts as asked for, or one part
-- where fewer than one are asked for.
pub split_by_token_share-parts :
    (messages : List Message) (parts : ℤ)
    → (concat (split_by_token_share messages parts) ≡ messages)
      × (length (split_by_token_share messages parts) ≤ max 1 (pos_part parts))
unfolding split_by_token_share
split_by_token_share-parts [] parts = ground arith
split_by_token_share-parts (m ∷ messages) parts =
    let target = max 1 (estimate_all (m ∷ messages) / pos_part parts) in
    ground (
      arith,
      append-nil (m ∷ messages),
      concat-share_loop target (pos_part parts - 1) [] 0 (m ∷ messages),
      length-share_loop target (pos_part parts - 1) [] 0 (m ∷ messages),
    )
