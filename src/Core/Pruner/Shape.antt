-- ===== src/Core/Pruner/Shape.antt =====
-- Pruning keeps the shape of a conversation.
use qwen_claw.Base.{
  ℕ, zero, suc, ◌-◌, ◌<◌, ◌≡◌, ◌∙◌, refl, ap, Bool, true, false, not, ◌&&◌, List, [], ◌∷◌, map,
  Option, some, arith, length, get_elem?-lt, ltb, Bool-cases, inl, inr,
}
use qwen_claw.Base.Text.{Text, codes, text_eq, text_eq_iff, is_empty}
use qwen_claw.Core.Messages.{ContentBlock, Message}
use qwen_claw.Core.Pruner.{
  Options, Rounding, scaled, effective, assistant_indices, Threshold, undefined, unset, at,
  threshold, is_tool_result, prune_block, prune_blocks, prune_message, prune_from, with_thresholds,
  prune, is_before,
}

-- A block by its type and by the tool call that it answers; a message by its role and its blocks.
abbrev pub block_shape : ContentBlock → Text × Text
block_shape b = (b.kind, b.tool_use_id)

abbrev pub shape : Message → Text × List (Text × Text)
shape m = (m.role, map block_shape m.blocks)

block_shape-prune_block :
    (o : Options) (hard : Bool) (b : ContentBlock)
    → block_shape (prune_block o hard b) ≡ block_shape b
unfolding prune_block is_tool_result
block_shape-prune_block o hard b = elim (Bool-cases (text_eq b.kind (codes "tool_result"))) [
  | inr other ↦ ground (arith, other)
  | inl same ↦ ground (arith, same, (text_eq_iff b.kind (codes "tool_result")).0 same)
]

shape-prune_blocks :
    (o : Options) (hard : Bool) (blocks : List ContentBlock)
    → map block_shape (prune_blocks o hard blocks) ≡ map block_shape blocks
unfolding prune_blocks
shape-prune_blocks o hard [] = refl
shape-prune_blocks o hard (b ∷ blocks) =
    ap (λ s. s ∷ map block_shape (prune_blocks o hard blocks)) (block_shape-prune_block o hard b)
    ∙ ap (λ ss. block_shape b ∷ ss) (shape-prune_blocks o hard blocks)

shape-prune_message :
    (o : Options) (protect hard : Threshold) (boot : Option ℕ) (i : ℕ) (m : Message)
    → shape (prune_message o protect hard boot i m) ≡ shape m
unfolding prune_message
shape-prune_message o protect hard boot i m =
    ground (arith, shape-prune_blocks o (is_before hard i) m.blocks)

shape-prune_from :
    (o : Options) (protect hard : Threshold) (boot : Option ℕ) (i : ℕ) (messages : List Message)
    → map shape (prune_from o protect hard boot i messages) ≡ map shape messages
unfolding prune_from
shape-prune_from o protect hard boot i [] = refl
shape-prune_from o protect hard boot i (m ∷ messages) =
    ap (λ s. s ∷ map shape (prune_from o protect hard boot (suc i) messages))
      (shape-prune_message o protect hard boot i m)
    ∙ ap (λ ss. shape m ∷ ss) (shape-prune_from o protect hard boot (suc i) messages)

abbrev is_defined : Threshold → Bool
is_defined undefined = false
is_defined unset = true
is_defined (at t) = true

threshold_defined : (indices : List ℕ) (n : ℕ) → is_defined (threshold indices (suc n)) ≡ true
unfolding threshold
threshold_defined indices n =
    elim (Bool-cases (ltb (suc n) (length indices) && not (is_empty indices))) [
      | inr few ↦ ground (arith, few)
      | inl many ↦
          let fewer : suc n < length indices = ground (arith, many) in
          let (i, found) = get_elem?-lt indices (length indices - suc n) (omega (arith, fewer)) in
          ground (arith, many, found)
    ]

with_thresholds-shape :
    (o : Options) (protect hard : Threshold) (history : List Message)
    → is_defined protect ≡ true
    → is_defined hard ≡ true
    → (out : List Message) × (with_thresholds o protect hard history ≡ some out)
      × (map shape out ≡ map shape history)
unfolding with_thresholds
with_thresholds-shape o undefined hard history h k = absurd (ground (arith, h))
with_thresholds-shape o unset undefined history h k = absurd (ground (arith, k))
with_thresholds-shape o (at t) undefined history h k = absurd (ground (arith, k))
with_thresholds-shape o unset unset history h k =
    (_, refl, shape-prune_from o unset unset _ 0 history)
with_thresholds-shape o unset (at s) history h k =
    (_, refl, shape-prune_from o unset (at s) _ 0 history)
with_thresholds-shape o (at t) unset history h k =
    (_, refl, shape-prune_from o (at t) unset _ 0 history)
with_thresholds-shape o (at t) (at s) history h k =
    (_, refl, shape-prune_from o (at t) (at s) _ 0 history)

-- The counts that decide stay above 0 when they are scaled.
pub effective_positive :
    (r : Rounding) (o : Options) (history : List Message)
    → 0 < o.protect_recent
    → 0 < o.hard_prune_after
    → (0 < (effective r o history).protect_recent) × (0 < (effective r o history).hard_prune_after)
unfolding effective scaled
effective_positive r o history p h = ground (arith, p, h)

threshold_positive : (indices : List ℕ) (n : ℕ) → 0 < n → is_defined (threshold indices n) ≡ true
threshold_positive indices zero h = absurd (omega (arith, h))
threshold_positive indices (suc n) h = threshold_defined indices n

-- Unless a setting is 0, pruning returns, and keeps every message's role and, in their order, the
-- types of its blocks and the tool calls that they answer.
pub prune-shape :
    (r : Rounding) (o : Options) (history : List Message)
    → 0 < o.protect_recent
    → 0 < o.hard_prune_after
    → (out : List Message) × (prune r o history ≡ some out) × (map shape out ≡ map shape history)
unfolding prune
prune-shape r o [] p h = ([], refl, refl)
prune-shape r o (m ∷ messages) p h =
    let e = effective r o (m ∷ messages) in
    let indices = assistant_indices 0 (m ∷ messages) in
    let positive = effective_positive r o (m ∷ messages) p h in
    with_thresholds-shape e (threshold indices e.protect_recent)
      (threshold indices e.hard_prune_after) (m ∷ messages)
      (threshold_positive indices e.protect_recent positive.0)
      (threshold_positive indices e.hard_prune_after positive.1)
