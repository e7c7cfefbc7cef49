-- ===== src/Core/Pruner.antt =====
-- core/context_pruner: old tool results of a conversation are cut or left out. What the code
-- computes in floating point and casts to `int` is an argument: the share of the context window
-- that may be used, and a setting shrunk by how far the tokens are over the budget.
pub mod Shape
pub mod Spared
mod Tests
use qwen_claw.Base.{
  ℕ, zero, suc, ◌+◌, ◌-◌, ◌*◌, max, Bool, true, false, not, ◌&&◌, ◌||◌, List, [], ◌∷◌, ◌++◌, Option,
  none, some, any_of, length, take, drop, get_elem?, ltb, leb, if◌then◌else◌,
}
use qwen_claw.Base.Int.{ℤ, pos, pos_part, ltb_ℤ, sub_ℤ}
use qwen_claw.Base.Text.{Text, codes, text_eq, is_empty, getline_tokens}
use qwen_claw.Base.Decimal.{to_string_ℕ}
use qwen_claw.Core.Messages.{ContentBlock, Message, make_tool_result, estimate_all}

-- The counts are ints in the source; negative ones, with which it would read behind the end of its
-- vector of indices, are left out.
pub record Options : Type 0 where
  pub protect_recent : ℕ
  pub soft_prune_lines : ℕ
  pub hard_prune_after : ℕ
  pub max_tool_result_chars : ℕ
  pub context_window : ℤ
  pub max_tokens : ℤ

-- `static_cast<int>(context_window * ratio)`, and `static_cast<int>(x / (tokens / budget))`.
pub record Rounding : Type 0 where
  pub share : ℤ → ℤ
  pub shrunk : ℕ → ℤ → ℕ → ℤ

-- Over the budget the settings shrink, to their floors at most.
pub scaled : Rounding → ℕ → ℤ → Options → Options
scaled r tokens budget o = record o {
  max_tool_result_chars = max 200 (pos_part (r.shrunk tokens budget o.max_tool_result_chars));
  protect_recent = max 1 (pos_part (r.shrunk tokens budget o.protect_recent));
  hard_prune_after = max 3 (pos_part (r.shrunk tokens budget o.hard_prune_after));
}

unfoldable pub effective : Rounding → Options → List Message → Options
effective r o history =
    let budget = sub_ℤ (r.share o.context_window) o.max_tokens in
    if ltb_ℤ (pos 0) o.context_window
      && (ltb_ℤ (pos 0) budget && ltb_ℤ budget (pos (estimate_all history)))
    then scaled r (estimate_all history) budget o
    else o

-- The index of the first user message, counted from `i`.
unfoldable pub bootstrap_end : ℕ → List Message → Option ℕ
bootstrap_end i [] = none
bootstrap_end i (m ∷ messages) =
    let later = bootstrap_end (suc i) messages in
    if text_eq m.role (codes "user") then some i else later

unfoldable pub assistant_indices : ℕ → List Message → List ℕ
assistant_indices i [] = []
assistant_indices i (m ∷ messages) =
    let later = assistant_indices (suc i) messages in
    if text_eq m.role (codes "assistant") then i ∷ later else later

-- A threshold: `unset` is -1 in the code, `undefined` an index behind the end of the vector.
pub data Threshold : Type 0 where
  undefined unset : Threshold
  at : ℕ → Threshold

unfoldable pub threshold : List ℕ → ℕ → Threshold
threshold indices count =
    if ltb count (length indices) && not (is_empty indices)
    then elim (get_elem? indices (length indices - count)) [ none ↦ undefined | some i ↦ at i ]
    else unset

abbrev newline : ℕ
newline = 10

pub headed : List Text → Text
headed [] = []
headed (l ∷ lines) = l ++ (newline ∷ headed lines)

pub joined : List Text → Text
joined [] = []
joined (l ∷ []) = l
joined (l ∷ k ∷ lines) = l ++ (newline ∷ joined (k ∷ lines))

pub soft_prune : Text → ℕ → Text
soft_prune content keep =
    let lines = getline_tokens newline content in
    if leb (length lines) (keep * 2)
    then content
    else headed (take keep lines)
      ++ (codes "\n... ["
          ++ (to_string_ℕ (length lines - keep * 2)
              ++ (codes " lines omitted] ...\n\n" ++ joined (drop (length lines - keep) lines))))

-- "[Tool result omitted — older context]", its dash in UTF-8.
abbrev pub omitted : Text
omitted = codes "[Tool result omitted " ++ (0xe2 ∷ 0x80 ∷ 0x94 ∷ codes " older context]")

unfoldable pub is_tool_result : ContentBlock → Bool
is_tool_result b = text_eq b.kind (codes "tool_result")

unfoldable pub prune_block : Options → Bool → ContentBlock → ContentBlock
prune_block o hard b =
    if not (is_tool_result b)
    then b
    else if hard
    then make_tool_result b.tool_use_id omitted
    else if ltb o.max_tool_result_chars (length b.content)
    then make_tool_result b.tool_use_id (soft_prune b.content o.soft_prune_lines)
    else b

unfoldable pub prune_blocks : Options → Bool → List ContentBlock → List ContentBlock
prune_blocks o hard [] = []
prune_blocks o hard (b ∷ blocks) = prune_block o hard b ∷ prune_blocks o hard blocks

-- `i` is at the threshold or behind it, before it, or up to the first user message.
abbrev pub is_protected : Threshold → ℕ → Bool
is_protected (at t) i = leb t i
is_protected unset i = true
is_protected undefined i = true

abbrev pub is_before : Threshold → ℕ → Bool
is_before (at t) i = ltb i t
is_before unset i = false
is_before undefined i = false

abbrev pub is_bootstrap : Option ℕ → ℕ → Bool
is_bootstrap none i = false
is_bootstrap (some b) i = leb i b

unfoldable pub prune_message : Options → Threshold → Threshold → Option ℕ → ℕ → Message → Message
prune_message o protect hard boot i m =
    if not (any_of is_tool_result m.blocks) || (is_protected protect i || is_bootstrap boot i)
    then m
    else record m { blocks = prune_blocks o (is_before hard i) m.blocks }

unfoldable pub prune_from :
    Options → Threshold → Threshold → Option ℕ → ℕ → List Message → List Message
prune_from o protect hard boot i [] = []
prune_from o protect hard boot i (m ∷ messages) =
    prune_message o protect hard boot i m ∷ prune_from o protect hard boot (suc i) messages

unfoldable pub with_thresholds :
    Options → Threshold → Threshold → List Message → Option (List Message)
with_thresholds o undefined hard history = none
with_thresholds o unset undefined history = none
with_thresholds o (at t) undefined history = none
with_thresholds o unset unset history =
    some (prune_from o unset unset (bootstrap_end 0 history) 0 history)
with_thresholds o unset (at h) history =
    some (prune_from o unset (at h) (bootstrap_end 0 history) 0 history)
with_thresholds o (at t) unset history =
    some (prune_from o (at t) unset (bootstrap_end 0 history) 0 history)
with_thresholds o (at t) (at h) history =
    some (prune_from o (at t) (at h) (bootstrap_end 0 history) 0 history)

-- `none` where a threshold is read behind the end.
unfoldable pub prune : Rounding → Options → List Message → Option (List Message)
prune r o [] = some []
prune r o (m ∷ messages) =
    let e = effective r o (m ∷ messages) in
    let indices = assistant_indices 0 (m ∷ messages) in
    with_thresholds e (threshold indices e.protect_recent) (threshold indices e.hard_prune_after)
      (m ∷ messages)
