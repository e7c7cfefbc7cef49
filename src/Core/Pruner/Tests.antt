-- ===== src/Core/Pruner/Tests.antt =====
-- The theorems on pruning at a conversation with two old tool results.
use qwen_claw.Base.{◌≡◌, refl, List, [], ◌∷◌, map, some, arith, get_elem?, take, drop}
use qwen_claw.Base.Int.{pos}
use qwen_claw.Base.Text.{Text, codes, text_eq}
use qwen_claw.Core.Messages.{Message, text_message, make_tool_result}
use qwen_claw.Core.Pruner.{
  Options, Rounding, prune, effective, is_tool_result, prune_block, prune_blocks, omitted,
}
use qwen_claw.Core.Pruner.Shape.{shape, prune-shape}
use qwen_claw.Core.Pruner.Spared.{pruned, prune-spared}

abbrev options : Options
options = record {
  protect_recent = 1;
  soft_prune_lines = 5;
  hard_prune_after = 2;
  max_tool_result_chars = 2000;
  context_window = pos 0;
  max_tokens = pos 8192;
}

abbrev rounding : Rounding
rounding = record { share = λ w. w; shrunk = λ tokens budget n. pos n }

abbrev result : Text → Message
result id = record { role = codes "user"; blocks = make_tool_result id (codes "42") ∷ [] }

abbrev talk : List Message
talk =
    text_message (codes "user") (codes "hi")
    ∷ text_message (codes "assistant") (codes "a")
    ∷ result (codes "t1")
    ∷ text_message (codes "assistant") (codes "b")
    ∷ text_message (codes "assistant") (codes "c")
    ∷ []

prune-shape_example :
    (out : List Message) × (prune rounding options talk ≡ some out)
    × (map shape out ≡ map shape talk)
prune-shape_example = prune-shape rounding options talk (omega arith) (omega arith)

prune-spared_example :
    (out : List Message) × (prune rounding options talk ≡ some out)
    × (get_elem? out 2
        ≡ some (
            pruned
              (effective rounding options talk)
              talk
              (take 2 talk)
              (result (codes "t1"))
              (drop 3 talk)))
prune-spared_example =
    prune-spared rounding options (take 2 talk) (result (codes "t1")) (drop 3 talk) (omega arith)
      (omega arith)

-- The old result is left out.
old_result :
    pruned (effective rounding options talk) talk (take 2 talk) (result (codes "t1")) (drop 3 talk)
    ≡ record { role = codes "user"; blocks = make_tool_result (codes "t1") omitted ∷ [] }
unfolding effective is_tool_result prune_blocks prune_block text_eq
old_result = refl
