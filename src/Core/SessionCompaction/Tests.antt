-- ===== src/Core/SessionCompaction/Tests.antt =====
-- The theorems on sessions at three messages.
use qwen_claw.Base.{◌≡◌, refl, List, [], ◌∷◌, Option, none, some, arith}
use qwen_claw.Base.Int.{pos}
use qwen_claw.Base.Text.{Text, codes}
use qwen_claw.Core.SessionCompaction.{Options, Kept, original, compact, needs_compaction}
use qwen_claw.Core.SessionCompaction.Recent.{compact-recent}

abbrev options : Options
options = record { max_messages = pos 2; keep_recent = pos 1; max_tokens = pos 1000 }

abbrev session : List Text
session = codes "one" ∷ codes "two" ∷ codes "three" ∷ []

abbrev content : Text → Option Text
content s = some s

compact-recent_example :
    (head : Kept Text) × (compact content options (some (λ ms. none)) session
      ≡ some (head ∷ original (codes "three") ∷ []))
unfolding needs_compaction
compact-recent_example =
    compact-recent content options (some (λ ms. none)) session 1 refl refl (omega arith)
