-- ===== src/Base/Json.antt =====
-- What the components ask of a JSON object; the JSON library itself is not modelled.
use mathlib.Core.List.{List}
use mathlib.Core.Option.{Option}
use qwen_claw.Base.Int.{ℤ}
use qwen_claw.Base.Text.{Text}

-- `value(key, fallback)` by type, `none` where it throws; and what stands under a key: `none` where
-- it is missing or no array, in which an item that is no string is `none`.
pub record JsonObject : Type 0 where
  pub text_value : Text → Text → Option Text
  pub int_value : Text → ℤ → Option ℤ
  pub items : Text → Option (List (Option Text))
