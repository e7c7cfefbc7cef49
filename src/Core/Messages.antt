-- ===== src/Core/Messages.antt =====
-- core/content_block and the messages of a conversation, with the token estimate of
-- core/context_pruner. Sizes are below 2 ^ 31, so that a cast to `int` keeps them.
use qwen_claw.Base.{ℕ, ◌+◌, ◌/◌, List, [], ◌∷◌, Option, none, some, length, if◌then◌else◌}
use qwen_claw.Base.Text.{Text, codes, is_empty}

-- `input` is the printed JSON of a tool's arguments, `none` where it is null.
pub record ContentBlock : Type 0 where
  pub kind : Text
  pub text : Text
  pub id : Text
  pub name : Text
  pub input : Option Text
  pub tool_use_id : Text
  pub content : Text

pub record Message : Type 0 where
  pub role : Text
  pub blocks : List ContentBlock

abbrev pub make_text : Text → ContentBlock
make_text s = record {
  kind = codes "text";
  text = s;
  id = [];
  name = [];
  input = none;
  tool_use_id = [];
  content = [];
}

abbrev pub make_tool_result : Text → Text → ContentBlock
make_tool_result use_id s = record {
  kind = codes "tool_result";
  text = [];
  id = [];
  name = [];
  input = none;
  tool_use_id = use_id;
  content = s;
}

-- `Message(role, text)`
abbrev pub text_message : Text → Text → Message
text_message r s = record { role = r; blocks = if is_empty s then [] else make_text s ∷ [] }

abbrev pub input_size : Option Text → ℕ
input_size none = 0
input_size (some s) = length s

pub block_chars : List ContentBlock → ℕ
block_chars [] = 0
block_chars (b ∷ blocks) =
    length b.text + length b.content + input_size b.input + block_chars blocks

unfoldable pub estimate_tokens : Message → ℕ
estimate_tokens m = (length m.role + block_chars m.blocks) / 4

unfoldable pub estimate_all : List Message → ℕ
estimate_all [] = 0
estimate_all (m ∷ messages) = estimate_tokens m + estimate_all messages
