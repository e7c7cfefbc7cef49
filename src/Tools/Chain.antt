-- ===== src/Tools/Chain.antt =====
-- tools/tool_chain: tools called one after the other, with the results of earlier steps in the
-- arguments. The executor of a tool is an argument, with a state of its own, `W`.
pub mod Policies
pub mod Templates
mod Tests
use qwen_claw.Base.{
  ℕ, zero, suc, ◌+◌, ◌-◌, Bool, true, false, not, ◌&&◌, ◌||◌, List, [], ◌∷◌, ◌++◌, Option, none,
  some, length, drop, get_elem?, if◌then◌else◌, ◌>>=◌,
}
use qwen_claw.Base.Int.{ℤ, pos, negsuc, pos_part}
use qwen_claw.Base.Text.{Text, codes, text_eq, is_empty, starts_with}
use qwen_claw.Base.Decimal.{is_digit, stoi, to_string_ℕ}
use qwen_claw.Base.Json.{JsonObject}

-- A JSON value as the templates see it: its strings, its containers, and scalars, left as they are.
mutual
  pub data Json : Type 0 where
    string_value : Text → Json
    object : Fields → Json
    array : Items → Json
    scalar : Text → Json

  pub data Fields : Type 0 where
    no_fields : Fields
    field : Text → Json → Fields → Fields

  pub data Items : Type 0 where
    no_items : Items
    item : Json → Items → Items

pub record ChainStep : Type 0 where
  pub tool_name : Text
  pub arguments : Json

pub data ChainErrorPolicy : Type 0 where
  stop_on_error continue_on_error retry : ChainErrorPolicy

pub record ToolChain : Type 0 where
  pub name : Text
  pub steps : List ChainStep
  pub error_policy : ChainErrorPolicy
  pub max_retries : ℤ

pub record ChainStepResult : Type 0 where
  pub step_index : ℕ
  pub tool_name : Text
  pub result : Text
  pub error : Text
  pub success : Bool

pub record ChainResult : Type 0 where
  pub chain_name : Text
  pub step_results : List ChainStepResult
  pub success : Bool
  pub final_result : Text

abbrev pub prev_token : Text
prev_token = codes "{{prev.result}}"

unfoldable pub last_result : List ChainStepResult → Text
last_result [] = []
last_result (r ∷ []) = r.result
last_result (r ∷ s ∷ results) = last_result (s ∷ results)

-- Every token from the left replaced; the first argument counts the bytes of a token still to pass.
pub replace_prev : Text → ℕ → Text → Text
replace_prev replacement skip [] = []
replace_prev replacement (suc skip) (c ∷ s) = replace_prev replacement skip s
replace_prev replacement zero (c ∷ s) =
    let past = replace_prev replacement (length prev_token - 1) s in
    let plain = replace_prev replacement zero s in
    if starts_with prev_token (c ∷ s) then replacement ++ past else c ∷ plain

pub leading_digits : Text → Text
leading_digits [] = []
leading_digits (c ∷ s) = let rest = leading_digits s in if is_digit c then c ∷ rest else []

abbrev step_open : Text
step_open = codes "{{steps["

abbrev step_close : Text
step_close = codes "].result}}"

-- The regular expression at the front of the text: the digits, and the length of the match.
pub step_reference : Text → Option (Text × ℕ)
step_reference s =
    let digits = leading_digits (drop (length step_open) s) in
    if starts_with step_open s
      && (not (is_empty digits)
          && starts_with step_close (drop (length step_open + length digits) s))
    then some (digits, length step_open + length digits + length step_close)
    else none

pub step_text : List ChainStepResult → ℤ → Text
step_text results (negsuc n) = []
step_text results (pos i) = elim (get_elem? results i) [ none ↦ [] | some r ↦ r.result ]

-- Every reference from the left replaced; `none` where a number is too large for `std::stoi`.
pub replace_steps : List ChainStepResult → ℕ → Text → Option Text
replace_steps results skip [] = some []
replace_steps results (suc skip) (c ∷ s) = replace_steps results skip s
replace_steps results zero (c ∷ s) =
    let plain = replace_steps results zero s in
    elim (step_reference (c ∷ s)) [
      | none ↦ plain >>= λ t. some (c ∷ t)
      | some (digits, n) ↦ stoi digits >>= λ i.
          replace_steps results (n - 1) s >>= λ t. some (step_text results i ++ t)
    ]

pub resolve_string : Text → List ChainStepResult → Option Text
resolve_string template results =
    replace_steps results zero (replace_prev (last_result results) zero template)

unfoldable mutual
  pub resolve : Json → List ChainStepResult → Option Json
  resolve (string_value s) results = resolve_string s results >>= λ t. some (string_value t)
  resolve (object fields) results = resolve_fields fields results >>= λ f. some (object f)
  resolve (array items) results = resolve_items items results >>= λ i. some (array i)
  resolve (scalar s) results = some (scalar s)

  pub resolve_fields : Fields → List ChainStepResult → Option Fields
  resolve_fields no_fields results = some no_fields
  resolve_fields (field key value fields) results =
      resolve value results >>= λ v. resolve_fields fields results >>= λ f. some (field key v f)

  pub resolve_items : Items → List ChainStepResult → Option Items
  resolve_items no_items results = some no_items
  resolve_items (item value items) results =
      resolve value results >>= λ v. resolve_items items results >>= λ i. some (item v i)

-- What a tool comes back with: its text, or the text of an exception.
pub data Outcome : Type 0 where
  returned threw : Text → Outcome

abbrev pub Executor : Type 0 → Type 0
Executor W = Text → Json → W → Outcome × W

abbrev pub max_attempts : ToolChain → ℕ
max_attempts chain = elim chain.error_policy [
  | retry ↦ pos_part chain.max_retries
  | stop_on_error ↦ 1
  | continue_on_error ↦ 1
]

abbrev pub continues : ChainErrorPolicy → Bool
continues stop_on_error = false
continues continue_on_error = true
continues retry = false

pub last_success : List ChainStepResult → Text → Text
last_success [] found = found
last_success (r ∷ results) found = last_success results (if r.success then r.result else found)

abbrev pub new_result : ℕ → Text → ChainStepResult
new_result i tool = record {
  step_index = i;
  tool_name = tool;
  result = [];
  error = [];
  success = false;
}

-- The end of the loop, and a stop at step `i`.
abbrev pub finished : ToolChain → List ChainStepResult → Bool → ChainResult
finished chain results ok = record {
  chain_name = chain.name;
  step_results = results;
  success = ok;
  final_result = last_success results [];
}

abbrev pub stopped : ToolChain → ℕ → List ChainStepResult → Text → ChainResult
stopped chain i results e = record {
  chain_name = chain.name;
  step_results = results;
  success = false;
  final_result = codes "Chain stopped at step " ++ (to_string_ℕ i ++ (codes ": " ++ e));
}

module _ {W : Type 0} where
  -- The attempts left, on what the last one left behind.
  unfoldable pub try_step : Executor W → Text → Json → ℕ → ChainStepResult → W → ChainStepResult × W
  try_step executor tool arguments zero r w = (r, w)
  try_step executor tool arguments (suc n) r w =
      let o = executor tool arguments w in
      elim o.0 [
        | returned s ↦ (record r { result = s; success = true; error = [] }, o.1)
        | threw e ↦ try_step executor tool arguments n (record r { error = e }) o.1
      ]

  -- The loop over the steps from number `i` on, with the results so far and whether all succeeded.
  unfoldable pub run_steps :
      Executor W
      → ToolChain
      → ℕ
      → List ChainStepResult
      → Bool
      → List ChainStep
      → W
      → Option (ChainResult × W)
  run_steps executor chain i results ok [] w = some (finished chain results ok, w)
  run_steps executor chain i results ok (step ∷ steps) w =
      resolve step.arguments results >>= λ arguments.
      let t =
        try_step executor step.tool_name arguments (max_attempts chain)
          (new_result i step.tool_name) w in
      let all = results ++ (t.0 ∷ []) in
      let rest =
        run_steps executor chain (suc i) all (if t.0.success then ok else false) steps t.1 in
      if t.0.success || continues chain.error_policy
      then rest
      else some (stopped chain i all t.0.error, t.1)

  unfoldable pub execute : Executor W → ToolChain → W → Option (ChainResult × W)
  execute executor chain w = run_steps executor chain 0 [] true chain.steps w

pub policy_from_string : Text → ChainErrorPolicy
policy_from_string s =
    if text_eq s (codes "continue_on_error")
    then continue_on_error
    else if text_eq s (codes "retry")
    then retry
    else stop_on_error

-- `none` where a setting has the wrong type, which throws. `steps` are read from the array by the JSON
-- library. The description of a chain, which nothing reads, is left out.
pub parse_chain : JsonObject → Option (List ChainStep) → Option ToolChain
parse_chain j steps = do
  name ← j.text_value (codes "name") (codes "unnamed-chain")
  policy ← j.text_value (codes "error_policy") (codes "stop_on_error")
  retries ← j.int_value (codes "max_retries") (pos 1)
  list ← steps
  some record {
    name = name;
    steps = list;
    error_policy = policy_from_string policy;
    max_retries = retries;
  }
