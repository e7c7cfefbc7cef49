-- ===== src/Security/Glob.antt =====
-- security/exec_approval, the list of patterns: `ExecAllowlist` and its matcher.
pub mod Reference
pub mod Exact
pub mod Fuel
pub mod Stars
mod Tests
use qwen_claw.Base.{
  ℕ, zero, suc, ◌+◌, ◌*◌, ◌==◌, Bool, true, false, ◌||◌, List, [], ◌∷◌, ◌++◌, Option, none, some,
  any_of, drop, length, if◌then◌else◌,
}
use qwen_claw.Base.Text.{Text, is_empty}

-- `star_p` and `star_t`: the pattern after the last star passed, and the text after `star_t`;
-- `none` where `star_p` is `npos`.
abbrev pub Star : Type 0
Star = Option (Text × Text)

-- The loop after the text: skip stars.
unfoldable pub only_stars : Text → Bool
only_stars [] = true
only_stars (c ∷ p) = if c == b'*' then only_stars p else false

-- The loop of `glob_match`. `pattern` and `text` are what is left from `pi` and `ti`. `none` is
-- fuel that ran out.
unfoldable pub glob_loop : ℕ → Text → Text → Star → Option Bool
glob_loop zero pattern text star = none
glob_loop (suc fuel) pattern [] star = some (only_stars pattern)
glob_loop (suc fuel) [] (x ∷ text) none = some false
glob_loop (suc fuel) [] (x ∷ text) (some (p, t)) = glob_loop fuel p t (some (p, drop 1 t))
glob_loop (suc fuel) (c ∷ pattern) (x ∷ text) star = elim (c == x || c == b'?') [
  | true ↦ glob_loop fuel pattern text star
  | false ↦ elim (c == b'*') [
    | true ↦ glob_loop fuel pattern (x ∷ text) (some (pattern, text))
    | false ↦ elim star [
      | none ↦ some false
      | some (p, t) ↦ glob_loop fuel p t (some (p, drop 1 t))
    ]
  ]
]

-- The most rounds that the loop takes, and one for its end.
abbrev pub glob_fuel : Text → Text → ℕ
glob_fuel pattern text =
    (length text + 2) * (length pattern + length text + 1) + length pattern + length text + 1

unfoldable pub glob_match : Text → Text → Bool
glob_match pattern text = elim (glob_loop (glob_fuel pattern text) pattern text none) [
  | none ↦ false
  | some answer ↦ answer
]

-- `ExecAllowlist`
pub record ExecAllowlist : Type 0 where
  pub patterns : List Text

abbrev pub new_allowlist : ExecAllowlist
new_allowlist = record { patterns = [] }

unfoldable pub add_pattern : Text → ExecAllowlist → ExecAllowlist
add_pattern pattern l = record l { patterns = l.patterns ++ (pattern ∷ []) }

unfoldable pub matches : ExecAllowlist → Text → Bool
matches l command = any_of (λ pattern. glob_match pattern command) (l.patterns)
