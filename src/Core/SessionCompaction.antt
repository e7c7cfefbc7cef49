-- ===== src/Core/SessionCompaction.antt =====
-- core/session_compaction: a session's messages, shortened to a summary and the most recent ones. A
-- message is a JSON value of any type `J`, of which the code reads the text under "content".
pub mod Recent
mod Tests
use qwen_claw.Base.{
  ℕ, suc, ◌+◌, ◌-◌, ◌/◌, min, Bool, true, false, not, ◌||◌, List, [], ◌∷◌, ◌++◌, map, Option, none,
  some, length, take, drop, ltb, leb, if◌then◌else◌,
}
use qwen_claw.Base.Int.{ℤ, pos, negsuc, ltb_ℤ}
use qwen_claw.Base.Text.{Text, codes, is_empty}

pub record Options : Type 0 where
  pub max_messages : ℤ
  pub keep_recent : ℤ
  pub max_tokens : ℤ

-- A message of the result: one of the session's, the summary of some, or the note that some are gone.
pub data Kept (J : Type 0) : Type 0 where
  original : J → Kept J
  summary_of : Text → ℕ → Kept J
  removed : ℕ → Kept J

pub chars : {J : Type 0} → (J → Option Text) → List J → ℕ
chars content [] = 0
chars content (m ∷ messages) = elim (content m) [
  | none ↦ chars content messages
  | some s ↦ length s + chars content messages
]

pub estimate_session : {J : Type 0} → (J → Option Text) → List J → ℕ
estimate_session content messages = chars content messages / 4

unfoldable pub needs_compaction : {J : Type 0} → (J → Option Text) → Options → List J → Bool
needs_compaction content o messages =
    ltb_ℤ o.max_messages (pos (length messages))
    || ltb_ℤ o.max_tokens (pos (estimate_session content messages))

-- With `keep` of a nonnegative setting.
pub truncate_to : {J : Type 0} → ℕ → List J → List (Kept J)
truncate_to k messages =
    let keep = min k (length messages) in
    if leb (length messages) keep
    then map original messages
    else removed (length messages - keep) ∷ map original (drop (length messages - keep) messages)

-- `none`: a negative setting makes an iterator behind the end, which is undefined.
pub truncate : {J : Type 0} → Options → List J → Option (List (Kept J))
truncate o messages = elim o.keep_recent [ pos k ↦ some (truncate_to k messages) | negsuc n ↦ none ]

-- A summary function is an argument; it returns `none` where it throws.
pub summarized : {J : Type 0} → Option (List J → Option Text) → List J → Option Text
summarized none messages = some []
summarized (some f) messages = f messages

-- The first `cut` messages replaced by their summary.
pub replaced : {J : Type 0} → Option (List J → Option Text) → ℕ → ℕ → List J → List (Kept J)
replaced f k cut messages = elim (summarized f (take cut messages)) [
  | none ↦ truncate_to k messages
  | some summary ↦
      if is_empty summary
      then truncate_to k messages
      else summary_of (codes "[Compacted conversation summary]\n" ++ summary) cut
        ∷ map original (drop cut messages)
]

pub compact_to : {J : Type 0} → Option (List J → Option Text) → ℕ → List J → List (Kept J)
compact_to f k messages =
    let cut = length messages - min k (length messages) in
    if leb cut 0 then map original messages else replaced f k cut messages

pub compact :
    {J : Type 0}
    → (J → Option Text)
    → Options
    → Option (List J → Option Text)
    → List J
    → Option (List (Kept J))
compact content o f messages =
    if not (needs_compaction content o messages)
    then some (map original messages)
    else elim o.keep_recent [ pos k ↦ some (compact_to f k messages) | negsuc n ↦ none ]
