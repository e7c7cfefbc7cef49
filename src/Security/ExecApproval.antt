-- ===== src/Security/ExecApproval.antt =====
-- security/exec_approval: a command waits for an approval unless the configuration approves it.
-- The clock and the random request ids are arguments; the handler is the function that
-- `SetApprovalHandler` stores, `none` where none is set; it answers `none` where it throws.
pub mod Decisions
pub mod Pending
mod Tests
use qwen_claw.Base.{
  ℕ, ◌+◌, ◌-◌, ◌*◌, leb, Bool, true, false, List, [], ◌∷◌, ◌++◌, Option, none, some, if◌then◌else◌,
}
use qwen_claw.Base.Int.{ℤ, pos, negsuc}
use qwen_claw.Base.Text.{Text, codes, text_eq}
use qwen_claw.Base.Dict.{Dict, find, insert, erase}
use qwen_claw.Security.Glob.{ExecAllowlist, add_pattern, matches, new_allowlist}

pub data AskMode : Type 0 where
  off on_miss always : AskMode

pub ask_mode_from_string : Text → AskMode
ask_mode_from_string s =
    if text_eq s (codes "off") then off else if text_eq s (codes "always") then always else on_miss

pub ask_mode_to_string : AskMode → Text
ask_mode_to_string off = codes "off"
ask_mode_to_string always = codes "always"
ask_mode_to_string on_miss = codes "on-miss"

pub data ApprovalDecision : Type 0 where
  approved denied timeout pending : ApprovalDecision

pub approval_decision_to_string : ApprovalDecision → Text
approval_decision_to_string approved = codes "approved"
approval_decision_to_string denied = codes "denied"
approval_decision_to_string timeout = codes "timeout"
approval_decision_to_string pending = codes "pending"

-- Times are nanoseconds of the steady clock.
pub record ApprovalRequest : Type 0 where
  id : Text
  command : Text
  cwd : Text
  agent_id : Text
  session_key : Text
  security_note : Text
  created_at : ℕ
  expires_at : ℕ

pub record ApprovalResolved : Type 0 where
  id : Text
  decision : ApprovalDecision
  resolved_by : Text
  resolved_at : ℕ

pub record ExecApprovalConfig : Type 0 where
  ask : AskMode
  timeout_seconds : ℤ
  timeout_fallback : ApprovalDecision
  allowlist : List Text
  approval_notice_ms : ℤ

abbrev pub Handler : Type 0
Handler = Option (ApprovalRequest → Option ApprovalDecision)

pub record ExecApprovalManager : Type 0 where
  config : ExecApprovalConfig
  allowlist : ExecAllowlist
  approval_handler : Handler
  pending : Dict ApprovalRequest
  resolved : List ApprovalResolved

-- The loop of `Configure`.
pub add_patterns : List Text → ExecAllowlist → ExecAllowlist
add_patterns [] l = l
add_patterns (pattern ∷ patterns) l = add_patterns patterns (add_pattern pattern l)

pub configure : ExecApprovalConfig → ExecApprovalManager → ExecApprovalManager
configure config m = record m {
  config = config;
  allowlist = add_patterns (config.allowlist) new_allowlist;
}

pub set_approval_handler : Handler → ExecApprovalManager → ExecApprovalManager
set_approval_handler handler m = record m { approval_handler = handler }

-- `Resolve`: false, and nothing is changed, for an id that is not pending.
pub resolve : Text → ApprovalDecision → Text → ℕ → ExecApprovalManager → Bool × ExecApprovalManager
resolve request_id decision resolved_by now m = elim (find request_id (m.pending)) [
  | none ↦ (false, m)
  | some request ↦ (
    true,
    record m {
      resolved =
          m.resolved
          ++ record {
            id = request_id;
            decision = decision;
            resolved_by = resolved_by;
            resolved_at = now;
          }
            ∷ [];
      pending = erase request_id (m.pending);
    },
  )
]

abbrev pub nanoseconds : ℕ
nanoseconds = 1000000000

-- `now + std::chrono::seconds(seconds)`; a time before the clock's start counts as its start, which
-- has passed as well.
abbrev pub after_seconds : ℕ → ℤ → ℕ
after_seconds now (pos n) = now + n * nanoseconds
after_seconds now (negsuc n) = now - (n + 1) * nanoseconds

-- The fallback where an answer is pending.
abbrev pub or_fallback : ExecApprovalManager → ApprovalDecision → ApprovalDecision
or_fallback m pending = m.config.timeout_fallback
or_fallback m approved = approved
or_fallback m denied = denied
or_fallback m timeout = timeout

-- The handler's answer, or the fallback; `none` where the handler throws.
pub decide : ExecApprovalManager → ApprovalRequest → Option ApprovalDecision
decide m request = elim m.approval_handler [
  | none ↦ some m.config.timeout_fallback
  | some handler ↦ elim (handler request) [
    | none ↦ none
    | some answer ↦ some (or_fallback m answer)
  ]
]

-- The first two returns of `RequestApproval`.
pub is_approved_at_once : ExecApprovalManager → Text → Bool
is_approved_at_once m command = elim m.config.ask [
  | off ↦ true
  | on_miss ↦ matches (m.allowlist) command
  | always ↦ false
]

-- The request that `RequestApproval` stores.
abbrev pub new_request :
    Text → ℕ → Text → Text → Text → Text → ExecApprovalManager → ApprovalRequest
new_request id now command cwd agent_id session_key m = record {
  id = id;
  command = command;
  cwd = cwd;
  agent_id = agent_id;
  session_key = session_key;
  security_note = [];
  created_at = now;
  expires_at = after_seconds now (m.config.timeout_seconds);
}

-- `RequestApproval`, with the id that `generate_request_id` gives, and the clock at the request and
-- at its resolution; `none` where the handler throws, and then the request stays.
pub request_approval :
    Text
    → ℕ
    → ℕ
    → Text
    → Text
    → Text
    → Text
    → ExecApprovalManager
    → Option ApprovalDecision × ExecApprovalManager
request_approval id now later command cwd agent_id session_key m =
    if is_approved_at_once m command
    then (some approved, m)
    else let request = new_request id now command cwd agent_id session_key m in
      let asked = record m { pending = insert id request (m.pending) } in
      elim (decide asked request) [
        | none ↦ (none, asked)
        | some decision ↦ (some decision, (resolve id decision (codes "auto") later asked).1)
      ]

-- The ids that `PruneExpired` collects.
pub expired_ids : ℕ → Dict ApprovalRequest → List Text
expired_ids now [] = []
expired_ids now ((id, request) ∷ requests) =
    if leb (request.expires_at) now then id ∷ expired_ids now requests else expired_ids now requests

pub expire_all : ℕ → List Text → ExecApprovalManager → ExecApprovalManager
expire_all now [] m = m
expire_all now (id ∷ ids) m = expire_all now ids (record m {
  resolved =
      m.resolved
      ++ record { id = id; decision = timeout; resolved_by = codes "system"; resolved_at = now }
        ∷ [];
  pending = erase id (m.pending);
})

pub prune_expired : ℕ → ExecApprovalManager → ExecApprovalManager
prune_expired now m = expire_all now (expired_ids now (m.pending)) m
