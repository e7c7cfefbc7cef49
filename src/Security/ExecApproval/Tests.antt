-- ===== src/Security/ExecApproval/Tests.antt =====
-- The theorems on approvals at a concrete configuration.
use qwen_claw.Base.{◌≡◌, refl, true, none, some, ◌&&◌, if◌then◌else◌, [], ◌∷◌, any_of}
use qwen_claw.Base.Int.{pos}
use qwen_claw.Base.Text.{codes, text_eq}
use qwen_claw.Base.Dict.{find}
use qwen_claw.Security.Glob.{new_allowlist, matches, add_pattern, glob_match, glob_loop, only_stars}
use qwen_claw.Security.Glob.Reference.{glob_holds}
use qwen_claw.Security.ExecApproval.{
  on_miss, approved, denied, ApprovalRequest, ExecApprovalConfig, ExecApprovalManager, configure,
  request_approval, new_request, decide, is_approved_at_once, add_patterns,
}
use qwen_claw.Security.ExecApproval.Decisions.{request_approval-listed}
use qwen_claw.Security.ExecApproval.Pending.{threw, request_approval-settled}

abbrev config : ExecApprovalConfig
config = record {
  ask = on_miss;
  timeout_seconds = pos 120;
  timeout_fallback = denied;
  allowlist = codes "ls*" ∷ [];
  approval_notice_ms = pos 5000;
}

abbrev request : ApprovalRequest
request = record {
  id = codes "r1";
  command = codes "rm";
  cwd = [];
  agent_id = [];
  session_key = [];
  security_note = [];
  created_at = 0;
  expires_at = 120_000_000_000;
}

abbrev manager : ExecApprovalManager
manager = record {
  config = config;
  allowlist = new_allowlist;
  approval_handler = none;
  pending = (codes "r1", request) ∷ [];
  resolved = [];
}

-- With a handler that throws, the request stays.
abbrev broken : ExecApprovalManager
broken = record manager { approval_handler = some (λ r. none) }

request_approval-settled_example :
    let out = request_approval (codes "r2") 5 6 (codes "rm") [] [] [] broken in
    find (codes "r2") (out.1.pending) ≡ (
      if threw out.0 && text_eq (codes "r2") (codes "r2")
      then some (new_request (codes "r2") 5 (codes "rm") [] [] [] broken)
      else find (codes "r2") (broken.pending))
unfolding find text_eq
request_approval-settled_example =
    request_approval-settled (codes "r2") 5 6 (codes "rm") [] [] [] broken (codes "r2") refl

request_stays : threw (request_approval (codes "r2") 5 6 (codes "rm") [] [] [] broken).0 ≡ true
unfolding request_approval is_approved_at_once decide matches glob_match glob_loop only_stars
request_stays = refl

listed :
    (request_approval (codes "r2") 5 6 (codes "lsx") [] [] [] (configure config manager)).0
    ≡ some approved
unfolding request_approval is_approved_at_once configure add_patterns add_pattern matches glob_match
    glob_loop only_stars
listed = refl

request_approval-listed_example : any_of (λ p. glob_holds p (codes "lsx")) (codes "ls*" ∷ []) ≡ true
request_approval-listed_example =
    request_approval-listed config (codes "r2") 5 6 (codes "lsx") [] [] [] manager refl refl refl
      listed
