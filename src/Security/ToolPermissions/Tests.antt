-- ===== src/Security/ToolPermissions/Tests.antt =====
-- The theorems on tool permissions at concrete lists of entries.
use qwen_claw.Base.{◌≡◌, not, ◌&&◌, ◌||◌, [], ◌∷◌, any_of}
use qwen_claw.Base.Text.{codes, is_empty}
use qwen_claw.Security.ToolPermissions.{ToolPermissionConfig, tool_permission_checker, is_allowed}
use qwen_claw.Security.ToolPermissions.Entries.{names_tool, allows_tool, is_allowed-entries}

abbrev config : ToolPermissionConfig
config = record {
  allow = codes "group:fs" ∷ codes "tool:exec" ∷ codes "mcp:*" ∷ [];
  deny = codes "tool:write" ∷ codes "mcp:*" ∷ [];
}

is_allowed-entries_example : is_allowed (tool_permission_checker config) (codes "write") ≡ (
    not (any_of (names_tool (codes "write")) (config.deny))
    && (is_empty (config.allow) || any_of (allows_tool (codes "write")) (config.allow)))
is_allowed-entries_example = is_allowed-entries config (codes "write")
