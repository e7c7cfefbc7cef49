-- ===== src/Security/ToolPermissions.antt =====
-- security/tool_permissions: which tools an agent may call, from lists of entries to allow and to
-- deny. A set of names is a list; only membership is used.
pub mod Entries
pub mod Mcp
mod Tests
use qwen_claw.Base.{
  Bool, true, false, ◌||◌, List, [], ◌∷◌, ◌++◌, none, some, any_of, drop, if◌then◌else◌,
}
use qwen_claw.Base.Text.{Text, codes, text_eq, starts_with, is_empty}
use qwen_claw.Base.Dict.{Dict, find}

-- `ToolPermissionConfig`
pub record ToolPermissionConfig : Type 0 where
  allow : List Text
  deny : List Text

pub record ToolPermissionChecker : Type 0 where
  allowed_tools : List Text
  denied_tools : List Text
  allowed_mcp : List Text
  denied_mcp : List Text
  allow_all : Bool
  mcp_allow_all : Bool

abbrev pub new_checker : ToolPermissionChecker
new_checker = record {
  allowed_tools = [];
  denied_tools = [];
  allowed_mcp = [];
  denied_mcp = [];
  allow_all = false;
  mcp_allow_all = false;
}

-- `kGroups`
abbrev pub groups : Dict (List Text)
groups =
    (codes "fs", codes "read" ∷ codes "write" ∷ codes "edit" ∷ [])
    ∷ (codes "runtime", codes "exec" ∷ [])
    ∷ (
      codes "all",
      codes "read" ∷ codes "write" ∷ codes "edit" ∷ codes "exec" ∷ codes "message" ∷ [],
    )
    ∷ []

-- The tools of a group; a name without a group adds none.
pub group_tools : Text → List Text
group_tools name = elim (find name groups) [ none ↦ [] | some tools ↦ tools ]

-- One round of the loop over the list to allow.
pub allow_entry : Text → ToolPermissionChecker → ToolPermissionChecker
allow_entry entry c =
    if starts_with (codes "group:") entry
    then record c {
      allow_all = text_eq (drop 6 entry) (codes "all") || c.allow_all;
      allowed_tools = group_tools (drop 6 entry) ++ c.allowed_tools;
    }
    else if starts_with (codes "tool:") entry
    then record c { allowed_tools = drop 5 entry ∷ c.allowed_tools }
    else if starts_with (codes "mcp:") entry
    then if text_eq (drop 4 entry) (codes "*")
      then record c { mcp_allow_all = true }
      else record c { allowed_mcp = drop 4 entry ∷ c.allowed_mcp }
    else c

-- One round of the loop over the list to deny.
pub deny_entry : Text → ToolPermissionChecker → ToolPermissionChecker
deny_entry entry c =
    if starts_with (codes "group:") entry
    then record c { denied_tools = group_tools (drop 6 entry) ++ c.denied_tools }
    else if starts_with (codes "tool:") entry
    then record c { denied_tools = drop 5 entry ∷ c.denied_tools }
    else if starts_with (codes "mcp:") entry
    then record c { denied_mcp = drop 4 entry ∷ c.denied_mcp }
    else c

pub allow_entries : List Text → ToolPermissionChecker → ToolPermissionChecker
allow_entries [] c = c
allow_entries (entry ∷ entries) c = allow_entries entries (allow_entry entry c)

pub deny_entries : List Text → ToolPermissionChecker → ToolPermissionChecker
deny_entries [] c = c
deny_entries (entry ∷ entries) c = deny_entries entries (deny_entry entry c)

-- The last step of the constructor: an empty list allows everything.
pub allow_if_empty : List Text → ToolPermissionChecker → ToolPermissionChecker
allow_if_empty allow c =
    if is_empty allow then record c { allow_all = true; mcp_allow_all = true } else c

-- The constructor.
pub tool_permission_checker : ToolPermissionConfig → ToolPermissionChecker
tool_permission_checker c =
    allow_if_empty (c.allow) (deny_entries (c.deny) (allow_entries (c.allow) new_checker))

-- `set.count(name)`
abbrev pub contains : List Text → Text → Bool
contains names name = any_of (λ t. text_eq t name) names

pub is_allowed : ToolPermissionChecker → Text → Bool
is_allowed c tool =
    if contains (c.denied_tools) tool
    then false
    else if c.allow_all || contains (c.allowed_tools) tool
    then true
    else false

pub is_mcp_tool_allowed : ToolPermissionChecker → Text → Text → Bool
is_mcp_tool_allowed c server tool =
    let exact = server ++ codes ":" ++ tool in
    let wildcard = server ++ codes ":*" in
    if contains (c.denied_mcp) exact || contains (c.denied_mcp) wildcard
    then false
    else if c.mcp_allow_all || contains (c.allowed_mcp) exact || contains (c.allowed_mcp) wildcard
    then true
    else false
