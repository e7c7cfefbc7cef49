-- ===== src/Security/ToolPermissions/Mcp.antt =====
-- What the entries for tools of MCP servers mean, and that the checker answers by them.
use qwen_claw.Base.{
  ◌≡◌, ◌∙◌, refl, sym, ap, Bool, true, false, not, ◌&&◌, ◌||◌, List, [], ◌∷◌, ◌++◌, arith, any_of,
}
use qwen_claw.Base.Text.{Text, codes, text_eq, is_empty, starts_with}
use qwen_claw.Security.ToolPermissions.{
  ToolPermissionConfig, ToolPermissionChecker, new_checker, allow_entry, deny_entry, allow_entries,
  deny_entries, allow_if_empty, tool_permission_checker, contains, is_mcp_tool_allowed,
}
use qwen_claw.Security.ToolPermissions.Entries.{
  text_eq-append, or_false, deny-keeps, allow-keeps, allow_if_empty-denied,
}

-- An entry names a tool of a server when it is `mcp:server:tool` or `mcp:server:*`.
unfoldable pub names_mcp : Text → Text → Text → Bool
names_mcp server tool entry =
    text_eq entry (codes "mcp:" ++ server ++ codes ":" ++ tool)
    || text_eq entry (codes "mcp:" ++ server ++ codes ":*")

mcp-no_other :
    (entry : Text)
    → starts_with (codes "mcp:") entry ≡ true
    → (starts_with (codes "group:") entry ≡ false) × (starts_with (codes "tool:") entry ≡ false)
unfolding starts_with
mcp-no_other [] h = (refl, refl)
mcp-no_other (x ∷ entry) h = ground (arith, h)

denied-entry :
    (entry : Text) (c : ToolPermissionChecker) (spec : Text)
    → contains ((deny_entry entry c).denied_mcp) spec
      ≡ (text_eq entry (codes "mcp:" ++ spec) || contains (c.denied_mcp) spec)
unfolding deny_entry
denied-entry entry c spec =
    ground (arith, mcp-no_other entry, text_eq-append (codes "mcp:") spec entry)

denied-entries :
    (entries : List Text) (c : ToolPermissionChecker) (spec : Text)
    → contains ((deny_entries entries c).denied_mcp) spec
      ≡ (any_of (λ e. text_eq e (codes "mcp:" ++ spec)) entries || contains (c.denied_mcp) spec)
unfolding deny_entries
denied-entries [] c spec = refl
denied-entries (entry ∷ entries) c spec =
    denied-entries entries (deny_entry entry c) spec ∙ ground (arith, denied-entry entry c spec)

-- The test of `is_mcp_tool_allowed` after those for the denied names.
abbrev permits : ToolPermissionChecker → Text → Text → Bool
permits c exact wildcard =
    c.mcp_allow_all || contains (c.allowed_mcp) exact || contains (c.allowed_mcp) wildcard

-- An entry allows one of two names, or every name.
abbrev allows_mcp : Text → Text → Text → Bool
allows_mcp exact wildcard entry =
    text_eq entry (codes "mcp:*")
    || text_eq entry (codes "mcp:" ++ exact)
    || text_eq entry (codes "mcp:" ++ wildcard)

allow-entry :
    (entry : Text) (c : ToolPermissionChecker) (exact wildcard : Text)
    → permits (allow_entry entry c) exact wildcard
      ≡ (allows_mcp exact wildcard entry || permits c exact wildcard)
unfolding allow_entry
allow-entry entry c exact wildcard = ground (
  arith,
  mcp-no_other entry,
  text_eq-append (codes "mcp:") (codes "*") entry,
  text_eq-append (codes "mcp:") exact entry,
  text_eq-append (codes "mcp:") wildcard entry,
)

allow-entries :
    (entries : List Text) (c : ToolPermissionChecker) (exact wildcard : Text)
    → permits (allow_entries entries c) exact wildcard
      ≡ (any_of (allows_mcp exact wildcard) entries || permits c exact wildcard)
unfolding allow_entries
allow-entries [] c exact wildcard = refl
allow-entries (entry ∷ entries) c exact wildcard =
    allow-entries entries (allow_entry entry c) exact wildcard
    ∙ ground (arith, allow-entry entry c exact wildcard)

allow_if_empty-permits :
    (allow : List Text) (c : ToolPermissionChecker) (exact wildcard : Text)
    → permits (allow_if_empty allow c) exact wildcard ≡ (is_empty allow || permits c exact wildcard)
unfolding allow_if_empty
allow_if_empty-permits [] c exact wildcard = refl
allow_if_empty-permits (entry ∷ allow) c exact wildcard = refl

checker-denied :
    (c : ToolPermissionConfig) (spec : Text)
    → contains ((tool_permission_checker c).denied_mcp) spec
      ≡ any_of (λ e. text_eq e (codes "mcp:" ++ spec)) (c.deny)
unfolding tool_permission_checker
checker-denied c spec =
    let allowed = allow_entries (c.allow) new_checker in
    let denied = any_of (λ e. text_eq e (codes "mcp:" ++ spec)) (c.deny) in
    ap (λ names. contains names spec)
      (allow_if_empty-denied (c.allow) (deny_entries (c.deny) allowed)).1
    ∙ denied-entries (c.deny) allowed spec
    ∙ ap (λ names. denied || contains names spec) (allow-keeps (c.allow) new_checker).1
    ∙ or_false denied

checker-permits :
    (c : ToolPermissionConfig) (exact wildcard : Text)
    → permits (tool_permission_checker c) exact wildcard
      ≡ (is_empty (c.allow) || any_of (allows_mcp exact wildcard) (c.allow))
unfolding tool_permission_checker
checker-permits c exact wildcard =
    let allowed = allow_entries (c.allow) new_checker in
    let kept = deny-keeps (c.deny) allowed in
    allow_if_empty-permits (c.allow) (deny_entries (c.deny) allowed) exact wildcard
    ∙ ap
        (λ b.
          is_empty (c.allow)
          || (b
              || contains ((deny_entries (c.deny) allowed).allowed_mcp) exact
              || contains ((deny_entries (c.deny) allowed).allowed_mcp) wildcard))
        (kept.2)
    ∙ ap
        (λ names.
          is_empty (c.allow)
          || (allowed.mcp_allow_all || contains names exact || contains names wildcard))
        (kept.3)
    ∙ ap (λ b. is_empty (c.allow) || b)
        (allow-entries (c.allow) new_checker exact wildcard
          ∙ or_false (any_of (allows_mcp exact wildcard) (c.allow)))

any_of-or :
    (p q : Text → Bool) (xs : List Text)
    → any_of (λ x. p x || q x) xs ≡ (any_of p xs || any_of q xs)
any_of-or p q [] = refl
any_of-or p q (x ∷ xs) = ground (arith, any_of-or p q xs)

-- A tool of a server is allowed when no entry to deny is `mcp:server:tool` or `mcp:server:*`, and
-- the list to allow is empty or has one of those or `mcp:*`.
pub is_mcp_tool_allowed-entries :
    (c : ToolPermissionConfig) (server tool : Text)
    → is_mcp_tool_allowed (tool_permission_checker c) server tool ≡ (
        not (any_of (names_mcp server tool) (c.deny))
        && (is_empty (c.allow)
            || any_of (λ e. text_eq e (codes "mcp:*") || names_mcp server tool e) (c.allow)))
unfolding is_mcp_tool_allowed names_mcp
is_mcp_tool_allowed-entries c server tool =
    let exact = server ++ codes ":" ++ tool in
    let wildcard = server ++ codes ":*" in
    ground (
      arith,
      checker-denied c exact,
      checker-denied c wildcard,
      checker-permits c exact wildcard,
      any_of-or (λ e. text_eq e (codes "mcp:" ++ exact)) (λ e. text_eq e (codes "mcp:" ++ wildcard))
          (c.deny),
    )

-- No tool of a server is named by `mcp:*`.
names_mcp-star : (server tool : Text) → names_mcp server tool (codes "mcp:*") ≡ false
unfolding names_mcp text_eq
names_mcp-star [] tool = refl
names_mcp-star (x ∷ []) tool = ground arith
names_mcp-star (x ∷ y ∷ server) tool = ground arith

-- To deny `mcp:*` denies nothing: the answers are those without the entry.
pub is_mcp_tool_allowed-deny_star :
    (allow deny : List Text) (server tool : Text)
    → is_mcp_tool_allowed
        (tool_permission_checker (record { allow = allow; deny = codes "mcp:*" ∷ deny }))
        server
        tool
      ≡ is_mcp_tool_allowed
          (tool_permission_checker (record { allow = allow; deny = deny }))
          server
          tool
is_mcp_tool_allowed-deny_star allow deny server tool =
    is_mcp_tool_allowed-entries (record { allow = allow; deny = codes "mcp:*" ∷ deny }) server tool
    ∙ ap
        (λ b.
          not (b || any_of (names_mcp server tool) deny)
          && (is_empty allow
              || any_of (λ e. text_eq e (codes "mcp:*") || names_mcp server tool e) allow))
        (names_mcp-star server tool)
    ∙ sym (is_mcp_tool_allowed-entries (record { allow = allow; deny = deny }) server tool)
