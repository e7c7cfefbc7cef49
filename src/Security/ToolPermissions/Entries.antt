-- ===== src/Security/ToolPermissions/Entries.antt =====
-- What the entries of the configuration mean, one by one, and that the checker answers by them.
use qwen_claw.Base.{
  ◌≡◌, ◌∙◌, refl, sym, ap, subst, inl, inr, Bool, true, false, not, ◌&&◌, ◌||◌, List, [], ◌∷◌, ◌++◌,
  Bool-cases, arith, any_of, drop, length, if◌then◌else◌,
}
use qwen_claw.Base.Text.{Text, codes, text_eq, text_eq_iff, text_eq_comm, is_empty, starts_with}
use qwen_claw.Base.Dict.{find}
use qwen_claw.Security.ToolPermissions.{
  ToolPermissionConfig, ToolPermissionChecker, new_checker, groups, group_tools, allow_entry,
  deny_entry, allow_entries, deny_entries, allow_if_empty, tool_permission_checker, contains,
  is_allowed,
}

-- An entry names a tool when it is `tool:` and the tool, or `group:` and a group that holds the tool.
unfoldable pub names_tool : Text → Text → Bool
names_tool tool entry =
    text_eq entry (codes "tool:" ++ tool)
    || any_of (λ g. text_eq entry (codes "group:" ++ g.0) && contains (g.1) tool) groups

pub text_eq-append :
    (p t entry : Text)
    → text_eq entry (p ++ t) ≡ (starts_with p entry && text_eq (drop (length p) entry) t)
unfolding text_eq starts_with
text_eq-append [] t entry = refl
text_eq-append (x ∷ p) t [] = refl
text_eq-append (x ∷ p) t (y ∷ entry) = ground (arith, text_eq-append p t entry)

any_of-append :
    (p : Text → Bool) (xs ys : List Text) → any_of p (xs ++ ys) ≡ (any_of p xs || any_of p ys)
any_of-append p [] ys = refl
any_of-append p (x ∷ xs) ys = ground (arith, any_of-append p xs ys)

-- No entry has two of the prefixes.
group-not_tool :
    (entry : Text)
    → starts_with (codes "group:") entry ≡ true
    → starts_with (codes "tool:") entry ≡ false
unfolding starts_with
group-not_tool [] h = refl
group-not_tool (x ∷ entry) h = ground (arith, h)

abbrev Agrees : Text → Text → Type 0
Agrees tool name =
    contains (group_tools name) tool
    ≡ any_of (λ g. text_eq name (g.0) && contains (g.1) tool) groups

fs-Agrees : (tool : Text) → Agrees tool (codes "fs")
unfolding group_tools find text_eq
fs-Agrees tool = ground arith

runtime-Agrees : (tool : Text) → Agrees tool (codes "runtime")
unfolding group_tools find text_eq
runtime-Agrees tool = ground arith

pub or_false : (b : Bool) → (b || false) ≡ b
or_false true = refl
or_false false = refl

all-Agrees : (tool : Text) → Agrees tool (codes "all")
unfolding group_tools find text_eq
all-Agrees tool = sym (or_false (contains (group_tools (codes "all")) tool))

no_group :
    (name tool : Text)
    → text_eq name (codes "fs") ≡ false
    → text_eq name (codes "runtime") ≡ false
    → text_eq name (codes "all") ≡ false
    → Agrees tool name
unfolding group_tools find
no_group name tool f r a = ground (
  arith,
  f,
  r,
  a,
  text_eq_comm (codes "fs") name,
  text_eq_comm (codes "runtime") name,
  text_eq_comm (codes "all") name,
)

group_tools-contains : (name tool : Text) → Agrees tool name
group_tools-contains name tool = elim (Bool-cases (text_eq name (codes "fs"))) [
  | inl same ↦ subst (Agrees tool) (sym ((text_eq_iff name (codes "fs")).0 same)) (fs-Agrees tool)
  | inr no_fs ↦ elim (Bool-cases (text_eq name (codes "runtime"))) [
    | inl same ↦
        subst (Agrees tool) (sym ((text_eq_iff name (codes "runtime")).0 same))
          (runtime-Agrees tool)
    | inr no_runtime ↦ elim (Bool-cases (text_eq name (codes "all"))) [
      | inl same ↦
          subst (Agrees tool) (sym ((text_eq_iff name (codes "all")).0 same)) (all-Agrees tool)
      | inr no_all ↦ no_group name tool no_fs no_runtime no_all
    ]
  ]
]

names_tool-parts :
    (tool entry : Text)
    → names_tool tool entry ≡ (
        if starts_with (codes "group:") entry
        then contains (group_tools (drop 6 entry)) tool
        else starts_with (codes "tool:") entry && text_eq (drop 5 entry) tool)
unfolding names_tool
names_tool-parts tool entry = ground (
  arith,
  text_eq-append (codes "tool:") tool entry,
  group-not_tool entry,
  text_eq-append (codes "group:") (codes "fs") entry,
  text_eq-append (codes "group:") (codes "runtime") entry,
  text_eq-append (codes "group:") (codes "all") entry,
  group_tools-contains (drop 6 entry) tool,
)

denied-entry :
    (entry : Text) (c : ToolPermissionChecker) (tool : Text)
    → contains ((deny_entry entry c).denied_tools) tool
      ≡ (names_tool tool entry || contains (c.denied_tools) tool)
unfolding deny_entry
denied-entry entry c tool = ground (
  arith,
  names_tool-parts tool entry,
  any_of-append (λ t. text_eq t tool) (group_tools (drop 6 entry)) (c.denied_tools),
)

-- The tools that a list of entries denies.
denied-entries :
    (entries : List Text) (c : ToolPermissionChecker) (tool : Text)
    → contains ((deny_entries entries c).denied_tools) tool
      ≡ (any_of (names_tool tool) entries || contains (c.denied_tools) tool)
unfolding deny_entries
denied-entries [] c tool = refl
denied-entries (entry ∷ entries) c tool =
    denied-entries entries (deny_entry entry c) tool ∙ ground (arith, denied-entry entry c tool)

-- The tools that a list of entries allows: `group:all` stands for every tool, in or out of a group.
unfoldable pub allows_tool : Text → Text → Bool
allows_tool tool entry = text_eq entry (codes "group:all") || names_tool tool entry

-- The test of `is_allowed` after the one for the denied tools.
abbrev permits : ToolPermissionChecker → Text → Bool
permits c tool = c.allow_all || contains (c.allowed_tools) tool

allow-entry :
    (entry : Text) (c : ToolPermissionChecker) (tool : Text)
    → permits (allow_entry entry c) tool ≡ (allows_tool tool entry || permits c tool)
unfolding allow_entry allows_tool
allow-entry entry c tool = ground (
  arith,
  names_tool-parts tool entry,
  text_eq-append (codes "group:") (codes "all") entry,
  any_of-append (λ t. text_eq t tool) (group_tools (drop 6 entry)) (c.allowed_tools),
)

allow-entries :
    (entries : List Text) (c : ToolPermissionChecker) (tool : Text)
    → permits (allow_entries entries c) tool ≡ (any_of (allows_tool tool) entries || permits c tool)
unfolding allow_entries
allow-entries [] c tool = refl
allow-entries (entry ∷ entries) c tool =
    allow-entries entries (allow_entry entry c) tool ∙ ground (arith, allow-entry entry c tool)

deny_entry-keeps :
    (entry : Text) (c : ToolPermissionChecker)
    → ((deny_entry entry c).allow_all ≡ c.allow_all)
      × ((deny_entry entry c).allowed_tools ≡ c.allowed_tools)
      × ((deny_entry entry c).mcp_allow_all ≡ c.mcp_allow_all)
      × ((deny_entry entry c).allowed_mcp ≡ c.allowed_mcp)
unfolding deny_entry
deny_entry-keeps entry c = ground arith

pub deny-keeps :
    (entries : List Text) (c : ToolPermissionChecker)
    → ((deny_entries entries c).allow_all ≡ c.allow_all)
      × ((deny_entries entries c).allowed_tools ≡ c.allowed_tools)
      × ((deny_entries entries c).mcp_allow_all ≡ c.mcp_allow_all)
      × ((deny_entries entries c).allowed_mcp ≡ c.allowed_mcp)
unfolding deny_entries
deny-keeps [] c = (refl, refl, refl, refl)
deny-keeps (entry ∷ entries) c =
    ground (arith, deny-keeps entries (deny_entry entry c), deny_entry-keeps entry c)

allow_entry-keeps :
    (entry : Text) (c : ToolPermissionChecker)
    → ((allow_entry entry c).denied_tools ≡ c.denied_tools)
      × ((allow_entry entry c).denied_mcp ≡ c.denied_mcp)
unfolding allow_entry
allow_entry-keeps entry c = ground arith

pub allow-keeps :
    (entries : List Text) (c : ToolPermissionChecker)
    → ((allow_entries entries c).denied_tools ≡ c.denied_tools)
      × ((allow_entries entries c).denied_mcp ≡ c.denied_mcp)
unfolding allow_entries
allow-keeps [] c = (refl, refl)
allow-keeps (entry ∷ entries) c =
    ground (arith, allow-keeps entries (allow_entry entry c), allow_entry-keeps entry c)

allow_if_empty-permits :
    (allow : List Text) (c : ToolPermissionChecker) (tool : Text)
    → permits (allow_if_empty allow c) tool ≡ (is_empty allow || permits c tool)
unfolding allow_if_empty
allow_if_empty-permits [] c tool = refl
allow_if_empty-permits (entry ∷ allow) c tool = refl

pub allow_if_empty-denied :
    (allow : List Text) (c : ToolPermissionChecker)
    → ((allow_if_empty allow c).denied_tools ≡ c.denied_tools)
      × ((allow_if_empty allow c).denied_mcp ≡ c.denied_mcp)
unfolding allow_if_empty
allow_if_empty-denied [] c = (refl, refl)
allow_if_empty-denied (entry ∷ allow) c = (refl, refl)

checker-denied :
    (c : ToolPermissionConfig) (tool : Text)
    → contains ((tool_permission_checker c).denied_tools) tool ≡ any_of (names_tool tool) (c.deny)
unfolding tool_permission_checker
checker-denied c tool =
    let allowed = allow_entries (c.allow) new_checker in
    ap (λ names. contains names tool)
      (allow_if_empty-denied (c.allow) (deny_entries (c.deny) allowed)).0
    ∙ denied-entries (c.deny) allowed tool
    ∙ ap (λ names. any_of (names_tool tool) (c.deny) || contains names tool)
        (allow-keeps (c.allow) new_checker).0
    ∙ or_false (any_of (names_tool tool) (c.deny))

checker-permits :
    (c : ToolPermissionConfig) (tool : Text)
    → permits (tool_permission_checker c) tool
      ≡ (is_empty (c.allow) || any_of (allows_tool tool) (c.allow))
unfolding tool_permission_checker
checker-permits c tool =
    let allowed = allow_entries (c.allow) new_checker in
    let kept = deny-keeps (c.deny) allowed in
    allow_if_empty-permits (c.allow) (deny_entries (c.deny) allowed) tool
    ∙ ap
        (λ b.
          is_empty (c.allow)
          || (b || contains ((deny_entries (c.deny) allowed).allowed_tools) tool))
        (kept.0)
    ∙ ap (λ names. is_empty (c.allow) || (allowed.allow_all || contains names tool)) (kept.1)
    ∙ ap (λ b. is_empty (c.allow) || b)
        (allow-entries (c.allow) new_checker tool ∙ or_false (any_of (allows_tool tool) (c.allow)))

is_allowed-permits :
    (c : ToolPermissionChecker) (tool : Text)
    → is_allowed c tool ≡ (not (contains (c.denied_tools) tool) && permits c tool)
unfolding is_allowed
is_allowed-permits c tool = ground arith

-- Denied entries come first, whatever is allowed; then an empty list to allow, or an entry of it,
-- allows the tool.
pub is_allowed-entries :
    (c : ToolPermissionConfig) (tool : Text)
    → is_allowed (tool_permission_checker c) tool ≡ (
        not (any_of (names_tool tool) (c.deny))
        && (is_empty (c.allow) || any_of (allows_tool tool) (c.allow)))
is_allowed-entries c tool =
    is_allowed-permits (tool_permission_checker c) tool
    ∙ ap (λ b. not b && permits (tool_permission_checker c) tool) (checker-denied c tool)
    ∙ ap (λ b. not (any_of (names_tool tool) (c.deny)) && b) (checker-permits c tool)
