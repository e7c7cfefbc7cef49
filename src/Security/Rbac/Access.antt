-- ===== src/Security/Rbac/Access.antt =====
-- Who may call what.
use qwen_claw.Base.{
  ◌≡◌, ◌⊎◌, subst, ◌∙◌, refl, sym, inl, inr, Bool, true, false, not, ◌||◌, ◌&&◌, List, [], ◌∷◌,
  ◌++◌, Option, none, some, Option-cases, Bool-cases, arith, any_of, if◌then◌else◌, if_false,
}
use qwen_claw.Base.Text.{Text, codes, text_eq, text_eq_iff, text_eq_refl, text_eq_comm, is_empty}
use qwen_claw.Base.Dict.{Dict, find, insert, find-insert}
use qwen_claw.Security.Rbac.{
  operator, viewer, default_scopes, operator_admin, read_methods, write_methods, agent_methods,
  connect_methods, holds, assign, default_rules, is_allowed, required_scopes, read_scopes,
  write_scopes, agent_scopes, compat_methods,
}

find-assign :
    (method : Text) (methods scopes : _) (rules : Dict (List Text))
    → find method (assign methods scopes rules)
      ≡ (if holds methods method then some scopes else find method rules)
unfolding assign
find-assign method [] scopes rules = refl
find-assign method (m ∷ methods) scopes rules =
    find-assign method methods scopes (insert m scopes rules)
    ∙ ground (arith, find-insert method m scopes rules)

any_of-append {ℓ} :
    {A : Type ℓ} (p : A → Bool) (xs ys : List A) → any_of p xs ≡ true → any_of p (xs ++ ys) ≡ true
any_of-append p [] ys h = cc
any_of-append p (x ∷ xs) ys h = ground (arith, any_of-append p xs ys)

-- More scopes never take a permission away, and the role's name plays no part.
pub is_allowed_mono :
    (method role role' : Text) (scopes more : List Text)
    → is_allowed method role scopes ≡ true
    → is_allowed method role' (scopes ++ more) ≡ true
unfolding is_allowed
is_allowed_mono method role role' scopes more h = elim (Option-cases (find method default_rules)) [
  | inl missing ↦ ground (arith, missing, any_of-append (λ t. text_eq t operator_admin) scopes more)
  | inr (required, found) ↦ ground (arith, found, any_of-append (holds required) scopes more)
]

holds-one : (s : Text) (scopes : List Text) → any_of (holds (s ∷ [])) scopes ≡ holds scopes s
holds-one s [] = refl
holds-one s (t ∷ scopes) = ground (arith, text_eq_comm s t, holds-one s scopes)

-- A call is allowed when one of the scopes that `required_scopes` reports is held, or none is asked
-- for.
pub is_allowed-required :
    (method role : Text) (scopes : List Text)
    → is_allowed method role scopes
      ≡ (is_empty (required_scopes method) || any_of (holds (required_scopes method)) scopes)
unfolding is_allowed required_scopes
is_allowed-required method role scopes = elim (Option-cases (find method default_rules)) [
  | inl missing ↦ ground (arith, missing, holds-one operator_admin scopes)
  | inr (required, found) ↦ ground (arith, found)
]

assign-cases :
    (method : Text) (methods scopes : _) (rules : Dict (List Text))
    → (find method (assign methods scopes rules) ≡ some scopes)
      ⊎ (find method (assign methods scopes rules) ≡ find method rules)
assign-cases method methods scopes rules = ground (arith, find-assign method methods scopes rules)

-- Scopes that the operator's admin scope satisfies.
abbrev AdminWill : List Text → Type 0
AdminWill scopes = (is_empty scopes || holds scopes operator_admin) ≡ true

abbrev Admits : Option (List Text) → Type 0
Admits none = Unit
Admits (some scopes) = AdminWill scopes

assign-Admits :
    (rules : Dict (List Text)) (method : Text) (scopes : List Text) (methods : List Text)
    → AdminWill scopes
    → Admits (find method rules)
    → Admits (find method (assign methods scopes rules))
assign-Admits rules method scopes methods h k = elim (assign-cases method methods scopes rules) [
  | inl new ↦ subst Admits (sym new) h
  | inr old ↦ subst Admits (sym old) k
]

-- The lists of scopes that the rules assign.
read_scopes-AdminWill : AdminWill read_scopes
unfolding text_eq
read_scopes-AdminWill = refl

write_scopes-AdminWill : AdminWill write_scopes
unfolding text_eq
write_scopes-AdminWill = refl

agent_scopes-AdminWill : AdminWill agent_scopes
unfolding text_eq
agent_scopes-AdminWill = refl

empty-Admits : (method : Text) → Admits (find method [])
unfolding find
empty-Admits method = tt

default_rules-Admits : (method : Text) → Admits (find method default_rules)
unfolding default_rules
default_rules-Admits method =
    assign-Admits _ method read_scopes (codes "tools.catalog" ∷ []) read_scopes-AdminWill (
      assign-Admits _ method [] connect_methods refl (
        assign-Admits _ method read_scopes compat_methods read_scopes-AdminWill (
          assign-Admits _ method agent_scopes agent_methods agent_scopes-AdminWill (
            assign-Admits _ method write_scopes write_methods write_scopes-AdminWill (
              assign-Admits [] method read_scopes read_methods read_scopes-AdminWill
                (empty-Admits method))))))

required-AdminWill : (method : Text) → AdminWill (required_scopes method)
unfolding required_scopes
required-AdminWill method = elim (Option-cases (find method default_rules)) [
  | inl missing ↦ ground (arith, missing, text_eq_refl operator_admin)
  | inr (required, found) ↦ ground (arith, found, subst Admits found (default_rules-Admits method))
]

-- A client with the operator's default scopes may call every method, one without a rule included.
pub is_allowed-operator :
    (method role : Text) → is_allowed method role (default_scopes operator) ≡ true
unfolding default_scopes
is_allowed-operator method role =
    is_allowed-required method role (default_scopes operator)
    ∙ ground (arith, required-AdminWill method)

any_of-none :
    (p : Text → Bool) (method : Text) (methods : List Text)
    → any_of p methods ≡ false
    → holds methods method ≡ true
    → p method ≡ false
any_of-none p method [] h k = ground (arith, k)
any_of-none p method (m ∷ methods) h k = elim (Bool-cases (text_eq m method)) [
  | inl same ↦ subst (λ t. p t ≡ false) ((text_eq_iff m method).0 same) (ground (arith, h))
  | inr other ↦ any_of-none p method methods (ground (arith, h)) (ground (arith, other, k))
]

-- What a viewer may call, by its use: what opens a connection, looks at the gateway and its channels, at
-- conversations and their cost, at what is set up, at jobs and devices, and at plugins; the last list
-- has, among others, `plugins.services`, which starts and stops a service, and `plugins.commands`,
-- which runs a command.
abbrev pub viewer_methods : List Text
viewer_methods =
    (codes "connect" ∷ codes "connect.hello" ∷ [])
    ++ ((codes "health"
          ∷ codes "status"
          ∷ codes "gateway.health"
          ∷ codes "gateway.status"
          ∷ codes "channels.list"
          ∷ codes "channels.status"
          ∷ codes "queue.status"
          ∷ codes "logs.tail"
          ∷ [])
        ++ ((codes "sessions.list"
              ∷ codes "sessions.history"
              ∷ codes "sessions.preview"
              ∷ codes "chat.history"
              ∷ codes "memory.status"
              ∷ codes "memory.search"
              ∷ codes "usage.cost"
              ∷ codes "sessions.usage"
              ∷ codes "sessions.usage.timeseries"
              ∷ codes "sessions.usage.logs"
              ∷ [])
            ++ ((codes "config.get"
                  ∷ codes "config.schema"
                  ∷ codes "models.list"
                  ∷ codes "skills.status"
                  ∷ codes "tools.catalog"
                  ∷ codes "agents.list"
                  ∷ codes "agent.identity.get"
                  ∷ codes "exec.approvals"
                  ∷ [])
                ++ ((codes "cron.list"
                      ∷ codes "cron.runs"
                      ∷ codes "cron.status"
                      ∷ codes "node.list"
                      ∷ codes "device.pair.list"
                      ∷ [])
                    ++ (codes "plugins.list"
                        ∷ codes "plugins.tools"
                        ∷ codes "plugins.services"
                        ∷ codes "plugins.providers"
                        ∷ codes "plugins.commands"
                        ∷ codes "plugins.gateway"
                        ∷ [])))))

abbrev viewer_may : Text → Bool
viewer_may method = is_allowed method [] (default_scopes viewer)

listed_for_viewer : any_of (λ m. not (viewer_may m)) viewer_methods ≡ false
unfolding is_allowed default_scopes default_rules find insert text_eq assign
listed_for_viewer = refl

-- The lists that the rules assign have no method that a viewer may call beside these.
abbrev IsUnlisted : List Text → Type 0
IsUnlisted methods = any_of (λ m. viewer_may m && not (holds viewer_methods m)) methods ≡ false

-- All methods with a rule, from the lists of the last ones assigned on.
abbrev from_agent : List Text
from_agent = agent_methods ++ (write_methods ++ read_methods)

abbrev from_compat : List Text
from_compat = compat_methods ++ from_agent

abbrev from_connect : List Text
from_connect = connect_methods ++ from_compat

abbrev ruled_methods : List Text
ruled_methods = (codes "tools.catalog" ∷ []) ++ from_connect

ruled_methods-IsUnlisted : IsUnlisted ruled_methods
unfolding is_allowed default_scopes default_rules find insert text_eq assign
ruled_methods-IsUnlisted = refl

any_of-both {ℓ} :
    {A : Type ℓ} (p : A → Bool) (xs ys : List A)
    → any_of p (xs ++ ys) ≡ (any_of p xs || any_of p ys)
any_of-both p [] ys = refl
any_of-both p (x ∷ xs) ys = ground (arith, any_of-both p xs ys)

-- A list of rules without the method.
find-assign_other :
    (method : Text) (methods scopes others : _) (rules : Dict (List Text))
    → holds (methods ++ others) method ≡ false
    → (holds others method ≡ false → find method rules ≡ none)
    → find method (assign methods scopes rules) ≡ none
find-assign_other method methods scopes others rules h rest =
    let both = any_of-both (λ t. text_eq t method) methods others in
    let here : holds methods method ≡ false = ground (arith, h, both) in
    let there : holds others method ≡ false = ground (arith, h, both) in
    find-assign method methods scopes rules ∙ if_false _ _ here ∙ rest there

find-unruled :
    (method : Text) → holds ruled_methods method ≡ false → find method default_rules ≡ none
unfolding default_rules find
find-unruled method h =
    find-assign_other method (codes "tools.catalog" ∷ []) read_scopes from_connect _ h (λ h.
      find-assign_other method connect_methods [] from_compat _ h (λ h.
        find-assign_other method compat_methods read_scopes from_agent _ h (λ h.
          find-assign_other method agent_methods agent_scopes (write_methods ++ read_methods) _ h
            (λ h. find-assign_other method write_methods write_scopes read_methods _ h (λ h.
              find-assign method read_methods read_scopes []
              ∙ if_false (some read_scopes) none h)))))

viewer_may-unruled :
    (method : Text) → holds ruled_methods method ≡ false → viewer_may method ≡ false
unfolding is_allowed default_scopes text_eq
viewer_may-unruled method h = ground (arith, find-unruled method h)

-- A client with the viewer's default scopes may call exactly the methods of `viewer_methods`, whatever
-- its role is.
pub is_allowed-viewer :
    (method role : Text)
    → is_allowed method role (default_scopes viewer) ≡ holds viewer_methods method
is_allowed-viewer method role =
    is_allowed-required method role (default_scopes viewer)
    ∙ sym (is_allowed-required method [] (default_scopes viewer))
    ∙ elim (Bool-cases (holds viewer_methods method)) [
      | inl listed ↦ ground (
        arith,
        listed,
        any_of-none (λ m. not (viewer_may m)) method viewer_methods listed_for_viewer listed,
      )
      | inr other ↦ elim (Bool-cases (holds ruled_methods method)) [
        | inl ruled ↦ ground (
          arith,
          other,
          any_of-none (λ m. viewer_may m && not (holds viewer_methods m)) method ruled_methods
              ruled_methods-IsUnlisted ruled,
        )
        | inr unruled ↦ ground (arith, other, viewer_may-unruled method unruled)
      ]
    ]
