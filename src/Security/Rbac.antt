-- ===== src/Security/Rbac.antt =====
-- security/rbac, with the method names of gateway/protocol: which scopes let a client call a method.
-- A set of scopes is a list; only membership is used.
pub mod Access
mod Tests
use qwen_claw.Base.{Bool, true, false, List, [], ◌∷◌, Option, none, some, any_of, if◌then◌else◌}
use qwen_claw.Base.Text.{Text, codes, text_eq, is_empty}
use qwen_claw.Base.Dict.{Dict, find, insert}

pub data Role : Type 0 where
  operator viewer node : Role

pub role_from_string : Text → Role
role_from_string s =
    if text_eq s (codes "viewer")
    then viewer
    else if text_eq s (codes "node")
    then node
    else operator

pub role_to_string : Role → Text
role_to_string operator = codes "operator"
role_to_string viewer = codes "viewer"
role_to_string node = codes "node"

abbrev pub operator_read : Text
operator_read = codes "operator.read"

abbrev pub operator_write : Text
operator_write = codes "operator.write"

abbrev pub operator_admin : Text
operator_admin = codes "operator.admin"

abbrev pub node_execute : Text
node_execute = codes "node.execute"

abbrev pub node_read : Text
node_read = codes "node.read"

pub default_scopes : Role → List Text
default_scopes operator = operator_read ∷ operator_write ∷ operator_admin ∷ []
default_scopes viewer = operator_read ∷ []
default_scopes node = node_execute ∷ node_read ∷ []

abbrev pub read_scopes : List Text
read_scopes = operator_read ∷ operator_write ∷ operator_admin ∷ node_read ∷ node_execute ∷ []

abbrev pub write_scopes : List Text
write_scopes = operator_write ∷ operator_admin ∷ []

abbrev pub agent_scopes : List Text
agent_scopes = operator_write ∷ operator_admin ∷ node_execute ∷ []

abbrev pub read_methods : List Text
read_methods =
    codes "gateway.health"
    ∷ codes "gateway.status"
    ∷ codes "config.get"
    ∷ codes "sessions.list"
    ∷ codes "sessions.history"
    ∷ codes "channels.list"
    ∷ codes "channels.status"
    ∷ codes "health"
    ∷ codes "status"
    ∷ codes "models.list"
    ∷ codes "sessions.preview"
    ∷ codes "chat.history"
    ∷ codes "skills.status"
    ∷ codes "exec.approvals"
    ∷ codes "cron.list"
    ∷ codes "cron.runs"
    ∷ codes "memory.status"
    ∷ codes "memory.search"
    ∷ codes "plugins.list"
    ∷ codes "plugins.tools"
    ∷ codes "plugins.services"
    ∷ codes "plugins.providers"
    ∷ codes "plugins.commands"
    ∷ codes "plugins.gateway"
    ∷ codes "queue.status"
    ∷ []

abbrev pub write_methods : List Text
write_methods =
    codes "config.set"
    ∷ codes "config.reload"
    ∷ codes "sessions.delete"
    ∷ codes "sessions.reset"
    ∷ codes "sessions.patch"
    ∷ codes "sessions.compact"
    ∷ codes "models.set"
    ∷ codes "skills.install"
    ∷ codes "cron.add"
    ∷ codes "cron.remove"
    ∷ codes "cron.update"
    ∷ codes "cron.run"
    ∷ codes "exec.approval.request"
    ∷ codes "plugins.callTool"
    ∷ codes "queue.configure"
    ∷ codes "queue.cancel"
    ∷ codes "queue.abort"
    ∷ []

abbrev pub agent_methods : List Text
agent_methods =
    codes "agent.request"
    ∷ codes "agent.stop"
    ∷ codes "chat.send"
    ∷ codes "chat.abort"
    ∷ codes "chain.execute"
    ∷ []

-- The methods of the web interface that have no constant.
abbrev pub compat_methods : List Text
compat_methods =
    codes "agent.identity.get"
    ∷ codes "node.list"
    ∷ codes "device.pair.list"
    ∷ codes "logs.tail"
    ∷ codes "usage.cost"
    ∷ codes "sessions.usage"
    ∷ codes "sessions.usage.timeseries"
    ∷ codes "sessions.usage.logs"
    ∷ codes "cron.status"
    ∷ codes "config.schema"
    ∷ codes "agents.list"
    ∷ []

abbrev pub connect_methods : List Text
connect_methods = codes "connect.hello" ∷ codes "connect" ∷ []

-- `method_scopes_[method] = scopes` for each method of a list.
pub assign : List Text → List Text → Dict (List Text) → Dict (List Text)
assign [] scopes rules = rules
assign (method ∷ methods) scopes rules = assign methods scopes (insert method scopes rules)

-- `init_default_rules`
pub default_rules : Dict (List Text)
unfolding assign
default_rules = assign (codes "tools.catalog" ∷ []) read_scopes (
    assign connect_methods [] (
      assign compat_methods read_scopes (
        assign agent_methods agent_scopes
          (assign write_methods write_scopes (assign read_methods read_scopes [])))))

abbrev pub holds : List Text → Text → Bool
holds scopes s = any_of (λ t. text_eq t s) scopes

-- `IsAllowed`; the role is not read.
pub is_allowed : Text → Text → List Text → Bool
is_allowed method role client_scopes = elim (find method default_rules) [
  | none ↦ holds client_scopes operator_admin
  | some required ↦ if is_empty required then true else any_of (holds required) client_scopes
]

pub required_scopes : Text → List Text
required_scopes method = elim (find method default_rules) [
  | none ↦ operator_admin ∷ []
  | some required ↦ required
]
