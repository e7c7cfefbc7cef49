-- ===== src/Lib.antt =====
-- QuantClaw: the gateway's command queue, the guards of the agent, the choice of a model provider, and
-- the agent's subagents, conversations, tool chains, hooks and channels.
--
-- The gateway accepts messages for sessions, queues them in one lane for each session and runs them on
-- worker threads. Before a client's call is served, the rate limiter and the role checker admit it;
-- before a tool or a command runs, the tool permissions and the approvals do. A call of a model goes to
-- the provider and key that the failover resolver chooses by the state of the cooldown tracker, which
-- classified errors feed.
--
-- Gateway/Lane models `SessionLane` and the enumerations of src/gateway/command_queue.cpp and .cppm, an
-- operation a function of the same name. Gateway/Queue models `CommandQueue` of the same files: `submit`,
-- `cancel`, `abort_session`, `configure_session`, `set_config` are the client's calls, `dispatch_round`
-- is one round of `dispatcher_loop`, `begin` and `finish` are the two ends of `execute_command`. Each
-- holds the mutex throughout, so a history of the queue is a list of such calls in any order
-- (Gateway/Queue/Calls). The round creates its threads after it has released the mutex; the model lets
-- a worker have its command from the critical section on. A JSON value has any type, and the one call of
-- the JSON library that puts the collected text into the parameters is an argument.
-- Security/RateLimiter models src/security/rate_limiter.cpp, Security/Rbac src/security/rbac.cpp with
-- the method names of src/gateway/protocol.cppm, Security/ToolPermissions
-- src/security/tool_permissions.cpp, Security/Glob the list of patterns and Security/ExecApproval the
-- manager of src/security/exec_approval.cpp. Providers/ProviderError, Providers/Cooldown and
-- Providers/Failover model src/providers/provider_error.cppm, cooldown_tracker.cppm and
-- failover_resolver.cppm; the provider registry is an argument of the last.
-- Security/Scope models src/security/scope_validator.cpp, which a tool call of a reconnaissance run
-- passes: the targets are read from its parameters and matched with the patterns of the configuration.
-- Channels/Policy models src/channels/channel_policy.cpp: who may write, and the key of the session that
-- a message belongs to. Core/Subagent models src/core/subagent.cpp; a call of Spawn checks the limits
-- and records the run in two critical sections, `check_spawn` and `record_run`, and then runs the agent,
-- which may call the manager again. The interleavings of such sections are in Core/Subagent/Reachable. Core/Usage models src/core/usage_accumulator.cpp. Core/Messages has the
-- messages of src/core/content_block.cppm and the token estimate of src/core/context_pruner.cpp; on them
-- stand Core/Pruner, the rest of that file, and Core/Compaction, which is
-- src/core/multi_stage_compaction.cpp; Core/ContextEngine puts both together as
-- src/core/default_context_engine.cpp does. Core/SessionCompaction models src/core/session_compaction.cpp.
-- Core/Cron models the schedules and the jobs of src/core/cron_scheduler.cpp, whose search has the
-- 525960 rounds of the source, 365.25 days of minutes.
-- Tools/Chain models src/tools/tool_chain.cpp, and Plugins/Hooks src/plugins/hook_manager.cpp. In these
-- an operation is a function of the source's name, and `none` or `undefined` stands for an exception or
-- for what C++ leaves undefined. Summaries, runners, tools, hook handlers, sorting, regular expressions
-- and the results of floating-point arithmetic are arguments.
-- Base holds what they share: tests on native numbers, lists, integers, strings as bytes, maps.
--
-- Times are natural numbers, readings of `steady_clock`; what reads the clock takes the reading as an
-- argument. An `int` of a configuration is an integer; counts are natural numbers, and sums of them are
-- taken not to pass the machine's width, unless a function says otherwise. Negative settings of the
-- pruner and negative counts of tokens are left out. An unordered map is an association list, whose order stands
-- for the container's. Random ids are arguments. The overflow loop of a lane has one unit of fuel more
-- than commands pending, and each pass but the last drops one; the glob matcher has the fuel
-- of `glob_fuel`, in the sizes of pattern and text; the backoff loop has five rounds.
--
-- Not modelled: threads and their joining, logging, sockets, files, the JSON library and most reading and
-- writing of settings, the agent loop, the message commands,
-- stored sessions and memory, the single tools, channel adapters, plugin processes and the user interface.
pub mod Base
pub mod Gateway
pub mod Security
pub mod Providers
pub mod Channels
pub mod Core
pub mod Tools
pub mod Plugins
