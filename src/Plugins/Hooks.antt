-- ===== src/Plugins/Hooks.antt =====
-- plugins/hook_manager: the handlers of plugins, called at the hooks of the program. JSON values are
-- of any type `J`, and what the code uses of their library is an argument, as is `std::sort`. A
-- handler answers `none` where it throws; the sidecar's process is a function, `none` where its answer
-- is no success.
pub mod Order
pub mod Fired
pub mod Removal
mod Tests
use qwen_claw.Base.{
  ℕ, suc, Bool, true, false, not, ◌&&◌, ◌||◌, List, [], ◌∷◌, ◌++◌, map, Option, none, some, any_of,
  keep_if, length, ltb, if◌then◌else◌,
}
use qwen_claw.Base.Int.{ℤ, ltb_ℤ}
use qwen_claw.Base.Text.{Text, codes, text_eq, is_empty}
use qwen_claw.Base.Dict.{Dict, find, insert, erase}

pub data HookMode : Type 0 where
  void modifying sync : HookMode

abbrev pub modifying_hooks : List Text
modifying_hooks =
    codes "before_model_resolve"
    ∷ codes "before_prompt_build"
    ∷ codes "before_agent_start"
    ∷ codes "message_sending"
    ∷ codes "before_tool_call"
    ∷ codes "subagent_spawning"
    ∷ codes "subagent_delivery_target"
    ∷ []

abbrev pub sync_hooks : List Text
sync_hooks = codes "tool_result_persist" ∷ codes "before_message_write" ∷ []

-- All other names, the listed and the unknown ones, are void.
unfoldable pub get_hook_mode : Text → HookMode
get_hook_mode name =
    if any_of (text_eq name) modifying_hooks
    then modifying
    else if any_of (text_eq name) sync_hooks
    then sync
    else void

pub record HookRegistration (J : Type 0) : Type 0 where
  pub plugin_id : Text
  pub handler : J → Option J
  pub priority : ℤ

-- `call hook event timeout` is `Call("plugin.hooks", ...)`.
pub record Sidecar (J : Type 0) : Type 0 where
  pub is_running : Bool
  pub call : Text → J → ℕ → Option J

pub record HookManager (J : Type 0) : Type 0 where
  pub hooks : Dict (List (HookRegistration J))
  pub sidecar : Option (Sidecar J)

-- What the code uses of the JSON library: `object()`, `is_object` and `merge_patch`.
pub record JsonLibrary (J : Type 0) : Type 0 where
  pub empty_object : J
  pub is_object : J → Bool
  pub merge_patch : J → J → J

-- What `UnregisterHook` answers, where that is defined.
pub data Answer : Type 0 where
  answer : Bool → Answer
  undefined : Answer

abbrev pub timeout_ms : HookMode → ℕ
timeout_ms void = 30000
timeout_ms modifying = 30000
timeout_ms sync = 5000

module _ {J : Type 0} where
  unfoldable pub handlers_of : Text → HookManager J → List (HookRegistration J)
  handlers_of name m = elim (find name m.hooks) [ none ↦ [] | some handlers ↦ handlers ]

  -- The comparison that `std::sort` is given: the highest priority first.
  unfoldable pub comes_first : HookRegistration J → HookRegistration J → Bool
  comes_first a b = ltb_ℤ b.priority a.priority

  -- `sort` is `std::sort`, which takes a comparison.
  pub register_hook :
      ((HookRegistration J → HookRegistration J → Bool)
        → List (HookRegistration J)
        → List (HookRegistration J))
      → Text
      → Text
      → (J → Option J)
      → ℤ
      → HookManager J
      → HookManager J
  register_hook sort name plugin h p m =
      let r : HookRegistration J = record { plugin_id = plugin; handler = h; priority = p } in
      record m { hooks = insert name (sort comes_first (handlers_of name m ++ (r ∷ []))) m.hooks }

  pub set_sidecar : Option (Sidecar J) → HookManager J → HookManager J
  set_sidecar s m = record m { sidecar = s }

  pub object_or_empty : JsonLibrary J → Option J → J
  object_or_empty lib none = lib.empty_object
  object_or_empty lib (some j) = if lib.is_object j then j else lib.empty_object

  pub forward_to_sidecar : JsonLibrary J → Text → J → HookManager J → J
  forward_to_sidecar lib name event m = elim m.sidecar [
    | none ↦ lib.empty_object
    | some s ↦
        if s.is_running
        then object_or_empty lib (s.call name event (timeout_ms (get_hook_mode name)))
        else lib.empty_object
  ]

  abbrev pub merge : JsonLibrary J → J → J → J
  merge lib merged j = if lib.is_object j then lib.merge_patch merged j else merged

  -- The handlers one after the other; one that throws is passed over.
  pub merge_handlers : JsonLibrary J → List (HookRegistration J) → J → J → J
  merge_handlers lib [] event merged = merged
  merge_handlers lib (r ∷ handlers) event merged = elim (r.handler event) [
    | none ↦ merge_handlers lib handlers event merged
    | some j ↦ merge_handlers lib handlers event (merge lib merged j)
  ]

  -- `FireModifying`, and `FireSync`, which does the same.
  pub fire_merging : JsonLibrary J → Text → List (HookRegistration J) → J → HookManager J → J
  fire_merging lib name handlers event m =
      merge lib (merge_handlers lib handlers event lib.empty_object)
        (forward_to_sidecar lib name event m)

  -- `FireVoid` waits for its handlers and returns none of their results.
  pub fire_void : JsonLibrary J → J
  fire_void lib = lib.empty_object

  pub fire : JsonLibrary J → Text → J → HookManager J → J
  fire lib name event m = elim (get_hook_mode name) [
    | void ↦ fire_void lib
    | modifying ↦ fire_merging lib name (handlers_of name m) event m
    | sync ↦ fire_merging lib name (handlers_of name m) event m
  ]

  -- Where the last handler goes, the code erases the list and then reads its size.
  pub unregister_hook : Text → Text → HookManager J → Answer × HookManager J
  unregister_hook name plugin m = elim (find name m.hooks) [
    | none ↦ (answer false, m)
    | some handlers ↦
        let left = keep_if (λ r. not (text_eq r.plugin_id plugin)) handlers in
        if is_empty left then (undefined, record m { hooks = erase name m.hooks }) else (
          answer (ltb (length left) (length handlers)),
          record m { hooks = insert name left m.hooks },
        )
  ]

  pub clear : HookManager J → HookManager J
  clear m = record m { hooks = [] }

  pub registered_hooks : HookManager J → List Text
  registered_hooks m = map (λ e. e.0) m.hooks

  pub handler_count : Text → HookManager J → ℕ
  handler_count name m = elim (find name m.hooks) [ none ↦ 0 | some handlers ↦ length handlers ]
