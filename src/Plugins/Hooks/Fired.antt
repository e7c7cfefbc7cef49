-- ===== src/Plugins/Hooks/Fired.antt =====
-- What firing a hook returns.
use qwen_claw.Base.{
  ◌≡◌, refl, true, false, List, [], ◌∷◌, ◌++◌, none, some, arith, Option-cases, inl, inr,
}
use qwen_claw.Base.Text.{Text}
use qwen_claw.Plugins.Hooks.{
  void, modifying, sync, get_hook_mode, HookRegistration, HookManager, JsonLibrary, Sidecar,
  handlers_of, merge, merge_handlers, fire_merging, fire_void, fire, forward_to_sidecar,
  object_or_empty, timeout_ms,
}

module _ {J : Type 0} where
  merge_handlers-append :
      (lib : JsonLibrary J) (before after : List (HookRegistration J)) (event merged : J)
      → merge_handlers lib (before ++ after) event merged
        ≡ merge_handlers lib after event (merge_handlers lib before event merged)
  unfolding merge_handlers
  merge_handlers-append lib [] after event merged = refl
  merge_handlers-append lib (r ∷ before) after event merged =
      elim (Option-cases (r.handler event)) [
        | inl thrown ↦ ground (arith, thrown, merge_handlers-append lib before after event merged)
        | inr (j, known) ↦
            ground (arith, known, merge_handlers-append lib before after event (merge lib merged j))
      ]

  -- A handler that throws, or whose answer is no object, changes nothing for the others.
  pub merge_handlers-skip :
      (lib : JsonLibrary J) (before after : List (HookRegistration J)) (r : HookRegistration J)
      (event merged : J)
      → elim (r.handler event) [ none ↦ false | some j ↦ lib.is_object j ] ≡ false
      → merge_handlers lib (before ++ (r ∷ after)) event merged
        ≡ merge_handlers lib (before ++ after) event merged
  unfolding merge_handlers
  merge_handlers-skip lib before after r event merged h =
      let whole = merge_handlers-append lib before (r ∷ after) event merged in
      let rest = merge_handlers-append lib before after event merged in
      elim (Option-cases (r.handler event)) [
        | inl thrown ↦ ground (arith, thrown, whole, rest)
        | inr (j, known) ↦ ground (arith, known, h, whole, rest)
      ]

  -- The answer of a running sidecar is merged last, over those of all handlers, and waited for 5
  -- seconds at a hook of mode sync and 30 at one that modifies; a void hook answers the empty object.
  pub fire-sidecar :
      (lib : JsonLibrary J) (name : Text) (event j : J) (m : HookManager J) (s : Sidecar J)
      → m.sidecar ≡ some s
      → s.is_running ≡ true
      → s.call name event (timeout_ms (get_hook_mode name)) ≡ some j
      → lib.is_object j ≡ true
      → fire lib name event m ≡ elim (get_hook_mode name) [
        | void ↦ lib.empty_object
        | modifying ↦
            lib.merge_patch (merge_handlers lib (handlers_of name m) event lib.empty_object) j
        | sync ↦ lib.merge_patch (merge_handlers lib (handlers_of name m) event lib.empty_object) j
      ]
  unfolding fire fire_merging fire_void forward_to_sidecar object_or_empty
  fire-sidecar lib name event j m s there running called object =
      ground (arith, there, running, called, object)
