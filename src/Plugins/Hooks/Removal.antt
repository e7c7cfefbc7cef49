-- ===== src/Plugins/Hooks/Removal.antt =====
-- Taking a plugin's handlers away.
use qwen_claw.Base.{
  ◌≡◌, refl, Bool, false, not, List, [], ◌∷◌, none, some, arith, keep_if, length, ltb, any_of,
  Option-cases, inl, inr, length-keep_if-le, if◌then◌else◌,
}
use qwen_claw.Base.Text.{Text, text_eq, is_empty}
use qwen_claw.Base.Dict.{find}
use qwen_claw.Plugins.Hooks.{HookRegistration, HookManager, answer, undefined, unregister_hook}

module _ {J : Type 0} where
  abbrev pub is_of : Text → HookRegistration J → Bool
  is_of plugin r = text_eq r.plugin_id plugin

  length-keep_if-less :
      (p : HookRegistration J → Bool) (handlers : List (HookRegistration J))
      → ltb (length (keep_if (λ r. not (p r)) handlers)) (length handlers) ≡ any_of p handlers
  length-keep_if-less p [] = refl
  length-keep_if-less p (r ∷ handlers) =
      ground (arith, length-keep_if-less p handlers, length-keep_if-le (λ s. not (p s)) handlers)

  -- The answer says whether the plugin had a handler at the hook; where it had all of them, the code
  -- reads a list that it has just erased.
  pub unregister_hook-answer :
      (name plugin : Text) (m : HookManager J)
      → (unregister_hook name plugin m).0 ≡ elim (find name m.hooks) [
        | none ↦ answer false
        | some handlers ↦
            if is_empty (keep_if (λ r. not (is_of plugin r)) handlers)
            then undefined
            else answer (any_of (is_of plugin) handlers)
      ]
  unfolding unregister_hook
  unregister_hook-answer name plugin m = elim (Option-cases (find name m.hooks)) [
    | inl missing ↦ ground (arith, missing)
    | inr (handlers, found) ↦ ground (arith, found, length-keep_if-less (is_of plugin) handlers)
  ]
