-- ===== src/Plugins/Hooks/Tests.antt =====
-- The theorems on hooks, with numbers for JSON values and an insertion sort.
use qwen_claw.Base.{
  ℕ, ◌+◌, ◌≡◌, ◌∙◌, refl, Bool, true, false, not, ◌&&◌, List, [], ◌∷◌, none, some, arith, ltb,
  Bool-cases, inl, inr, if◌then◌else◌,
}
use qwen_claw.Base.Int.{pos}
use qwen_claw.Base.Text.{codes, text_eq}
use qwen_claw.Base.Dict.{find}
use qwen_claw.Plugins.Hooks.{
  HookRegistration, HookManager, JsonLibrary, undefined, unregister_hook, handlers_of,
}
use qwen_claw.Plugins.Hooks.Order.{
  IsWeakOrder, is_bound, is_sorted, count, Sort, is_higher, unsorted, Call, register, unregister,
  run, run-IsOrdered,
}
use qwen_claw.Plugins.Hooks.Removal.{unregister_hook-answer}

abbrev Less : Type 0
Less = HookRegistration ℕ → HookRegistration ℕ → Bool

place : Less → HookRegistration ℕ → List (HookRegistration ℕ) → List (HookRegistration ℕ)
place less r [] = r ∷ []
place less r (s ∷ handlers) =
    let later = place less r handlers in if less r s then r ∷ s ∷ handlers else s ∷ later

insertion_sort : Sort ℕ
insertion_sort less [] = []
insertion_sort less (r ∷ handlers) = place less r (insertion_sort less handlers)

is_bound_trans :
    (less : Less) (order : IsWeakOrder less) (a r : HookRegistration ℕ)
    (handlers : List (HookRegistration ℕ))
    → less r a ≡ false
    → is_bound less r handlers ≡ true
    → is_bound less a handlers ≡ true
is_bound_trans less order a r [] h b = refl
is_bound_trans less order a r (s ∷ handlers) h b =
    let sr : less s r ≡ false = ground (arith, b) in
    ground (arith, b, order.1 s r a sr h, is_bound_trans less order a r handlers h)

is_bound-place :
    (less : Less) (a r : HookRegistration ℕ) (handlers : List (HookRegistration ℕ))
    → is_bound less a (place less r handlers) ≡ (not (less r a) && is_bound less a handlers)
unfolding place
is_bound-place less a r [] = refl
is_bound-place less a r (s ∷ handlers) = ground (arith, is_bound-place less a r handlers)

is_sorted-place :
    (less : Less) (order : IsWeakOrder less) (r : HookRegistration ℕ)
    (handlers : List (HookRegistration ℕ))
    → is_sorted less handlers ≡ true
    → is_sorted less (place less r handlers) ≡ true
unfolding place
is_sorted-place less order r [] h = refl
is_sorted-place less order r (s ∷ handlers) h = elim (Bool-cases (less r s)) [
  | inl first ↦
      let after : less s r ≡ false = order.0 r s first in
      ground (arith, first, h, after, is_bound_trans less order r s handlers after)
  | inr later ↦
      ground
        (arith, later, h, is_bound-place less s r handlers, is_sorted-place less order r handlers)
]

count-place :
    (less : Less) (p : HookRegistration ℕ → Bool) (r : HookRegistration ℕ)
    (handlers : List (HookRegistration ℕ))
    → count p (place less r handlers) ≡ count p (r ∷ handlers)
unfolding place
count-place less p r [] = refl
count-place less p r (s ∷ handlers) = ground (arith, count-place less p r handlers)

insertion_sort-sorts :
    (less : Less) (order : IsWeakOrder less) (handlers : List (HookRegistration ℕ))
    → (is_sorted less (insertion_sort less handlers) ≡ true)
      × ((p : HookRegistration ℕ → Bool)
          → count p (insertion_sort less handlers) ≡ count p handlers)
unfolding insertion_sort
insertion_sort-sorts less order [] = (refl, λ p. refl)
insertion_sort-sorts less order (r ∷ handlers) =
    let (sorted, same) = insertion_sort-sorts less order handlers in
    (
      is_sorted-place less order r (insertion_sort less handlers) sorted,
      λ p. count-place less p r (insertion_sort less handlers) ∙ ground (arith, same p),
    )

abbrev numbers : JsonLibrary ℕ
numbers = record { empty_object = 1; is_object = ltb 0; merge_patch = λ a b. a + b }

abbrev fresh : HookManager ℕ
fresh = record { hooks = []; sidecar = none }

abbrev calls : List (Call ℕ)
calls =
    register (codes "message_sent") (codes "p") (λ j. some j) (pos 1)
    ∷ register (codes "message_sent") (codes "q") (λ j. none) (pos 7)
    ∷ register (codes "message_sent") (codes "r") (λ j. none) (pos 3)
    ∷ unregister (codes "message_sent") (codes "p")
    ∷ []

abbrev by_q : HookRegistration ℕ → Bool
by_q r = text_eq r.plugin_id (codes "q")

run-IsOrdered_example :
    (is_sorted is_higher (handlers_of (codes "message_sent") (run insertion_sort calls fresh))
      ≡ true)
    × (count by_q (handlers_of (codes "message_sent") (run insertion_sort calls fresh))
        ≡ count by_q (handlers_of (codes "message_sent") (run unsorted calls fresh)))
unfolding handlers_of find
run-IsOrdered_example =
    run-IsOrdered insertion_sort insertion_sort-sorts calls fresh (λ name. refl)
      (codes "message_sent") by_q

abbrev sound : HookRegistration ℕ
sound = record { plugin_id = codes "p"; handler = λ j. some j; priority = pos 1 }

abbrev guarded : HookManager ℕ
guarded = record {
  hooks = (codes "before_tool_call", sound ∷ []) ∷ [];
  sidecar = some record { is_running = true; call = λ name event timeout. some 9 };
}

unregister_hook-answer_example :
    (unregister_hook (codes "before_tool_call") (codes "p") guarded).0 ≡ undefined
unfolding find text_eq
unregister_hook-answer_example =
    unregister_hook-answer (codes "before_tool_call") (codes "p") guarded
