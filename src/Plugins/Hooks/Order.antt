-- ===== src/Plugins/Hooks/Order.antt =====
-- The handlers of a hook: their order, and that sorting loses none.
use qwen_claw.Base.{
  ℕ, ◌+◌, ◌≡◌, ◌∙◌, refl, ap, Bool, true, false, not, ◌&&◌, List, [], ◌∷◌, ◌++◌, Option, arith,
  keep_if, length, Bool-cases, Option-cases, inl, inr, if◌then◌else◌,
}
use qwen_claw.Base.Int.{ℤ, ltb_ℤ}
use qwen_claw.Base.Text.{Text, text_eq, text_eq_iff, is_empty}
use qwen_claw.Base.Dict.{find, find-insert, find-erase}
use qwen_claw.Plugins.Hooks.{
  HookRegistration, HookManager, handlers_of, comes_first, register_hook, unregister_hook, clear,
}

-- What `std::sort` asks of a comparison: a strict weak order.
abbrev pub IsWeakOrder {ℓ} : {A : Type ℓ} → (A → A → Bool) → Type ℓ
IsWeakOrder {A = A} less =
    ((a b : A) → less a b ≡ true → less b a ≡ false)
    × ((a b c : A) → less a b ≡ false → less b c ≡ false → less a c ≡ false)

module _ {ℓ} {A : Type ℓ} where
  -- Nothing later comes before `a`, and so for every element of the list.
  abbrev pub is_bound : (A → A → Bool) → A → List A → Bool
  is_bound less a [] = true
  is_bound less a (b ∷ xs) = not (less b a) && is_bound less a xs

  abbrev pub is_sorted : (A → A → Bool) → List A → Bool
  is_sorted less [] = true
  is_sorted less (a ∷ xs) = is_bound less a xs && is_sorted less xs

  is_bound-keep_if :
      (less : A → A → Bool) (p : A → Bool) (a : A) (xs : List A)
      → is_bound less a xs ≡ true
      → is_bound less a (keep_if p xs) ≡ true
  is_bound-keep_if less p a [] h = refl
  is_bound-keep_if less p a (b ∷ xs) h = elim (Bool-cases (p b)) [
    | inl kept ↦ ground (arith, kept, h, is_bound-keep_if less p a xs)
    | inr left ↦ ground (arith, left, h, is_bound-keep_if less p a xs)
  ]

  is_sorted-keep_if :
      (less : A → A → Bool) (p : A → Bool) (xs : List A)
      → is_sorted less xs ≡ true
      → is_sorted less (keep_if p xs) ≡ true
  is_sorted-keep_if less p [] h = refl
  is_sorted-keep_if less p (b ∷ xs) h = elim (Bool-cases (p b)) [
    | inl kept ↦ ground (arith, kept, h, is_bound-keep_if less p b xs, is_sorted-keep_if less p xs)
    | inr left ↦ ground (arith, left, h, is_sorted-keep_if less p xs)
  ]

  -- How many elements a test picks.
  abbrev pub count : (A → Bool) → List A → ℕ
  count p xs = length (keep_if p xs)

  count-append : (p : A → Bool) (xs ys : List A) → count p (xs ++ ys) ≡ count p xs + count p ys
  count-append p [] ys = omega arith
  count-append p (x ∷ xs) ys = ground (arith, count-append p xs ys)

  count-keep_if :
      (p q : A → Bool) (xs : List A) → count p (keep_if q xs) ≡ count (λ x. q x && p x) xs
  count-keep_if p q [] = refl
  count-keep_if p q (x ∷ xs) = ground (arith, count-keep_if p q xs)

-- The calls that change the handlers.
pub data Call (J : Type 0) : Type 0 where
  register : Text → Text → (J → Option J) → ℤ → Call J
  unregister : Text → Text → Call J
  clear_all : Call J

abbrev pub Sort : Type 0 → Type 0
Sort J =
    (HookRegistration J → HookRegistration J → Bool)
    → List (HookRegistration J)
    → List (HookRegistration J)

module _ {J : Type 0} where
  -- `a` has the higher priority, written out.
  abbrev pub is_higher : HookRegistration J → HookRegistration J → Bool
  is_higher a b = ltb_ℤ b.priority a.priority

  empty : (xs : List (HookRegistration J)) → is_empty xs ≡ true → xs ≡ []
  empty [] h = refl
  empty (r ∷ xs) h = absurd (ground (arith, h))

  comes_first-IsWeakOrder : IsWeakOrder {A = HookRegistration J} comes_first
  unfolding comes_first
  comes_first-IsWeakOrder = (λ a b h. ground (arith, h), λ a b c h k. ground (arith, h, k))

  handlers_of-register_hook :
      (sort : Sort J) (name plugin : Text) (h : J → Option J) (p : ℤ) (m : HookManager J)
      (name' : Text)
      → handlers_of name' (register_hook sort name plugin h p m) ≡ (
          if text_eq name name'
          then sort comes_first (
              handlers_of name m ++ (record { plugin_id = plugin; handler = h; priority = p } ∷ []))
          else handlers_of name' m)
  unfolding handlers_of register_hook
  handlers_of-register_hook sort name plugin h p m name' = ground (
    arith,
    find-insert name' name
        (sort comes_first
          (handlers_of name m ++ (record { plugin_id = plugin; handler = h; priority = p } ∷ [])))
        m.hooks,
  )

  handlers_of-unregister_hook :
      (name plugin : Text) (m : HookManager J) (name' : Text)
      → handlers_of name' (unregister_hook name plugin m).1 ≡ (
          if text_eq name name'
          then keep_if (λ r. not (text_eq r.plugin_id plugin)) (handlers_of name m)
          else handlers_of name' m)
  unfolding handlers_of unregister_hook
  handlers_of-unregister_hook name plugin m name' = elim (Option-cases (find name m.hooks)) [
    | inl missing ↦ elim (Bool-cases (text_eq name name')) [
      | inl same ↦
          ground (arith, missing, same, ap (λ n. find n m.hooks) ((text_eq_iff name name').0 same))
      | inr other ↦ ground (arith, missing, other)
    ]
    | inr (handlers, found) ↦
        let left = keep_if (λ r. not (text_eq r.plugin_id plugin)) handlers in
        elim (Bool-cases (is_empty left)) [
          | inl gone ↦ ground (arith, found, gone, find-erase name' name m.hooks, empty left gone)
          | inr some_left ↦ ground (arith, found, some_left, find-insert name' name left m.hooks)
        ]
  ]

  abbrev step : Sort J → Call J → HookManager J → HookManager J
  step sort (register name plugin h p) m = register_hook sort name plugin h p m
  step sort (unregister name plugin) m = (unregister_hook name plugin m).1
  step sort clear_all m = clear m

  abbrev pub run : Sort J → List (Call J) → HookManager J → HookManager J
  run sort [] m = m
  run sort (call ∷ calls) m = run sort calls (step sort call m)

  abbrev pub unsorted : Sort J
  unsorted less handlers = handlers

  -- The handlers are in order, and the same as those of `m'`.
  abbrev IsOrdered : HookManager J → HookManager J → Type 0
  IsOrdered m m' =
      (name : Text)
      → (is_sorted is_higher (handlers_of name m) ≡ true)
        × ((p : HookRegistration J → Bool)
            → count p (handlers_of name m) ≡ count p (handlers_of name m'))

  module _ (sort : Sort J)
      (sorts : (less : HookRegistration J → HookRegistration J → Bool)
        → IsWeakOrder less
        → (handlers : List (HookRegistration J))
        → (is_sorted less (sort less handlers) ≡ true)
          × ((p : HookRegistration J → Bool)
              → count p (sort less handlers) ≡ count p handlers)) where
    register_hook-IsOrdered :
        (name plugin : Text) (h : J → Option J) (k : ℤ) (m m' : HookManager J)
        → IsOrdered m m'
        → IsOrdered
            (register_hook sort name plugin h k m)
            (register_hook unsorted name plugin h k m')
    unfolding comes_first
    register_hook-IsOrdered name plugin h k m m' ordered name' =
        let r : HookRegistration J = record { plugin_id = plugin; handler = h; priority = k } in
        let new = handlers_of-register_hook sort name plugin h k m name' in
        let new' = handlers_of-register_hook unsorted name plugin h k m' name' in
        let sorted = sorts comes_first comes_first-IsWeakOrder (handlers_of name m ++ (r ∷ [])) in
        elim (Bool-cases (text_eq name name')) [
          | inl here ↦ (
            ground (arith, new, here, sorted.0),
            λ p.
                ap (count p) new
                ∙ ground (
                  arith,
                  here,
                  ap (count p) new',
                  sorted.1 p,
                  count-append p (handlers_of name m) (r ∷ []),
                  count-append p (handlers_of name m') (r ∷ []),
                  (ordered name).1 p,
                ),
          )
          | inr there ↦ (
            ground (arith, new, there, (ordered name').0),
            λ p. ap (count p) new ∙ ground (arith, there, ap (count p) new', (ordered name').1 p),
          )
        ]

    unregister_hook-IsOrdered :
        (name plugin : Text) (m m' : HookManager J)
        → IsOrdered m m'
        → IsOrdered (unregister_hook name plugin m).1 (unregister_hook name plugin m').1
    unregister_hook-IsOrdered name plugin m m' ordered name' =
        let q : HookRegistration J → Bool = λ r. not (text_eq r.plugin_id plugin) in
        let new = handlers_of-unregister_hook name plugin m name' in
        let new' = handlers_of-unregister_hook name plugin m' name' in
        elim (Bool-cases (text_eq name name')) [
          | inl here ↦ (
            ground (
              arith,
              new,
              here,
              is_sorted-keep_if is_higher q (handlers_of name m) (ordered name).0,
            ),
            λ p.
                ap (count p) new
                ∙ ground (
                  arith,
                  here,
                  ap (count p) new',
                  count-keep_if p q (handlers_of name m),
                  count-keep_if p q (handlers_of name m'),
                  (ordered name).1 (λ r. q r && p r),
                ),
          )
          | inr there ↦ (
            ground (arith, new, there, (ordered name').0),
            λ p. ap (count p) new ∙ ground (arith, there, ap (count p) new', (ordered name').1 p),
          )
        ]

    run-kept :
        (calls : List (Call J)) (m m' : HookManager J)
        → IsOrdered m m'
        → IsOrdered (run sort calls m) (run unsorted calls m')
    unfolding clear handlers_of find
    run-kept [] m m' ordered = ordered
    run-kept (register name plugin h p ∷ calls) m m' ordered =
        run-kept calls (register_hook sort name plugin h p m)
          (register_hook unsorted name plugin h p m')
          (register_hook-IsOrdered name plugin h p m m' ordered)
    run-kept (unregister name plugin ∷ calls) m m' ordered =
        run-kept calls (unregister_hook name plugin m).1 (unregister_hook name plugin m').1
          (unregister_hook-IsOrdered name plugin m m' ordered)
    run-kept (clear_all ∷ calls) m m' ordered =
        run-kept calls (clear m) (clear m') (λ name. (refl, λ p. refl))

  -- If the sorting function puts a list in the order of any strict weak order it is given, and loses
  -- and adds no element, then after any calls on a manager whose handlers are in order, those of every
  -- hook stand with the highest priority first, and are the ones that calls without sorting leave.
  pub run-IsOrdered :
      (sort : Sort J)
      (sorts : (less : HookRegistration J → HookRegistration J → Bool)
        → IsWeakOrder less
        → (handlers : List (HookRegistration J))
        → (is_sorted less (sort less handlers) ≡ true)
          × ((p : HookRegistration J → Bool) → count p (sort less handlers) ≡ count p handlers))
      (calls : List (Call J)) (m : HookManager J)
      → ((name : Text) → is_sorted is_higher (handlers_of name m) ≡ true)
      → (name : Text) (p : HookRegistration J → Bool)
      → (is_sorted is_higher (handlers_of name (run sort calls m)) ≡ true)
        × (count p (handlers_of name (run sort calls m))
            ≡ count p (handlers_of name (run unsorted calls m)))
  run-IsOrdered sort sorts calls m ordered name p =
      let kept = run-kept sort sorts calls m m (λ n. (ordered n, λ q. refl)) name in
      (kept.0, kept.1 p)
