-- ===== src/Security/Glob/Exact.antt =====
-- Going back to the last star alone is enough: on a text without stars the loop gives the meaning of
-- the pattern, within its fuel.
use qwen_claw.Base.{
  ℕ, zero, suc, ◌==◌, ◌≡◌, ◌∙◌, refl, sym, subst, inl, inr, Bool, true, false, [], ◌∷◌, none, some,
  Bool-cases, arith, drop,
}
use qwen_claw.Base.Text.{Text}
use qwen_claw.Security.Glob.{Star, glob_loop, glob_fuel, glob_match}
use qwen_claw.Security.Glob.Fuel.{glob_loop-ends}
use qwen_claw.Security.Glob.Reference.{
  loop_sound, after_star, after_one, glob_holds, NoStar, promise, Kept, promise-retry,
  only_stars-holds, after_star-cut, drop_tail, after_one-drop,
}

after_star-suffix :
    (rest : Text → Bool) (n : ℕ) (text : Text)
    → after_star rest (drop n text) ≡ true
    → after_star rest text ≡ true
unfolding after_star
after_star-suffix rest zero text h = h
after_star-suffix rest (suc n) [] h = h
after_star-suffix rest (suc n) (x ∷ text) h = ground (arith, after_star-suffix rest n text h)

tail_drop : (n : ℕ) (xs : Text) → drop 1 (drop n xs) ≡ drop (suc n) xs
tail_drop zero xs = refl
tail_drop (suc n) [] = refl
tail_drop (suc n) (x ∷ xs) = tail_drop n xs

Kept-set : (x : ℕ) (pattern text : Text) → Kept pattern (x ∷ text) (some (pattern, text))
Kept-set x pattern text n h = h

-- The star's part of what the loop keeps, through each kind of round.
Kept-retry : (p t : Text) → Kept p t (some (p, drop 1 t))
Kept-retry p t n h = subst (λ s. glob_holds p s ≡ true) (drop_tail n t) h

Kept-step :
    (c x : ℕ) (pattern text : Text) (star : Star)
    → (c == b'*') ≡ false
    → Kept (c ∷ pattern) (x ∷ text) star
    → Kept pattern text star
unfolding glob_holds
Kept-step c x pattern text none other kept = tt
Kept-step c x pattern text (some (p, t)) other kept = λ n h.
    subst (λ s. glob_holds pattern s ≡ true) (tail_drop n text)
      (after_one-drop c (glob_holds pattern) (drop n text) (ground (arith, kept n h, other)))

Kept-end :
    (pattern p t : Text)
    → Kept pattern [] (some (p, t))
    → after_star (glob_holds p) t ≡ true
    → glob_holds pattern [] ≡ true
Kept-end pattern p t kept h = let (n, found) = after_star-cut (glob_holds p) t h in kept n found

Kept-star :
    (c : ℕ) (pattern text p t : Text)
    → (c == b'*') ≡ true
    → Kept (c ∷ pattern) text (some (p, t))
    → after_star (glob_holds p) t ≡ true
    → glob_holds (c ∷ pattern) text ≡ true
unfolding glob_holds
Kept-star c pattern text p t star kept h =
    let (n, found) = after_star-cut (glob_holds p) t h in
    ground (arith, star, kept n found, after_star-suffix (glob_holds pattern) (suc n) text)

-- A star that has no star in the text after it.
abbrev Clean : Star → Type 0
Clean none = Unit
Clean (some (p, t)) = NoStar t

NoStar-tail : (t : Text) → NoStar t → NoStar (drop 1 t)
NoStar-tail [] h = tt
NoStar-tail (x ∷ t) h = h.1

loop-exact :
    (fuel : ℕ) (pattern text : Text) (star : Star) (b : Bool)
    → NoStar text
    → Clean star
    → Kept pattern text star
    → glob_loop fuel pattern text star ≡ some b
    → promise pattern text star ≡ b
unfolding glob_loop glob_holds after_star after_one
loop-exact zero pattern text star b plain clean kept h = ground (arith, h)
loop-exact (suc fuel) pattern [] none b plain clean kept h =
    ground (arith, h, only_stars-holds pattern)
loop-exact (suc fuel) pattern [] (some (p, t)) b plain clean kept h =
    ground (arith, h, only_stars-holds pattern, Kept-end pattern p t kept)
loop-exact (suc fuel) [] (x ∷ text) none b plain clean kept h = ground (arith, h)
loop-exact (suc fuel) [] (x ∷ text) (some (p, t)) b plain clean kept h =
    sym (promise-retry p t)
    ∙ loop-exact fuel p t (some (p, drop 1 t)) b clean (NoStar-tail t clean) (Kept-retry p t) h
loop-exact (suc fuel) (c ∷ pattern) (x ∷ text) none b plain clean kept h = ground (
  arith,
  plain.0,
  loop-exact fuel pattern text none b plain.1 tt tt,
  loop-exact fuel pattern (x ∷ text) (some (pattern, text)) b plain plain.1
      (Kept-set x pattern text),
)
loop-exact (suc fuel) (c ∷ pattern) (x ∷ text) (some (p, t)) b plain clean kept h =
    elim (Bool-cases (c == b'*')) [
      | inl star ↦ ground (
        arith,
        plain.0,
        star,
        Kept-star c pattern (x ∷ text) p t star kept,
        loop-exact fuel pattern (x ∷ text) (some (pattern, text)) b plain plain.1
            (Kept-set x pattern text),
      )
      | inr other ↦ ground (
        arith,
        plain.0,
        other,
        loop-exact fuel pattern text (some (p, t)) b plain.1 clean
            (Kept-step c x pattern text (some (p, t)) other kept),
        loop-exact fuel p t (some (p, drop 1 t)) b clean (NoStar-tail t clean) (Kept-retry p t),
        promise-retry p t,
      )
    ]

-- On a text without stars the matcher gives the meaning of the pattern.
pub glob_match-holds :
    (pattern text : Text) → NoStar text → glob_match pattern text ≡ glob_holds pattern text
unfolding glob_match
glob_match-holds pattern text plain =
    let (b, eq) = glob_loop-ends pattern text in
    ground (arith, eq, loop-exact (glob_fuel pattern text) pattern text none b plain tt tt eq)

-- On any text, what the matcher accepts has the meaning of the pattern.
pub glob_match_sound :
    (pattern text : Text) → glob_match pattern text ≡ true → glob_holds pattern text ≡ true
unfolding glob_match
glob_match_sound pattern text h =
    ground (arith, h, loop_sound (glob_fuel pattern text) pattern text none)
