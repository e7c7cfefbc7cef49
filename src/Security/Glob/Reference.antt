-- ===== src/Security/Glob/Reference.antt =====
-- What a pattern means, without a loop and without going back, and the matcher against it.
use qwen_claw.Base.{
  ℕ, zero, suc, ◌==◌, ◌≡◌, ◌∙◌, refl, sym, inl, inr, Bool, true, false, ◌&&◌, ◌||◌, List, [], ◌∷◌,
  none, some, Bool-cases, arith, All, drop, if◌then◌else◌,
}
use qwen_claw.Base.Text.{Text}
use qwen_claw.Security.Glob.{Star, only_stars, glob_loop}

-- A star takes any number of bytes off the text.
unfoldable pub after_star : (Text → Bool) → Text → Bool
after_star rest [] = rest []
after_star rest (x ∷ text) = rest (x ∷ text) || after_star rest text

-- Any other byte takes one byte: itself, or any for a question mark.
unfoldable pub after_one : ℕ → (Text → Bool) → Text → Bool
after_one c rest [] = false
after_one c rest (x ∷ text) = (c == x || c == b'?') && rest text

-- The meaning of a pattern.
unfoldable pub glob_holds : Text → Text → Bool
glob_holds [] [] = true
glob_holds [] (x ∷ text) = false
glob_holds (c ∷ pattern) text =
    if c == b'*'
    then after_star (glob_holds pattern) text
    else after_one c (glob_holds pattern) text

-- A text in which no byte is a star.
abbrev pub NoStar : Text → Type 0
NoStar = All (λ x. (x == b'*') ≡ false)

pub only_stars-holds : (pattern : Text) → only_stars pattern ≡ glob_holds pattern []
unfolding only_stars glob_holds after_star after_one
only_stars-holds [] = refl
only_stars-holds (c ∷ pattern) = ground (arith, only_stars-holds pattern)

pub after_star-cut :
    (rest : Text → Bool) (text : Text)
    → after_star rest text ≡ true
    → (n : ℕ) × (rest (drop n text) ≡ true)
unfolding after_star
after_star-cut rest [] h = (0, h)
after_star-cut rest (x ∷ text) h = elim (Bool-cases (rest (x ∷ text))) [
  | inl here ↦ (0, here)
  | inr later ↦
      let (n, found) = after_star-cut rest text (ground (arith, h, later)) in (suc n, found)
]

pub after_star-drop :
    (rest : Text → Bool) (n : ℕ) (text : Text)
    → rest (drop n text) ≡ true
    → after_star rest text ≡ true
unfolding after_star
after_star-drop rest zero [] h = h
after_star-drop rest zero (x ∷ text) h = ground (arith, h)
after_star-drop rest (suc n) [] h = h
after_star-drop rest (suc n) (x ∷ text) h = ground (arith, after_star-drop rest n text h)

pub drop_tail : {A : Type 0} (n : ℕ) (xs : List A) → drop n (drop 1 xs) ≡ drop (suc n) xs
drop_tail zero [] = refl
drop_tail (suc n) [] = refl
drop_tail n (x ∷ xs) = refl

pub after_one-drop :
    (c : ℕ) (rest : Text → Bool) (text : Text)
    → after_one c rest text ≡ true
    → rest (drop 1 text) ≡ true
unfolding after_one
after_one-drop c rest [] h = ground (arith, h)
after_one-drop c rest (x ∷ text) h = ground (arith, h)

-- What a state of the loop answers: the rest matches, or a later start after the last star does.
abbrev pub promise : Text → Text → Star → Bool
promise pattern text none = glob_holds pattern text
promise pattern text (some (p, t)) = glob_holds pattern text || after_star (glob_holds p) t

-- What the loop keeps: a start `n` bytes later after the star gives the same rest later by `n`.
abbrev pub Kept : Text → Text → Star → Type 0
Kept pattern text none = Unit
Kept pattern text (some (p, t)) =
    (n : ℕ) → glob_holds p (drop n t) ≡ true → glob_holds pattern (drop (suc n) text) ≡ true

-- Going back to the star: the text from there is one of those that the star may leave.
pub promise-retry : (p t : Text) → promise p t (some (p, drop 1 t)) ≡ after_star (glob_holds p) t
unfolding after_star
promise-retry p [] = ground arith
promise-retry p (x ∷ t) = refl

pub glob_holds-byte :
    (c x : ℕ) (pattern text : Text)
    → (c == x || c == b'?') ≡ true
    → glob_holds pattern text ≡ true
    → glob_holds (c ∷ pattern) (x ∷ text) ≡ true
unfolding glob_holds after_one
glob_holds-byte c x pattern text test h =
    ground (arith, test, h, after_star-drop (glob_holds pattern) 1 (x ∷ text) h)

-- A match is never reported that the pattern does not have.
pub loop_sound :
    (fuel : ℕ) (pattern text : Text) (star : Star)
    → glob_loop fuel pattern text star ≡ some true
    → promise pattern text star ≡ true
unfolding glob_loop glob_holds after_star after_one
loop_sound zero pattern text star h = ground (arith, h)
loop_sound (suc fuel) pattern [] none h = ground (arith, h, only_stars-holds pattern)
loop_sound (suc fuel) pattern [] (some (p, t)) h = ground (arith, h, only_stars-holds pattern)
loop_sound (suc fuel) [] (x ∷ text) none h = ground (arith, h)
loop_sound (suc fuel) [] (x ∷ text) (some (p, t)) h =
    sym (promise-retry p t) ∙ loop_sound fuel p t (some (p, drop 1 t)) h
loop_sound (suc fuel) (c ∷ pattern) (x ∷ text) none h = ground (
  arith,
  loop_sound fuel pattern text none,
  glob_holds-byte c x pattern text,
  loop_sound fuel pattern (x ∷ text) (some (pattern, text)),
)
loop_sound (suc fuel) (c ∷ pattern) (x ∷ text) (some (p, t)) h = ground (
  arith,
  loop_sound fuel pattern text (some (p, t)),
  glob_holds-byte c x pattern text,
  loop_sound fuel pattern (x ∷ text) (some (pattern, text)),
  loop_sound fuel p t (some (p, drop 1 t)),
  promise-retry p t,
)
