-- ===== src/Security/RateLimiter/Bounds.antt =====
-- The sliding window: how many requests are let through within any window.
use qwen_claw.Base.{
  ℕ, ◌≤◌, ◌<◌, ◌≡◌, ◌⊎◌, refl, sym, ap, ◌∙◌, true, false, not, List, [], ◌∷◌, ◌++◌, arith, All,
  length, length-append, keep_if, length-keep_if-le, inl, inr, if◌then◌else◌,
}
use qwen_claw.Base.Int.{ℤ, pos_part}
use qwen_claw.Security.RateLimiter.{Config, is_older, purge_old, admit}

-- The requests of one key, in order: the window that the limiter stores, and a record of the times
-- at which it let a request through, oldest first.
unfoldable pub serve : Config → List ℕ × List ℕ → List ℕ → List ℕ × List ℕ
serve config (ts, passed) [] = (ts, passed)
serve config (ts, passed) (now ∷ times) =
    let (ts', ok) = admit config now ts in
    serve config (ts', if ok then passed ++ now ∷ [] else passed) times

abbrev pub Ascending : ℕ → List ℕ → Type 0
Ascending last [] = Unit
Ascending last (t ∷ ts) = (last ≤ t) × Ascending t ts

-- Those of the times that a reading at `now` still counts.
abbrev pub counted : ℤ → ℕ → List ℕ → List ℕ
counted window now = keep_if (λ t. not (is_older window now t))

counted-purge_old :
    (config : Config) (now later : ℕ) (ts : List ℕ)
    → now ≤ later
    → counted config.window_seconds later (purge_old config now ts)
      ≡ counted config.window_seconds later ts
unfolding purge_old
counted-purge_old config now later [] h = refl
counted-purge_old config now later (t ∷ ts) h =
    ground (arith, counted-purge_old config now later ts h)

counted-append :
    (window : ℤ) (now : ℕ) (xs ys : List ℕ)
    → counted window now (xs ++ ys) ≡ counted window now xs ++ counted window now ys
counted-append window now [] ys = refl
counted-append window now (x ∷ xs) ys = ground (arith, counted-append window now xs ys)

record Faithful (config : Config) (last : ℕ) (ts passed : List ℕ) : Type 0 where
  within : length ts ≤ pos_part config.max_requests
  agree :
      (now : ℕ)
      → last ≤ now
      → counted config.window_seconds now passed ≡ counted config.window_seconds now ts

-- The two answers of `admit`.
admit-cases :
    (config : Config) (now : ℕ) (ts : List ℕ)
    → (admit config now ts ≡ (purge_old config now ts, false))
      ⊎ ((admit config now ts ≡ (purge_old config now ts ++ now ∷ [], true))
          × (length (purge_old config now ts) < pos_part config.max_requests))
unfolding admit
admit-cases config now ts = ground arith

pub length-purge_old-le :
    (config : Config) (now : ℕ) (ts : List ℕ) → length (purge_old config now ts) ≤ length ts
unfolding purge_old
length-purge_old-le config now [] = omega arith
length-purge_old-le config now (t ∷ ts) = ground (arith, length-purge_old-le config now ts)

step-refused :
    (config : Config) (last now : ℕ) (ts passed : List ℕ)
    → last ≤ now
    → Faithful config last ts passed
    → Faithful config now (purge_old config now ts) passed
step-refused config last now ts passed h f = record {
  within = omega (arith, f.within, length-purge_old-le config now ts);
  agree = λ later k. f.agree later (omega arith) ∙ sym (counted-purge_old config now later ts k);
}

step-passed :
    (config : Config) (last now : ℕ) (ts passed : List ℕ)
    → last ≤ now
    → length (purge_old config now ts) < pos_part config.max_requests
    → Faithful config last ts passed
    → Faithful config now (purge_old config now ts ++ now ∷ []) (passed ++ now ∷ [])
step-passed config last now ts passed h room f = record {
  within = omega (arith, length-append (purge_old config now ts) (now ∷ []));
  agree = λ later k.
      let w = config.window_seconds in
      counted-append w later passed (now ∷ [])
      ∙ ap (λ l. l ++ counted w later (now ∷ []))
          (f.agree later (omega arith) ∙ sym (counted-purge_old config now later ts k))
      ∙ sym (counted-append w later (purge_old config now ts) (now ∷ []));
}

serve-bounded :
    (config : Config) (last now : ℕ) (ts passed times : List ℕ)
    → Ascending last times
    → All (λ t. t ≤ now) times
    → last ≤ now
    → Faithful config last ts passed
    → length (counted config.window_seconds now (serve config (ts, passed) times).1)
      ≤ pos_part config.max_requests
unfolding serve
serve-bounded config last now ts passed [] asc all h f =
    rw (f.agree now h) (omega (arith, f.within, length-keep_if-le _ ts))
serve-bounded config last now ts passed (t ∷ times) asc all h f = elim (admit-cases config t ts) [
  | inl refused ↦
      rw (refused, serve)
        (serve-bounded config t now (purge_old config t ts) passed times asc.1 all.1 all.0
          (step-refused config last t ts passed asc.0 f))
  | inr (passes, room) ↦
      rw (passes, serve)
        (serve-bounded config t now (purge_old config t ts ++ t ∷ []) (passed ++ t ∷ []) times asc.1
          all.1 all.0 (step-passed config last t ts passed asc.0 room f))
]

-- The sliding window holds: when the requests of one key come in order, then at any time `now` not
-- before the last of them, at most `max_requests` of those let through lie within the window that ends
-- at `now` (none, where `max_requests` is negative).
pub serve-window_bound :
    (config : Config) (times : List ℕ) (now : ℕ)
    → Ascending 0 times
    → All (λ t. t ≤ now) times
    → length (counted config.window_seconds now (serve config ([], []) times).1)
      ≤ pos_part config.max_requests
serve-window_bound config times now asc all =
    serve-bounded config 0 now [] [] times asc all (omega arith)
      (record { within = omega arith; agree = λ later k. refl })
