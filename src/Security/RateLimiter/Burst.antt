-- ===== src/Security/RateLimiter/Burst.antt =====
-- The burst limit: how many requests are let through within one second.
use mathlib.Core.List.{reverse, reverse-cons}
use qwen_claw.Base.{
  ℕ, suc, ◌+◌, ◌≤◌, ◌≡◌, ◌⊎◌, refl, sym, ap, ◌∙◌, true, false, List, [], ◌∷◌, ◌++◌, arith, All,
  All-append, length, length-append, keep_if, length-keep_if-le, leb, inl, inr,
}
use qwen_claw.Base.Int.{pos}
use qwen_claw.Security.RateLimiter.{Config, second, purge_old, scan_burst, burst_count, admit}
use qwen_claw.Security.RateLimiter.Bounds.{Ascending, serve}

-- The times of the last second before `now`.
abbrev pub recent : ℕ → List ℕ → List ℕ
recent now = keep_if (λ t. leb now (t + second))

abbrev Descending : ℕ → List ℕ → Type 0
Descending bound [] = Unit
Descending bound (t ∷ ts) = (t ≤ bound) × Descending t ts

none_recent :
    (now t : ℕ) (ts : List ℕ) → Descending t ts → leb now (t + second) ≡ false → recent now ts ≡ []
none_recent now t [] d h = refl
none_recent now t (u ∷ ts) d h = ground (arith, none_recent now u ts d.1)

scan_burst-counts :
    (now bound : ℕ) (ts : List ℕ) → Descending bound ts → scan_burst now ts ≡ length (recent now ts)
unfolding scan_burst
scan_burst-counts now bound [] d = refl
scan_burst-counts now bound (t ∷ ts) d =
    ground (arith, scan_burst-counts now t ts d.1, none_recent now t ts d.1)

Descending-append :
    (bound t : ℕ) (ts : List ℕ)
    → Descending bound ts
    → All (λ u. t ≤ u) ts
    → t ≤ bound
    → Descending bound (ts ++ t ∷ [])
Descending-append bound t [] d a h = (h, tt)
Descending-append bound t (u ∷ ts) d a h = (d.0, Descending-append u t ts d.1 a.1 a.0)

All-weaken : (t u : ℕ) (ts : List ℕ) → t ≤ u → All (λ v. u ≤ v) ts → All (λ v. t ≤ v) ts
All-weaken t u [] h a = tt
All-weaken t u (v ∷ ts) h a = (omega (arith, a.0), All-weaken t u ts h a.1)

Ascending-All : (t : ℕ) (ts : List ℕ) → Ascending t ts → All (λ u. t ≤ u) ts
Ascending-All t [] a = tt
Ascending-All t (u ∷ ts) a = (a.0, All-weaken t u ts a.0 (Ascending-All u ts a.1))

All-reverse : (t : ℕ) (ts : List ℕ) → All (λ u. t ≤ u) ts → All (λ u. t ≤ u) (reverse ts)
All-reverse t [] a = tt
All-reverse t (u ∷ ts) a =
    rw reverse-cons (All-append _ (reverse ts) (u ∷ []) (All-reverse t ts a.1) (a.0, tt))

Descending-reverse :
    (low bound : ℕ) (ts : List ℕ)
    → Ascending low ts
    → All (λ u. u ≤ bound) ts
    → Descending bound (reverse ts)
Descending-reverse low bound [] asc all = tt
Descending-reverse low bound (t ∷ ts) asc all = rw reverse-cons (
    Descending-append bound t (reverse ts) (Descending-reverse t bound ts asc.1 all.1)
      (All-reverse t ts (Ascending-All t ts asc.1)) all.0)

recent-append : (now : ℕ) (xs ys : List ℕ) → recent now (xs ++ ys) ≡ recent now xs ++ recent now ys
recent-append now [] ys = refl
recent-append now (x ∷ xs) ys = ground (arith, recent-append now xs ys)

length-recent-reverse :
    (now : ℕ) (ts : List ℕ) → length (recent now (reverse ts)) ≡ length (recent now ts)
length-recent-reverse now [] = refl
length-recent-reverse now (t ∷ ts) =
    rw (reverse-cons, recent-append now (reverse ts) (t ∷ []))
      (ground (
        arith,
        length-append (recent now (reverse ts)) (recent now (t ∷ [])),
        length-recent-reverse now ts,
      ))

-- What the limiter keeps of one key's times, between its requests.
record Bursts (config : Config) (burst last : ℕ) (ts passed : List ℕ) : Type 0 where
  ascending : Ascending 0 ts
  past : All (λ u. u ≤ last) ts
  limited : length (recent last ts) ≤ burst
  agree : (now : ℕ) → last ≤ now → recent now passed ≡ recent now ts

burst_count-counts :
    (last : ℕ) (ts : List ℕ)
    → Ascending 0 ts
    → All (λ u. u ≤ last) ts
    → burst_count last ts ≡ length (recent last ts)
burst_count-counts last ts asc all =
    scan_burst-counts last last (reverse ts) (Descending-reverse 0 last ts asc all)
    ∙ length-recent-reverse last ts

recent_mono :
    (now later : ℕ) (ts : List ℕ) → now ≤ later → length (recent later ts) ≤ length (recent now ts)
recent_mono now later [] h = omega arith
recent_mono now later (t ∷ ts) h = ground (arith, recent_mono now later ts h)

Ascending-lower : (low t : ℕ) (ts : List ℕ) → low ≤ t → Ascending t ts → Ascending low ts
Ascending-lower low t [] h a = tt
Ascending-lower low t (u ∷ ts) h a = (omega (arith, a.0), a.1)

purge_old-Ascending :
    (config : Config) (now low : ℕ) (ts : List ℕ)
    → Ascending low ts
    → Ascending low (purge_old config now ts)
unfolding purge_old
purge_old-Ascending config now low [] a = tt
purge_old-Ascending config now low (t ∷ ts) a = ground (
  arith,
  a,
  Ascending-lower low t (purge_old config now ts) a.0,
  purge_old-Ascending config now t ts a.1,
)

past_later :
    (last later : ℕ) (ts : List ℕ) → last ≤ later → All (λ u. u ≤ last) ts → All (λ u. u ≤ later) ts
past_later last later [] h a = tt
past_later last later (t ∷ ts) h a = (omega (arith, a.0), past_later last later ts h a.1)

purge_old-past :
    (config : Config) (now later : ℕ) (ts : List ℕ)
    → All (λ u. u ≤ later) ts
    → All (λ u. u ≤ later) (purge_old config now ts)
unfolding purge_old
purge_old-past config now later [] a = tt
purge_old-past config now later (t ∷ ts) a =
    ground (arith, a, purge_old-past config now later ts a.1)

-- A window of a second or more keeps what is recent.
recent-purge_old :
    (config : Config) (k now later : ℕ) (ts : List ℕ)
    → config.window_seconds ≡ pos (suc k)
    → now ≤ later
    → recent later (purge_old config now ts) ≡ recent later ts
unfolding purge_old
recent-purge_old config k now later [] e h = refl
recent-purge_old config k now later (t ∷ ts) e h =
    ground (arith, recent-purge_old config k now later ts e h)

-- `admit` when a burst limit is set.
admit-cases :
    (config : Config) (b now : ℕ) (ts : List ℕ)
    → config.burst_max ≡ pos (suc b)
    → (admit config now ts ≡ (purge_old config now ts, false))
      ⊎ ((admit config now ts ≡ (purge_old config now ts ++ now ∷ [], true))
          × (burst_count now (purge_old config now ts) ≤ b))
unfolding admit
admit-cases config b now ts e = ground arith

Ascending-append :
    (low now : ℕ) (ts : List ℕ)
    → Ascending low ts
    → All (λ u. u ≤ now) ts
    → low ≤ now
    → Ascending low (ts ++ now ∷ [])
Ascending-append low now [] a p h = (h, tt)
Ascending-append low now (t ∷ ts) a p h = (a.0, Ascending-append t now ts a.1 p.1 p.0)

module _ (config : Config) (k b : ℕ) (e : config.window_seconds ≡ pos (suc k)) where
  step-refused :
      (last now : ℕ) (ts passed : List ℕ)
      → last ≤ now
      → Bursts config (suc b) last ts passed
      → Bursts config (suc b) now (purge_old config now ts) passed
  step-refused last now ts passed h f = record {
    ascending = purge_old-Ascending config now 0 ts f.ascending;
    past = purge_old-past config now now ts (past_later last now ts h f.past);
    limited =
        rw (recent-purge_old config k now now ts e (omega arith))
          (omega (arith, f.limited, recent_mono last now ts h));
    agree =
        λ later m. f.agree later (omega arith) ∙ sym (recent-purge_old config k now later ts e m);
  }

  step-passed :
      (last now : ℕ) (ts passed : List ℕ)
      → last ≤ now
      → burst_count now (purge_old config now ts) ≤ b
      → Bursts config (suc b) last ts passed
      → Bursts config (suc b) now (purge_old config now ts ++ now ∷ []) (passed ++ now ∷ [])
  step-passed last now ts passed h room f =
      let kept = purge_old config now ts in
      let r = step-refused last now ts passed h f in
      record {
        ascending = Ascending-append 0 now kept r.ascending r.past (omega arith);
        past = All-append _ kept (now ∷ []) r.past (omega arith, tt);
        limited = rw (recent-append now kept (now ∷ [])) (
            omega (
              arith,
              room,
              burst_count-counts now kept r.ascending r.past,
              length-append (recent now kept) (recent now (now ∷ [])),
              length-keep_if-le (λ t. leb now (t + second)) (now ∷ []),
            ));
        agree = λ later m.
            recent-append later passed (now ∷ [])
            ∙ ap (λ l. l ++ recent later (now ∷ [])) (r.agree later m)
            ∙ sym (recent-append later kept (now ∷ []));
      }

  serve-Bursts :
      (last now : ℕ) (ts passed times : List ℕ)
      → config.burst_max ≡ pos (suc b)
      → Ascending last times
      → All (λ t. t ≤ now) times
      → last ≤ now
      → Bursts config (suc b) last ts passed
      → length (recent now (serve config (ts, passed) times).1) ≤ suc b
  unfolding serve
  serve-Bursts last now ts passed [] m asc all h f =
      rw (f.agree now h) (omega (arith, f.limited, recent_mono last now ts h))
  serve-Bursts last now ts passed (t ∷ times) m asc all h f = elim (admit-cases config b t ts m) [
    | inl refused ↦
        rw (refused, serve)
          (serve-Bursts t now (purge_old config t ts) passed times m asc.1 all.1 all.0
            (step-refused last t ts passed asc.0 f))
    | inr (passes, room) ↦
        rw (passes, serve)
          (serve-Bursts t now (purge_old config t ts ++ t ∷ []) (passed ++ t ∷ []) times m asc.1
            all.1 all.0 (step-passed last t ts passed asc.0 room f))
  ]

-- The burst limit holds: with a positive `burst_max` and a window of at least a second, when the
-- requests of one key come in order, then at any time `now` not before the last of them, at most
-- `burst_max` of those let through lie within the second that ends at `now`.
pub serve-burst_bound :
    (config : Config) (k b : ℕ) (times : List ℕ) (now : ℕ)
    → config.window_seconds ≡ pos (suc k)
    → config.burst_max ≡ pos (suc b)
    → Ascending 0 times
    → All (λ t. t ≤ now) times
    → length (recent now (serve config ([], []) times).1) ≤ suc b
serve-burst_bound config k b times now e m asc all =
    serve-Bursts config k b e 0 now [] [] times m asc all (omega arith)
      (record { ascending = tt; past = tt; limited = omega arith; agree = λ later h. refl })
