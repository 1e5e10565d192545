-- ===== src/RateLimit/Window.antt =====
-- The sliding window: no more calls than the limit in any window.
use Prim.Native.String.{String}
use text.Mathlib.Text.{◌==◌ as str_eq}
use goodmoneying.Prelude.{
  ℕ, ◌+◌, ◌≤◌, ◌<◌, ◌≡◌, refl, sym, ap, ◌∙◌, inl, inr, Bool, true, false, ◌&&◌, Option, none, some,
  List, [], ◌∷◌, ◌++◌, length, count, count-append, count_le_length, count-imp, ltb, leb, ◌==◌,
  arith, Bool-cases,
}
use goodmoneying.RateLimit.{Limiter, expire, Pass, defer, observe, has_limit}
use goodmoneying.RateLimit.Keyed.{set, set-elim}
use goodmoneying.RateLimit.Passes.{Ends, unknown, blocked, through, full, no_calls, pass-Ends}
use goodmoneying.RateLimit.History.{
  World, settle, Step, passed, deferred, observed, Reach, here, next,
}
use mathlib.Core.Path.{subst}
use text.Mathlib.TextPositions.{eq_refl as str_eq-refl}
use mathlib.Core.Option.{some-injective}

-- A call that is not older than the window.
abbrev pub is_recent : ℕ → ℕ → ℕ → Bool
is_recent window now call = ltb now (call + window)

abbrev pub recent_of : String → ℕ → ℕ → String × ℕ → Bool
recent_of group window now (g, call) = str_eq g group && is_recent window now call

-- A call of the group in the window that starts at an instant.
abbrev pub in_window : String → ℕ → ℕ → String × ℕ → Bool
in_window group window start (g, call) =
    str_eq g group && (leb start call && ltb call (start + window))

-- What the queue of a group tells of the log, at the latest reading of the clock.
abbrev pub Tracks : String → ℕ → ℕ → ℕ → List ℕ → List (String × ℕ) → Type 0
Tracks group limit window clock calls log =
    ((now : ℕ)
      → clock ≤ now
      → count (recent_of group window now) log ≤ count (is_recent window now) calls)
    × ((start : ℕ) → count (in_window group window start) log ≤ limit)

count-expire :
    (window clock now : ℕ) (calls : List ℕ)
    → clock ≤ now
    → count (is_recent window now) (expire window clock calls) ≡ count (is_recent window now) calls
unfolding expire
count-expire window clock now [] le = refl
count-expire window clock now (c ∷ calls) le =
    ground (arith, count-expire window clock now calls le)

module _ (group : String) (limit window clock now : ℕ) (calls : List ℕ)
    (log : List (String × ℕ)) where
  pub Tracks-later :
      clock ≤ now
      → Tracks group limit window clock calls log
      → Tracks group limit window now calls log
  Tracks-later le (tracks, safe) = ((λ n h. tracks n (omega (arith, le, h))), safe)

  pub Tracks-expire :
      clock ≤ now
      → Tracks group limit window clock calls log
      → Tracks group limit window now (expire window now calls) log
  Tracks-expire le (tracks, safe) = (
    (λ n h. omega (arith, tracks n (omega (arith, le, h)), count-expire window now n calls h)),
    safe,
  )

  pub Tracks-other :
      (g : String)
      → str_eq g group ≡ false
      → Tracks group limit window clock calls log
      → Tracks group limit window clock calls ((g, now) ∷ log)
  Tracks-other g other (tracks, safe) =
      ((λ n h. ground (arith, other, tracks n h)), (λ start. ground (arith, other, safe start)))

  pub Tracks-granted :
      clock ≤ now
      → str_eq group group ≡ true
      → length (expire window now calls) < limit
      → Tracks group limit window clock calls log
      → Tracks group limit window now (expire window now calls ++ now ∷ []) ((group, now) ∷ log)
  Tracks-granted le same room (tracks, safe) =
      let recent : (n : ℕ)
          → now ≤ n
          → count (recent_of group window n) log
            ≤ count (is_recent window n) (expire window now calls) =
        λ n h. omega (arith, tracks n (omega (arith, le, h)), count-expire window now n calls h) in
      (
        (λ n h. ground (
          arith,
          recent n h,
          same,
          count-append (is_recent window n) (expire window now calls) (now ∷ []),
        )),
        (λ start. elim (Bool-cases (leb start now && ltb now (start + window))) [
          | inl inside ↦
              let covered =
                count-imp (in_window group window start) (recent_of group window now) log
                  (λ e h. ground arith) in
              ground (
                arith,
                covered,
                recent now (omega arith),
                count_le_length (is_recent window now) (expire window now calls),
              )
          | inr outside ↦ ground (arith, outside, safe start)
        ]),
      )

-- The queue of every group that has a limit tracks the log.
abbrev pub WorldIsSafe : World → Type 0
WorldIsSafe w =
    (group : String) (limit window : ℕ)
    → w.limiter.limits group ≡ some (limit, window)
    → Tracks group limit window w.clock (w.limiter.calls group) w.log

-- Another world with the same limits, log and queues, not earlier.
WorldIsSafe-later :
    (w : World) (s : Limiter) (now : ℕ)
    → w.clock ≤ now
    → s.limits ≡ w.limiter.limits
    → s.calls ≡ w.limiter.calls
    → WorldIsSafe w
    → WorldIsSafe record { limiter = s; clock = now; log = w.log }
WorldIsSafe-later w s now le limits calls h group limit window known =
    let kept = h group limit window (ap (λ f. f group) (sym limits) ∙ known) in
    subst (λ f. Tracks group limit window now (f group) w.log) (sym calls)
      (Tracks-later group limit window w.clock now (w.limiter.calls group) w.log le kept)

module _ (group : String) (limit window now : ℕ) (w : World) (le : w.clock ≤ now)
    (known : w.limiter.limits group ≡ some (limit, window)) (h : WorldIsSafe w) where
  abbrev left : List ℕ
  left = expire window now (w.limiter.calls group)

  -- A new queue for the group, and perhaps a longer log, whose other groups are as they were.
  with_queue :
      (queue : List ℕ) (log : List (String × ℕ))
      → Tracks group limit window now queue log
      → ((g : String) (l v : ℕ)
          → str_eq group g ≡ false
          → Tracks g l v now (w.limiter.calls g) w.log
          → Tracks g l v now (w.limiter.calls g) log)
      → WorldIsSafe record {
        limiter = record w.limiter { calls = set group queue w.limiter.calls };
        clock = now;
        log = log;
      }
  with_queue queue log tracked others g l v known' =
      set-elim
        (λ g calls. (l v : ℕ) → w.limiter.limits g ≡ some (l, v) → Tracks g l v now calls log) group
        queue w.limiter.calls
        (λ l v known'.
          let e : (limit, window) ≡ (l, v) = some-injective _ _ (sym known ∙ known') in
          subst (λ p. Tracks group p.0 p.1 now queue log) e tracked)
        (λ g other l v known'.
          others g l v other
            (Tracks-later g l v w.clock now (w.limiter.calls g) w.log le (h g l v known')))
        g l v known'

  expired-WorldIsSafe : WorldIsSafe record {
    limiter = record w.limiter { calls = set group left w.limiter.calls };
    clock = now;
    log = w.log;
  }
  expired-WorldIsSafe =
      with_queue left w.log
        (Tracks-expire group limit window w.clock now (w.limiter.calls group) w.log le
          (h group limit window known))
        (λ g l v other k. k)

  granted-WorldIsSafe :
      length left < limit
      → WorldIsSafe record {
        limiter = record w.limiter { calls = set group (left ++ now ∷ []) w.limiter.calls };
        clock = now;
        log = (group, now) ∷ w.log;
      }
  granted-WorldIsSafe room =
      with_queue (left ++ now ∷ []) ((group, now) ∷ w.log)
        (Tracks-granted group limit window w.clock now (w.limiter.calls group) w.log le
          (str_eq-refl group) room (h group limit window known))
        (λ g l v other k. Tracks-other g l v now now (w.limiter.calls g) w.log group other k)

module _ (group : String) (now : ℕ) (w : World) (le : w.clock ≤ now) (h : WorldIsSafe w) where
  Ends-WorldIsSafe : {p : Pass} → Ends group now w.limiter p → WorldIsSafe (settle group now w p)
  Ends-WorldIsSafe (unknown _) = WorldIsSafe-later w w.limiter now le refl refl h
  Ends-WorldIsSafe (blocked _ _ _ _) = WorldIsSafe-later w w.limiter now le refl refl h
  Ends-WorldIsSafe (through limit window known _ room) =
      granted-WorldIsSafe group limit window now w le known h room
  Ends-WorldIsSafe (full limit window _ _ known _ _ _) =
      expired-WorldIsSafe group limit window now w le known h
  Ends-WorldIsSafe (no_calls window known _ _) = expired-WorldIsSafe group 0 window now w le known h

-- Observing and deferring leave limits and queues as they are.
observe-kept :
    (second : ℕ) (remaining : Option (String × ℕ)) (now : ℕ) (s : Limiter)
    → ((observe second remaining now s).limits ≡ s.limits)
      × ((observe second remaining now s).calls ≡ s.calls)
unfolding observe
observe-kept second none now s = (refl, refl)
observe-kept second (some (group, quota)) now s =
    elim (Bool-cases ((quota == 0) && has_limit (s.limits group))) [
      | inl blocks ↦ rw blocks (refl, refl)
      | inr quiet ↦ rw quiet (refl, refl)
    ]

Step-WorldIsSafe : (second : ℕ) {w x : World} → Step second w x → WorldIsSafe w → WorldIsSafe x
unfolding defer
Step-WorldIsSafe second (passed group now w le) h =
    Ends-WorldIsSafe group now w le h (pass-Ends group now w.limiter)
Step-WorldIsSafe second (deferred group seconds now w le) h =
    WorldIsSafe-later w (defer group seconds now w.limiter) now le refl refl h
Step-WorldIsSafe second (observed remaining now w le) h =
    let kept = observe-kept second remaining now w.limiter in
    WorldIsSafe-later w (observe second remaining now w.limiter) now le kept.0 kept.1 h

Reach-WorldIsSafe : (second : ℕ) {w x : World} → Reach second w x → WorldIsSafe w → WorldIsSafe x
Reach-WorldIsSafe second (here w) h = h
Reach-WorldIsSafe second (next path step) h =
    Step-WorldIsSafe second step (Reach-WorldIsSafe second path h)

-- A limiter as it is made, before any call.
abbrev pub fresh : (String → Option (ℕ × ℕ)) → ℕ → World
fresh limits clock = record {
  limiter = record { limits = limits; calls = λ _. []; blocked_until = λ _. none };
  clock = clock;
  log = [];
}

Ends-limits :
    (group : String) (now : ℕ) (w : World) {p : Pass}
    → Ends group now w.limiter p
    → (settle group now w p).limiter.limits ≡ w.limiter.limits
Ends-limits group now w (unknown _) = refl
Ends-limits group now w (blocked _ _ _ _) = refl
Ends-limits group now w (through _ _ _ _ _) = refl
Ends-limits group now w (full _ _ _ _ _ _ _ _) = refl
Ends-limits group now w (no_calls _ _ _ _) = refl

Step-limits : (second : ℕ) {w x : World} → Step second w x → x.limiter.limits ≡ w.limiter.limits
unfolding defer
Step-limits second (passed group now w le) = Ends-limits group now w (pass-Ends group now w.limiter)
Step-limits second (deferred group seconds now w le) = refl
Step-limits second (observed remaining now w le) = (observe-kept second remaining now w.limiter).0

-- The limits of a limiter never change.
Reach-limits : (second : ℕ) {w x : World} → Reach second w x → x.limiter.limits ≡ w.limiter.limits
Reach-limits second (here w) = refl
Reach-limits second (next path step) = Step-limits second step ∙ Reach-limits second path

-- Whatever the threads do, a group with a limit gets at most that many calls through in any window
-- of its length.
pub Reach-in_window :
    (second : ℕ) (limits : String → Option (ℕ × ℕ)) (clock : ℕ) {x : World}
    → Reach second (fresh limits clock) x
    → (group : String) (limit window : ℕ) → limits group ≡ some (limit, window)
    → (start : ℕ) → count (in_window group window start) x.log ≤ limit
Reach-in_window second limits clock path group limit window known start =
    (Reach-WorldIsSafe second path (λ g l v k. ((λ n h. omega arith), (λ t. omega arith))) group
        limit window (ap (λ f. f group) (Reach-limits second path) ∙ known)).1
      start
