-- ===== src/RateLimit/History.antt =====
-- The threads of a limiter: passes of `acquire`, and calls of `observe` and `defer`, in any order, with
-- readings of a clock that does not run backwards.
use Prim.Native.String.{String}
use goodmoneying.Prelude.{ℕ, ◌≤◌, Option, List, ◌∷◌}
use goodmoneying.RateLimit.{
  Limiter, Pass, granted, wait, key_error, index_error, pass, defer, observe,
}

-- The limiter, its latest reading of the clock, and the calls that it let through, newest first.
pub record World : Type 0 where
  pub limiter : Limiter
  pub clock : ℕ
  pub log : List (String × ℕ)

abbrev pub settle : String → ℕ → World → Pass → World
settle group now w (granted s) = record { limiter = s; clock = now; log = (group, now) ∷ w.log }
settle group now w (wait _ s) = record { limiter = s; clock = now; log = w.log }
settle group now w key_error = record w { clock = now }
settle group now w (index_error s) = record { limiter = s; clock = now; log = w.log }

module _ (second : ℕ) where
  pub data Step : World → World → Type 0 where
    passed :
        (group : String) (now : ℕ) (w : World)
        → w.clock ≤ now
        → Step w (settle group now w (pass group now w.limiter))
    deferred :
        (group : String) (seconds now : ℕ) (w : World)
        → w.clock ≤ now
        → Step w (record w { limiter = defer group seconds now w.limiter; clock = now })
    observed :
        (remaining : Option (String × ℕ)) (now : ℕ) (w : World)
        → w.clock ≤ now
        → Step w (record w { limiter = observe second remaining now w.limiter; clock = now })

  pub data Reach : World → World → Type 0 where
    here : (w : World) → Reach w w
    next : {v w x : World} → Reach v w → Step w x → Reach v x
