-- ===== src/Retry/Jitter.antt =====
-- The bounds of the backoff.
use agent_force.Prelude.{ℕ, zero, suc, ◌+◌, ◌-◌, ◌*◌, ◌^◌, ◌≤◌, ◌<◌, ◌≡◌, arith, ap, ◌∙◌}
use native.Mathlib.Nat.{pow-suc}
use native.Mathlib.Numerals.{add-one}
use agent_force.Retry.{BackoffPolicy, ceiling, delay_for, random_steps}

pow-pos : (k : ℕ) → 0 < 2 ^ k
pow-pos zero = omega arith
pow-pos (suc k) = rw pow-suc (omega (arith, pow-pos k))

pow-next : (k : ℕ) → 2 ^ (k + 1) ≡ 2 ^ k * 2
pow-next k = ap (λ n. 2 ^ n) (add-one k) ∙ pow-suc 2 k

ceiling-pos :
    (p : BackoffPolicy) (attempt : ℕ) → 0 < p.base → 0 < p.max_delay → 0 < ceiling p attempt
unfolding ceiling
ceiling-pos p attempt b m = grind (arith, pow-pos (attempt - 2))

-- With a random fraction below 1, and a policy whose base and cap are positive, a retry waits less
-- than its window, and the window is at most the cap.
pub delay_for-lt-ceiling :
    (p : BackoffPolicy) (attempt random : ℕ)
    → 2 ≤ attempt
    → random < random_steps
    → 0 < p.base
    → 0 < p.max_delay
    → (delay_for p attempt random < ceiling p attempt * random_steps)
      × (ceiling p attempt ≤ p.max_delay)
      × (0 < ceiling p attempt)
unfolding delay_for ceiling
delay_for-lt-ceiling p attempt random two h b m =
    (grind (arith, ceiling-pos p attempt b m), omega arith, ceiling-pos p attempt b m)

-- The windows do not shrink from one retry to the next, and grow to at most twice their length.
ceiling-doubles :
    (p : BackoffPolicy) (attempt : ℕ)
    → 2 ≤ attempt
    → (ceiling p attempt ≤ ceiling p (attempt + 1))
      × (ceiling p (attempt + 1) ≤ 2 * ceiling p attempt)
unfolding ceiling
ceiling-doubles p attempt two =
    let e : attempt + 1 - 2 ≡ attempt - 2 + 1 = omega arith in
    rw e (rw pow-next (grind (arith, pow-pos (attempt - 2))))
