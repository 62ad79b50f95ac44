-- ===== src/Clockmatrix/PullIn/Halving.antt =====
-- The software pull-in: its frequency stays in the range that the loop asks for.
use native.Mathlib.Nat.{pow-suc, mod-add-div, add-mul-mod_self_left, div-div-eq-div-mul, zero-div}
use linux_ptp_driver_package.Clockmatrix.PullIn.{
  halve, phase_pull_in_scaled_ppm, limit_ffo, msec_per_sec, max_pull_in_scaled_ppm,
  phase_pull_in_max_ppb,
}
use linux_ptp_driver_package.Prelude.Int.{ℤ, pos, negsuc, quot, abs, ◌+ℤ◌, ◌*ℤ◌, neg, clamp}
use linux_ptp_driver_package.Prelude.{
  ◌+◌, ◌*◌, ◌/◌, ◌%◌, ◌^◌, ◌≤◌, ◌<◌, ℕ, zero, suc, ◌≡◌, refl, inl, inr, arith, Bool-cases, ltb, ◌∙◌,
  ap, subst,
}
use linux_ptp_driver_package.Prelude.Bits.{times_pow}

pub abs-quot : (z : ℤ) (d : ℕ) → abs (quot z d) ≡ abs z / d
unfolding quot
abs-quot (pos n) d = refl
abs-quot (negsuc n) d = ground arith

quot-neg : (m k : ℕ) → quot (neg (pos m)) (2 ^ k) ≡ neg (pos (m / 2 ^ k))
unfolding quot
quot-neg zero k = rw (zero-div (2 ^ k)) refl
quot-neg (suc m) k = refl

halve_again : (n k : ℕ) → n / 2 / 2 ^ k ≡ n / 2 ^ suc k
halve_again n k = grind (arith, div-div-eq-div-mul n 2 (2 ^ k), pow-suc 2 k)

-- Halving once more.
quot-halve : (z : ℤ) (k : ℕ) → quot (quot z 2) (2 ^ k) ≡ quot z (2 ^ suc k)
unfolding quot
quot-halve (pos n) k = ap pos (halve_again n k)
quot-halve (negsuc n) k = quot-neg (suc n / 2) k ∙ ap (λ m. neg (pos m)) (halve_again (suc n) k)

quot-one : (z : ℤ) → z ≡ quot z 1
unfolding quot
quot-one (pos n) = ground arith
quot-one (negsuc n) = ground arith

-- Halving `rounds` times at most: every round halves the pull-in, rounded towards zero, and doubles
-- the duration, and the rounds end once the pull-in is within the limit.
record Halved (max_ffo_ppb duration_ms : ℕ) (ppb : ℤ) (end_ms : ℕ) (end_ppb : ℤ) : Type 0 where
  pub rounds : ℕ
  pub in_limit : abs end_ppb ≤ max_ffo_ppb
  pub halved : end_ppb ≡ quot ppb (2 ^ rounds)
  pub doubled : end_ms ≡ duration_ms * 2 ^ rounds % 2 ^ 32
  pub needed : (k : ℕ) → k < rounds → max_ffo_ppb < abs ppb / 2 ^ k

mod_times : (x y m : ℕ) → x % m * y % m ≡ x * y % m
mod_times x y m =
    grind (arith, mod-add-div x m, mul-add x y m, add-mul-mod_self_left (x % m * y) m (x / m * y))
  where
    mul-add : (x y m : ℕ) → (x % m + m * (x / m)) * y ≡ x % m * y + m * (x / m * y)
    mul-add x y m = grind arith

doubled_again : (d k : ℕ) → d * 2 % 2 ^ 32 * 2 ^ k % 2 ^ 32 ≡ d * 2 ^ suc k % 2 ^ 32
doubled_again d k = mod_times (d * 2) (2 ^ k) (2 ^ 32) ∙ ap (λ t. t % 2 ^ 32) (reassoc d k)
  where
    reassoc : (d k : ℕ) → d * 2 * 2 ^ k ≡ d * 2 ^ suc k
    reassoc d k = omega (arith, times_pow d k)

halve_rest : (z : ℤ) (k : ℕ) → abs (quot z 2) / 2 ^ k ≡ abs z / 2 ^ suc k
halve_rest z k = grind (arith, abs-quot z 2, div-div-eq-div-mul (abs z) 2 (2 ^ k), pow-suc 2 k)

smaller : (n m : ℕ) (z : ℤ) → abs z < 2 ^ suc n * (m + 1) → abs (quot z 2) < 2 ^ n * (m + 1)
smaller n m z h = grind (arith, abs-quot z 2, times_pow (m + 1) n)

halve-Halved :
    (n max_ffo_ppb duration_ms : ℕ) (ppb : ℤ)
    → abs ppb < 2 ^ n * (max_ffo_ppb + 1)
    → duration_ms < 2 ^ 32
    → Halved max_ffo_ppb duration_ms ppb
        (halve n max_ffo_ppb duration_ms ppb).0
        (halve n max_ffo_ppb duration_ms ppb).1
unfolding halve
halve-Halved zero max_ffo_ppb duration_ms ppb h d = record {
  rounds = 0;
  in_limit = omega arith;
  halved = quot-one ppb;
  doubled = omega arith;
  needed = λ k lt. absurd (omega arith);
}
halve-Halved (suc n) max_ffo_ppb duration_ms ppb h d =
    elim (Bool-cases (ltb max_ffo_ppb (abs ppb))) [
      | inl e ↦ rw e (
          step (ground arith) (
            halve-Halved n max_ffo_ppb (duration_ms * 2 % 2 ^ 32) (quot ppb 2)
              (smaller n max_ffo_ppb ppb h) (omega arith)))
      | inr e ↦ rw e (record {
        rounds = 0;
        in_limit = ground arith;
        halved = quot-one ppb;
        doubled = omega arith;
        needed = λ k lt. absurd (omega arith);
      })
    ]
  where
    needed :
        {rounds : ℕ}
        → max_ffo_ppb < abs ppb
        → ((k : ℕ) → k < rounds → max_ffo_ppb < abs (quot ppb 2) / 2 ^ k)
        → (k : ℕ) → k < suc rounds
        → max_ffo_ppb < abs ppb / 2 ^ k
    needed over later zero lt = ground arith
    needed over later (suc k) lt =
        subst (λ t. max_ffo_ppb < t) (halve_rest ppb k) (later k (omega arith))

    step :
        {end_ms : ℕ} {end_ppb : ℤ}
        → max_ffo_ppb < abs ppb
        → Halved max_ffo_ppb (duration_ms * 2 % 2 ^ 32) (quot ppb 2) end_ms end_ppb
        → Halved max_ffo_ppb duration_ms ppb end_ms end_ppb
    step over r = record {
      rounds = suc r.rounds;
      in_limit = r.in_limit;
      halved = r.halved ∙ quot-halve ppb r.rounds;
      doubled = r.doubled ∙ doubled_again duration_ms r.rounds;
      needed = needed over r.needed;
    }

-- For every 32-bit correction, and whatever limit the channel has, the loop of the software pull-in
-- ends within its 32 rounds, as soon as the pull-in frequency is within the limit: the correction
-- is halved once a round, its sign kept, rounded towards zero, while the duration doubles from one second, taken
-- modulo 2 ^ 32.
pub halve_lem :
    (max_ffo_ppb : ℕ) (delta_ns : ℤ)
    → abs delta_ns ≤ 2 ^ 31
    → let limit = limit_ffo max_ffo_ppb in
      let pull = halve 32 limit msec_per_sec delta_ns in
      (rounds : ℕ) × (abs pull.1 ≤ limit)
      × (pull.1 ≡ quot delta_ns (2 ^ rounds))
      × (pull.0 ≡ 1000 * 2 ^ rounds % 2 ^ 32)
      × ((k : ℕ) → k < rounds → limit < abs delta_ns / 2 ^ k)
halve_lem max_ffo_ppb delta_ns h =
    let r = halve-Halved 32 (limit_ffo max_ffo_ppb) 1000 delta_ns (omega arith) (omega arith) in
    (r.rounds, r.in_limit, r.halved, r.doubled, r.needed)

-- Where the present frequency is at most 2 ^ 30 and the pull-in at most 144000 ppb in either direction,
-- the frequency that is asked for is their sum, cut at 144000 ppb in either direction, with no
-- overflow on the way.
pub phase_pull_in_scaled_ppm_lem :
    (current_ppm ppb : ℤ)
    → abs current_ppm ≤ 2 ^ 30
    → abs ppb ≤ phase_pull_in_max_ppb
    → phase_pull_in_scaled_ppm current_ppm ppb
      ≡ clamp max_pull_in_scaled_ppm (current_ppm +ℤ quot (ppb *ℤ pos (2 ^ 13)) 125)
unfolding phase_pull_in_scaled_ppm ◌*ℤ◌ ◌+ℤ◌ quot
phase_pull_in_scaled_ppm_lem current_ppm ppb h k = ground arith
