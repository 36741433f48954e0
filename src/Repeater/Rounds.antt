-- ===== src/Repeater/Rounds.antt =====
-- The cap of a hold: the loop ends, and sends no more than fits.
use atvr4samsung.Common.{
  ℕ, zero, suc, ◌+◌, ◌*◌, ◌≤◌, ◌<◌, ◌≡◌, ◌≢◌, ◌⊎◌, inl, inr, refl, Bool, true, false, List, [], All,
  arith, length, ltb, ltb→lt,
}
use atvr4samsung.Repeater.{
  HoldRepeatConfig, Round, Sent, sent, raised, interrupted, Ending, out_of_fuel, is_alive,
  loop_round, run_loop, run,
}

-- Each sleep lasts at least its interval.
abbrev pub Sleeps : ℕ → (ℕ → Round) → Type 0
Sleeps interval rounds = (n : ℕ) → (rounds n).time + interval ≤ (rounds (suc n)).time

-- The loop ended by itself, and its sends are before the deadline and an interval apart.
abbrev pub Bounded : ℕ → ℕ → ℕ → List ℕ × Ending → Type 0
Bounded interval deadline from r =
    (r.1 ≢ out_of_fuel)
    × All (λ time. time < deadline) r.0
    × ((r.0 ≡ []) ⊎ (length r.0 * interval + from < deadline + interval))

-- A round is bounded where what follows it is, as far as it is reached.
loop_round-Bounded :
    (interval deadline time next : ℕ) (before alive : Bool) (result : Sent) (slept : Bool)
    (rest : List ℕ × Ending)
    → (before ≡ true → time < deadline)
    → time + interval ≤ next
    → (before ≡ true → Bounded interval deadline next rest)
    → Bounded interval deadline time (loop_round before alive result slept time rest)
loop_round-Bounded i d t n false alive result slept rest l s b = (λ e. cc, tt, inl refl)
loop_round-Bounded i d t n true false result slept rest l s b = (λ e. cc, tt, inl refl)
loop_round-Bounded i d t n true true raised slept rest l s b =
    (λ e. cc, (l refl, tt), inr (omega (arith, l refl)))
loop_round-Bounded i d t n true true interrupted slept rest l s b =
    (λ e. cc, (l refl, tt), inr (omega (arith, l refl)))
loop_round-Bounded i d t n true true sent true rest l s b =
    (λ e. cc, (l refl, tt), inr (omega (arith, l refl)))
loop_round-Bounded i d t n true true sent false (sends, e) l s b =
    let (o, a, c) = b refl in (o, (l refl, a), inr (counted sends c))
  where
    counted :
        (sends : List ℕ)
        → ((sends ≡ []) ⊎ (length sends * i + n < d + i))
        → suc (length sends) * i + t < d + i
    counted sends (inl e) = rw e (omega (arith, l refl))
    counted sends (inr c) = omega (arith, add_row (length sends))
      where
        add_row : (k : ℕ) → suc k * i ≡ k * i + i
        add_row k = omega arith

run_loop-Bounded :
    (fuel interval deadline : ℕ) (rounds : ℕ → Round)
    → 1 ≤ interval
    → 1 ≤ fuel
    → deadline < (rounds 0).time + fuel
    → Sleeps interval rounds
    → Bounded interval deadline (rounds 0).time (run_loop fuel deadline rounds)
unfolding run_loop
run_loop-Bounded zero interval deadline rounds i f d s = absurd (omega arith)
run_loop-Bounded (suc fuel) interval deadline rounds i f d s =
    loop_round-Bounded interval deadline (rounds 0).time (rounds 1).time
      (ltb (rounds 0).time deadline) (is_alive (rounds 0).alive) (rounds 0).send
      (rounds 0).sleep_cancelled (run_loop fuel deadline (λ n. rounds (suc n)))
      (ltb→lt (rounds 0).time deadline) (s 0)
      (λ e.
        run_loop-Bounded fuel interval deadline (λ n. rounds (suc n)) i
          (omega (arith, ltb→lt (rounds 0).time deadline e))
          (omega (arith, ltb→lt (rounds 0).time deadline e, s 0)) (λ n. s (suc n)))

-- A held key stops repeating by itself, even without a release: where each sleep lasts at least the
-- interval and the clock does not go back before the first round, the loop ends, every send is before
-- the cap, and their number is at most that of the intervals in `max_hold`, rounded up.
pub run-Bounded :
    (config : HoldRepeatConfig) (begun : ℕ) (delay_cancelled : Bool) (rounds : ℕ → Round)
    → 1 ≤ config.interval
    → begun ≤ (rounds 0).time
    → Sleeps config.interval rounds
    → ((run config begun delay_cancelled rounds).1 ≢ out_of_fuel)
      × All (λ time. time < begun + config.max_hold) (run config begun delay_cancelled rounds).0
      × (length (run config begun delay_cancelled rounds).0 * config.interval
          < config.max_hold + config.interval)
unfolding run
run-Bounded config begun true rounds i b s = (λ e. cc, tt, omega arith)
run-Bounded config begun false rounds i b s =
    let (o, a, c) =
      run_loop-Bounded (suc config.max_hold) config.interval (begun + config.max_hold) rounds i
        (omega arith) (omega arith) s in
    (o, a, few (run_loop (suc config.max_hold) (begun + config.max_hold) rounds).0 c)
  where
    few :
        (sends : List ℕ)
        → ((sends ≡ [])
            ⊎ (length sends * config.interval + (rounds 0).time
                < begun + config.max_hold + config.interval))
        → length sends * config.interval < config.max_hold + config.interval
    few sends (inl e) = rw e (omega arith)
    few sends (inr c) = omega arith
