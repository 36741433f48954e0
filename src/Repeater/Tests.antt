-- ===== src/Repeater/Tests.antt =====
-- Runs of the repeater, and its theorems at concrete inputs.
use native.Mathlib.Omega.{arith}
use atvr4samsung.Common.{
  ℕ, ◌+◌, ◌*◌, ◌<◌, ◌≡◌, ◌≢◌, refl, true, false, List, [], ◌∷◌, some, All, length,
}
use atvr4samsung.Repeater.{HoldRepeatConfig, Round, sent, capped, out_of_fuel, new_repeater, run}
use atvr4samsung.Repeater.Rounds.{run-Bounded}
use atvr4samsung.Repeater.Generations.{
  IsValid, Happening, starts, stops, stops_all, finishes, happen_all, new_repeater-IsValid,
}

abbrev config : HoldRepeatConfig
config = record { initial_delay = 2; interval = 2; max_hold = 7 }

-- The clock is 3, 5, 7, and so on.
abbrev steady : ℕ → Round
steady n = record { time = 3 + 2 * n; alive = some true; send = sent; sleep_cancelled = false }

run-steady : run config 1 false steady ≡ (3 ∷ 5 ∷ 7 ∷ [], capped)
unfolding run
run-steady = refl

run-Bounded_example :
    ((run config 1 false steady).1 ≢ out_of_fuel)
    × All (λ time. time < 8) (run config 1 false steady).0
    × (length (run config 1 false steady).0 * 2 < 9)
run-Bounded_example =
    run-Bounded config 1 false steady (omega arith) (omega arith) (λ n. omega arith)

-- The task of the first key ends after the second key took over.
abbrev pressed : List Happening
pressed = starts 5 ∷ starts 6 ∷ finishes 5 1 ∷ starts 6 ∷ stops 6 ∷ stops_all ∷ []

new_repeater-IsValid_example : IsValid (happen_all new_repeater pressed)
new_repeater-IsValid_example = new_repeater-IsValid pressed
