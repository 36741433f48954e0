-- ===== src/Repeater.antt =====
-- src/atvr4samsung/companion/repeater.py: `HoldRepeater`. A key is a number, and a task is called by the
-- generation that it was made for. Times are ticks; what the clock, the predicate, the send and the
-- sleep of a round give is a value of `Round`.
pub mod Rounds
pub mod Generations
mod Tests
use atvr4samsung.Common.{
  ℕ, zero, suc, ◌+◌, ◌==◌, Bool, true, false, List, [], ◌∷◌, ◌++◌, Option, none, some, ltb,
  if◌then◌else◌,
}

pub record HoldRepeatConfig : Type 0 where
  pub initial_delay : ℕ
  pub interval : ℕ
  pub max_hold : ℕ

pub record HoldRepeater : Type 0 where
  pub tasks : List (ℕ × ℕ)
  pub generations : List (ℕ × ℕ)
  pub next_generation : ℕ
  -- the tasks that were cancelled and the generations that `on_stop` was told, newest first
  pub cancelled : List ℕ
  pub stopped : List ℕ

abbrev pub new_repeater : HoldRepeater
new_repeater = record {
  tasks = [];
  generations = [];
  next_generation = 0;
  cancelled = [];
  stopped = [];
}

-- `.get(key)`
unfoldable pub lookup : ℕ → List (ℕ × ℕ) → Option ℕ
lookup key [] = none
lookup key ((k, v) ∷ entries) = if k == key then some v else lookup key entries

-- `.pop(key, None)`
unfoldable pub remove : ℕ → List (ℕ × ℕ) → List (ℕ × ℕ)
remove key [] = []
remove key ((k, v) ∷ entries) =
    let rest = remove key entries in if k == key then rest else (k, v) ∷ rest

abbrev pub told : Option ℕ → List ℕ → List ℕ
told none stopped = stopped
told (some generation) stopped = generation ∷ stopped

-- `_cancel`
unfoldable pub cancel : ℕ → HoldRepeater → HoldRepeater
unfolding lookup remove
cancel key r = record r {
  tasks = remove key r.tasks;
  generations = remove key r.generations;
  cancelled = told (lookup key r.tasks) r.cancelled;
  stopped = told (lookup key r.generations) r.stopped;
}

unfoldable pub cancel_all : List (ℕ × ℕ) → HoldRepeater → HoldRepeater
unfolding cancel
cancel_all [] r = r
cancel_all ((key, task) ∷ entries) r = cancel_all entries (cancel key r)

-- A new generation and its task, for a key that is not held.
abbrev pub begin_hold : ℕ → HoldRepeater → HoldRepeater
begin_hold key r = record r {
  next_generation = r.next_generation + 1;
  tasks = r.tasks ++ ((key, r.next_generation + 1) ∷ []);
  generations = r.generations ++ ((key, r.next_generation + 1) ∷ []);
}

abbrev pub start_unless : ℕ → HoldRepeater → Option ℕ → HoldRepeater
start_unless key r (some task) = r
start_unless key r none = begin_hold key (cancel_all r.tasks r)

-- `start`: the generation that it returns is `lookup key` of the generations behind it.
unfoldable pub start : ℕ → HoldRepeater → HoldRepeater
unfolding cancel_all lookup
start key r = start_unless key r (lookup key r.tasks)

-- `stop_all_now`
unfoldable pub stop_all_now : HoldRepeater → HoldRepeater
unfolding cancel_all
stop_all_now r = let s = cancel_all r.tasks r in cancel_all s.generations s

abbrev pub is_task : ℕ → Option ℕ → Bool
is_task task none = false
is_task task (some t) = t == task

-- The `finally` of `_run`: a task clears its key only where it still owns it.
unfoldable pub finish : ℕ → ℕ → HoldRepeater → HoldRepeater
unfolding lookup remove
finish key task r =
    if is_task task (lookup key r.tasks)
    then record r {
      tasks = remove key r.tasks;
      generations = remove key r.generations;
      stopped = told (lookup key r.generations) r.stopped;
    }
    else r

-- How `send` ends, and a round of the loop: the clock that it reads, the predicate (none where it
-- raises), the send, and whether the sleep behind it is cancelled.
pub data Sent : Type 0 where
  sent raised interrupted : Sent

pub record Round : Type 0 where
  pub time : ℕ
  pub alive : Option Bool
  pub send : Sent
  pub sleep_cancelled : Bool

-- How the loop ends.
pub data Ending : Type 0 where
  capped lost send_failed cancelled out_of_fuel : Ending

-- `_alive`
abbrev pub is_alive : Option Bool → Bool
is_alive none = false
is_alive (some b) = b

-- A round whose clock is before the deadline or not, with the times of the sends; `rest` is what the
-- rounds behind it give.
abbrev pub loop_round : Bool → Bool → Sent → Bool → ℕ → List ℕ × Ending → List ℕ × Ending
loop_round false _ _ _ _ _ = ([], capped)
loop_round true false _ _ _ _ = ([], lost)
loop_round true true raised slept time rest = (time ∷ [], send_failed)
loop_round true true interrupted slept time rest = (time ∷ [], cancelled)
loop_round true true sent true time rest = (time ∷ [], cancelled)
loop_round true true sent false time rest = (time ∷ rest.0, rest.1)

-- The loop, one round to a unit of fuel.
unfoldable pub run_loop : ℕ → ℕ → (ℕ → Round) → List ℕ × Ending
run_loop zero deadline rounds = ([], out_of_fuel)
run_loop (suc fuel) deadline rounds =
    let rest = run_loop fuel deadline (λ n. rounds (suc n)) in
    loop_round (ltb (rounds 0).time deadline) (is_alive (rounds 0).alive) (rounds 0).send
      (rounds 0).sleep_cancelled (rounds 0).time rest

-- `_run`, from the clock at its start; the cap bounds the rounds.
unfoldable pub run : HoldRepeatConfig → ℕ → Bool → (ℕ → Round) → List ℕ × Ending
unfolding run_loop
run config begun delay_cancelled rounds =
    if delay_cancelled
    then ([], cancelled)
    else run_loop (suc config.max_hold) (begun + config.max_hold) rounds
