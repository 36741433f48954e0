-- ===== src/Repeater/Generations.antt =====
-- The generations of `HoldRepeater`: one key at a time, and every generation stopped once.
use mathlib.Core.Path.{subst}
use atvr4samsung.Common.{
  ℕ, ◌+◌, ◌==◌, ◌≡◌, sym, ap, Bool, true, false, ◌&&◌, List, [], ◌∷◌, none, some, arith, leb,
  ==_refl, if◌then◌else◌,
}
use atvr4samsung.Repeater.{
  HoldRepeater, new_repeater, told, begin_hold, start_unless, lookup, remove, cancel, cancel_all,
  start, stop_all_now, is_task, finish,
}

abbrev pub count : ℕ → List ℕ → ℕ
count x [] = 0
count x (y ∷ ys) = (if y == x then 1 else 0) + count x ys

abbrev pub state : List (ℕ × ℕ) → ℕ → List ℕ → List ℕ → HoldRepeater
state held next cancelled stopped = record {
  tasks = held;
  generations = held;
  next_generation = next;
  cancelled = cancelled;
  stopped = stopped;
}

-- Whether a generation was given out.
abbrev pub given : ℕ → ℕ → ℕ
given next x = if leb 1 x && leb x next then 1 else 0

-- No key or one key is held, under the same generation in both tables, and of the generations given out
-- each one was stopped once, but for the one that is held, which was not.
pub data IsValid : HoldRepeater → Type 0 where
  idle :
      (next : ℕ) (cancelled stopped : List ℕ)
      → ((x : ℕ) → count x stopped ≡ given next x)
      → IsValid (state [] next cancelled stopped)
  holding :
      (key generation next : ℕ) (cancelled stopped : List ℕ)
      → ((x : ℕ) → (if generation == x then 1 else 0) + count x stopped ≡ given next x)
      → IsValid (state ((key, generation) ∷ []) next cancelled stopped)

-- What is left of one key where it is let go or not.
abbrev let_go : Bool → ℕ → ℕ → ℕ → List ℕ → List ℕ → HoldRepeater
let_go b key generation next cancelled stopped = record {
  tasks = if b then [] else (key, generation) ∷ [];
  generations = if b then [] else (key, generation) ∷ [];
  next_generation = next;
  cancelled = told (if b then some generation else none) cancelled;
  stopped = told (if b then some generation else none) stopped;
}

let_go-IsValid :
    (b : Bool) (key generation next : ℕ) (cancelled stopped : List ℕ)
    → ((x : ℕ) → (if generation == x then 1 else 0) + count x stopped ≡ given next x)
    → IsValid (let_go b key generation next cancelled stopped)
let_go-IsValid true k g n c s h = idle n (g ∷ c) (g ∷ s) h
let_go-IsValid false k g n c s h = holding k g n c s h

cancel-IsValid : (key : ℕ) (r : HoldRepeater) → IsValid r → IsValid (cancel key r)
unfolding cancel lookup remove
cancel-IsValid key _ (idle n c s h) = idle n c s h
cancel-IsValid key _ (holding k g n c s h) = let_go-IsValid (k == key) k g n c s h

cancel_all-IsValid :
    (entries : List (ℕ × ℕ)) (r : HoldRepeater) → IsValid r → IsValid (cancel_all entries r)
unfolding cancel_all
cancel_all-IsValid [] r v = v
cancel_all-IsValid ((key, task) ∷ entries) r v =
    cancel_all-IsValid entries (cancel key r) (cancel-IsValid key r v)

-- A new hold begins where no key is held.
begin_hold-IsValid :
    (key next : ℕ) (cancelled stopped : List ℕ)
    → ((x : ℕ) → count x stopped ≡ given next x)
    → IsValid (begin_hold key (state [] next cancelled stopped))
begin_hold-IsValid key n c s h = holding key (n + 1) (n + 1) c s (λ x. ground (arith, h x))

-- Cancelling the key that is held leaves none.
cancel-held :
    (key generation next : ℕ) (cancelled stopped : List ℕ)
    → cancel key (state ((key, generation) ∷ []) next cancelled stopped)
      ≡ state [] next (generation ∷ cancelled) (generation ∷ stopped)
unfolding cancel lookup remove
cancel-held key g n c s = ap (λ b. let_go b key g n c s) (==_refl key)

start-IsValid : (key : ℕ) (r : HoldRepeater) → IsValid r → IsValid (start key r)
unfolding start cancel_all lookup
start-IsValid key _ (idle n c s h) = begin_hold-IsValid key n c s h
start-IsValid key _ (holding k g n c s h) = held (k == key)
  where
    held :
        (b : Bool)
        → IsValid (start_unless key (state ((k, g) ∷ []) n c s) (if b then some g else none))
    held true = holding k g n c s h
    held false =
        subst (λ r. IsValid (begin_hold key r)) (sym (cancel-held k g n c s))
          (begin_hold-IsValid key n (g ∷ c) (g ∷ s) h)

stop_all_now-IsValid : (r : HoldRepeater) → IsValid r → IsValid (stop_all_now r)
unfolding stop_all_now
stop_all_now-IsValid r v =
    cancel_all-IsValid (cancel_all r.tasks r).generations (cancel_all r.tasks r)
      (cancel_all-IsValid r.tasks r v)

finish-IsValid : (key task : ℕ) (r : HoldRepeater) → IsValid r → IsValid (finish key task r)
unfolding finish lookup remove
finish-IsValid key task _ (idle n c s h) = idle n c s h
finish-IsValid key task _ (holding k g n c s h) = owned (k == key)
  where
    cleared : (t : Bool) → IsValid (if t then state [] n c (g ∷ s) else state ((k, g) ∷ []) n c s)
    cleared true = idle n c (g ∷ s) h
    cleared false = holding k g n c s h

    owned :
        (b : Bool)
        → IsValid (
            if is_task task (if b then some g else none)
            then record {
              tasks = if b then [] else (k, g) ∷ [];
              generations = if b then [] else (k, g) ∷ [];
              next_generation = n;
              cancelled = c;
              stopped = told (if b then some g else none) s;
            }
            else state ((k, g) ∷ []) n c s)
    owned true = cleared (g == task)
    owned false = holding k g n c s h

-- What happens to a repeater: the calls of the server, and the end of a task for any reason, be it long
-- after the key was taken over.
pub data Happening : Type 0 where
  starts stops : ℕ → Happening
  stops_all : Happening
  finishes : ℕ → ℕ → Happening

abbrev pub happen : HoldRepeater → Happening → HoldRepeater
happen r (starts key) = start key r
happen r (stops key) = cancel key r
happen r stops_all = stop_all_now r
happen r (finishes key task) = finish key task r

abbrev pub happen_all : HoldRepeater → List Happening → HoldRepeater
happen_all r [] = r
happen_all r (e ∷ es) = happen_all (happen r e) es

happen_all-IsValid :
    (es : List Happening) (r : HoldRepeater) → IsValid r → IsValid (happen_all r es)
happen_all-IsValid [] r v = v
happen_all-IsValid (starts key ∷ es) r v = happen_all-IsValid es _ (start-IsValid key r v)
happen_all-IsValid (stops key ∷ es) r v = happen_all-IsValid es _ (cancel-IsValid key r v)
happen_all-IsValid (stops_all ∷ es) r v = happen_all-IsValid es _ (stop_all_now-IsValid r v)
happen_all-IsValid (finishes key task ∷ es) r v =
    happen_all-IsValid es _ (finish-IsValid key task r v)

-- After any calls and ends of tasks, in any order: at most one key is held, and each generation that
-- was given out was told to `on_stop` once if it is not the one held, and not yet if it is.
pub new_repeater-IsValid : (es : List Happening) → IsValid (happen_all new_repeater es)
new_repeater-IsValid es = happen_all-IsValid es new_repeater (idle 0 [] [] (λ x. ground arith))
