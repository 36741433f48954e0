-- ===== src/Dispatch/Tests.antt =====
-- Runs of the lane, and its theorems along them.
use atvr4samsung.Common.{ℕ, ◌≡◌, refl, Bool, true, false, List, [], ◌∷◌, none, some, All, arith}
use atvr4samsung.Bridge.Keymap.{send_key, send_text}
use atvr4samsung.Relay.{Command, button}
use atvr4samsung.Dispatch.{Lane, revoked, new_item, cancel_owner, submit, take_next, contains, sent}
use atvr4samsung.Dispatch.Valid.{IsValid}
use atvr4samsung.Dispatch.Steps.{Step, submits, takes, finishes, run_steps, run_steps-IsValid}
use atvr4samsung.Dispatch.Cancelled.{Starts, take_next-Starts}
use atvr4samsung.Dispatch.Gone.{OthersOnly, registers, cancel_owner-OthersOnly}

abbrev key : Command
key = record {
  action = send_key;
  samsung_key = some "KEY_UP";
  source = button 1;
  text = none;
  repeat = none;
  fast = false;
}

abbrev typed : Command
typed = record {
  action = send_text;
  samsung_key = none;
  source = button 0;
  text = some "a";
  repeat = none;
  fast = false;
}

abbrev anyone : ℕ → Bool
anyone owner = true

-- Two owners are live, and each has a command in a queue of two places.
abbrev busy : Lane
busy = record {
  max_queue_size = 2;
  queue = new_item 1 key none none ∷ new_item 2 key (some 5) (some 8) ∷ [];
  owners = 1 ∷ 2 ∷ [];
  current = none;
  stopping = false;
  settled = [];
  dispatched = [];
  unauthorized = [];
}

run_full : (submit anyone 1 key busy).1 ≡ false
unfolding submit
run_full = refl

run_coalesced :
    (submit anyone 1 typed (record busy { queue = new_item 1 typed none none ∷ [] })).0.queue
    ≡ new_item 1 typed none none ∷ []
unfolding submit
run_coalesced = refl

run_cancelled : (cancel_owner 2 busy).settled ≡ (8, revoked) ∷ []
unfolding cancel_owner
run_cancelled = refl

abbrev turns : List Step
turns = takes anyone ∷ finishes sent ∷ submits anyone 1 key ∷ takes anyone ∷ finishes sent ∷ []

run_others :
    (run_steps turns (cancel_owner 1 busy)).dispatched ≡ new_item 2 key (some 5) (some 8) ∷ []
unfolding run_steps cancel_owner
run_others = refl

busy-IsValid : IsValid busy
unfolding contains
busy-IsValid = ((refl, (refl, tt)), omega arith)

none_registers : All (λ s. registers 1 s ≡ false) turns
none_registers = (refl, (refl, (refl, (refl, (refl, tt)))))

run_steps-IsValid_example : IsValid (run_steps turns busy)
run_steps-IsValid_example = run_steps-IsValid turns busy busy-IsValid

take_next-Starts_example : Starts anyone busy (take_next anyone busy)
take_next-Starts_example = take_next-Starts anyone busy

cancel_owner-OthersOnly_example :
    OthersOnly 1 (cancel_owner 1 busy) (run_steps turns (cancel_owner 1 busy))
cancel_owner-OthersOnly_example = cancel_owner-OthersOnly 1 turns busy none_registers
