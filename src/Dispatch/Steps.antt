-- ===== src/Dispatch/Steps.antt =====
-- Every step of the lane keeps the queue valid.
use atvr4samsung.Common.{
  ℕ, ◌==◌, ◌≡◌, refl, ap, ◌∙◌, Bool, true, false, List, [], ◌∷◌, Option, none, some, All,
  if◌then◌else◌, arith,
}
use atvr4samsung.Relay.{Command}
use atvr4samsung.Dispatch.{
  Item, Lane, cancel_owner, remove, contains, Ending, cancel_generation, activate, new_item, submit,
  submit_and_wait, take_next, finish, close,
}
use atvr4samsung.Dispatch.Fields.{remove_present}
use atvr4samsung.Dispatch.Valid.{IsLive, IsValid, cancel_owner-IsValid, cancel_generation-IsValid}
use atvr4samsung.Dispatch.Turns.{
  enqueue-IsValid, submit_and_wait-IsValid, take_next-IsValid, finish-IsValid, close-IsValid,
}

-- The calls of the sessions and the turns of the worker, in the order in which they happen. An owner's
-- `authorize` answers anew each time.
pub data Step : Type 0 where
  submits : (ℕ → Bool) → ℕ → Command → Step
  submits_and_waits : (ℕ → Bool) → ℕ → Command → ℕ → ℕ → Step
  activates : ℕ → Step
  cancels : ℕ → Step
  cancels_generation : ℕ → ℕ → Step
  takes : (ℕ → Bool) → Step
  finishes : Ending → Step
  closes : Step

abbrev pub activated : Lane → Option Lane → Lane
activated l none = l
activated l (some m) = m

unfoldable pub run_step : Step → Lane → Lane
unfolding submit submit_and_wait activate take_next finish close
run_step (submits authorize owner command) l = (submit authorize owner command l).0
run_step (submits_and_waits authorize owner command generation completion) l =
    (submit_and_wait authorize owner command generation completion l).0
run_step (activates owner) l = activated l (activate owner l)
run_step (cancels owner) l = cancel_owner owner l
run_step (cancels_generation owner generation) l = cancel_generation owner generation l
run_step (takes authorize) l = take_next authorize l
run_step (finishes ending) l = finish ending l
run_step closes l = close l

unfoldable pub run_steps : List Step → Lane → Lane
unfolding run_step
run_steps [] l = l
run_steps (s ∷ steps) l = run_steps steps (run_step s l)

activate-Live :
    (owner : ℕ) (owners : List ℕ) (items : List Item)
    → All (IsLive owners) items
    → All (IsLive (owner ∷ remove owner owners)) items
unfolding contains
activate-Live owner owners [] h = tt
activate-Live owner owners (item ∷ items) h =
    (registers (owner == item.owner) refl, activate-Live owner owners items h.1)
  where
    registers :
        (t : Bool)
        → (owner == item.owner) ≡ t
        → contains item.owner (owner ∷ remove owner owners) ≡ true
    registers true e = ap (λ b. if b then true else contains item.owner (remove owner owners)) e
    registers false e =
        ap (λ b. if b then true else contains item.owner (remove owner owners)) e
        ∙ remove_present item.owner owner owners (ground arith) h.0

activate-IsValid : (owner : ℕ) (l : Lane) → IsValid l → IsValid (activated l (activate owner l))
unfolding activate
activate-IsValid owner l v = opens l.stopping
  where
    opens :
        (t : Bool)
        → IsValid (
            activated l
              (if t then none else some (record l { owners = owner ∷ remove owner l.owners })))
    opens true = v
    opens false = (activate-Live owner l.owners l.queue v.0, v.1)

run_step-IsValid : (s : Step) (l : Lane) → IsValid l → IsValid (run_step s l)
unfolding run_step submit submit_and_wait
run_step-IsValid (submits authorize owner command) l v =
    enqueue-IsValid authorize (new_item owner command none none) l v
run_step-IsValid (submits_and_waits authorize owner command generation completion) l v =
    submit_and_wait-IsValid authorize (new_item owner command (some generation) (some completion))
      completion l v
run_step-IsValid (activates owner) l v = activate-IsValid owner l v
run_step-IsValid (cancels owner) l v = cancel_owner-IsValid owner l v
run_step-IsValid (cancels_generation owner generation) l v =
    cancel_generation-IsValid owner generation l v
run_step-IsValid (takes authorize) l v = take_next-IsValid authorize l v
run_step-IsValid (finishes ending) l v = finish-IsValid ending l v
run_step-IsValid closes l v = close-IsValid l v

-- Along every interleaving of the sessions' calls with the worker's turns, from a valid lane, at most
-- `max_queue_size` commands wait, and each of them is of an owner that is registered at that moment.
pub run_steps-IsValid : (steps : List Step) (l : Lane) → IsValid l → IsValid (run_steps steps l)
unfolding run_steps
run_steps-IsValid [] l v = v
run_steps-IsValid (s ∷ steps) l v = run_steps-IsValid steps (run_step s l) (run_step-IsValid s l v)
