-- ===== src/Dispatch/Gone.antt =====
-- Runs of the lane after an owner is gone.
use atvr4samsung.Common.{
  append_assoc, ℕ, ◌==◌, ◌≡◌, refl, sym, ap, ◌∙◌, Bool, true, false, List, [], ◌∷◌, ◌++◌, Option,
  none, some, All, All-append, if◌then◌else◌, arith, inl, inr, ==_iff,
}
use atvr4samsung.Dispatch.{
  Item, revoked, Lane, settle, cancel_owner, remove, contains, cancel_generation, activate,
  owner_is_authorized, enqueue, new_item, submit, wait_or_cancel, submit_and_wait, start_item,
  take_item, take_next, finish, close,
}
use atvr4samsung.Dispatch.Fields.{
  Quiet, settle-Same, cancel_owner-Becomes, remove_absent, remove_gone,
}
use atvr4samsung.Dispatch.Cancelled.{
  cancel_owner-Quiet, cancel_generation-Quiet, authorized-Quiet, enqueue-Quiet, waits-Quiet,
  finish-Quiet, close-Quiet, Starts, take_next-Starts,
}
use atvr4samsung.Dispatch.Steps.{
  Step, submits, submits_and_waits, activates, cancels, cancels_generation, takes, finishes, closes,
  activated, run_step, run_steps,
}

-- A step that registers the owner again.
abbrev pub registers : ℕ → Step → Bool
registers owner (activates x) = x == owner
registers owner _ = false

-- The owner is not registered, and only commands of others were dispatched since.
abbrev pub OthersOnly : ℕ → Lane → Lane → Type 0
OthersOnly owner l m =
    (contains owner m.owners ≡ false)
    × ((started : List Item) × (m.dispatched ≡ started ++ l.dispatched)
        × All (λ item. (item.owner == owner) ≡ false) started)

Quiet-OthersOnly :
    (owner : ℕ) (l m : Lane)
    → contains owner l.owners ≡ false
    → Quiet owner l m
    → OthersOnly owner l m
Quiet-OthersOnly owner l m e q = (q.0 e, ([], q.1, tt))

activate-OthersOnly :
    (owner x : ℕ) (l : Lane)
    → contains owner l.owners ≡ false
    → (x == owner) ≡ false
    → OthersOnly owner l (activated l (activate x l))
unfolding activate contains
activate-OthersOnly owner x l e d = opens l.stopping
  where
    opens :
        (t : Bool)
        → OthersOnly owner l
            (activated l (if t then none else some (record l { owners = x ∷ remove x l.owners })))
    opens true = (e, ([], refl, tt))
    opens false = (
      ap (λ b. if b then true else contains owner (remove x l.owners)) d
          ∙ remove_absent owner x l.owners e,
      ([], refl, tt),
    )

take_next-absent :
    (owner : ℕ) (authorize : ℕ → Bool) (l : Lane)
    → contains owner l.owners ≡ false
    → contains owner (take_next authorize l).owners ≡ false
unfolding take_next
take_next-absent owner authorize l e = idles l.current l.queue
  where
    starts :
        (item : Item) (r : Lane × Bool)
        → contains owner r.0.owners ≡ false
        → contains owner (start_item item r).owners ≡ false
    starts item (m, false) k = ap (contains owner) (settle-Same item.completion revoked m).1 ∙ k
    starts item (m, true) k = cancelled item.cancelled
      where
        cancelled :
            (t : Bool)
            → contains owner
                (if t
                  then settle item.completion revoked m
                  else record m { current = some item; dispatched = item ∷ m.dispatched }).owners
              ≡ false
        cancelled true = ap (contains owner) (settle-Same item.completion revoked m).1 ∙ k
        cancelled false = k

    idles :
        (o : Option Item) (items : List Item)
        → contains owner
            (elim o as (λ _. Lane) [ none ↦ take_item authorize items l | some item ↦ l ]).owners
          ≡ false
    idles (some item) items = e
    idles none [] = e
    idles none (item ∷ items) =
        starts item (owner_is_authorized authorize item.owner (record l { queue = items }))
          ((authorized-Quiet owner authorize item.owner (record l { queue = items })).0 e)

take_next-OthersOnly :
    (owner : ℕ) (authorize : ℕ → Bool) (l : Lane)
    → contains owner l.owners ≡ false
    → OthersOnly owner l (take_next authorize l)
take_next-OthersOnly owner authorize l e = started_by (take_next-Starts authorize l)
  where
    other :
        (item : Item) (t : Bool)
        → (item.owner == owner) ≡ t
        → contains item.owner l.owners ≡ true
        → (item.owner == owner) ≡ false
    other item false h c = h
    other item true h c =
        let same : contains owner l.owners ≡ true =
          ap (λ o. contains o l.owners) (sym ((==_iff item.owner owner).0 h)) ∙ c in
        absurd (ground arith)

    started_by :
        Starts authorize l (take_next authorize l) → OthersOnly owner l (take_next authorize l)
    started_by (inl s) = (take_next-absent owner authorize l e, ([], s, tt))
    started_by (inr (item, rest, q, n, c, a, k, d)) = (
      take_next-absent owner authorize l e,
      (item ∷ [], d, (other item (item.owner == owner) refl c, tt)),
    )

run_step-OthersOnly :
    (owner : ℕ) (s : Step) (l : Lane)
    → registers owner s ≡ false
    → contains owner l.owners ≡ false
    → OthersOnly owner l (run_step s l)
unfolding run_step submit submit_and_wait
run_step-OthersOnly owner (submits authorize x command) l r e =
    Quiet-OthersOnly owner l (enqueue authorize (new_item x command none none) l).0 e
      (enqueue-Quiet owner authorize (new_item x command none none) l)
run_step-OthersOnly owner (submits_and_waits authorize x command generation completion) l r e =
    let item = new_item x command (some generation) (some completion) in
    Quiet-OthersOnly owner l (wait_or_cancel completion (enqueue authorize item l)).0 e (
      waits-Quiet owner completion l (enqueue authorize item l)
        (enqueue-Quiet owner authorize item l))
run_step-OthersOnly owner (activates x) l r e = activate-OthersOnly owner x l e r
run_step-OthersOnly owner (cancels x) l r e =
    Quiet-OthersOnly owner l (cancel_owner x l) e (cancel_owner-Quiet owner x l)
run_step-OthersOnly owner (cancels_generation x generation) l r e =
    Quiet-OthersOnly owner l (cancel_generation x generation l) e
      (cancel_generation-Quiet owner x generation l)
run_step-OthersOnly owner (takes authorize) l r e = take_next-OthersOnly owner authorize l e
run_step-OthersOnly owner (finishes ending) l r e =
    Quiet-OthersOnly owner l (finish ending l) e (finish-Quiet owner ending l)
run_step-OthersOnly owner closes l r e = Quiet-OthersOnly owner l (close l) e (close-Quiet owner l)

run_steps-OthersOnly :
    (owner : ℕ) (steps : List Step) (l : Lane)
    → All (λ s. registers owner s ≡ false) steps
    → contains owner l.owners ≡ false
    → OthersOnly owner l (run_steps steps l)
unfolding run_steps
run_steps-OthersOnly owner [] l r e = (e, ([], refl, tt))
run_steps-OthersOnly owner (s ∷ steps) l r e =
    let a = run_step-OthersOnly owner s l r.0 e in
    let b = run_steps-OthersOnly owner steps (run_step s l) r.1 a.0 in
    (
      b.0,
      (
        b.1.0 ++ a.1.0,
        b.1.1 ∙ ap (λ q. b.1.0 ++ q) a.1.1 ∙ sym (append_assoc b.1.0 a.1.0 l.dispatched),
        All-append (λ item. (item.owner == owner) ≡ false) b.1.0 a.1.0 b.1.2 a.1.2,
      ),
    )

-- Once an owner's session is cancelled, no interleaving of further calls and worker turns dispatches a
-- command of that owner, queued before or submitted later, until it is activated again.
pub cancel_owner-OthersOnly :
    (owner : ℕ) (steps : List Step) (l : Lane)
    → All (λ s. registers owner s ≡ false) steps
    → OthersOnly owner (cancel_owner owner l) (run_steps steps (cancel_owner owner l))
cancel_owner-OthersOnly owner steps l r =
    run_steps-OthersOnly owner steps (cancel_owner owner l) r
      (ap (contains owner) (cancel_owner-Becomes owner l).1 ∙ remove_gone owner l.owners)
