-- ===== src/Dispatch/Cancelled.antt =====
-- An owner that is gone: nothing of its work is dispatched any more.
use mathlib.Core.Path.{subst}
use atvr4samsung.Common.{
  ℕ, ◌≡◌, refl, sym, ap, ◌∙◌, Bool, true, false, not, ◌&&◌, ◌||◌, List, [], ◌∷◌, ◌++◌, Option, none,
  some, length, leb, if◌then◌else◌, ◌⊎◌, inl, inr,
}
use atvr4samsung.Dispatch.{
  Item, Settlement, revoked, completed, failed, Lane, settle, cancel_owner, revoke_owner, contains,
  finish_item, Ending, sent, crashed, deauthorized, interrupted, cancel_generation, is_text,
  is_none, coalesce, append_or, enqueue_live, check_owner, owner_is_authorized, enqueue_checked,
  enqueue, wait_or_cancel, start_item, take_item, take_next, finish, close, cancel_current,
  discard_queued, always,
}
use atvr4samsung.Dispatch.Fields.{
  Quiet, settle-Same, cancel_owner-Becomes, cancel_generation-Becomes, discard-Becomes,
  remove_absent,
}

settle-Quiet : (owner : ℕ) (c : Option ℕ) (s : Settlement) (l : Lane) → Quiet owner l (settle c s l)
settle-Quiet owner none s l = (λ e. e, refl)
settle-Quiet owner (some c) s l = (λ e. e, refl)

Quiet-trans : (owner : ℕ) (l m n : Lane) → Quiet owner l m → Quiet owner m n → Quiet owner l n
Quiet-trans owner l m n a b = (λ e. b.0 (a.0 e), b.1 ∙ a.1)

pub cancel_owner-Quiet : (owner x : ℕ) (l : Lane) → Quiet owner l (cancel_owner x l)
cancel_owner-Quiet owner x l =
    let b = cancel_owner-Becomes x l in
    (λ e. ap (contains owner) b.1 ∙ remove_absent owner x l.owners e, b.2)

pub cancel_generation-Quiet :
    (owner x generation : ℕ) (l : Lane) → Quiet owner l (cancel_generation x generation l)
cancel_generation-Quiet owner x generation l =
    let b = cancel_generation-Becomes x generation l in (λ e. ap (contains owner) b.1 ∙ e, b.2)

enqueue_live-Quiet : (owner : ℕ) (item : Item) (l : Lane) → Quiet owner l (enqueue_live item l).0
enqueue_live-Quiet owner item l = coalesced (
    if is_text item.command.action && is_none item.completion
    then coalesce item.owner item.command l.queue
    else none)
  where
    appended :
        (t : Bool)
        → Quiet owner l (
            let r : Lane × Bool =
              if t then (l, false) else (record l { queue = l.queue ++ (item ∷ []) }, true) in
            r.0)
    appended true = (λ e. e, refl)
    appended false = (λ e. e, refl)

    coalesced : (o : Option (List Item)) → Quiet owner l (append_or item o l).0
    coalesced none = appended (leb l.max_queue_size (length l.queue))
    coalesced (some new) = (λ e. e, refl)

pub authorized-Quiet :
    (owner : ℕ) (authorize : ℕ → Bool) (x : ℕ) (l : Lane)
    → Quiet owner l (owner_is_authorized authorize x l).0
authorized-Quiet owner authorize x l = registered (contains x l.owners) (authorize x)
  where
    registered :
        (t u : Bool)
        → Quiet owner l (let r : Lane × Bool = if t then check_owner u x l else (l, false) in r.0)
    registered true true = (λ e. e, refl)
    registered true false = cancel_owner-Quiet owner x l
    registered false u = (λ e. e, refl)

pub enqueue-Quiet :
    (owner : ℕ) (authorize : ℕ → Bool) (item : Item) (l : Lane)
    → Quiet owner l (enqueue authorize item l).0
unfolding enqueue
enqueue-Quiet owner authorize item l =
    guarded (l.stopping || not (contains item.owner l.owners))
      (owner_is_authorized authorize item.owner l) (authorized-Quiet owner authorize item.owner l)
  where
    checked : (r : Lane × Bool) → Quiet owner l r.0 → Quiet owner l (enqueue_checked item r).0
    checked (m, true) q =
        Quiet-trans owner l m (enqueue_live item m).0 q (enqueue_live-Quiet owner item m)
    checked (m, false) q = q

    guarded :
        (t : Bool) (r : Lane × Bool)
        → Quiet owner l r.0
        → Quiet owner l
            (let s : Lane × Bool = if t then (l, false) else enqueue_checked item r in s.0)
    guarded true r q = (λ e. e, refl)
    guarded false r q = checked r q

pub waits-Quiet :
    (owner completion : ℕ) (l : Lane) (r : Lane × Bool)
    → Quiet owner l r.0
    → Quiet owner l (wait_or_cancel completion r).0
waits-Quiet owner completion l (m, true) q = q
waits-Quiet owner completion l (m, false) q = q

pub finish-Quiet : (owner : ℕ) (ending : Ending) (l : Lane) → Quiet owner l (finish ending l)
unfolding finish
finish-Quiet owner ending l = running l.current
  where
    revokes : (x : ℕ) (t : Bool) → Quiet owner l (if t then revoke_owner x l else cancel_owner x l)
    revokes x true = cancel_owner-Quiet owner x l
    revokes x false = cancel_owner-Quiet owner x l

    ends : (e : Ending) (item : Item) → Quiet owner l (finish_item e item l)
    ends sent item = settle-Quiet owner item.completion completed l
    ends crashed item = settle-Quiet owner item.completion failed l
    ends deauthorized item = revokes item.owner (contains item.owner l.owners)
    ends interrupted item = settle-Quiet owner item.completion revoked l

    running :
        (o : Option Item)
        → Quiet owner l (elim o [
          | none ↦ l
          | some item ↦ record (finish_item ending item l) { current = none }
        ])
    running none = (λ e. e, refl)
    running (some item) = ends ending item

pub close-Quiet : (owner : ℕ) (l : Lane) → Quiet owner l (close l)
unfolding close contains
close-Quiet owner l = stops l.stopping
  where
    stops :
        (t : Bool)
        → Quiet owner l (
            if t
            then l
            else record (cancel_current always
                (discard_queued always (record l { stopping = true; owners = [] })).current
                (discard_queued always (record l { stopping = true; owners = [] }))) {
                  current = none;
                })
    stops true = (λ e. e, refl)
    stops false =
        let b = discard-Becomes always (record l { stopping = true; owners = [] }) in
        (λ e. ap (contains owner) b.1, b.2)

-- What the worker starts: nothing, or the oldest command of the queue, whose owner is registered and
-- authorized at that moment.
abbrev pub Starts : (ℕ → Bool) → Lane → Lane → Type 0
Starts authorize l m =
    (m.dispatched ≡ l.dispatched)
    ⊎ (item : Item) × (rest : List Item) × (l.queue ≡ item ∷ rest)
      × (l.current ≡ none)
      × (contains item.owner l.owners ≡ true)
      × (authorize item.owner ≡ true)
      × (m.current ≡ some item)
      × (m.dispatched ≡ item ∷ l.dispatched)

-- One turn of the worker dispatches nothing, or it dispatches the oldest command of the queue, once,
-- while no other command runs and while the command's owner is registered and authorized.
pub take_next-Starts :
    (authorize : ℕ → Bool) (l : Lane) → Starts authorize l (take_next authorize l)
unfolding take_next
take_next-Starts authorize l = idles l.current l.queue refl refl
  where
    settles :
        (item : Item) (m : Lane)
        → m.dispatched ≡ l.dispatched
        → (settle item.completion revoked m).dispatched ≡ l.dispatched
    settles item m e = (settle-Same item.completion revoked m).2 ∙ e

    starts :
        (item : Item) (items : List Item) (c t u : Bool)
        → l.queue ≡ item ∷ items
        → l.current ≡ none
        → contains item.owner l.owners ≡ t
        → authorize item.owner ≡ u
        → item.cancelled ≡ c
        → Starts authorize l (
            start_item item (
              if t
              then check_owner u item.owner (record l { queue = items })
              else (record l { queue = items }, false)))
    starts item items c false u q n e a x = inl (settles item (record l { queue = items }) refl)
    starts item items c true false q n e a x = inl (
        settles item (revoke_owner item.owner (record l { queue = items }))
          (cancel_owner-Becomes item.owner (record l { queue = items })).2)
    starts item items true true true q n e a x =
        subst
          (λ b. Starts authorize l (
            if b
            then settle item.completion revoked (record l { queue = items })
            else record l { queue = items; current = some item; dispatched = item ∷ l.dispatched }))
          (sym x) (inl (settles item (record l { queue = items }) refl))
    starts item items false true true q n e a x =
        subst
          (λ b. Starts authorize l (
            if b
            then settle item.completion revoked (record l { queue = items })
            else record l { queue = items; current = some item; dispatched = item ∷ l.dispatched }))
          (sym x) (inr (item, items, q, n, e, a, refl, refl))

    idles :
        (o : Option Item) (items : List Item)
        → l.current ≡ o
        → l.queue ≡ items
        → Starts authorize l (elim o [ none ↦ take_item authorize items l | some item ↦ l ])
    idles (some item) items n q = inl refl
    idles none [] n q = inl refl
    idles none (item ∷ items) n q =
        starts item items item.cancelled (contains item.owner l.owners) (authorize item.owner) q n
          refl refl refl
