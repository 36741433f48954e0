-- ===== src/Dispatch/Turns.antt =====
-- Each call of a session and each turn of the worker keeps the lane valid.
use mathlib.Core.Path.{subst}
use atvr4samsung.Common.{
  ℕ, suc, ◌≤◌, ◌==◌, ◌≡◌, refl, sym, ap, Bool, true, false, not, ◌&&◌, ◌||◌, List, [], ◌∷◌, ◌++◌,
  Option, none, some, length, length-append, All, All-append, leb, if◌then◌else◌, arith,
}
use atvr4samsung.Relay.{Command}
use atvr4samsung.Dispatch.{
  Item, revoked, completed, failed, Lane, settle, retained, cancel_owner, revoke_owner, contains,
  finish_item, Ending, sent, crashed, deauthorized, interrupted, is_text, is_none, coalesce,
  append_or, enqueue_live, check_owner, owner_is_authorized, enqueue_checked, enqueue,
  wait_or_cancel, start_item, take_item, take_next, finish, close, cancel_current, discard_queued,
  always,
}
use atvr4samsung.Dispatch.Fields.{discard-Becomes}
use atvr4samsung.Dispatch.Valid.{
  IsLive, ValidParts, IsValid, settle-IsValid, Becomes-IsValid, cancel_owner-IsValid,
}

-- What a coalesced queue keeps.
abbrev pub Keeps : List ℕ → List Item → Option (List Item) → Type 0
Keeps owners queue none = Unit
Keeps owners queue (some new) =
    (length new ≡ length queue) × (All (IsLive owners) queue → All (IsLive owners) new)

coalesce-Keeps :
    (owner : ℕ) (command : Command) (owners : List ℕ) (queue : List Item)
    → Keeps owners queue (coalesce owner command queue)
unfolding coalesce
coalesce-Keeps owner command owners [] = tt
coalesce-Keeps owner command owners (item ∷ []) =
    replaced (item.owner == owner && (is_none item.completion && is_text item.command.action))
  where
    replaced :
        (t : Bool)
        → Keeps owners
            (item ∷ [])
            (if t then some (record item { command = command } ∷ []) else none)
    replaced true = (refl, λ h. h)
    replaced false = tt
coalesce-Keeps owner command owners (item ∷ next ∷ items) =
    kept (coalesce owner command (next ∷ items))
      (coalesce-Keeps owner command owners (next ∷ items))
  where
    kept :
        (o : Option (List Item))
        → Keeps owners (next ∷ items) o
        → Keeps owners
            (item ∷ next ∷ items)
            (elim o [ none ↦ none | some rest ↦ some (item ∷ rest) ])
    kept none k = tt
    kept (some rest) k = (ap suc k.0, λ h. (h.0, k.1 h.1))

enqueue_live-IsValid :
    (item : Item) (l : Lane) → IsLive l.owners item → IsValid l → IsValid (enqueue_live item l).0
enqueue_live-IsValid item l live v = queued (is_text item.command.action && is_none item.completion)
  where
    appended :
        (t : Bool)
        → leb l.max_queue_size (length l.queue) ≡ t
        → IsValid (
            let r : Lane × Bool =
              if t then (l, false) else (record l { queue = l.queue ++ (item ∷ []) }, true) in
            r.0)
    appended true e = v
    appended false e = (
      All-append (IsLive l.owners) l.queue (item ∷ []) v.0 (live, tt),
      ground (arith, length-append l.queue (item ∷ []), e),
    )

    coalesced : (o : Option (List Item)) → Keeps l.owners l.queue o → IsValid (append_or item o l).0
    coalesced none k = appended (leb l.max_queue_size (length l.queue)) refl
    coalesced (some new) k = (k.1 v.0, omega (arith, k.0, v.1))

    queued :
        (t : Bool)
        → IsValid
            (append_or item (if t then coalesce item.owner item.command l.queue else none) l).0
    queued true =
        coalesced (coalesce item.owner item.command l.queue)
          (coalesce-Keeps item.owner item.command l.owners l.queue)
    queued false = coalesced none tt

-- An owner that passed the check is registered.
abbrev pub Checked : ℕ → Lane × Bool → Type 0
Checked owner r = IsValid r.0 × (r.1 ≡ true → contains owner r.0.owners ≡ true)

authorized-Checked :
    (authorize : ℕ → Bool) (owner : ℕ) (l : Lane)
    → IsValid l
    → Checked owner (owner_is_authorized authorize owner l)
authorized-Checked authorize owner l v = registered (contains owner l.owners) (authorize owner) refl
  where
    registered :
        (t u : Bool)
        → contains owner l.owners ≡ t
        → Checked owner (if t then check_owner u owner l else (l, false))
    registered true true e = (v, λ f. e)
    registered true false e = (cancel_owner-IsValid owner l v, λ f. absurd (ground arith))
    registered false u e = (v, λ f. absurd (ground arith))

pub enqueue-IsValid :
    (authorize : ℕ → Bool) (item : Item) (l : Lane)
    → IsValid l
    → IsValid (enqueue authorize item l).0
unfolding enqueue
enqueue-IsValid authorize item l v =
    guarded (l.stopping || not (contains item.owner l.owners)) _
      (authorized-Checked authorize item.owner l v)
  where
    checked : (r : Lane × Bool) → Checked item.owner r → IsValid (enqueue_checked item r).0
    checked (m, true) k = enqueue_live-IsValid item m (k.1 refl) k.0
    checked (m, false) k = k.0

    guarded :
        (t : Bool) (r : Lane × Bool)
        → Checked item.owner r
        → IsValid (if t then (l, false) else enqueue_checked item r).0
    guarded true r k = v
    guarded false r k = checked r k

pub submit_and_wait-IsValid :
    (authorize : ℕ → Bool) (item : Item) (completion : ℕ) (l : Lane)
    → IsValid l
    → IsValid (wait_or_cancel completion (enqueue authorize item l)).0
submit_and_wait-IsValid authorize item completion l v = waits _ (enqueue-IsValid authorize item l v)
  where
    waits : (r : Lane × Bool) → IsValid r.0 → IsValid (wait_or_cancel completion r).0
    waits (m, true) k = k
    waits (m, false) k = settle-IsValid (some completion) revoked m k

pub take_next-IsValid :
    (authorize : ℕ → Bool) (l : Lane) → IsValid l → IsValid (take_next authorize l)
unfolding take_next
take_next-IsValid authorize l v = idles l.current l.queue v.0 v.1
  where
    starts : (item : Item) (r : Lane × Bool) → IsValid r.0 → IsValid (start_item item r)
    starts item (m, false) k = settle-IsValid item.completion revoked m k
    starts item (m, true) k = cancelled item.cancelled
      where
        cancelled :
            (t : Bool)
            → IsValid (
                if t
                then settle item.completion revoked m
                else record m { current = some item; dispatched = item ∷ m.dispatched })
        cancelled true = settle-IsValid item.completion revoked m k
        cancelled false = k

    takes :
        (items : List Item)
        → All (IsLive l.owners) items
        → length items ≤ l.max_queue_size
        → IsValid (take_item authorize items l)
    takes [] h b = v
    takes (item ∷ items) h b =
        starts item (owner_is_authorized authorize item.owner (record l { queue = items }))
          (authorized-Checked authorize item.owner (record l { queue = items })
            (h.1, omega (arith, b))).0

    idles :
        (o : Option Item) (items : List Item)
        → All (IsLive l.owners) items
        → length items ≤ l.max_queue_size
        → IsValid (elim o [ none ↦ take_item authorize items l | some item ↦ l ])
    idles none items h b = takes items h b
    idles (some item) items h b = v

pub finish-IsValid : (ending : Ending) (l : Lane) → IsValid l → IsValid (finish ending l)
unfolding finish
finish-IsValid ending l v = running l.current
  where
    revokes :
        (item : Item) (t : Bool)
        → IsValid (if t then revoke_owner item.owner l else cancel_owner item.owner l)
    revokes item true = cancel_owner-IsValid item.owner l v
    revokes item false = cancel_owner-IsValid item.owner l v

    ends : (e : Ending) (item : Item) → IsValid (finish_item e item l)
    ends sent item = settle-IsValid item.completion completed l v
    ends crashed item = settle-IsValid item.completion failed l v
    ends deauthorized item = revokes item (contains item.owner l.owners)
    ends interrupted item = settle-IsValid item.completion revoked l v

    running :
        (o : Option Item)
        → IsValid (elim o [
          | none ↦ l
          | some item ↦ record (finish_item ending item l) { current = none }
        ])
    running none = v
    running (some item) = ends ending item

retained-always : (items : List Item) → retained always items ≡ []
unfolding retained
retained-always [] = refl
retained-always (item ∷ items) = retained-always items

pub close-IsValid : (l : Lane) → IsValid l → IsValid (close l)
unfolding close
close-IsValid l v = stops l.stopping
  where
    stops :
        (t : Bool)
        → IsValid (
            if t
            then l
            else record (cancel_current always
                (discard_queued always (record l { stopping = true; owners = [] })).current
                (discard_queued always (record l { stopping = true; owners = [] }))) {
                  current = none;
                })
    stops true = v
    stops false =
        Becomes-IsValid (record l { stopping = true; owners = [] })
          (cancel_current always
            (discard_queued always (record l { stopping = true; owners = [] })).current
            (discard_queued always (record l { stopping = true; owners = [] })))
          (discard-Becomes always (record l { stopping = true; owners = [] }))
          (subst (λ q. ValidParts q [] l.max_queue_size) (sym (retained-always l.queue))
            (tt, omega arith))
