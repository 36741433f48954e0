-- ===== src/Dispatch.antt =====
-- src/atvr4samsung/companion/dispatch.py: the queue of commands and its sole worker.
-- Owners and completions are numbers. What `authorize` of the owners answers at a moment is a function
-- from the owner; the worker's turns are the steps `take_next` and `finish`, in any interleaving with
-- the calls of the sessions.
pub mod Fields
pub mod Valid
pub mod Turns
pub mod Steps
pub mod Cancelled
pub mod Gone
mod Tests
use atvr4samsung.Common.{
  ℕ, ◌==◌, Bool, true, false, not, ◌&&◌, ◌||◌, List, [], ◌∷◌, ◌++◌, Option, none, some, length, leb,
  if◌then◌else◌,
}
use atvr4samsung.Bridge.Keymap.{Action, send_text}
use atvr4samsung.Relay.{Command}

-- `_QueuedCommand`
pub record Item : Type 0 where
  pub owner : ℕ
  pub command : Command
  pub hold_generation : Option ℕ
  pub completion : Option ℕ
  pub cancelled : Bool

-- How a completion ends.
pub data Settlement : Type 0 where
  revoked completed failed : Settlement

pub record Lane : Type 0 where
  pub max_queue_size : ℕ
  pub queue : List Item
  pub owners : List ℕ
  pub current : Option Item
  pub stopping : Bool
  -- the completions that are done, the commands that went to the television and the owners that were
  -- told of their revocation, newest first
  pub settled : List (ℕ × Settlement)
  pub dispatched : List Item
  pub unauthorized : List ℕ

-- `__init__`, which raises ValueError on a queue without a place.
unfoldable pub new_lane : ℕ → Option Lane
new_lane max_queue_size =
    if leb 1 max_queue_size
    then some (record {
      max_queue_size = max_queue_size;
      queue = [];
      owners = [];
      current = none;
      stopping = false;
      settled = [];
      dispatched = [];
      unauthorized = [];
    })
    else none

unfoldable pub contains : ℕ → List ℕ → Bool
contains owner [] = false
contains owner (o ∷ owners) = if o == owner then true else contains owner owners

-- `self._owners.pop(owner, None)`
unfoldable pub remove : ℕ → List ℕ → List ℕ
remove owner [] = []
remove owner (o ∷ owners) = let rest = remove owner owners in if o == owner then rest else o ∷ rest

-- `completion.done()`
unfoldable pub is_done : ℕ → List (ℕ × Settlement) → Bool
is_done completion [] = false
is_done completion ((c, s) ∷ settled) = if c == completion then true else is_done completion settled

-- `_cancel_completion`, `_complete` and `_fail_completion`.
abbrev pub settle : Option ℕ → Settlement → Lane → Lane
settle none s l = l
settle (some completion) s l = record l {
  settled = if is_done completion l.settled then l.settled else (completion, s) ∷ l.settled;
}

unfoldable pub cancel_items : (Item → Bool) → List Item → Lane → Lane
unfolding is_done
cancel_items discards [] l = l
cancel_items discards (item ∷ items) l =
    cancel_items discards items (if discards item then settle item.completion revoked l else l)

unfoldable pub retained : (Item → Bool) → List Item → List Item
retained discards [] = []
retained discards (item ∷ items) =
    let rest = retained discards items in if discards item then rest else item ∷ rest

-- `_discard_queued`
abbrev pub discard_queued : (Item → Bool) → Lane → Lane
discard_queued discards l = record (cancel_items discards l.queue l) {
  queue = retained discards l.queue;
}

-- The current command is marked, and its completion cancelled.
abbrev pub mark_current : Bool → Item → Lane → Lane
mark_current false item l = l
mark_current true item l = record (settle item.completion revoked l) {
  current = some (record item { cancelled = true });
}

abbrev pub cancel_current : (Item → Bool) → Option Item → Lane → Lane
cancel_current discards none l = l
cancel_current discards (some item) l = mark_current (discards item) item l

abbrev pub has_owner : ℕ → Item → Bool
has_owner owner item = item.owner == owner

-- `_deactivate_owner` without its callback, and `cancel_owner`.
unfoldable pub cancel_owner : ℕ → Lane → Lane
unfolding remove cancel_items retained
cancel_owner owner l =
    let discarded =
      discard_queued (has_owner owner) (record l { owners = remove owner l.owners }) in
    cancel_current (has_owner owner) discarded.current discarded

-- `_deactivate_owner` with `on_unauthorized`.
abbrev pub revoke_owner : ℕ → Lane → Lane
revoke_owner owner l =
    let m = cancel_owner owner l in record m { unauthorized = owner ∷ m.unauthorized }

abbrev pub is_generation : ℕ → Option ℕ → Bool
is_generation generation none = false
is_generation generation (some g) = g == generation

abbrev pub in_generation : ℕ → ℕ → Item → Bool
in_generation owner generation item =
    item.owner == owner && is_generation generation item.hold_generation

unfoldable pub cancel_generation : ℕ → ℕ → Lane → Lane
unfolding cancel_items retained
cancel_generation owner generation l =
    let discarded = discard_queued (in_generation owner generation) l in
    cancel_current (in_generation owner generation) discarded.current discarded

-- `activate`; its `start` raises RuntimeError on a closed lane.
unfoldable pub activate : ℕ → Lane → Option Lane
unfolding remove
activate owner l =
    if l.stopping then none else some (record l { owners = owner ∷ remove owner l.owners })

abbrev pub is_text : Action → Bool
is_text send_text = true
is_text _ = false

abbrev pub is_none : Option ℕ → Bool
is_none none = true
is_none (some n) = false

-- The queue with its last command replaced, if that is a text of the same owner.
unfoldable pub coalesce : ℕ → Command → List Item → Option (List Item)
coalesce owner command [] = none
coalesce owner command (item ∷ []) =
    if item.owner == owner && (is_none item.completion && is_text item.command.action)
    then some (record item { command = command } ∷ [])
    else none
coalesce owner command (item ∷ next ∷ items) = elim (coalesce owner command (next ∷ items)) [
  | none ↦ none
  | some rest ↦ some (item ∷ rest)
]

abbrev pub append_item : Item → Lane → Lane × Bool
append_item item l =
    if leb l.max_queue_size (length l.queue)
    then (l, false)
    else (record l { queue = l.queue ++ (item ∷ []) }, true)

abbrev pub append_or : Item → Option (List Item) → Lane → Lane × Bool
append_or item none l = append_item item l
append_or item (some queue) l = (record l { queue = queue }, true)

-- `_enqueue` behind its two checks.
abbrev pub enqueue_live : Item → Lane → Lane × Bool
enqueue_live item l =
    append_or item
      (if is_text item.command.action && is_none item.completion
        then coalesce item.owner item.command l.queue
        else none)
      l

-- `_owner_is_authorized` for a registered owner.
abbrev pub check_owner : Bool → ℕ → Lane → Lane × Bool
check_owner true owner l = (l, true)
check_owner false owner l = (revoke_owner owner l, false)

abbrev pub owner_is_authorized : (ℕ → Bool) → ℕ → Lane → Lane × Bool
owner_is_authorized authorize owner l =
    if contains owner l.owners then check_owner (authorize owner) owner l else (l, false)

abbrev pub enqueue_checked : Item → Lane × Bool → Lane × Bool
enqueue_checked item (l, false) = (l, false)
enqueue_checked item (l, true) = enqueue_live item l

-- `_enqueue`
unfoldable pub enqueue : (ℕ → Bool) → Item → Lane → Lane × Bool
unfolding contains coalesce cancel_owner
enqueue authorize item l =
    if l.stopping || not (contains item.owner l.owners)
    then (l, false)
    else enqueue_checked item (owner_is_authorized authorize item.owner l)

abbrev pub new_item : ℕ → Command → Option ℕ → Option ℕ → Item
new_item owner command hold_generation completion = record {
  owner = owner;
  command = command;
  hold_generation = hold_generation;
  completion = completion;
  cancelled = false;
}

-- `submit`
unfoldable pub submit : (ℕ → Bool) → ℕ → Command → Lane → Lane × Bool
unfolding enqueue
submit authorize owner command = enqueue authorize (new_item owner command none none)

abbrev pub wait_or_cancel : ℕ → Lane × Bool → Lane × Bool
wait_or_cancel completion (l, true) = (l, true)
wait_or_cancel completion (l, false) = (settle (some completion) revoked l, false)

-- `submit_and_wait`, with a new completion.
unfoldable pub submit_and_wait : (ℕ → Bool) → ℕ → Command → ℕ → ℕ → Lane → Lane × Bool
unfolding enqueue
submit_and_wait authorize owner command generation completion l =
    wait_or_cancel completion
      (enqueue authorize (new_item owner command (some generation) (some completion)) l)

-- The worker's checks behind `popleft`: the command starts, or its completion is cancelled.
abbrev pub start_item : Item → Lane × Bool → Lane
start_item item (l, false) = settle item.completion revoked l
start_item item (l, true) =
    if item.cancelled
    then settle item.completion revoked l
    else record l { current = some item; dispatched = item ∷ l.dispatched }

abbrev pub take_item : (ℕ → Bool) → List Item → Lane → Lane
take_item authorize [] l = l
take_item authorize (item ∷ items) l =
    start_item item (owner_is_authorized authorize item.owner (record l { queue = items }))

-- One turn of the worker's loop up to the call of `_dispatch_item`, while no command runs.
unfoldable pub take_next : (ℕ → Bool) → Lane → Lane
unfolding contains cancel_owner
take_next authorize l = elim l.current [ none ↦ take_item authorize l.queue l | some item ↦ l ]

-- How `_dispatch_item` ends: normally, with another exception, with AuthorizationRevoked, or with
-- CancelledError. If no call asked for the last, the worker ends too, and `start` makes another one.
pub data Ending : Type 0 where
  sent crashed deauthorized interrupted : Ending

abbrev pub finish_item : Ending → Item → Lane → Lane
finish_item sent item l = settle item.completion completed l
finish_item crashed item l = settle item.completion failed l
finish_item deauthorized item l =
    if contains item.owner l.owners then revoke_owner item.owner l else cancel_owner item.owner l
finish_item interrupted item l = settle item.completion revoked l

-- The rest of the turn, with its `finally`.
unfoldable pub finish : Ending → Lane → Lane
unfolding contains cancel_owner
finish ending l = elim l.current [
  | none ↦ l
  | some item ↦ record (finish_item ending item l) { current = none }
]

abbrev pub always : Item → Bool
always item = true

-- `close`, of which the worker's end is a part.
unfoldable pub close : Lane → Lane
unfolding cancel_items retained
close l =
    if l.stopping
    then l
    else let discarded = discard_queued always (record l { stopping = true; owners = [] }) in
      record (cancel_current always discarded.current discarded) { current = none }
