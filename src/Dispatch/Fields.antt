-- ===== src/Dispatch/Fields.antt =====
-- What the small steps of the lane leave alone.
use atvr4samsung.Common.{
  ℕ, ◌==◌, ◌≡◌, refl, ap, ◌∙◌, Bool, true, false, List, [], ◌∷◌, Option, none, some, if◌then◌else◌,
  arith,
}
use atvr4samsung.Dispatch.{
  Item, Settlement, revoked, Lane, settle, cancel_items, retained, mark_current, cancel_current,
  discard_queued, has_owner, cancel_owner, remove, contains, cancel_generation, in_generation,
}

-- Only the completions and the current command may differ.
abbrev pub Same : Lane → Lane → Type 0
Same l m =
    (m.queue ≡ l.queue)
    × (m.owners ≡ l.owners)
    × (m.dispatched ≡ l.dispatched)
    × (m.max_queue_size ≡ l.max_queue_size)

pub Same-trans : (l m n : Lane) → Same l m → Same m n → Same l n
Same-trans l m n a b = (b.0 ∙ a.0, b.1 ∙ a.1, b.2 ∙ a.2, b.3 ∙ a.3)

pub settle-Same : (c : Option ℕ) (s : Settlement) (l : Lane) → Same l (settle c s l)
settle-Same none s l = (refl, refl, refl, refl)
settle-Same (some c) s l = (refl, refl, refl, refl)

pub cancel_items-Same :
    (discards : Item → Bool) (items : List Item) (l : Lane) → Same l (cancel_items discards items l)
unfolding cancel_items
cancel_items-Same discards [] l = (refl, refl, refl, refl)
cancel_items-Same discards (item ∷ items) l =
    discarded (discards item) (λ k. cancel_items-Same discards items k)
  where
    discarded :
        (t : Bool)
        → ((k : Lane) → Same k (cancel_items discards items k))
        → Same l (cancel_items discards items (if t then settle item.completion revoked l else l))
    discarded true rest =
        Same-trans l (settle item.completion revoked l)
          (cancel_items discards items (settle item.completion revoked l))
          (settle-Same item.completion revoked l) (rest (settle item.completion revoked l))
    discarded false rest = rest l

pub cancel_current-Same :
    (discards : Item → Bool) (o : Option Item) (l : Lane) → Same l (cancel_current discards o l)
cancel_current-Same discards none l = (refl, refl, refl, refl)
cancel_current-Same discards (some item) l = marked (discards item)
  where
    marked : (t : Bool) → Same l (mark_current t item l)
    marked false = (refl, refl, refl, refl)
    marked true = settle-Same item.completion revoked l

-- The lane with another queue and other owners.
abbrev pub Becomes : List Item → List ℕ → Lane → Lane → Type 0
Becomes queue owners l m =
    (m.queue ≡ queue)
    × (m.owners ≡ owners)
    × (m.dispatched ≡ l.dispatched)
    × (m.max_queue_size ≡ l.max_queue_size)

pub discard-Becomes :
    (discards : Item → Bool) (l : Lane)
    → Becomes
        (retained discards l.queue)
        l.owners
        l
        (cancel_current discards (discard_queued discards l).current (discard_queued discards l))
discard-Becomes discards l =
    let a = cancel_items-Same discards l.queue l in
    let b =
      cancel_current-Same discards (discard_queued discards l).current
        (discard_queued discards l) in
    (b.0, b.1 ∙ a.1, b.2 ∙ a.2, b.3 ∙ a.3)

pub cancel_owner-Becomes :
    (owner : ℕ) (l : Lane)
    → Becomes (retained (has_owner owner) l.queue) (remove owner l.owners) l (cancel_owner owner l)
unfolding cancel_owner
cancel_owner-Becomes owner l =
    discard-Becomes (has_owner owner) (record l { owners = remove owner l.owners })

pub cancel_generation-Becomes :
    (owner generation : ℕ) (l : Lane)
    → Becomes
        (retained (in_generation owner generation) l.queue)
        l.owners
        l
        (cancel_generation owner generation l)
unfolding cancel_generation
cancel_generation-Becomes owner generation l = discard-Becomes (in_generation owner generation) l

-- Owners that are gone stay gone, and no other command is dispatched.
abbrev pub Quiet : ℕ → Lane → Lane → Type 0
Quiet owner l m =
    (contains owner l.owners ≡ false → contains owner m.owners ≡ false)
    × (m.dispatched ≡ l.dispatched)

pub remove_absent :
    (owner x : ℕ) (owners : List ℕ)
    → contains owner owners ≡ false
    → contains owner (remove x owners) ≡ false
unfolding contains remove
remove_absent owner x [] e = refl
remove_absent owner x (o ∷ owners) e =
    removed (o == x) (o == owner) refl e (remove_absent owner x owners)
  where
    removed :
        (t u : Bool)
        → (o == owner) ≡ u
        → (if u then true else contains owner owners) ≡ false
        → (contains owner owners ≡ false → contains owner (remove x owners) ≡ false)
        → contains owner (if t then remove x owners else o ∷ remove x owners) ≡ false
    removed t true h e rest = absurd (ground arith)
    removed true false h e rest = rest e
    removed false false h e rest =
        ap (λ b. if b then true else contains owner (remove x owners)) h ∙ rest e

pub remove_present :
    (owner x : ℕ) (owners : List ℕ)
    → (owner == x) ≡ false
    → contains owner owners ≡ true
    → contains owner (remove x owners) ≡ true
unfolding contains remove
remove_present owner x [] d e = e
remove_present owner x (o ∷ owners) d e =
    removed (o == x) (o == owner) refl refl e (remove_present owner x owners d)
  where
    removed :
        (t u : Bool)
        → (o == x) ≡ t
        → (o == owner) ≡ u
        → (if u then true else contains owner owners) ≡ true
        → (contains owner owners ≡ true → contains owner (remove x owners) ≡ true)
        → contains owner (if t then remove x owners else o ∷ remove x owners) ≡ true
    removed true true g h e rest = absurd (ground arith)
    removed true false g h e rest = rest e
    removed false true g h e rest = ap (λ b. if b then true else contains owner (remove x owners)) h
    removed false false g h e rest =
        ap (λ b. if b then true else contains owner (remove x owners)) h ∙ rest e

pub remove_gone : (owner : ℕ) (owners : List ℕ) → contains owner (remove owner owners) ≡ false
unfolding contains remove
remove_gone owner [] = refl
remove_gone owner (o ∷ owners) = removed (o == owner) refl (remove_gone owner owners)
  where
    removed :
        (t : Bool)
        → (o == owner) ≡ t
        → contains owner (remove owner owners) ≡ false
        → contains owner (if t then remove owner owners else o ∷ remove owner owners) ≡ false
    removed true h rest = rest
    removed false h rest =
        ap (λ b. if b then true else contains owner (remove owner owners)) h ∙ rest
