-- ===== src/Dispatch/Valid.antt =====
-- The queue keeps its bound, and only commands of live owners wait in it.
use mathlib.Core.Path.{subst}
use atvr4samsung.Common.{
  ℕ, ◌≤◌, ◌==◌, ◌≡◌, refl, sym, Bool, true, false, List, [], ◌∷◌, Option, none, some, length, All,
  if◌then◌else◌, arith,
}
use atvr4samsung.Dispatch.{
  Item, Settlement, Lane, settle, retained, has_owner, cancel_owner, remove, contains,
  cancel_generation, in_generation,
}
use atvr4samsung.Dispatch.Fields.{
  Becomes, cancel_owner-Becomes, cancel_generation-Becomes, remove_present,
}

abbrev pub IsLive : List ℕ → Item → Type 0
IsLive owners item = contains item.owner owners ≡ true

abbrev pub ValidParts : List Item → List ℕ → ℕ → Type 0
ValidParts queue owners bound = All (IsLive owners) queue × (length queue ≤ bound)

-- At most `max_queue_size` commands wait, each of an owner that is registered.
abbrev pub IsValid : Lane → Type 0
IsValid l = ValidParts l.queue l.owners l.max_queue_size

IsValid-by :
    {queue : List Item} {owners : List ℕ} {bound : ℕ} (m : Lane)
    → m.queue ≡ queue
    → m.owners ≡ owners
    → m.max_queue_size ≡ bound
    → ValidParts queue owners bound
    → IsValid m
IsValid-by {queue} {owners} {bound} m q o b v =
    subst (λ x. ValidParts x m.owners m.max_queue_size) (sym q)
      (subst (λ x. ValidParts queue x m.max_queue_size) (sym o)
        (subst (ValidParts queue owners) (sym b) v))

pub Becomes-IsValid :
    {queue : List Item} {owners : List ℕ} (l m : Lane)
    → Becomes queue owners l m
    → ValidParts queue owners l.max_queue_size
    → IsValid m
Becomes-IsValid l m b v = IsValid-by m b.0 b.1 b.3 v

pub settle-IsValid : (c : Option ℕ) (s : Settlement) (l : Lane) → IsValid l → IsValid (settle c s l)
settle-IsValid none s l v = v
settle-IsValid (some c) s l v = v

retained-All :
    (P : Item → Type 0) (discards : Item → Bool) (items : List Item)
    → All P items
    → All P (retained discards items)
unfolding retained
retained-All P discards [] h = tt
retained-All P discards (item ∷ items) h = kept (discards item) (retained-All P discards items h.1)
  where
    kept :
        (t : Bool)
        → All P (retained discards items)
        → All P (if t then retained discards items else item ∷ retained discards items)
    kept true rest = rest
    kept false rest = (h.0, rest)

length-retained :
    (discards : Item → Bool) (items : List Item) → length (retained discards items) ≤ length items
unfolding retained
length-retained discards [] = omega arith
length-retained discards (item ∷ items) = kept (discards item) (length-retained discards items)
  where
    kept :
        (t : Bool)
        → length (retained discards items) ≤ length items
        → length (if t then retained discards items else item ∷ retained discards items)
          ≤ length (item ∷ items)
    kept true rest = omega arith
    kept false rest = omega arith

-- The commands that stay behind a cancelled owner are of the others.
retained-Live :
    (owner : ℕ) (owners : List ℕ) (items : List Item)
    → All (IsLive owners) items
    → All (IsLive (remove owner owners)) (retained (has_owner owner) items)
unfolding retained
retained-Live owner owners [] h = tt
retained-Live owner owners (item ∷ items) h =
    kept (item.owner == owner) refl (retained-Live owner owners items h.1)
  where
    kept :
        (t : Bool)
        → (item.owner == owner) ≡ t
        → All (IsLive (remove owner owners)) (retained (has_owner owner) items)
        → All (IsLive (remove owner owners)) (
            if t then retained (has_owner owner) items else item ∷ retained (has_owner owner) items)
    kept true e rest = rest
    kept false e rest = (remove_present item.owner owner owners e h.0, rest)

pub cancel_owner-IsValid : (owner : ℕ) (l : Lane) → IsValid l → IsValid (cancel_owner owner l)
cancel_owner-IsValid owner l v =
    Becomes-IsValid l (cancel_owner owner l) (cancel_owner-Becomes owner l) (
      retained-Live owner l.owners l.queue v.0,
      omega (arith, length-retained (has_owner owner) l.queue, v.1),
    )

pub cancel_generation-IsValid :
    (owner generation : ℕ) (l : Lane) → IsValid l → IsValid (cancel_generation owner generation l)
cancel_generation-IsValid owner generation l v =
    Becomes-IsValid l (cancel_generation owner generation l)
      (cancel_generation-Becomes owner generation l)
      (
        retained-All (IsLive l.owners) (in_generation owner generation) l.queue v.0,
        omega (arith, length-retained (in_generation owner generation) l.queue, v.1),
      )
