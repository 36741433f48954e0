-- ===== src/Framing/Stream.antt =====
-- What `feed` makes of a byte stream, however the stream is cut into reads.
use mathlib.Core.Path.{subst}
use native.Mathlib.Decide.{dec_lt}
use atvr4samsung.Common.{
  ℕ, zero, suc, ◌+◌, ◌≤◌, ◌<◌, ◌≡◌, ◌≢◌, refl, sym, ap, ◌∙◌, List, [], ◌∷◌, ◌++◌, arith, length,
  take, drop, lt→ltb, le→ltb, length-append, length-drop, take-append_le, drop-append_le,
  append-nil, append_assoc,
}
use atvr4samsung.Framing.{
  CompanionFrame, FrameParser, Outcome, new_parser, declared, Fed, yield, frame_of, finished,
  too_large, out_of_fuel, feed_loop, feed, buffered_bytes,
}
use atvr4samsung.Framing.Round.{
  IsValid, in_header, in_body, round, feed_loop-round, declared-append,
}

-- What is left behind the last complete frame of a stream.
pub data Tail : Type 0 where
  waiting : List ℕ → Tail
  refused : Tail
  unfinished : Tail

-- The frames of a stream under a bound on the payload, and its tail.
pub data Splits (max_payload : ℕ) : List ℕ → List CompanionFrame → Tail → Type 0 where
  part_header : (all : List ℕ) → length all < 4 → Splits max_payload all [] (waiting all)
  part_body :
      (all : List ℕ)
      → 4 ≤ length all
      → declared all ≤ max_payload
      → length all < 4 + declared all
      → Splits max_payload all [] (waiting all)
  oversized :
      (all : List ℕ)
      → 4 ≤ length all
      → max_payload < declared all
      → Splits max_payload all [] refused
  frame :
      (all : List ℕ) {frames : List CompanionFrame} {tail : Tail}
      → 4 ≤ length all
      → declared all ≤ max_payload
      → 4 + declared all ≤ length all
      → Splits max_payload (drop (4 + declared all) all) frames tail
      → Splits max_payload all (frame_of (take (4 + declared all) all) ∷ frames) tail

abbrev pub tail_of : Outcome → FrameParser → Tail
tail_of finished p = waiting p.buffer
tail_of too_large p = refused
tail_of out_of_fuel p = unfinished

-- A frame that is too large leaves the parser as a new one.
abbrev pub ClearedIf : Outcome → FrameParser → Type 0
ClearedIf finished p = Unit
ClearedIf too_large p = p ≡ new_parser p.max_payload
ClearedIf out_of_fuel p = Unit

-- `r` is a right result on the bytes `all`, and leaves a valid parser under the same bound.
abbrev pub Reads : ℕ → List ℕ → Fed → Type 0
Reads max_payload all (frames, outcome, q) =
    Splits max_payload all frames (tail_of outcome q)
    × IsValid q
    × (q.max_payload ≡ max_payload)
    × ClearedIf outcome q

pub new_parser-IsValid : (max_payload : ℕ) → IsValid (new_parser max_payload)
new_parser-IsValid max_payload = in_header refl (omega arith)

round-Reads :
    (max_payload : ℕ) (all : List ℕ) (next : List ℕ → Fed)
    → (4 ≤ length all
        → 4 + declared all ≤ length all
        → Reads max_payload (drop (4 + declared all) all) (next (drop (4 + declared all) all)))
    → Reads max_payload all (round max_payload all next)
round-Reads max_payload all next later = elim (dec_lt (length all) 4) [
  | yes h ↦ rw (lt→ltb (length all) 4 h) (part_header all h, in_header refl h, refl, tt)
  | no g ↦ rw (le→ltb (length all) 4 (omega arith)) (elim (dec_lt max_payload (declared all)) [
    | yes big ↦
        rw (lt→ltb max_payload (declared all) big)
          (oversized all (omega arith) big, new_parser-IsValid max_payload, refl, refl)
    | no fits ↦
        rw (le→ltb max_payload (declared all) (omega arith))
          (elim (dec_lt (length all) (4 + declared all)) [
            | yes short ↦ rw (lt→ltb (length all) (4 + declared all) short) (
              part_body all (omega arith) (omega arith) short,
              in_body (omega arith) (omega arith) refl short,
              refl,
              tt,
            )
            | no enough ↦ rw (le→ltb (length all) (4 + declared all) (omega arith)) (
                yielded (omega arith) (omega arith) (omega arith)
                  (later (omega arith) (omega arith)))
          ])
  ])
]
  where
    yielded :
        4 ≤ length all
        → declared all ≤ max_payload
        → 4 + declared all ≤ length all
        → Reads max_payload (drop (4 + declared all) all) (next (drop (4 + declared all) all))
        → Reads max_payload all
            (yield (frame_of (take (4 + declared all) all)) (next (drop (4 + declared all) all)))
    yielded g f e r = (frame all g f e r.0, r.1, r.2, r.3)

-- A valid parser holds less than a whole frame, whatever comes in next.
held_short :
    (p : FrameParser) (incoming : List ℕ)
    → IsValid p
    → length p.buffer < 4 + declared (p.buffer ++ incoming)
held_short p incoming (in_header e h) = omega arith
held_short p incoming (in_body g f e h) = rw (declared-append p.buffer incoming g) h

held-Splits : (p : FrameParser) → IsValid p → Splits p.max_payload p.buffer [] (waiting p.buffer)
held-Splits p (in_header e h) = part_header p.buffer h
held-Splits p (in_body g f e h) = part_body p.buffer g f h

feed_loop-Reads :
    (fuel : ℕ) (p : FrameParser) (incoming : List ℕ)
    → length incoming ≤ fuel
    → IsValid p
    → Reads p.max_payload (p.buffer ++ incoming) (feed_loop fuel p incoming)
feed_loop-Reads fuel p [] h v =
    rw (append-nil p.buffer) (unfold feed_loop in (held-Splits p v, v, refl, tt))
feed_loop-Reads zero p (b ∷ bs) h v = absurd (omega arith)
feed_loop-Reads (suc fuel) p (b ∷ bs) h v =
    subst (Reads p.max_payload (p.buffer ++ (b ∷ bs))) (sym (feed_loop-round fuel p b bs v)) (
      round-Reads p.max_payload (p.buffer ++ (b ∷ bs)) (feed_loop fuel (new_parser p.max_payload))
        λ g e.
          feed_loop-Reads fuel (new_parser p.max_payload)
            (drop (4 + declared (p.buffer ++ (b ∷ bs))) (p.buffer ++ (b ∷ bs)))
            (omega (
              arith,
              length-drop (4 + declared (p.buffer ++ (b ∷ bs))) (p.buffer ++ (b ∷ bs)),
              length-append p.buffer (b ∷ bs),
              held_short p (b ∷ bs) v,
            ))
            (new_parser-IsValid p.max_payload))

-- From a valid parser, the frames that `feed` yields and its outcome are the split of the held bytes
-- and the new ones: it never runs out of fuel, the parser left behind is valid and keeps its bound.
pub feed-Reads :
    (p : FrameParser) (incoming : List ℕ)
    → IsValid p
    → Reads p.max_payload (p.buffer ++ incoming) (feed p incoming)
unfolding feed
feed-Reads p incoming v = feed_loop-Reads (length incoming) p incoming (omega arith) v

-- After any read the parser holds fewer bytes than a header and the largest payload allowed.
pub feed-buffered_bytes :
    (p : FrameParser) (incoming : List ℕ)
    → IsValid p
    → buffered_bytes (feed p incoming).2 < 4 + p.max_payload
unfolding buffered_bytes
feed-buffered_bytes p incoming v =
    let (_, w, e, _) = feed-Reads p incoming v in bound (feed p incoming).2 w e
  where
    bound :
        (q : FrameParser)
        → IsValid q
        → q.max_payload ≡ p.max_payload
        → length q.buffer < 4 + p.max_payload
    bound q (in_header _ h) e = omega arith
    bound q (in_body _ f _ h) e = omega arith

-- A stream splits in one way.
pub Splits-unique :
    {max_payload : ℕ} {all : List ℕ} {fs gs : List CompanionFrame} {t u : Tail}
    → Splits max_payload all fs t
    → Splits max_payload all gs u
    → (fs ≡ gs) × (t ≡ u)
Splits-unique (part_header all h) (part_header _ _) = (refl, refl)
Splits-unique (part_header all h) (part_body _ g f k) = absurd (omega arith)
Splits-unique (part_header all h) (oversized _ g b) = absurd (omega arith)
Splits-unique (part_header all h) (frame _ g f e r) = absurd (omega arith)
Splits-unique (part_body all g f h) (part_header _ k) = absurd (omega arith)
Splits-unique (part_body all g f h) (part_body _ _ _ _) = (refl, refl)
Splits-unique (part_body all g f h) (oversized _ _ b) = absurd (omega arith)
Splits-unique (part_body all g f h) (frame _ _ _ e _) = absurd (omega arith)
Splits-unique (oversized all g b) (part_header _ k) = absurd (omega arith)
Splits-unique (oversized all g b) (part_body _ _ f _) = absurd (omega arith)
Splits-unique (oversized all g b) (oversized _ _ _) = (refl, refl)
Splits-unique (oversized all g b) (frame _ _ f _ _) = absurd (omega arith)
Splits-unique (frame all g f e s) (part_header _ k) = absurd (omega arith)
Splits-unique (frame all g f e s) (part_body _ _ _ k) = absurd (omega arith)
Splits-unique (frame all g f e s) (oversized _ _ b) = absurd (omega arith)
Splits-unique (frame all g f e s) (frame _ _ _ _ r) =
    let (p, q) = Splits-unique s r in (ap (λ fs. frame_of (take (4 + declared all) all) ∷ fs) p, q)

-- Bytes behind an unfinished tail go on where it stopped.
Splits-append :
    {max_payload : ℕ} {all : List ℕ} {fs gs : List CompanionFrame} {left : List ℕ} {u : Tail}
    (more : List ℕ)
    → Splits max_payload all fs (waiting left)
    → Splits max_payload (left ++ more) gs u
    → Splits max_payload (all ++ more) (fs ++ gs) u
Splits-append more (part_header all h) s = s
Splits-append more (part_body all g f h) s = s
Splits-append more (frame all g f e r) s = rw (← take-append_le (4 + declared all) all more e) (
    rw (← declared-append all more g) (
      frame (all ++ more) (omega (arith, length-append all more))
        (rw (declared-append all more g) f)
        (rw (declared-append all more g) (omega (arith, length-append all more)))
        (rw (declared-append all more g)
          (rw (drop-append_le (4 + declared all) all more e) (Splits-append more r s)))))

Splits-append_refused :
    {max_payload : ℕ} {all : List ℕ} {fs : List CompanionFrame} (more : List ℕ)
    → Splits max_payload all fs refused
    → Splits max_payload (all ++ more) fs refused
Splits-append_refused more (oversized all g b) =
    oversized (all ++ more) (omega (arith, length-append all more))
      (rw (declared-append all more g) b)
Splits-append_refused more (frame all g f e r) =
    rw (← take-append_le (4 + declared all) all more e) (
      rw (← declared-append all more g) (
        frame (all ++ more) (omega (arith, length-append all more))
          (rw (declared-append all more g) f)
          (rw (declared-append all more g) (omega (arith, length-append all more)))
          (rw (declared-append all more g)
            (rw (drop-append_le (4 + declared all) all more e) (Splits-append_refused more r)))))

-- A valid parser is determined by its bound and by what it holds.
IsValid-unique :
    (p q : FrameParser)
    → IsValid p
    → IsValid q
    → p.max_payload ≡ q.max_payload
    → p.buffer ≡ q.buffer
    → p ≡ q
IsValid-unique p q v w m b = go v w
  where
    go : IsValid p → IsValid q → p ≡ q
    go (in_header e _) (in_header f _) = cc
    go (in_header _ h) (in_body g _ _ _) = absurd (omega (arith, ap length b))
    go (in_body g _ _ _) (in_header _ h) = absurd (omega (arith, ap length b))
    go (in_body _ _ e _) (in_body _ _ f _) = cc (ap declared b)

waiting-injective : {a b : List ℕ} → waiting a ≡ waiting b → a ≡ b
waiting-injective e = cc

not-unfinished :
    {max_payload : ℕ} {all : List ℕ} {fs : List CompanionFrame} {t : Tail}
    → Splits max_payload all fs t
    → t ≢ unfinished
not-unfinished (part_header all h) = λ e. cc
not-unfinished (part_body all g f h) = λ e. cc
not-unfinished (oversized all g b) = λ e. cc
not-unfinished (frame all g f e s) = not-unfinished s

-- There is one right result on given bytes.
pub Reads-unique :
    (max_payload : ℕ) (all : List ℕ) (r t : Fed)
    → Reads max_payload all r
    → Reads max_payload all t
    → r ≡ t
Reads-unique max_payload all (fs, o, p) (gs, u, q) (s, v, m, c) (s', w, n, d) =
    let (f, e) = Splits-unique s s' in go o u s s' c d e f
  where
    go :
        (o u : Outcome)
        → Splits max_payload all fs (tail_of o p)
        → Splits max_payload all gs (tail_of u q)
        → ClearedIf o p
        → ClearedIf u q
        → tail_of o p ≡ tail_of u q
        → fs ≡ gs
        → ◌≡◌ {A = Fed} (fs, o, p) (gs, u, q)
    go finished finished s s' c d e f =
        cc (IsValid-unique p q v w (m ∙ sym n) (waiting-injective e))
    go finished too_large s s' c d e f = cc
    go too_large finished s s' c d e f = cc
    go too_large too_large s s' c d e f = cc
    go out_of_fuel u s s' c d e f = absurd (not-unfinished s refl)
    go finished out_of_fuel s s' c d e f = absurd (not-unfinished s' refl)
    go too_large out_of_fuel s s' c d e f = absurd (not-unfinished s' refl)

-- Feed more bytes to the parser that a read without an error left behind.
abbrev pub resume : Fed → List ℕ → Fed
resume (frames, finished, p) more =
    let (later, outcome, q) = feed p more in (frames ++ later, outcome, q)
resume (frames, too_large, p) more = (frames, too_large, p)
resume (frames, out_of_fuel, p) more = (frames, out_of_fuel, p)

resume-Reads :
    (max_payload : ℕ) (all : List ℕ) (r : Fed) (more : List ℕ)
    → Reads max_payload all r
    → Reads max_payload (all ++ more) (resume r more)
resume-Reads max_payload all (fs, finished, p) more (s, v, m, c) =
    let (s', w, n, d) = feed-Reads p more v in
    (
      Splits-append more s (
          subst
            (λ (k : ℕ).
              Splits k (p.buffer ++ more) (feed p more).0 (tail_of (feed p more).1 (feed p more).2))
            m s'),
      w,
      n ∙ m,
      d,
    )
resume-Reads max_payload all (fs, too_large, p) more (s, v, m, c) =
    (Splits-append_refused more s, v, m, c)
resume-Reads max_payload all (fs, out_of_fuel, p) more (s, v, m, c) = absurd (not-unfinished s refl)

-- Cutting a stream into two reads changes nothing: a valid parser that reads `a ++ b` at once yields
-- the frames, ends with the outcome and is left in the state of reading `a` and then, if that raised
-- no FrameTooLarge, `b`.
pub feed-append :
    (p : FrameParser) (a b : List ℕ) → IsValid p → feed p (a ++ b) ≡ resume (feed p a) b
feed-append p a b v =
    Reads-unique p.max_payload (p.buffer ++ (a ++ b)) (feed p (a ++ b)) (resume (feed p a) b)
      (feed-Reads p (a ++ b) v)
      (subst (λ all. Reads p.max_payload all (resume (feed p a) b)) (append_assoc p.buffer a b)
        (resume-Reads p.max_payload (p.buffer ++ a) (feed p a) b (feed-Reads p a v)))
