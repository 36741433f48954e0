-- ===== src/Framing/Round.antt =====
-- One round of `feed`, over the bytes that the parser holds and those that come in, together.
use mathlib.Core.Path.{subst}
use atvr4samsung.Common.{
  ℕ, zero, suc, ◌+◌, ◌-◌, ◌≤◌, ◌<◌, ◌≡◌, refl, sym, ap, ◌∙◌, List, [], ◌∷◌, ◌++◌, Option, none,
  some, arith, length, take, drop, ltb, if◌then◌else◌, take-min, drop-min, take-append_ge,
  drop-append_ge, length-take, length-append, take-append, take-append-drop, take-take, take_all,
  lt→ltb, le→ltb,
}
use atvr4samsung.Common.Bytes.{from_be}
use atvr4samsung.Framing.{
  FrameParser, new_parser, take_bytes, declared, Fed, yield, frame_of, Begun, stop, proceed,
  finished, too_large, clear, end_frame, begin_header, size_frame, feed_loop, begin_frame,
}
use native.Mathlib.Decide.{dec_lt}

-- Between two calls: an incomplete header, or an incomplete frame whose size is known and allowed.
pub data IsValid (p : FrameParser) : Type 0 where
  in_header : p.frame_size ≡ none → length p.buffer < 4 → IsValid p
  in_body :
      4 ≤ length p.buffer
      → declared p.buffer ≤ p.max_payload
      → p.frame_size ≡ some (4 + declared p.buffer)
      → length p.buffer < 4 + declared p.buffer
      → IsValid p

abbrev pub parser_of : ℕ → List ℕ → Option ℕ → FrameParser
parser_of max_payload held size = record {
  max_payload = max_payload;
  buffer = held;
  frame_size = size;
}

take_bytes_lem :
    (max_payload : ℕ) (held incoming : List ℕ) (size : Option ℕ) (target : ℕ)
    → length held ≤ target
    → take_bytes (parser_of max_payload held size) incoming target ≡ (
      parser_of max_payload (take target (held ++ incoming)) size,
      drop target (held ++ incoming),
    )
unfolding take_bytes
take_bytes_lem max_payload held incoming size target h =
    rw (take-min (target - length held) incoming) (
      rw (drop-min (target - length held) incoming)
        (rw (take-append_ge target held incoming h) (rw (drop-append_ge target held incoming h))))

-- The declared size is in the first four bytes.
declared-take : (n : ℕ) (bytes : List ℕ) → 4 ≤ n → declared (take n bytes) ≡ declared bytes
unfolding declared
declared-take zero bytes h = absurd (omega arith)
declared-take (suc n) [] h = refl
declared-take (suc n) (b ∷ bytes) h = ap (from_be 0) (take-take 3 n bytes (omega arith))

-- What a round does with all the bytes, where it can be decided from them.
abbrev pub round : ℕ → List ℕ → (List ℕ → Fed) → Fed
round max_payload all next =
    let size = 4 + declared all in
    if ltb (length all) 4
    then ([], finished, record { max_payload = max_payload; buffer = all; frame_size = none })
    else if ltb max_payload (declared all)
    then ([], too_large, new_parser max_payload)
    else if ltb (length all) size
    then ([], finished, record { max_payload = max_payload; buffer = all; frame_size = some size })
    else yield (frame_of (take size all)) (next (drop size all))

-- The body over all the bytes, once the size is known.
abbrev body : ℕ → ℕ → List ℕ → (List ℕ → Fed) → Fed
body max_payload size all next =
    if ltb (length all) size
    then ([], finished, record { max_payload = max_payload; buffer = all; frame_size = some size })
    else yield (frame_of (take size all)) (next (drop size all))

abbrev after : Begun → (FrameParser → List ℕ → Fed) → Fed
after begun next = elim begun [
  | stop outcome q ↦ ([], outcome, q)
  | proceed q left size ↦ end_frame q left size next
]

end_frame_lem :
    (max_payload size : ℕ) (held incoming : List ℕ) (next : FrameParser → List ℕ → Fed)
    → length held ≤ size
    → end_frame (parser_of max_payload held (some size)) incoming size next
      ≡ body max_payload size (held ++ incoming) (next (new_parser max_payload))
unfolding end_frame clear
end_frame_lem max_payload size held incoming next h =
    rw (take_bytes_lem max_payload held incoming (some size) size h)
      (elim (dec_lt (length (held ++ incoming)) size) [
        | yes short ↦ rw (take_all size (held ++ incoming) (omega arith)) (rw (lt→ltb _ size short))
        | no enough ↦ rw (le→ltb (length (held ++ incoming)) size (omega arith)) (
            rw (
              le→ltb (length (take size (held ++ incoming))) size
                (omega (arith, length-take size (held ++ incoming)))))
      ])

size_frame_lem :
    (max_payload : ℕ) (held left : List ℕ) (next : FrameParser → List ℕ → Fed)
    → length held ≤ 4
    → declared held ≡ declared (held ++ left)
    → 4 ≤ length (held ++ left)
    → after (size_frame (parser_of max_payload held none) left) next
      ≡ round max_payload (held ++ left) (next (new_parser max_payload))
unfolding size_frame clear
size_frame_lem max_payload held left next h e g = rw e (
    rw (le→ltb (length (held ++ left)) 4 g) (elim (dec_lt max_payload (declared (held ++ left))) [
      | yes big ↦ rw (lt→ltb max_payload (declared (held ++ left)) big)
      | no fits ↦
          rw (le→ltb max_payload (declared (held ++ left)) (omega arith))
            (end_frame_lem max_payload (4 + declared (held ++ left)) held left next (omega arith))
    ]))

begin_header_lem :
    (max_payload : ℕ) (held incoming : List ℕ) (next : FrameParser → List ℕ → Fed)
    → length held < 4
    → after (begin_header (parser_of max_payload held none) incoming) next
      ≡ round max_payload (held ++ incoming) (next (new_parser max_payload))
unfolding begin_header
begin_header_lem max_payload held incoming next h =
    rw (take_bytes_lem max_payload held incoming none 4 (omega arith))
      (elim (dec_lt (length (held ++ incoming)) 4) [
        | yes short ↦
            rw (take_all 4 (held ++ incoming) (omega arith))
              (rw (lt→ltb (length (held ++ incoming)) 4 short))
        | no enough ↦
            rw
              (le→ltb (length (take 4 (held ++ incoming))) 4
                (omega (arith, length-take 4 (held ++ incoming))))
              (subst
                (λ all.
                  after
                    (size_frame (parser_of max_payload (take 4 (held ++ incoming)) none)
                      (drop 4 (held ++ incoming)))
                    next
                  ≡ round max_payload all (next (new_parser max_payload)))
                (take-append-drop 4 (held ++ incoming))
                (size_frame_lem max_payload (take 4 (held ++ incoming)) (drop 4 (held ++ incoming))
                  next (omega (arith, length-take 4 (held ++ incoming)))
                  (rw (take-append-drop 4 (held ++ incoming))
                    (declared-take 4 (held ++ incoming) (omega arith)))
                  (rw (take-append-drop 4 (held ++ incoming)) (omega arith))))
      ])

pub declared-append :
    (held incoming : List ℕ) → 4 ≤ length held → declared (held ++ incoming) ≡ declared held
declared-append held incoming h =
    sym (declared-take (length held) (held ++ incoming) h)
    ∙ ap declared (take-append (length held) held incoming refl)

-- From a valid state, one round of the loop is `round` over the held and the incoming bytes.
pub feed_loop-round :
    (fuel : ℕ) (p : FrameParser) (b : ℕ) (bs : List ℕ)
    → IsValid p
    → feed_loop (suc fuel) p (b ∷ bs)
      ≡ round p.max_payload (p.buffer ++ (b ∷ bs)) (feed_loop fuel (new_parser p.max_payload))
unfolding feed_loop begin_frame
feed_loop-round fuel p b bs (in_header e h) =
    ap
      (λ size.
        after (begin_frame size (parser_of p.max_payload p.buffer size) (b ∷ bs)) (feed_loop fuel))
      e
    ∙ begin_header_lem p.max_payload p.buffer (b ∷ bs) (feed_loop fuel) h
feed_loop-round fuel p b bs (in_body g fits e h) =
    ap
      (λ size.
        after (begin_frame size (parser_of p.max_payload p.buffer size) (b ∷ bs)) (feed_loop fuel))
      e
    ∙ end_frame_lem p.max_payload (4 + declared p.buffer) p.buffer (b ∷ bs) (feed_loop fuel)
        (omega arith)
    ∙ rw (declared-append p.buffer (b ∷ bs) g) (
        rw
          (le→ltb (length (p.buffer ++ (b ∷ bs))) 4
            (omega (arith, length-append p.buffer (b ∷ bs))))
          (rw (le→ltb p.max_payload (declared p.buffer) fits)))
