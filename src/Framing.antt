-- ===== src/Framing.antt =====
-- src/atvr4samsung/companion/protocol/framing.py: the incremental parser of Companion frames.
-- `feed` is a generator: the model returns the frames that it yields, and how it ends. The part of
-- `incoming` from `position` on is the list of the bytes left.
pub mod Round
pub mod Stream
mod Tests
use atvr4samsung.Common.{
  ℕ, zero, suc, ◌+◌, ◌-◌, min, List, [], ◌∷◌, ◌++◌, Option, none, some, length, take, drop, ltb,
  if◌then◌else◌,
}
use atvr4samsung.Common.Bytes.{from_be}

abbrev pub max_application_payload : ℕ
max_application_payload = 1048576

abbrev pub max_wire_payload : ℕ
max_wire_payload = max_application_payload + 16

abbrev pub frame_header_size : ℕ
frame_header_size = 4

pub record CompanionFrame : Type 0 where
  pub header : List ℕ
  pub payload : List ℕ

pub record FrameParser : Type 0 where
  pub max_payload : ℕ
  pub buffer : List ℕ
  pub frame_size : Option ℕ

-- `__init__`; a `max_payload` is a natural number here, so its check never fails.
abbrev pub new_parser : ℕ → FrameParser
new_parser max_payload = record { max_payload = max_payload; buffer = []; frame_size = none }

pub buffered_bytes : FrameParser → ℕ
buffered_bytes p = length p.buffer

unfoldable pub clear : FrameParser → FrameParser
clear p = record p { buffer = []; frame_size = none }

-- `_take`: the parser and the bytes left. `-` stops at 0; `Round` shows that `buffer` never holds
-- more than `target_size` bytes.
unfoldable pub take_bytes : FrameParser → List ℕ → ℕ → FrameParser × List ℕ
take_bytes p incoming target_size =
    let missing = target_size - length p.buffer in
    let n = min missing (length incoming) in
    (record p { buffer = p.buffer ++ take n incoming }, drop n incoming)

-- `int.from_bytes(self._buffer[1:4], byteorder="big")`
unfoldable pub declared : List ℕ → ℕ
declared buffer = from_be 0 (take 3 (drop 1 buffer))

pub data Outcome : Type 0 where
  finished too_large out_of_fuel : Outcome

-- What the block `if self._frame_size is None` does: it ends `feed`, or goes on to the body.
pub data Begun : Type 0 where
  stop : Outcome → FrameParser → Begun
  proceed : FrameParser → List ℕ → ℕ → Begun

unfoldable pub size_frame : FrameParser → List ℕ → Begun
size_frame p incoming =
    let payload_size = declared p.buffer in
    if ltb p.max_payload payload_size
    then stop too_large (clear p)
    else proceed (record p { frame_size = some (frame_header_size + payload_size) }) incoming
        (frame_header_size + payload_size)

unfoldable pub begin_header : FrameParser → List ℕ → Begun
unfolding size_frame
begin_header p incoming =
    let (q, left) = take_bytes p incoming frame_header_size in
    if ltb (length q.buffer) frame_header_size then stop finished q else size_frame q left

unfoldable pub begin_frame : Option ℕ → FrameParser → List ℕ → Begun
begin_frame none p incoming = begin_header p incoming
begin_frame (some size) p incoming = proceed p incoming size

abbrev pub Fed : Type 0
Fed = List CompanionFrame × Outcome × FrameParser

abbrev pub yield : CompanionFrame → Fed → Fed
yield frame (frames, outcome, p) = (frame ∷ frames, outcome, p)

abbrev pub frame_of : List ℕ → CompanionFrame
frame_of frame = record {
  header = take frame_header_size frame;
  payload = drop frame_header_size frame;
}

-- The rest of the loop's body, with the next rounds as a function.
unfoldable pub end_frame : FrameParser → List ℕ → ℕ → (FrameParser → List ℕ → Fed) → Fed
end_frame p incoming size next =
    let (q, left) = take_bytes p incoming size in
    if ltb (length q.buffer) size
    then ([], finished, q)
    else yield (frame_of q.buffer) (next (clear q) left)

unfoldable pub feed_loop : ℕ → FrameParser → List ℕ → Fed
feed_loop fuel p [] = ([], finished, p)
feed_loop zero p (b ∷ bs) = ([], out_of_fuel, p)
feed_loop (suc fuel) p (b ∷ bs) = elim (begin_frame p.frame_size p (b ∷ bs)) [
  | stop outcome q ↦ ([], outcome, q)
  | proceed q left size ↦ end_frame q left size (feed_loop fuel)
]

-- Each round takes a byte at least.
unfoldable pub feed : FrameParser → List ℕ → Fed
unfolding feed_loop
feed p data' = feed_loop (length data') p data'
