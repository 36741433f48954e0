-- ===== src/Framing/Tests.antt =====
-- Runs of the parser, and its theorems at concrete streams.
use atvr4samsung.Common.{ℕ, ◌+◌, ◌≡◌, ◌<◌, refl, List, [], ◌∷◌, ◌++◌, none, arith}
use atvr4samsung.Framing.{
  FrameParser, new_parser, feed, finished, too_large, frame_of, buffered_bytes, begin_frame,
  begin_header, take_bytes, declared, end_frame, clear,
}
use atvr4samsung.Common.Bytes.{from_be}
use atvr4samsung.Framing.Round.{IsValid, in_header}
use atvr4samsung.Framing.Stream.{Reads, resume, feed-Reads, feed-append, feed-buffered_bytes}

abbrev small : FrameParser
small = new_parser 3

small-IsValid : IsValid small
small-IsValid = in_header refl (omega arith)

-- A frame of type 8 with two bytes, an empty one of type 1 and the start of a third.
abbrev stream : List ℕ
stream = 8 ∷ 0 ∷ 0 ∷ 2 ∷ 65 ∷ 66 ∷ 1 ∷ 0 ∷ 0 ∷ 0 ∷ 8 ∷ []

feed-stream : feed small stream ≡ (
  frame_of (8 ∷ 0 ∷ 0 ∷ 2 ∷ 65 ∷ 66 ∷ []) ∷ frame_of (1 ∷ 0 ∷ 0 ∷ 0 ∷ []) ∷ [],
  finished,
  record { max_payload = 3; buffer = 8 ∷ []; frame_size = none },
)
unfolding feed begin_frame begin_header take_bytes declared from_be end_frame clear
feed-stream = refl

feed_oversized : feed small (8 ∷ 0 ∷ 0 ∷ 4 ∷ 9 ∷ []) ≡ ([], too_large, small)
unfolding feed begin_frame begin_header take_bytes declared from_be clear
feed_oversized = refl

feed-Reads_example : Reads 3 stream (feed small stream)
feed-Reads_example = feed-Reads small stream small-IsValid

feed-append_example :
    feed small ((8 ∷ 0 ∷ []) ++ (0 ∷ 1 ∷ 7 ∷ []))
    ≡ resume (feed small (8 ∷ 0 ∷ [])) (0 ∷ 1 ∷ 7 ∷ [])
feed-append_example = feed-append small (8 ∷ 0 ∷ []) (0 ∷ 1 ∷ 7 ∷ []) small-IsValid

feed-buffered_bytes_example : buffered_bytes (feed small stream).2 < 4 + 3
feed-buffered_bytes_example = feed-buffered_bytes small stream small-IsValid
