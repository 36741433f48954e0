-- ===== src/Lib.antt =====
-- Verification library of atvr4samsung, a bridge by which the Apple TV Remote of iOS and watchOS
-- controls a Samsung Frame television. An iPhone connects to the Companion server
-- (src/atvr4samsung/companion/protocol), pairs with it (pair-setup under a PIN window, then pair-verify
-- for each connection), and sends its input in encrypted OPACK frames; the relay (companion/relay.py)
-- turns buttons and touches into commands, the dispatch lane runs them one at a time, and the Samsung
-- client sends them to the television.
--
-- The modules, each with the code that it models (paths under src/atvr4samsung of the repository):
--   Common       shared names; lists, bytes and integers over the native numbers
--   Enums        companion/protocol/enums.py and the codes of companion/protocol/tlv8.py
--   Tlv8         companion/protocol/tlv8.py: `read_tlv`, `write_tlv`
--   Framing      companion/protocol/framing.py: `FrameParser`
--   Guardrails   companion/protocol/guardrails.py: `ConnectionAdmission` (Guardrails.Admission),
--                `PairSetupAttemptLimiter` (Guardrails.Setup), `PairFailureLimiter` (Guardrails.Failure)
--   Auth         companion/protocol/auth.py: `CompanionServerAuth`. Auth.Setup and Auth.Verify have the
--                handlers, Auth.Exchange has `handle_auth_frame`; Auth.Outcome and Auth.Ended list the
--                ways in which a handler and a frame can end
--   Cipher       companion/protocol/chacha20.py: `Chacha20Cipher`
--   Opack        companion/protocol/opack.py: `_pack` (Opack.Pack) and `_unpack` (Opack.Unpack)
--   Service      companion/protocol/appletv.py: `FakeCompanionService`. Service.Wire has what is sent,
--                Service.Frames `data_received` and `_handle_frame`, Service.Life the life of a
--                connection; Service.Outcome lists the ways in which a frame can end, and
--                Service.Command says by itself which frames are commands
--   Clients      companion/protocol/paired_clients.py: `PairedClients`. Clients.Calls has the methods; a
--                call looks at the directory at several moments, which other processes may change
--   Enrollment   pairing_window.py: `PairingWindowStore` and the PIN policy; Enrollment.Opening has
--                `open_locked`
--   Bridge       bridge/keymap.py (Bridge.Keymap) and bridge/gestures.py (Bridge.Gestures)
--   Relay        companion/relay.py: `CommandRelay`; Relay.Balance has the repeats
--   Repeater     companion/repeater.py: `HoldRepeater`. Repeater.Generations has the calls and the ends of
--                tasks in any order, Repeater.Rounds the loop of a task
--   Dispatch     companion/dispatch.py: `CommandDispatchLane`. Dispatch.Steps has the calls of the
--                sessions and the turns of the worker as steps, which interleave freely
-- An object's attributes are the fields of a record, and a method is a function from the record before
-- to the record after, with what it returns. A private method `_m1_setup` is called `m1_setup`.
--
-- Time, randomness, cryptography and the stores are not modelled but passed in. The limiters take the
-- time as an argument, in ticks; the relay takes a clock, a function from the number of a reading to
-- its milliseconds. `Auth.Env` holds what the cryptography (X25519, Ed25519, ChaCha20-Poly1305, HKDF,
-- SRP), the window store, the client store and the limiters answer while one frame is handled, each
-- function with none where the call raises; a run of frames has an `Env` of its own for each frame. The
-- messages that are sent are kept as the TLV entries before `write_tlv`. The calls of `mutate_if_current`
-- and, without a window store, of `add` are `Env.commit`. The constant OPACK details of M6 are a field.
--
-- The lane's queue is a list, its futures are numbers with a log of how each one ended, and awaiting a
-- command is the time between the steps `takes` and `finishes`; the worker's wake-up event is left out.
--
-- Numbers: frame sizes and counters are unbounded, as in Python. The fractional times and ratios of the
-- source are whole numbers of a smaller unit: `dominant_ratio` is a fraction with its two parts,
-- volume levels are in units of which `scale` are 100 percent. Loops over bytes take fuel: `read_tlv`
-- and `write_value` one call for each byte, `feed` one round for each byte; each round takes at least
-- one byte, and the entries below show results, not the end of the fuel.
--
-- A connection's session and its methods `handle_…` are the record `Service.Handlers`, which the theorems
-- take as it comes; `Service.World` is what is around one frame. The authentication logs its replies,
-- and `Service.Frames.authenticate` sends them; the field `_pwTy` beside a reply is left out. The object
-- table and the fuel of `unpack` are explicit: two calls for each byte and one more are enough for any
-- data. What `secrets` draws is a list, and a loop that has not ended at the end of the list is
-- `undrawn`. Python's recursion limit is left out: `read_tlv` raises RecursionError on about a thousand
-- fragments, and `_pack` and `_unpack` may on deep data. So is an expiry beyond the range of floats, on
-- which `_parse_window` raises OverflowError.
--
-- Not modelled: the asyncio transport, logging, the CLI, mDNS discovery, the files behind the stores
-- (atomic_io.py, server_identity.py, identity_reset.py, the lock of pairing_state.py), the methods
-- `handle_…` of companion/protocol/appletv.py, and the Samsung client.
pub mod Common
pub mod Auth
pub mod Bridge
pub mod Cipher
pub mod Clients
pub mod Dispatch
pub mod Enrollment
pub mod Enums
pub mod Framing
pub mod Guardrails
pub mod Opack
pub mod Relay
pub mod Repeater
pub mod Service
pub mod Tlv8
