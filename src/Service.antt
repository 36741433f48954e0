-- ===== src/Service.antt =====
-- src/atvr4samsung/companion/protocol/appletv.py: `FakeCompanionService`, one connection of the Companion
-- server, over its parser, its authentication, its cipher and the OPACK codec.
pub mod Wire
pub mod Frames
pub mod Life
pub mod Outcome
pub mod Command
pub mod Commanded
pub mod Sends
pub mod Link
pub mod Guard
mod Tests
use atvr4samsung.Common.{
  ℕ, zero, suc, ◌+◌, Bool, true, false, not, ◌&&◌, ◌||◌, List, [], ◌∷◌, ◌++◌, Option, none, some,
  leb, if◌then◌else◌,
}
use atvr4samsung.Framing
use atvr4samsung.Framing.{FrameParser, max_wire_payload, new_parser}
use atvr4samsung.Guardrails
use atvr4samsung.Guardrails.{ConnectionAdmission}
use atvr4samsung.Cipher.{Cipher, Aead}
use atvr4samsung.Auth.{Auth, Env, new_auth}
use atvr4samsung.Opack.{Runtime, Value}

-- `transport`: None, a transport, and one that was told to close.
pub data Transport : Type 0 where
  no_transport connected closing : Transport

-- The connection with its session state D. `connection` is its name in the admission, which all
-- connections share; `clients` tells whether the device state lists it.
pub record Service (D : Type 0) : Type 0 where
  pub connection : ℕ
  pub session : D
  pub parser : FrameParser
  pub auth : Auth
  pub chacha : Option Cipher
  pub transport : Transport
  pub admission : Option ConnectionAdmission
  pub timeout : ℕ
  pub deadline : Bool
  pub admitted : Bool
  pub malformed_frames : ℕ
  pub connection_closed : Bool
  pub registered : Bool
  -- what the transport was given to write, oldest first
  pub written : List (List ℕ)

-- The session's operations and the methods `handle_…` by their names. A method that raises leaves the
-- connection as it had made it.
pub record Handlers (D : Type 0) : Type 0 where
  pub create : D
  pub is_closed : D → Bool
  pub attach : D → D
  pub detach : D → D
  pub find : List ℕ → Option (Value → Service D → Service D × Bool)

-- The world around a frame: what the library, the stores and the clock answer while it is handled.
-- `authorizes` is none where the store raises; `lower` is `str.lower`.
pub record World : Type 0 where
  pub auth : Env
  pub aead : Aead
  pub runtime : Runtime
  pub authorizes : List ℕ → List ℕ → Option Bool
  pub lower : List ℕ → List ℕ

abbrev pub malformed_frame_limit : ℕ
malformed_frame_limit = 3

abbrev pub new_service : {D : Type 0} → ℕ → Option ConnectionAdmission → ℕ → D → Service D
new_service connection admission timeout session = record {
  connection = connection;
  session = session;
  parser = new_parser max_wire_payload;
  auth = new_auth;
  chacha = none;
  transport = no_transport;
  admission = admission;
  timeout = timeout;
  deadline = false;
  admitted = false;
  malformed_frames = 0;
  connection_closed = false;
  registered = false;
  written = [];
}

abbrev pub is_some {ℓ} : {A : Type ℓ} → Option A → Bool
is_some none = false
is_some (some a) = true

abbrev pub is_open : Transport → Bool
is_open connected = true
is_open _ = false

-- `transport is None or not transport.is_closing()`
abbrev pub not_closing : Transport → Bool
not_closing closing = false
not_closing _ = true

-- `transport.close()`, where there is a transport.
abbrev pub close : Transport → Transport
close no_transport = no_transport
close _ = closing

module _ {D : Type 0} where
  -- `_is_connection_active`
  abbrev pub is_connection_active : Service D → Bool
  is_connection_active s = not s.connection_closed && s.admitted && is_open s.transport

  -- `_close_connection`
  abbrev pub close_connection : Service D → Service D
  close_connection s = record s { parser = Framing.clear s.parser; transport = close s.transport }

  -- `_malformed_frame`: whether the connection goes on.
  unfoldable pub malformed_frame : Service D → Service D × Bool
  malformed_frame s =
      if leb malformed_frame_limit (suc s.malformed_frames)
      then (close_connection (record s { malformed_frames = suc s.malformed_frames }), false)
      else (record s { malformed_frames = suc s.malformed_frames }, true)

  abbrev pub admission_authenticated : Service D → Option ConnectionAdmission
  admission_authenticated s = elim s.admission [
    | none ↦ none
    | some a ↦ some (Guardrails.authenticated a s.connection)
  ]

  -- `_authentication_timed_out`
  abbrev pub authentication_timed_out : Service D → Service D
  authentication_timed_out s =
      if is_some s.chacha
      then record s { deadline = false }
      else close_connection (record s { deadline = false })
