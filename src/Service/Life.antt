-- ===== src/Service/Life.antt =====
-- `connection_made`, `connection_lost` and `_teardown_connection` of appletv.py.
use atvr4samsung.Common.{Bool, true, false, Option, none, some, ltb, if◌then◌else◌}
use atvr4samsung.Framing
use atvr4samsung.Guardrails.{ConnectionAdmission, Reason, acquire, release}
use atvr4samsung.Auth.{Auth, reset_authentication_state}
use atvr4samsung.Service.{Service, Handlers, no_transport, connected, closing}

-- `reset_authentication_state` with the cipher that the service drops beside it.
abbrev pub dropped_auth : Bool → Auth → Auth
dropped_auth connection_closed a = record (reset_authentication_state connection_closed a) {
  cipher = none;
}

module _ {D : Type 0} where
  abbrev pub admit : Handlers D → Service D → Service D
  admit h s = record s {
    admitted = true;
    session = if h.is_closed s.session then h.create else h.attach s.session;
    registered = true;
    deadline = if ltb 0 s.timeout then true else s.deadline;
  }

  abbrev pub admit_unless : Handlers D → Service D → ConnectionAdmission × Option Reason → Service D
  admit_unless h s (a, none) = admit h (record s { admission = some a })
  admit_unless h s (a, some reason) = record s { admission = some a; transport = closing }

  abbrev pub ask_admission : Handlers D → Service D → Option ConnectionAdmission → Service D
  ask_admission h s none = admit h s
  ask_admission h s (some a) = admit_unless h s (acquire a s.connection)

  -- `connection_made`
  unfoldable pub connection_made : Handlers D → Service D → Service D
  connection_made h s =
      ask_admission h
        (record s {
          transport = connected;
          chacha = none;
          auth = dropped_auth false s.auth;
          parser = Framing.clear s.parser;
          malformed_frames = 0;
          connection_closed = false;
        })
        s.admission

  abbrev pub released : Service D → Option ConnectionAdmission
  released s = elim s.admission [ none ↦ none | some a ↦ some (release a s.connection) ]

  -- `_teardown_connection`: whether there was something to tear down.
  unfoldable pub teardown_connection : Handlers D → Service D → Service D × Bool
  teardown_connection h s = if s.connection_closed then (s, false) else (
    record s {
      connection_closed = true;
      deadline = false;
      admission = released s;
      parser = Framing.clear s.parser;
      registered = false;
      session = h.detach s.session;
      transport = no_transport;
      chacha = none;
      auth = dropped_auth true s.auth;
      admitted = false;
    },
    true,
  )

  abbrev pub connection_lost : Handlers D → Service D → Service D
  connection_lost h s = (teardown_connection h s).0
