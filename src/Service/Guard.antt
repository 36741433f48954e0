-- ===== src/Service/Guard.antt =====
-- What a frame cannot do: the session is reached only through the cipher and the paired client's
-- authorization, and a connection that ended handles nothing more.
use atvr4samsung.Common.{
  ℕ, suc, ◌≡◌, refl, ◌∙◌, Bool, true, false, ◌&&◌, leb, List, [], ◌∷◌, ◌⊎◌, arith, if◌then◌else◌,
  inl, inr,
}
use atvr4samsung.Framing.{CompanionFrame, Outcome, finished, too_large, out_of_fuel, feed}
use atvr4samsung.Service.{
  Service, Handlers, World, Transport, no_transport, connected, closing, is_some, is_open, close,
  not_closing, is_connection_active, close_connection, malformed_frame, malformed_frame_limit,
}
use atvr4samsung.Service.Frames.{
  verified_client_is_authorized, refuse, handle_frame, handle_frames, received, data_received,
}
use atvr4samsung.Service.Sends.{session-authenticate, session-malformed_frame, session-Opened}
use atvr4samsung.Service.Outcome.{
  Opened, Became, same, unopened, read, answered, ran, authenticated, Ended, ends, tolerates,
  continues, handle_frame-Ended,
}

module _ {D : Type 0} where
  abbrev pub EndsTransport : Service D × Bool → Type 0
  EndsTransport r = r.1 ≡ false → is_open r.0.transport ≡ false

  refuse-stops : (s : Service D) → is_open (refuse s).0.transport ≡ false
  refuse-stops s = closed s.transport
    where
      closed : (t : Transport) → is_open (close t) ≡ false
      closed no_transport = refl
      closed connected = refl
      closed closing = refl

  malformed_frame-stops : (s : Service D) → EndsTransport (malformed_frame s)
  unfolding malformed_frame
  malformed_frame-stops s = over (leb malformed_frame_limit (suc s.malformed_frames))
    where
      over :
          (t : Bool)
          → EndsTransport (
              if t
              then (
                close_connection (record s { malformed_frames = suc s.malformed_frames }),
                false,
              )
              else (record s { malformed_frames = suc s.malformed_frames }, true))
      over true = λ e. refuse-stops (record s { malformed_frames = suc s.malformed_frames })
      over false = λ e. absurd (ground arith)

  Ended-stops :
      (h : Handlers D) (world : World) (frame : CompanionFrame) (s : Service D)
      (r : Service D × Bool)
      → Ended h world frame s r
      → EndsTransport r
  Ended-stops h world frame s _ (ends t b) e = refuse-stops t
  Ended-stops h world frame s _ (tolerates t b) e = malformed_frame-stops t e
  Ended-stops h world frame s _ (continues t b) e = closed t.transport e
    where
      closed : (t : Transport) → not_closing t ≡ false → is_open t ≡ false
      closed no_transport e = refl
      closed connected e = absurd (ground arith)
      closed closing e = refl

  module _ (h : Handlers D) where
    handle_frames-stops :
        (world : ℕ → World) (frames : List CompanionFrame) (s : Service D)
        → EndsTransport (handle_frames h world frames s)
    unfolding handle_frames
    handle_frames-stops world [] s = λ e. absurd (ground arith)
    handle_frames-stops world (frame ∷ frames) s =
        next (handle_frame h (world 0) frame s)
          (Ended-stops h _ _ _ _ (handle_frame-Ended h (world 0) frame s))
          (handle_frames-stops (λ n. world (suc n)) frames)
      where
        next :
            (r : Service D × Bool)
            → EndsTransport r
            → ((t : Service D) → EndsTransport (handle_frames h (λ n. world (suc n)) frames t))
            → EndsTransport (elim r.1 [
              | true ↦ handle_frames h (λ n. world (suc n)) frames r.0
              | false ↦ (r.0, false)
            ])
        next (t, true) c rest = rest t
        next (t, false) c rest = c

    inactive : (s : Service D) → is_open s.transport ≡ false → is_connection_active s ≡ false
    inactive s e = ground (arith)

    -- Where the frames of a chunk end an active connection, or a frame behind them is declared too
    -- large, whatever is received after that chunk changes nothing.
    pub data_received-ended :
        (world later : ℕ → World) (incoming more : List ℕ) (s : Service D)
        → is_connection_active s ≡ true
        → ((feed s.parser incoming).1 ≡ too_large)
          ⊎ ((handle_frames h world
                (feed s.parser incoming).0
                (record s { parser = (feed s.parser incoming).2 })).1
              ≡ false)
        → data_received h later more (data_received h world incoming s)
          ≡ data_received h world incoming s
    unfolding data_received
    data_received-ended world later incoming more s a e =
        let (frames, outcome, parser) = feed s.parser incoming in
        let t = record s { parser = parser } in
        rw a (
          ignored (received outcome (handle_frames h world frames t))
            (over outcome (handle_frames h world frames t) e (handle_frames-stops world frames t)))
      where
        over :
            (outcome : Outcome) (r : Service D × Bool)
            → (outcome ≡ too_large) ⊎ (r.1 ≡ false)
            → EndsTransport r
            → is_open (received outcome r).transport ≡ false
        over too_large (t, true) e c = refuse-stops t
        over too_large (t, false) e c = c refl
        over finished (t, true) (inl e) c = cc
        over finished (t, true) (inr e) c = absurd (ground arith)
        over finished (t, false) e c = c refl
        over out_of_fuel (t, true) (inl e) c = cc
        over out_of_fuel (t, true) (inr e) c = absurd (ground arith)
        over out_of_fuel (t, false) e c = c refl

        ignored : (t : Service D) → is_open t.transport ≡ false → data_received h later more t ≡ t
        ignored t c = rw (inactive t c) refl

    -- The session stays as it is for a frame that comes without a cipher or from a client that the
    -- store does not authorize: no method runs, whatever the frame's type and payload are.
    pub handle_frame-session :
        (world : World) (frame : CompanionFrame) (s : Service D)
        → (is_some s.chacha && verified_client_is_authorized world s.auth) ≡ false
        → (handle_frame h world frame s).0.session ≡ s.session
    handle_frame-session world frame s u = ended _ (handle_frame-Ended h world frame s)
      where
        opened_not : (payload : List ℕ) (t : Service D) → Opened world frame s payload t → ⊥
        opened_not payload t o = ground (arith, session-Opened world frame s t payload o)

        became : (t : Service D) → Became h world frame s t → t.session ≡ s.session
        became _ same = refl
        became _ (unopened c c' k e) = refl
        became t (read payload _ o) = absurd (opened_not payload t o)
        became u' (answered payload v t _ o e) = absurd (opened_not payload t o)
        became _ (ran payload name v handler t o k i e) = absurd (opened_not payload t o)
        became _ (authenticated frame_type v k p) = session-authenticate world frame_type v s

        ended : (r : Service D × Bool) → Ended h world frame s r → r.0.session ≡ s.session
        ended _ (ends t b) = became t b
        ended _ (tolerates t b) = session-malformed_frame t ∙ became t b
        ended _ (continues t b) = became t b
