-- ===== src/Relay/Balance.antt =====
-- The repeats that the relay starts and stops.
pub mod Touch
use mathlib.Core.Path.{subst}
use Prim.Native.String.{String}
use atvr4samsung.Common.{
  ℕ, ◌+◌, ◌≡◌, refl, sym, ap, ◌∙◌, Bool, true, false, not, ◌&&◌, List, [], ◌∷◌, Option, none, some,
  ltb, leb, ◌==◌, if◌then◌else◌, arith, max, ==_iff,
}
use atvr4samsung.Common.Int.{ℤ, ◌-ℤ◌, abs, is_pos}
use atvr4samsung.Bridge.Keymap.{
  Action, send_key, send_text, power_off, wake_on_lan, unmapped, Mapping, resolve, Direction,
  swipe_up, swipe_down, swipe_left, swipe_right, tap, gesture_to_samsung,
}
use atvr4samsung.Bridge.Gestures.{
  TouchAction, press, hold, release, click, other, SwipeTranslator, Track, apply_inversion,
  current_direction, feed, dominant_direction, direction_of, GestureConfig,
}
use atvr4samsung.Relay.{
  Clock, Relay, Command, RepeatPhase, start, stop, button, gesture, emit, emit_as, send,
  send_select, read_clock, is_enter, is_release, button_command, emit_mapping, on_button,
  gesture_command, emit_gestures, stop_hold, end_hold_if_active, reset_hold_state, begin_hold,
  dwell, hold_at, since_of, direction_code, update_hold, feed_swipe, end_gesture, finish_gesture,
  touch_with_hold, on_touch, is_tap,
}

-- The commands, newest first, in which each START for a direction is followed by the STOP for it
-- before the next START, and no STOP comes without; with the direction that is still repeating.
pub data Balanced : List Command → Option Direction → Type 0 where
  empty : Balanced [] none
  single :
      {cs : List Command} {d : Option Direction} (c : Command)
      → c.repeat ≡ none
      → Balanced cs d
      → Balanced (c ∷ cs) d
  started :
      {cs : List Command} (d : Direction)
      → Balanced cs none
      → Balanced (gesture_command (some start) true d ∷ cs) (some d)
  stopped :
      {cs : List Command} (d : Direction)
      → Balanced cs (some d)
      → Balanced (gesture_command (some stop) false d ∷ cs) none

abbrev pub is_swipe : Direction → Bool
is_swipe tap = false
is_swipe _ = true

-- The direction under observation is no tap; it is repeating exactly while the hold is active.
pub data Holding : Bool → Option Direction → List Command → Type 0 where
  at_rest : {cs : List Command} → Balanced cs none → Holding false none cs
  waiting :
      {cs : List Command} (d : Direction)
      → is_swipe d ≡ true
      → Balanced cs none
      → Holding false (some d) cs
  repeating :
      {cs : List Command} (d : Direction)
      → is_swipe d ≡ true
      → Balanced cs (some d)
      → Holding true (some d) cs

abbrev pub IsBalanced : Relay → Type 0
IsBalanced r = Holding r.hold_active r.hold_dir r.sent

single-Holding :
    {active : Bool} {d : Option Direction} {cs : List Command} (c : Command)
    → c.repeat ≡ none
    → Holding active d cs
    → Holding active d (c ∷ cs)
single-Holding c e (at_rest b) = at_rest (single c e b)
single-Holding c e (waiting d s b) = waiting d s (single c e b)
single-Holding c e (repeating d s b) = repeating d s (single c e b)

-- A key of a swipe is not KEY_ENTER, so the de-dupe never drops a START or a STOP.
is_enter-swipe :
    (d : Direction) → is_swipe d ≡ true → is_enter (some (gesture_to_samsung d)) ≡ false
unfolding is_enter gesture_to_samsung
is_enter-swipe swipe_up e = refl
is_enter-swipe swipe_down e = refl
is_enter-swipe swipe_left e = refl
is_enter-swipe swipe_right e = refl
is_enter-swipe tap e = absurd (ground arith)

pub emit-repeat :
    (clock : Clock) (p : RepeatPhase) (fast : Bool) (d : Direction) (r : Relay)
    → is_swipe d ≡ true
    → emit clock (gesture_command (some p) fast d) r ≡ send (gesture_command (some p) fast d) r
unfolding emit
emit-repeat clock p fast d r e =
    ap (λ b. emit_as b clock (gesture_command (some p) fast d) r) (is_enter-swipe d e)

emit-IsBalanced :
    (clock : Clock) (c : Command) (r : Relay)
    → c.repeat ≡ none
    → IsBalanced r
    → IsBalanced (emit clock c r)
unfolding emit
emit-IsBalanced clock c r e h = dispatched (is_enter c.samsung_key)
  where
    selected : (t : Bool) (now : ℕ) → IsBalanced (send_select t now c (read_clock r))
    selected true now = h
    selected false now = single-Holding c e h

    dispatched : (t : Bool) → IsBalanced (emit_as t clock c r)
    dispatched false = single-Holding c e h
    dispatched true =
        selected (ltb (clock r.reads) (r.last_select_ms + r.select_dedupe_ms)) (clock r.reads)

pub emit_gestures-IsBalanced :
    (clock : Clock) (ds : List Direction) (r : Relay)
    → IsBalanced r
    → IsBalanced (emit_gestures clock ds r)
unfolding emit_gestures
emit_gestures-IsBalanced clock [] r h = h
emit_gestures-IsBalanced clock (d ∷ ds) r h =
    emit_gestures-IsBalanced clock ds (emit clock (gesture_command none false d) r)
      (emit-IsBalanced clock (gesture_command none false d) r refl h)

pub on_button-IsBalanced :
    (clock : Clock) (hid_code button_state : ℕ) (r : Relay)
    → IsBalanced r
    → IsBalanced (on_button clock hid_code button_state r)
unfolding on_button
on_button-IsBalanced clock hid_code state r h = released (is_release state)
  where
    mapped_to : (a : Action) → IsBalanced (emit_mapping clock hid_code (resolve hid_code) a r)
    mapped_to unmapped = h
    mapped_to send_key = emit-IsBalanced clock (button_command hid_code (resolve hid_code)) r refl h
    mapped_to send_text =
        emit-IsBalanced clock (button_command hid_code (resolve hid_code)) r refl h
    mapped_to power_off =
        emit-IsBalanced clock (button_command hid_code (resolve hid_code)) r refl h
    mapped_to wake_on_lan =
        emit-IsBalanced clock (button_command hid_code (resolve hid_code)) r refl h

    released :
        (t : Bool)
        → IsBalanced (
            if t
            then emit_mapping clock hid_code (resolve hid_code) (resolve hid_code).action r
            else r)
    released true = mapped_to (resolve hid_code).action
    released false = h

-- Behind `_end_hold_if_active`, nothing repeats.
abbrev pub AtRest : Relay → Type 0
AtRest r = (r.hold_active ≡ false) × Balanced r.sent none

pub end_hold-AtRest :
    (clock : Clock) (r : Relay) → IsBalanced r → AtRest (end_hold_if_active clock r)
unfolding end_hold_if_active
end_hold-AtRest clock r h = ended r.hold_active r.hold_dir h
  where
    ended :
        (active : Bool) (d : Option Direction)
        → Holding active d r.sent
        → AtRest (record (stop_hold clock active d r) { hold_active = false })
    ended _ _ (at_rest b) = (refl, b)
    ended _ _ (waiting d s b) = (refl, b)
    ended _ _ (repeating d s b) = (
      refl,
      subst (λ q. Balanced q.sent none) (sym (emit-repeat clock stop false d r s)) (stopped d b),
    )
