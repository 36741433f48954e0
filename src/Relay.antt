-- ===== src/Relay.antt =====
-- src/atvr4samsung/companion/relay.py: decoded input to commands for the television.
-- Times are whole milliseconds, so `now - since >= x` is written `since + x ≤ now`. The clock is a
-- function from the number of the reading to its time; the relay counts its readings.
pub mod Balance
mod Tests
use Prim.Native.Nat.{Ordering}
use Prim.Native.String.{String, compare}
use atvr4samsung.Common.{
  ℕ, ◌+◌, ◌*◌, min, Bool, true, false, not, ◌&&◌, List, [], ◌∷◌, Option, none, some, ltb, leb, ◌==◌,
  if◌then◌else◌,
}
use atvr4samsung.Common.Int.{ℤ}
use atvr4samsung.Bridge.Keymap.{
  Action, send_key, unmapped, Mapping, resolve, Direction, swipe_up, swipe_down, swipe_left,
  swipe_right, tap, gesture_to_samsung,
}
use atvr4samsung.Bridge.Gestures.{
  TouchAction, press, hold, release, click, other, SwipeTranslator, current_direction, feed,
}

pub data RepeatPhase : Type 0 where
  start stop : RepeatPhase

-- Where a command comes from.
pub data Source : Type 0 where
  button : ℕ → Source
  gesture : Direction → Source

-- The relay leaves `text` and `cmd`, which is not modelled, at their defaults.
pub record Command : Type 0 where
  pub action : Action
  pub samsung_key : Option String
  pub source : Source
  pub text : Option String
  pub repeat : Option RepeatPhase
  pub fast : Bool

pub record HoldConfig : Type 0 where
  pub enabled : Bool
  pub activate_ms : ℕ

pub record Relay : Type 0 where
  pub swipe : SwipeTranslator
  pub hold_config : HoldConfig
  pub select_dedupe_ms : ℕ
  pub last_select_ms : ℕ
  pub hold_dir : Option Direction
  pub hold_since_ms : ℕ
  pub hold_active : Bool
  pub hold_was_active : Bool
  pub suppress_click : Bool
  -- the readings of the clock, and what the sink got, newest first
  pub reads : ℕ
  pub sent : List Command

abbrev pub Clock : Type 0
Clock = ℕ → ℕ

abbrev pub new_relay : SwipeTranslator → HoldConfig → ℕ → Relay
new_relay swipe hold_config select_dedupe_ms = record {
  swipe = swipe;
  hold_config = hold_config;
  select_dedupe_ms = select_dedupe_ms;
  last_select_ms = 0;
  hold_dir = none;
  hold_since_ms = 0;
  hold_active = false;
  hold_was_active = false;
  suppress_click = false;
  reads = 0;
  sent = [];
}

-- `volume_key_for`, with both levels in units of which `scale` are 100 percent.
unfoldable pub volume_key_for : ℕ → ℕ → ℕ → String × ℕ
volume_key_for scale prev_volume new_level =
    (if leb prev_volume new_level then "KEY_VOLUP" else "KEY_VOLDOWN", min scale new_level)

abbrev pub is_eq : Ordering → Bool
is_eq Ordering.eq = true
is_eq _ = false

-- `command.samsung_key == "KEY_ENTER"`
unfoldable pub is_enter : Option String → Bool
is_enter none = false
is_enter (some key) = is_eq (compare key "KEY_ENTER")

abbrev pub send : Command → Relay → Relay
send c r = record r { sent = c ∷ r.sent }

abbrev pub read_clock : Relay → Relay
read_clock r = record r { reads = r.reads + 1 }

-- The de-dupe of a SELECT that comes at `now`.
abbrev pub send_select : Bool → ℕ → Command → Relay → Relay
send_select true now c r = r
send_select false now c r = send c (record r { last_select_ms = now })

abbrev pub emit_as : Bool → Clock → Command → Relay → Relay
emit_as false clock c r = send c r
emit_as true clock c r =
    let now = clock r.reads in
    send_select (ltb now (r.last_select_ms + r.select_dedupe_ms)) now c (read_clock r)

unfoldable pub emit : Clock → Command → Relay → Relay
unfolding is_enter
emit clock c r = emit_as (is_enter c.samsung_key) clock c r

-- `button_state in _BUTTON_RELEASES`
abbrev pub is_release : ℕ → Bool
is_release state = if state == 0 then true else state == 2

abbrev pub button_command : ℕ → Mapping → Command
button_command hid_code mapping = record {
  action = mapping.action;
  samsung_key = mapping.samsung_key;
  source = button hid_code;
  text = none;
  repeat = none;
  fast = false;
}

abbrev pub emit_mapping : Clock → ℕ → Mapping → Action → Relay → Relay
emit_mapping clock hid_code mapping unmapped r = r
emit_mapping clock hid_code mapping action r = emit clock (button_command hid_code mapping) r

unfoldable pub on_button : Clock → ℕ → ℕ → Relay → Relay
unfolding emit resolve
on_button clock hid_code button_state r =
    if is_release button_state
    then emit_mapping clock hid_code (resolve hid_code) (resolve hid_code).action r
    else r

abbrev pub gesture_command : Option RepeatPhase → Bool → Direction → Command
gesture_command repeat fast d = record {
  action = send_key;
  samsung_key = some (gesture_to_samsung d);
  source = gesture d;
  text = none;
  repeat = repeat;
  fast = fast;
}

-- `_emit_gesture`, for one direction after another.
unfoldable pub emit_gestures : Clock → List Direction → Relay → Relay
unfolding emit
emit_gestures clock [] r = r
emit_gestures clock (d ∷ ds) r =
    emit_gestures clock ds (emit clock (gesture_command none false d) r)

abbrev pub stop_hold : Clock → Bool → Option Direction → Relay → Relay
stop_hold clock true (some d) r = emit clock (gesture_command (some stop) false d) r
stop_hold clock true none r = r
stop_hold clock false d r = r

-- `_end_hold_if_active`
unfoldable pub end_hold_if_active : Clock → Relay → Relay
unfolding emit
end_hold_if_active clock r = record (stop_hold clock r.hold_active r.hold_dir r) {
  hold_active = false;
}

abbrev pub reset_hold_state : Relay → Relay
reset_hold_state r = record r {
  hold_dir = none;
  hold_since_ms = 0;
  hold_active = false;
  hold_was_active = false;
}

abbrev pub direction_code : Option Direction → ℕ
direction_code none = 0
direction_code (some swipe_up) = 1
direction_code (some swipe_down) = 2
direction_code (some swipe_left) = 3
direction_code (some swipe_right) = 4
direction_code (some tap) = 5

-- The candidate has dwelled for long enough: the repeat begins.
abbrev pub begin_hold : Clock → Bool → Direction → Relay → Relay
begin_hold clock false d r = r
begin_hold clock true d r = record (emit clock (gesture_command (some start) true d) r) {
  hold_active = true;
  hold_was_active = true;
}

abbrev pub dwell : Clock → ℕ → Option Direction → Relay → Relay
dwell clock now none r = r
dwell clock now (some d) r =
    begin_hold clock (not r.hold_active && leb (r.hold_since_ms + r.hold_config.activate_ms) now) d
      r

abbrev pub since_of : ℕ → Option Direction → ℕ
since_of now none = 0
since_of now (some d) = now

abbrev pub hold_at : Clock → ℕ → Option Direction → Bool → Relay → Relay
hold_at clock now d true r = dwell clock now d r
hold_at clock now d false r = record (end_hold_if_active clock r) {
  hold_dir = d;
  hold_since_ms = since_of now d;
}

-- `_update_hold`
unfoldable pub update_hold : Clock → Relay → Relay
unfolding emit end_hold_if_active current_direction
update_hold clock r =
    let d = current_direction r.swipe in
    hold_at clock (clock r.reads) d (direction_code d == direction_code r.hold_dir) (read_clock r)

-- `self._swipe.feed(action, cx, cy)`
abbrev pub feed_swipe : TouchAction → ℤ → ℤ → Relay → Relay
feed_swipe action cx cy r = record r { swipe = (feed r.swipe action cx cy).0 }

abbrev pub is_tap : List Direction → Bool
is_tap (tap ∷ []) = true
is_tap _ = false

-- The directions of a gesture that ends: dropped behind a hold, and a trailing tap too.
abbrev pub end_gesture : Clock → Bool → Bool → List Direction → Relay → Relay
end_gesture clock true dropped directions r = record r { suppress_click = true }
end_gesture clock false true directions r = r
end_gesture clock false false directions r = emit_gestures clock directions r

abbrev pub finish_gesture : Clock → TouchAction → ℤ → ℤ → Relay → Relay
finish_gesture clock action cx cy r =
    let ended = end_hold_if_active clock r in
    let directions = (feed ended.swipe action cx cy).1 in
    reset_hold_state (
      end_gesture clock ended.hold_was_active (ended.suppress_click && is_tap directions) directions
        (feed_swipe action cx cy ended))

abbrev pub touch_with_hold : Clock → TouchAction → ℤ → ℤ → Relay → Relay
touch_with_hold clock press cx cy r =
    feed_swipe press cx cy
      (record (reset_hold_state (end_hold_if_active clock r)) { suppress_click = false })
touch_with_hold clock hold cx cy r = update_hold clock (feed_swipe hold cx cy r)
touch_with_hold clock release cx cy r = finish_gesture clock release cx cy r
touch_with_hold clock click cx cy r = finish_gesture clock click cx cy r
touch_with_hold clock other cx cy r = feed_swipe other cx cy r

unfoldable pub on_touch : Clock → TouchAction → ℤ → ℤ → Relay → Relay
unfolding emit_gestures update_hold end_hold_if_active feed
on_touch clock action cx cy r =
    if r.hold_config.enabled
    then touch_with_hold clock action cx cy r
    else emit_gestures clock (feed r.swipe action cx cy).1 (feed_swipe action cx cy r)
