-- ===== src/Relay/Balance/Touch.antt =====
-- The repeats along the touches and the buttons.
use mathlib.Core.Path.{subst}
use atvr4samsung.Common.{
  ℕ, ◌+◌, ◌≡◌, refl, sym, ap, ◌∙◌, Bool, true, false, not, ◌&&◌, List, [], ◌∷◌, Option, none, some,
  ltb, leb, ◌==◌, if◌then◌else◌, arith, max,
}
use atvr4samsung.Common.Int.{ℤ, ◌-ℤ◌, abs, is_pos}
use atvr4samsung.Bridge.Keymap.{Direction, swipe_up, swipe_down, swipe_left, swipe_right, tap}
use atvr4samsung.Bridge.Gestures.{
  TouchAction, press, hold, release, click, other, SwipeTranslator, Track, apply_inversion,
  current_direction, feed, dominant_direction, direction_of, GestureConfig,
}
use atvr4samsung.Relay.{
  Clock, Relay, Command, start, emit, emit_as, send_select, read_clock, is_enter, on_button,
  gesture_command, emit_gestures, end_hold_if_active, begin_hold, hold_at, direction_code,
  update_hold, feed_swipe, end_gesture, finish_gesture, touch_with_hold, on_touch, is_tap,
}
use atvr4samsung.Relay.Balance.{
  Balanced, single, started, Holding, at_rest, waiting, repeating, IsBalanced, is_swipe,
  emit-repeat, emit_gestures-IsBalanced, on_button-IsBalanced, AtRest, end_hold-AtRest,
}

emit-Balanced :
    (clock : Clock) (c : Command) (r : Relay) (h : Option Direction)
    → c.repeat ≡ none
    → Balanced r.sent h
    → Balanced (emit clock c r).sent h
unfolding emit
emit-Balanced clock c r h e b = dispatched (is_enter c.samsung_key)
  where
    selected : (t : Bool) (now : ℕ) → Balanced (send_select t now c (read_clock r)).sent h
    selected true now = b
    selected false now = single c e b

    dispatched : (t : Bool) → Balanced (emit_as t clock c r).sent h
    dispatched false = single c e b
    dispatched true =
        selected (ltb (clock r.reads) (r.last_select_ms + r.select_dedupe_ms)) (clock r.reads)

emit_gestures-Balanced :
    (clock : Clock) (ds : List Direction) (r : Relay) (h : Option Direction)
    → Balanced r.sent h
    → Balanced (emit_gestures clock ds r).sent h
unfolding emit_gestures
emit_gestures-Balanced clock [] r h b = b
emit_gestures-Balanced clock (d ∷ ds) r h b =
    emit_gestures-Balanced clock ds (emit clock (gesture_command none false d) r) h
      (emit-Balanced clock (gesture_command none false d) r h refl b)

finish-IsBalanced :
    (clock : Clock) (action : TouchAction) (cx cy : ℤ) (r : Relay)
    → IsBalanced r
    → IsBalanced (finish_gesture clock action cx cy r)
finish-IsBalanced clock action cx cy r h = at_rest (
    finished (end_hold_if_active clock r).hold_was_active (
      (end_hold_if_active clock r).suppress_click
      && is_tap (feed (end_hold_if_active clock r).swipe action cx cy).1))
  where
    finished :
        (t u : Bool)
        → Balanced
            (end_gesture clock t u
              (feed (end_hold_if_active clock r).swipe action cx cy).1
              (feed_swipe action cx cy (end_hold_if_active clock r))).sent
            none
    finished true u = (end_hold-AtRest clock r h).1
    finished false true = (end_hold-AtRest clock r h).1
    finished false false =
        emit_gestures-Balanced clock (feed (end_hold_if_active clock r).swipe action cx cy).1
          (feed_swipe action cx cy (end_hold_if_active clock r)) none (end_hold-AtRest clock r h).1

direction_code-≡ : (d e : Option Direction) → direction_code d ≡ direction_code e → d ≡ e
direction_code-≡ d e h = sym (of_code d) ∙ ap find_code h ∙ of_code e
  where
    find_code : ℕ → Option Direction
    find_code n =
        if n == 1
        then some swipe_up
        else if n == 2
        then some swipe_down
        else if n == 3
        then some swipe_left
        else if n == 4
        then some swipe_right
        else if n == 5
        then some tap
        else none

    of_code : (d : Option Direction) → find_code (direction_code d) ≡ d
    of_code none = refl
    of_code (some swipe_up) = refl
    of_code (some swipe_down) = refl
    of_code (some swipe_left) = refl
    of_code (some swipe_right) = refl
    of_code (some tap) = refl

-- The direction under observation is never a tap.
abbrev Swipes : Option Direction → Type 0
Swipes none = Unit
Swipes (some d) = is_swipe d ≡ true

dominant_direction-Swipes :
    (cfg : GestureConfig) (dx dy : ℤ) → Swipes (direction_of (dominant_direction cfg dx dy))
unfolding dominant_direction
dominant_direction-Swipes cfg dx dy =
    axes (ltb (max (abs dx) (abs dy)) cfg.swipe_threshold) (leb (abs dy) (abs dx)) _ _ (is_pos dx)
      (is_pos dy)
  where
    axes :
        (t u v w x y : Bool)
        → Swipes (
            direction_of (
              if t
              then none
              else if u
              then (if v then none else some (if x then swipe_right else swipe_left, abs dx))
              else (if w then none else some (if y then swipe_down else swipe_up, abs dy))))
    axes true u v w x y = tt
    axes false true true w x y = tt
    axes false true false w true y = refl
    axes false true false w false y = refl
    axes false false v true x y = tt
    axes false false v false x true = refl
    axes false false v false x false = refl

current_direction-Swipes : (s : SwipeTranslator) → Swipes (current_direction s)
unfolding current_direction
current_direction-Swipes s = tracked s.track
  where
    tracked :
        (o : Option Track)
        → Swipes (elim o [
          | none ↦ none
          | some track ↦
              let (dx, dy) =
                apply_inversion s.config
                  (track.last_x -ℤ track.start_x)
                  (track.last_y -ℤ track.start_y) in
              direction_of (dominant_direction s.config dx dy)
        ])
    tracked none = tt
    tracked (some track) = dominant_direction-Swipes s.config _ _

-- `Holding` for the direction under observation.
observed :
    (d : Option Direction) (cs : List Command) (active : Bool)
    → Swipes d
    → active ≡ false
    → Balanced cs none
    → Holding active d cs
observed none cs active s e b = subst (λ t. Holding t none cs) (sym e) (at_rest b)
observed (some d) cs active s e b = subst (λ t. Holding t (some d) cs) (sym e) (waiting d s b)

resting : {d : Option Direction} {cs : List Command} → Holding false d cs → Balanced cs none
resting (at_rest b) = b
resting (waiting d s b) = b

begin_hold-IsBalanced :
    (clock : Clock) (x : Bool) (d : Direction) (r : Relay)
    → is_swipe d ≡ true
    → r.hold_dir ≡ some d
    → IsBalanced r
    → IsBalanced (begin_hold clock (not r.hold_active && x) d r)
begin_hold-IsBalanced clock x d r s e h = begins r.hold_active x h
  where
    begins :
        (active y : Bool)
        → Holding active r.hold_dir r.sent
        → Holding
            (begin_hold clock (not active && y) d (record r { hold_active = active })).hold_active
            (begin_hold clock (not active && y) d (record r { hold_active = active })).hold_dir
            (begin_hold clock (not active && y) d (record r { hold_active = active })).sent
    begins true y h = h
    begins false false h = h
    begins false true h =
        let base : Relay = record r { hold_active = false } in
        subst (λ q. Holding true q.hold_dir q.sent) (sym (emit-repeat clock start true d base s))
          (subst (λ k. Holding true k (gesture_command (some start) true d ∷ r.sent)) (sym e)
            (repeating d s (started d (resting h))))

update_hold-IsBalanced :
    (clock : Clock) (r : Relay) → IsBalanced r → IsBalanced (update_hold clock r)
unfolding update_hold
update_hold-IsBalanced clock r h =
    compared (current_direction r.swipe) (current_direction-Swipes r.swipe) _ refl
  where
    compared :
        (d : Option Direction)
        → Swipes d
        → (t : Bool) → (direction_code d == direction_code r.hold_dir) ≡ t
        → IsBalanced (hold_at clock (clock r.reads) d t (read_clock r))
    compared d s false e =
        observed d (end_hold_if_active clock (read_clock r)).sent
          (end_hold_if_active clock (read_clock r)).hold_active s
          (end_hold-AtRest clock (read_clock r) h).0 (end_hold-AtRest clock (read_clock r) h).1
    compared none s true e = h
    compared (some d) s true e =
        begin_hold-IsBalanced clock _ d (read_clock r) s
          (sym (direction_code-≡ (some d) r.hold_dir (ground arith))) h

on_touch-IsBalanced :
    (clock : Clock) (action : TouchAction) (cx cy : ℤ) (r : Relay)
    → IsBalanced r
    → IsBalanced (on_touch clock action cx cy r)
unfolding on_touch
on_touch-IsBalanced clock action cx cy r h = gated r.hold_config.enabled action
  where
    gated :
        (t : Bool) (a : TouchAction)
        → IsBalanced (
            if t
            then touch_with_hold clock a cx cy r
            else emit_gestures clock (feed r.swipe a cx cy).1 (feed_swipe a cx cy r))
    gated false a = emit_gestures-IsBalanced clock (feed r.swipe a cx cy).1 (feed_swipe a cx cy r) h
    gated true press = at_rest (end_hold-AtRest clock r h).1
    gated true hold = update_hold-IsBalanced clock (feed_swipe hold cx cy r) h
    gated true release = finish-IsBalanced clock release cx cy r h
    gated true click = finish-IsBalanced clock click cx cy r h
    gated true other = h

-- The messages of a connection, as they reach the relay.
pub data Input : Type 0 where
  touch : TouchAction → ℤ → ℤ → Input
  press_button : ℕ → ℕ → Input

unfoldable pub run_input : Clock → Input → Relay → Relay
unfolding on_touch on_button
run_input clock (touch action cx cy) r = on_touch clock action cx cy r
run_input clock (press_button hid_code state) r = on_button clock hid_code state r

unfoldable pub run_inputs : Clock → List Input → Relay → Relay
unfolding run_input
run_inputs clock [] r = r
run_inputs clock (i ∷ inputs) r = run_inputs clock inputs (run_input clock i r)

run_input-IsBalanced :
    (clock : Clock) (i : Input) (r : Relay) → IsBalanced r → IsBalanced (run_input clock i r)
unfolding run_input
run_input-IsBalanced clock (touch action cx cy) r h = on_touch-IsBalanced clock action cx cy r h
run_input-IsBalanced clock (press_button hid_code state) r h =
    on_button-IsBalanced clock hid_code state r h

-- Along every sequence of touches and buttons, from a state in which it holds, each START that the
-- relay sends is followed by the STOP for the same direction before the next START, no STOP comes
-- without its START, and a repeat is open exactly while a hold is active, for the direction of the
-- hold.
pub run_inputs-IsBalanced :
    (clock : Clock) (inputs : List Input) (r : Relay)
    → IsBalanced r
    → IsBalanced (run_inputs clock inputs r)
unfolding run_inputs
run_inputs-IsBalanced clock [] r h = h
run_inputs-IsBalanced clock (i ∷ inputs) r h =
    run_inputs-IsBalanced clock inputs (run_input clock i r) (run_input-IsBalanced clock i r h)

-- A finger that is not held on: `press` begins a new gesture, the others end one.
abbrev pub ends_hold : TouchAction → Bool
ends_hold press = true
ends_hold release = true
ends_hold click = true
ends_hold _ = false

-- With holds enabled, a press, a release and a click leave no repeat open, whatever was held before.
pub on_touch-AtRest :
    (clock : Clock) (action : TouchAction) (cx cy : ℤ) (r : Relay)
    → r.hold_config.enabled ≡ true
    → ends_hold action ≡ true
    → IsBalanced r
    → AtRest (on_touch clock action cx cy r)
unfolding on_touch
on_touch-AtRest clock action cx cy r e a h =
    subst
      (λ t. AtRest (
        if t
        then touch_with_hold clock action cx cy r
        else emit_gestures clock (feed r.swipe action cx cy).1 (feed_swipe action cx cy r)))
      (sym e) (ends action a)
  where
    ends : (b : TouchAction) → ends_hold b ≡ true → AtRest (touch_with_hold clock b cx cy r)
    ends press a = (refl, (end_hold-AtRest clock r h).1)
    ends hold a = absurd (ground arith)
    ends release a = (refl, resting (finish-IsBalanced clock release cx cy r h))
    ends click a = (refl, resting (finish-IsBalanced clock click cx cy r h))
    ends other a = absurd (ground arith)
