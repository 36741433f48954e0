-- ===== src/Bridge/Gestures.antt =====
-- src/atvr4samsung/bridge/gestures.py: touch points to directions.
-- Coordinates are integers. `dominant_ratio`, a float, is the fraction `ratio_num / ratio_den`, and
-- its product with a distance is exact.
pub mod Swipe
use atvr4samsung.Common.{
  ℕ, ◌*◌, ◌/◌, min, max, Bool, true, false, List, [], ◌∷◌, Option, none, some, replicate, ltb, leb,
  ◌==◌, if◌then◌else◌,
}
use atvr4samsung.Common.Int.{ℤ, ◌-ℤ◌, neg, abs, is_pos}
use atvr4samsung.Bridge.Keymap.{Direction, swipe_up, swipe_down, swipe_left, swipe_right, tap}

-- The actions that the server passes; every other name is ignored in the same way.
pub data TouchAction : Type 0 where
  press hold release click other : TouchAction

-- `TOUCH_ACTION_NAMES`
unfoldable pub touch_action_names : ℕ → Option TouchAction
touch_action_names phase =
    if phase == 1
    then some press
    else if phase == 2
    then some hold
    else if phase == 3
    then some hold
    else if phase == 4
    then some release
    else if phase == 5
    then some click
    else none

pub data TrackState : Type 0 where
  idle tracking : TrackState

-- `repeat_every` and `max_repeat` are natural numbers here.
pub record GestureConfig : Type 0 where
  pub tap_max_travel : ℕ
  pub swipe_threshold : ℕ
  pub ratio_num : ℕ
  pub ratio_den : ℕ
  pub repeat_every : ℕ
  pub max_repeat : ℕ
  pub invert_x : Bool
  pub invert_y : Bool

abbrev pub default_config : GestureConfig
default_config = record {
  tap_max_travel = 60;
  swipe_threshold = 120;
  ratio_num = 13;
  ratio_den = 10;
  repeat_every = 0;
  max_repeat = 10;
  invert_x = false;
  invert_y = false;
}

pub record Track : Type 0 where
  pub start_x : ℤ
  pub start_y : ℤ
  pub last_x : ℤ
  pub last_y : ℤ

pub record SwipeTranslator : Type 0 where
  pub config : GestureConfig
  pub state : TrackState
  pub track : Option Track

abbrev pub new_translator : GestureConfig → SwipeTranslator
new_translator config = record { config = config; state = idle; track = none }

unfoldable pub reset : SwipeTranslator → SwipeTranslator
reset t = record t { state = idle; track = none }

unfoldable pub apply_inversion : GestureConfig → ℤ → ℤ → ℤ × ℤ
apply_inversion cfg dx dy =
    (if cfg.invert_x then neg dx else dx, if cfg.invert_y then neg dy else dy)

unfoldable pub dominant_direction : GestureConfig → ℤ → ℤ → Option (Direction × ℕ)
dominant_direction cfg dx dy =
    let abs_dx = abs dx in
    let abs_dy = abs dy in
    if ltb (max abs_dx abs_dy) cfg.swipe_threshold
    then none
    else if leb abs_dy abs_dx
    then (if ltb (abs_dx * cfg.ratio_den) (abs_dy * cfg.ratio_num)
        then none
        else some (if is_pos dx then swipe_right else swipe_left, abs_dx))
    else (if ltb (abs_dy * cfg.ratio_den) (abs_dx * cfg.ratio_num)
        then none
        else some (if is_pos dy then swipe_down else swipe_up, abs_dy))

abbrev pub direction_of : Option (Direction × ℕ) → Option Direction
direction_of none = none
direction_of (some (d, travel)) = some d

unfoldable pub current_direction : SwipeTranslator → Option Direction
unfolding apply_inversion dominant_direction
current_direction t = elim t.track [
  | none ↦ none
  | some track ↦
      let (dx, dy) =
        apply_inversion t.config (track.last_x -ℤ track.start_x) (track.last_y -ℤ track.start_y) in
      direction_of (dominant_direction t.config dx dy)
]

unfoldable pub repeat_count : GestureConfig → ℕ → ℕ
repeat_count cfg dominant_travel =
    if cfg.repeat_every == 0
    then 1
    else min (max 1 (dominant_travel / cfg.repeat_every)) cfg.max_repeat

-- `[direction] * self._repeat_count(dominant)`, or no direction.
abbrev pub repeated : GestureConfig → Option (Direction × ℕ) → List Direction
repeated cfg none = []
repeated cfg (some (direction, dominant)) = replicate (repeat_count cfg dominant) direction

unfoldable pub resolve_displacement : GestureConfig → ℤ → ℤ → List Direction
unfolding dominant_direction repeat_count
resolve_displacement cfg dx dy =
    if leb (max (abs dx) (abs dy)) cfg.tap_max_travel
    then tap ∷ []
    else repeated cfg (dominant_direction cfg dx dy)

-- `_resolve`
unfoldable pub resolve_swipe : GestureConfig → ℤ → ℤ → ℤ → ℤ → List Direction
unfolding apply_inversion resolve_displacement
resolve_swipe cfg x0 y0 x1 y1 =
    let (dx, dy) = apply_inversion cfg (x1 -ℤ x0) (y1 -ℤ y0) in resolve_displacement cfg dx dy

abbrev pub moved : ℤ → ℤ → Option Track → Option Track
moved cx cy none = none
moved cx cy (some track) = some (record track { last_x = cx; last_y = cy })

unfoldable pub feed : SwipeTranslator → TouchAction → ℤ → ℤ → SwipeTranslator × List Direction
unfolding reset resolve_swipe
feed t press cx cy = (
  record t {
    track = some (record { start_x = cx; start_y = cy; last_x = cx; last_y = cy });
    state = tracking;
  },
  [],
)
feed t hold cx cy = (record t { track = moved cx cy t.track }, [])
feed t click cx cy = (reset t, tap ∷ [])
feed t release cx cy = elim t.track [
  | none ↦ (t, [])
  | some track ↦ (reset t, resolve_swipe t.config track.start_x track.start_y cx cy)
]
feed t other cx cy = (t, [])
