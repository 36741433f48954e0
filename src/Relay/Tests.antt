-- ===== src/Relay/Tests.antt =====
-- Runs of the relay, and its theorems along them.
use atvr4samsung.Common.{◌*◌, ◌≡◌, refl, true, false, List, [], ◌∷◌, some}
use atvr4samsung.Common.Int.{pos}
use atvr4samsung.Bridge.Keymap.{gesture_to_samsung, swipe_right}
use atvr4samsung.Bridge.Gestures.{press, hold, release, new_translator, default_config}
use atvr4samsung.Relay.{
  Clock, Relay, stop, new_relay, gesture_command, on_touch, on_button, volume_key_for,
}
use atvr4samsung.Relay.Balance.{IsBalanced, AtRest, at_rest, empty}
use atvr4samsung.Relay.Balance.Touch.{
  Input, touch, run_inputs, run_inputs-IsBalanced, on_touch-AtRest,
}

abbrev clock : Clock
clock n = n * 500

abbrev relay : Relay
relay = new_relay (new_translator default_config) (record { enabled = true; activate_ms = 400 }) 400

-- A swipe to the right that is held for two readings of the clock, and released.
abbrev held_swipe : List Input
held_swipe =
    touch press (pos 0) (pos 0)
    ∷ touch hold (pos 200) (pos 0)
    ∷ touch hold (pos 210) (pos 0)
    ∷ touch release (pos 220) (pos 0)
    ∷ []

-- The repeat that is still open at the next press is stopped.
run_release :
    (on_touch clock press
      (pos 220)
      (pos 0)
      (record relay { hold_active = true; hold_dir = some swipe_right })).sent
    ≡ gesture_command (some stop) false swipe_right ∷ []
unfolding on_touch gesture_to_samsung
run_release = refl

run_select : (on_button (λ n. 500) 6 2 relay).last_select_ms ≡ 500
unfolding on_button
run_select = refl

run_volume : volume_key_for 100 40 130 ≡ ("KEY_VOLUP", 100)
unfolding volume_key_for
run_volume = refl

run_inputs-IsBalanced_example : IsBalanced (run_inputs clock held_swipe relay)
run_inputs-IsBalanced_example = run_inputs-IsBalanced clock held_swipe relay (at_rest empty)

on_touch-AtRest_example : AtRest (on_touch clock release (pos 220) (pos 0) relay)
on_touch-AtRest_example =
    on_touch-AtRest clock release (pos 220) (pos 0) relay refl refl (at_rest empty)
