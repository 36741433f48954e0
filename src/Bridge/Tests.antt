-- ===== src/Bridge/Tests.antt =====
-- Runs of the button map and of the gesture interpreter, and their theorems at concrete inputs.
use atvr4samsung.Common.{ℕ, ◌<◌, ◌≡◌, refl, some, arith, replicate}
use atvr4samsung.Common.Int.{pos, negsuc, ◌-ℤ◌, abs, is_pos}
use atvr4samsung.Bridge.Keymap.{resolve, unknown, swipe_left}
use atvr4samsung.Bridge.Gestures.{
  release, default_config, SwipeTranslator, tracking, dominant_direction, current_direction, feed,
}
use atvr4samsung.Bridge.Gestures.Swipe.{
  Resolved, dominant_direction-Resolved, current_direction-release,
}

resolve-mute : (resolve 18).samsung_key ≡ some "KEY_MUTE"
unfolding resolve
resolve-mute = refl

resolve_future : resolve 20 ≡ unknown
unfolding resolve
resolve_future = refl

abbrev left_swipe : SwipeTranslator
left_swipe = record {
  config = default_config;
  state = tracking;
  track =
      some (record { start_x = pos 800; start_y = pos 500; last_x = pos 300; last_y = pos 510 });
}

current-left_swipe : current_direction left_swipe ≡ some swipe_left
unfolding current_direction ◌-ℤ◌ abs is_pos
current-left_swipe = refl

dominant_direction-Resolved_example :
    Resolved default_config
      (negsuc 499)
      (pos 10)
      (dominant_direction default_config (negsuc 499) (pos 10))
dominant_direction-Resolved_example =
    dominant_direction-Resolved default_config (negsuc 499) (pos 10)

current_direction-release_example :
    (n : ℕ) × (0 < n) × ((feed left_swipe release (pos 300) (pos 510)).1 ≡ replicate n swipe_left)
current_direction-release_example =
    current_direction-release left_swipe
      (record { start_x = pos 800; start_y = pos 500; last_x = pos 300; last_y = pos 510 })
      swipe_left refl (omega arith) (omega arith) current-left_swipe
