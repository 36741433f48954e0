-- ===== src/Bridge/Gestures/Swipe.antt =====
-- What a swipe resolves to.
use mathlib.Core.Path.{subst₂}
use atvr4samsung.Common.{
  ℕ, ◌*◌, ◌≤◌, ◌<◌, ◌≡◌, ◌⊎◌, inl, inr, refl, sym, ap, ◌∙◌, min, max, true, false, Option, none,
  some, arith, replicate, ltb, leb, if◌then◌else◌, Bool-cases, ltb→lt, ltb→le, leb→le,
}
use atvr4samsung.Common.Int.{ℤ, ◌-ℤ◌, abs, is_pos}
use atvr4samsung.Bridge.Keymap.{Direction, swipe_up, swipe_down, swipe_left, swipe_right, tap}
use atvr4samsung.Bridge.Gestures.{
  release, GestureConfig, Track, SwipeTranslator, apply_inversion, dominant_direction, direction_of,
  current_direction, repeat_count, repeated, resolve_displacement, feed,
}

-- `a` is far enough, and by the ratio farther than `b`.
abbrev pub Dominates : GestureConfig → ℕ → ℕ → Type 0
Dominates cfg a b = (cfg.swipe_threshold ≤ a) × (b ≤ a) × (b * cfg.ratio_num ≤ a * cfg.ratio_den)

-- The displacement of a swipe towards a direction: along its axis, with its sign, the farther of the
-- two, past the threshold and by the ratio farther than the other axis.
abbrev pub Points : GestureConfig → ℤ → ℤ → Direction → Type 0
Points cfg dx dy swipe_right = (is_pos dx ≡ true) × Dominates cfg (abs dx) (abs dy)
Points cfg dx dy swipe_left = (is_pos dx ≡ false) × Dominates cfg (abs dx) (abs dy)
Points cfg dx dy swipe_down = (is_pos dy ≡ true) × Dominates cfg (abs dy) (abs dx)
Points cfg dx dy swipe_up = (is_pos dy ≡ false) × Dominates cfg (abs dy) (abs dx)
Points cfg dx dy tap = ⊥

Points-x :
    (cfg : GestureConfig) (dx dy : ℤ)
    → Dominates cfg (abs dx) (abs dy)
    → Points cfg dx dy (if is_pos dx then swipe_right else swipe_left)
Points-x cfg dx dy h = elim (Bool-cases (is_pos dx)) [ inl e ↦ rw e (e, h) | inr e ↦ rw e (e, h) ]

Points-y :
    (cfg : GestureConfig) (dx dy : ℤ)
    → Dominates cfg (abs dy) (abs dx)
    → Points cfg dx dy (if is_pos dy then swipe_down else swipe_up)
Points-y cfg dx dy h = elim (Bool-cases (is_pos dy)) [ inl e ↦ rw e (e, h) | inr e ↦ rw e (e, h) ]

-- What a displacement resolves to: a direction in which it points, with the travel along its axis, or
-- none if it is short or no axis dominates.
abbrev pub Resolved : GestureConfig → ℤ → ℤ → Option (Direction × ℕ) → Type 0
Resolved cfg dx dy (some (d, travel)) = Points cfg dx dy d × (travel ≡ max (abs dx) (abs dy))
Resolved cfg dx dy none =
    (max (abs dx) (abs dy) < cfg.swipe_threshold)
    ⊎ (max (abs dx) (abs dy) * cfg.ratio_den < min (abs dx) (abs dy) * cfg.ratio_num)

-- `_dominant_direction` resolves every displacement rightly: to a direction only if the displacement
-- points in it, and to none only if it is below the threshold or too diagonal.
pub dominant_direction-Resolved :
    (cfg : GestureConfig) (dx dy : ℤ) → Resolved cfg dx dy (dominant_direction cfg dx dy)
unfolding dominant_direction
dominant_direction-Resolved cfg dx dy =
    elim (Bool-cases (ltb (max (abs dx) (abs dy)) cfg.swipe_threshold)) [
      | inl short ↦ rw short (inl (ltb→lt _ _ short))
      | inr far ↦ rw far (elim (Bool-cases (leb (abs dy) (abs dx))) [
        | inl wide ↦ rw wide (horizontal far wide)
        | inr tall ↦ rw tall (vertical far tall)
      ])
    ]
  where
    max_left : abs dy ≤ abs dx → max (abs dx) (abs dy) ≡ abs dx
    max_left h = omega arith

    min_left : abs dy ≤ abs dx → min (abs dx) (abs dy) ≡ abs dy
    min_left h = omega arith

    max_right : abs dx ≤ abs dy → max (abs dx) (abs dy) ≡ abs dy
    max_right h = omega arith

    min_right : abs dx ≤ abs dy → min (abs dx) (abs dy) ≡ abs dx
    min_right h = omega arith

    tall_le : leb (abs dy) (abs dx) ≡ false → abs dx ≤ abs dy
    tall_le h = ground arith

    horizontal :
        ltb (max (abs dx) (abs dy)) cfg.swipe_threshold ≡ false
        → leb (abs dy) (abs dx) ≡ true
        → Resolved cfg dx dy (
            if ltb (abs dx * cfg.ratio_den) (abs dy * cfg.ratio_num)
            then none
            else some (if is_pos dx then swipe_right else swipe_left, abs dx))
    horizontal far wide =
        elim (Bool-cases (ltb (abs dx * cfg.ratio_den) (abs dy * cfg.ratio_num))) [
          | inl diagonal ↦ rw diagonal (
              inr (
                subst₂ (λ (a b : ℕ). a * cfg.ratio_den < b * cfg.ratio_num)
                  (sym (max_left (leb→le _ _ wide))) (sym (min_left (leb→le _ _ wide)))
                  (ltb→lt _ _ diagonal)))
          | inr clear ↦ rw clear (
            Points-x cfg dx dy
                (omega (arith, ltb→le _ _ far, leb→le _ _ wide), leb→le _ _ wide, ltb→le _ _ clear),
            sym (max_left (leb→le _ _ wide)),
          )
        ]

    vertical :
        ltb (max (abs dx) (abs dy)) cfg.swipe_threshold ≡ false
        → leb (abs dy) (abs dx) ≡ false
        → Resolved cfg dx dy (
            if ltb (abs dy * cfg.ratio_den) (abs dx * cfg.ratio_num)
            then none
            else some (if is_pos dy then swipe_down else swipe_up, abs dy))
    vertical far tall = elim (Bool-cases (ltb (abs dy * cfg.ratio_den) (abs dx * cfg.ratio_num))) [
      | inl diagonal ↦ rw diagonal (
          inr (
            subst₂ (λ (a b : ℕ). a * cfg.ratio_den < b * cfg.ratio_num)
              (sym (max_right (tall_le tall))) (sym (min_right (tall_le tall)))
              (ltb→lt _ _ diagonal)))
      | inr clear ↦ rw clear (
        Points-y cfg dx dy
            (omega (arith, ltb→le _ _ far, tall_le tall), tall_le tall, ltb→le _ _ clear),
        sym (max_right (tall_le tall)),
      )
    ]

repeat_count-pos : (cfg : GestureConfig) (n : ℕ) → 0 < cfg.max_repeat → 0 < repeat_count cfg n
unfolding repeat_count
repeat_count-pos cfg n h = ground arith

far_enough :
    (cfg : GestureConfig) (dx dy : ℤ) (d : Direction) (travel : ℕ)
    → Resolved cfg dx dy (some (d, travel))
    → cfg.swipe_threshold ≤ max (abs dx) (abs dy)
far_enough cfg dx dy swipe_up travel r = omega arith
far_enough cfg dx dy swipe_down travel r = omega arith
far_enough cfg dx dy swipe_left travel r = omega arith
far_enough cfg dx dy swipe_right travel r = omega arith
far_enough cfg dx dy tap travel (h, _) = absurd h

resolve_displacement-far :
    (cfg : GestureConfig) (dx dy : ℤ)
    → leb (max (abs dx) (abs dy)) cfg.tap_max_travel ≡ false
    → resolve_displacement cfg dx dy ≡ repeated cfg (dominant_direction cfg dx dy)
unfolding resolve_displacement
resolve_displacement-far cfg dx dy h = rw h

resolve_displacement-swipe :
    (cfg : GestureConfig) (dx dy : ℤ) (d : Direction)
    → cfg.tap_max_travel < cfg.swipe_threshold
    → 0 < cfg.max_repeat
    → direction_of (dominant_direction cfg dx dy) ≡ some d
    → (n : ℕ) × (0 < n) × (resolve_displacement cfg dx dy ≡ replicate n d)
resolve_displacement-swipe cfg dx dy d apart repeats e =
    go (dominant_direction cfg dx dy) refl (dominant_direction-Resolved cfg dx dy) e
  where
    le→leb :
        cfg.swipe_threshold ≤ max (abs dx) (abs dy)
        → leb (max (abs dx) (abs dy)) cfg.tap_max_travel ≡ false
    le→leb h = ground arith

    same : {c : Direction} → some c ≡ some d → c ≡ d
    same e = cc

    go :
        (o : Option (Direction × ℕ))
        → dominant_direction cfg dx dy ≡ o
        → Resolved cfg dx dy o
        → direction_of o ≡ some d
        → (n : ℕ) × (0 < n) × (resolve_displacement cfg dx dy ≡ replicate n d)
    go none s r e = cc
    go (some (c, travel)) s r e = (
      repeat_count cfg travel,
      repeat_count-pos cfg travel repeats,
      resolve_displacement-far cfg dx dy (le→leb (far_enough cfg dx dy c travel r))
          ∙ ap (repeated cfg) s
          ∙ ap (replicate (repeat_count cfg travel)) (same e),
    )

-- Where a touch has been held to its last point, the direction that `current_direction` reports for
-- the hold is the one that a release at that point would repeat, at least once; so long as a swipe is
-- longer than a tap and at least one repeat is allowed.
pub current_direction-release :
    (t : SwipeTranslator) (track : Track) (d : Direction)
    → t.track ≡ some track
    → t.config.tap_max_travel < t.config.swipe_threshold
    → 0 < t.config.max_repeat
    → current_direction t ≡ some d
    → (n : ℕ) × (0 < n) × ((feed t release track.last_x track.last_y).1 ≡ replicate n d)
unfolding current_direction feed
current_direction-release t track d held apart repeats e =
    rw (held, feed)
      (resolve_displacement-swipe t.config
        (apply_inversion t.config (track.last_x -ℤ track.start_x) (track.last_y -ℤ track.start_y)).0
        (apply_inversion t.config (track.last_x -ℤ track.start_x) (track.last_y -ℤ track.start_y)).1
        d apart repeats (rw (held, current_direction) at e))
