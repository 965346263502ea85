-- ===== src/Backend/Batch/Motion.antt =====
-- The movement that a touchpad collects between two frames: however the finger got there, it is the
-- way from the first position to the last.
use mathlib.Core.Path.{subst}
use libinput_rs.Common.{
  ℕ, ◌+◌, ◌≤◌, ◌≡◌, refl, sym, ap, ◌∙◌, true, Option, some, List, [], ◌∷◌, map, arith,
}
use libinput_rs.Common.Int.{ℤ}
use libinput_rs.Common.Word.{
  i32_add, i32_sub, IsI32, i32_add-IsI32, i32_add-sub_trans, i32_add-sub_self,
}
use libinput_rs.Evdev.{EventType, Readings, millis, abs_x}
use libinput_rs.Floats.{Floats}
use libinput_rs.Ffi.{Ptr}
use libinput_rs.Ffi.Device.{LibinputDevice}
use libinput_rs.Backend.Tracked.{TrackedDevice}
use libinput_rs.Backend.Touchpad.{process_absolute_event}
use libinput_rs.Backend.Touchpad.Axis.{absolute_axis, move_x, is_stale, advance}
use libinput_rs.Backend.Batch.{Timed, drain_event, drain_batch}
use libinput_rs.Backend.Batch.Cases.{drain_event_absolute}

-- A new horizontal position, with the clock readings at the time.
abbrev pub Step : Type 0
Step = Readings × ℤ × ℤ

abbrev pub x_event : Step → Timed
x_event (now, timestamp, x) = (
  now,
  record { timestamp = timestamp; event_type = EventType.absolute; code = abs_x; value = x },
)

-- No two positions are more than 50 ms apart, from `last` on.
abbrev pub IsSteady : ℕ → List Step → Type 0
IsSteady last [] = Unit
IsSteady last ((now, _, _) ∷ steps) = (now 3 ≤ last + millis 50) × IsSteady (now 4) steps

abbrev pub final : ℤ → List Step → ℤ
final p [] = p
final p ((_, _, x) ∷ steps) = final x steps

module _ {fl : Floats} (dev : LibinputDevice fl) (typing : Option ℕ) (ctx : Ptr) where
  x_event_lem :
      (now : Readings) (ts x : ℤ) (td : TrackedDevice fl) (global : Option ℕ) (p : ℤ) (last : ℕ)
      → td.is_absolute ≡ true
      → td.last_x ≡ some p
      → td.last_movement_time ≡ some last
      → now 3 ≤ last + millis 50
      → let after = drain_event dev typing ctx (x_event (now, ts, x)) td global in
        (after.td.is_absolute ≡ true)
        × (after.td.last_x ≡ some x)
        × (after.td.last_movement_time ≡ some (now 4))
        × (after.td.current_dx ≡ i32_add td.current_dx (i32_sub x p))
        × (after.td.current_dy ≡ td.current_dy)
  unfolding process_absolute_event absolute_axis move_x is_stale advance
  x_event_lem now ts x td global p last pad at moved soon =
      rw (drain_event_absolute dev typing ctx (x_event (now, ts, x)) td global pad) (ground arith)

  -- On a touchpad whose finger was last seen at `p`, any run of horizontal positions with no pause
  -- of more than 50 ms leaves the collected horizontal movement increased (as an `i32`) by the way
  -- from `p` to the last position, and the vertical movement unchanged.
  pub drain_batch-current_dx :
      (steps : List Step) (td : TrackedDevice fl) (global : Option ℕ) (p : ℤ) (last : ℕ)
      → td.is_absolute ≡ true
      → td.last_x ≡ some p
      → td.last_movement_time ≡ some last
      → IsI32 td.current_dx
      → IsSteady last steps
      → let after = drain_batch dev typing ctx (map x_event steps) td global in
        (after.td.current_dx ≡ i32_add td.current_dx (i32_sub (final p steps) p))
        × (after.td.current_dy ≡ td.current_dy)
  unfolding drain_batch
  drain_batch-current_dx [] td global p last pad at moved small steady =
      (sym (i32_add-sub_self td.current_dx p small), refl)
  drain_batch-current_dx ((now, ts, x) ∷ steps) td global p last pad at moved small (soon, steady) =
      let first = drain_event dev typing ctx (x_event (now, ts, x)) td global in
      let (pad', at', moved', dx, dy) = x_event_lem now ts x td global p last pad at moved soon in
      let (way, still) =
        drain_batch-current_dx steps first.td first.global_typing_time x (now 4) pad' at' moved'
          (subst IsI32 (sym dx) (i32_add-IsI32 td.current_dx (i32_sub x p))) steady in
      let total = final x steps in
      (
        way ∙ ap (λ d. i32_add d (i32_sub total x)) dx ∙ i32_add-sub_trans td.current_dx p x total,
        still ∙ dy,
      )
