-- ===== src/Backend/Touchpad/Click.antt =====
-- src/backend.rs, `process_absolute_event`: the finger-count keys, and physical clicks that are
-- remapped by the number of fingers.
use libinput_rs.Common.{ℕ, ◌==◌, Bool, not, ◌||◌, none, some, [], ◌∷◌, leb, if◌then◌else◌}
use libinput_rs.Common.Int.{ℤ, is_zero}
use libinput_rs.Common.Word.{i32_as_u32}
use libinput_rs.Evdev.{btn_left, btn_right, btn_middle}
use libinput_rs.Floats.{Floats}
use libinput_rs.Ffi.{Ptr}
use libinput_rs.Backend.Tracked.{TrackedDevice}
use libinput_rs.Backend.Relative.{button_event}
use libinput_rs.Backend.Touchpad.Touch.{Out}

-- The button that a press with this many fingers stands for.
unfoldable pub finger_button : ℕ → ℕ
finger_button touch_fingers =
    if touch_fingers == 2 then btn_right else (if leb 3 touch_fingers then btn_middle else btn_left)

unfoldable pub is_pad_button : ℕ → Bool
is_pad_button code = code == btn_left || code == btn_right || code == btn_middle

module _ {fl : Floats} where
  -- `mapped`, and the device with `active_click_button` brought up to date.
  unfoldable pub map_click : ℕ → ℤ → TrackedDevice fl → TrackedDevice fl × ℕ
  unfolding finger_button
  map_click code value td =
      if code == btn_left
      then (if not (is_zero value)
          then (let mapped = finger_button td.touch_fingers in
              (record td { active_click_button = some mapped }, mapped))
          else (elim td.active_click_button [
            | none ↦ (td, code)
            | some active ↦ (record td { active_click_button = none }, active)
          ]))
      else (td, code)

  unfoldable pub click : ℕ → ℤ → ℕ → Ptr → Ptr → TrackedDevice fl → Out fl
  unfolding map_click is_pad_button
  click code value ts_usec lib_dev ctx td =
      let (td', mapped) = map_click code value td in
      (
        td',
        if is_pad_button mapped
            then button_event ts_usec mapped (i32_as_u32 value) ctx lib_dev ∷ []
            else [],
      )

  -- `td.touch_fingers = if value != 0 { n } else { n - 1 }`.
  unfoldable pub tool_tap : ℕ → ℕ → ℤ → TrackedDevice fl → Out fl
  tool_tap down up value td = (record td { touch_fingers = if is_zero value then up else down }, [])
