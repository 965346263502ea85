-- ===== src/Backend/Relative.antt =====
-- src/backend.rs, `process_relative_event`: mice and trackpoints.
use libinput_rs.Common.{ℕ, ◌==◌, Bool, ◌||◌, List, [], ◌∷◌, if◌then◌else◌}
use libinput_rs.Common.Int.{ℤ}
use libinput_rs.Common.Word.{i32_as_u32}
use libinput_rs.Evdev.{
  InputEvent, EventType, rel_x, rel_y, rel_wheel, rel_hwheel, btn_left, btn_right, btn_middle,
  btn_side, btn_extra,
}
use libinput_rs.Floats.{Floats}
use libinput_rs.Ffi.{Ptr, LibinputEvent, LibinputEventType, EventPayload}

-- The buttons that a mouse passes on.
unfoldable pub is_mouse_button : ℕ → Bool
is_mouse_button code =
    code == btn_left
    || code == btn_right
    || code == btn_middle
    || code == btn_side
    || code == btn_extra

module _ {fl : Floats} where
  abbrev pub motion_event : ℕ → fl.F64 → fl.F64 → fl.F64 → fl.F64 → Ptr → Ptr → LibinputEvent fl
  motion_event ts_usec dx dy dx_unaccel dy_unaccel ctx lib_dev = record {
    event_type = LibinputEventType.pointer_motion;
    payload = EventPayload.pointer_motion (record {
      time_usec = ts_usec;
      dx = dx;
      dy = dy;
      dx_unaccel = dx_unaccel;
      dy_unaccel = dy_unaccel;
    });
    context = ctx;
    device = lib_dev;
  }

  -- A scroll event: `value` is fifteen times the discrete value.
  abbrev pub axis_event : LibinputEventType → ℕ → ℕ → ℤ → ℕ → Ptr → Ptr → LibinputEvent fl
  axis_event event_type ts_usec axis v source ctx lib_dev = record {
    event_type = event_type;
    payload = EventPayload.pointer_axis (record {
      time_usec = ts_usec;
      axis = axis;
      value = fl.mul64 (fl.i32_as_f64 v) (fl.f64 150 1);
      value_discrete = v;
      source = source;
    });
    context = ctx;
    device = lib_dev;
  }

  abbrev pub button_event : ℕ → ℕ → ℕ → Ptr → Ptr → LibinputEvent fl
  button_event ts_usec button state ctx lib_dev = record {
    event_type = LibinputEventType.pointer_button;
    payload =
        EventPayload.pointer_button
          (record { time_usec = ts_usec; button = button; state = state });
    context = ctx;
    device = lib_dev;
  }

  -- The arm for `EventType::RELATIVE`.
  unfoldable pub relative_axis : ℕ → ℤ → ℕ → Ptr → Ptr → List (LibinputEvent fl)
  relative_axis code val ts_usec lib_dev ctx =
      let v = fl.i32_as_f64 val in
      let zero64 = fl.f64 0 1 in
      if code == rel_x
      then motion_event ts_usec v zero64 v zero64 ctx lib_dev ∷ []
      else (if code == rel_y
          then motion_event ts_usec zero64 v zero64 v ctx lib_dev ∷ []
          else (if code == rel_wheel
              then axis_event LibinputEventType.pointer_scroll_wheel ts_usec 0 val 1 ctx lib_dev
                ∷ []
              else (if code == rel_hwheel
                  then axis_event LibinputEventType.pointer_scroll_wheel ts_usec 1 val 1 ctx lib_dev
                    ∷ []
                  else [])))

  -- The arm for `EventType::KEY`.
  unfoldable pub relative_button : ℕ → ℤ → ℕ → Ptr → Ptr → List (LibinputEvent fl)
  unfolding is_mouse_button
  relative_button code value ts_usec lib_dev ctx =
      if is_mouse_button code
      then button_event ts_usec code (i32_as_u32 value) ctx lib_dev ∷ []
      else []

  relative_dispatch : EventType → InputEvent → ℕ → Ptr → Ptr → List (LibinputEvent fl)
  relative_dispatch EventType.relative ev ts_usec lib_dev ctx =
      relative_axis ev.code ev.value ts_usec lib_dev ctx
  relative_dispatch EventType.key ev ts_usec lib_dev ctx =
      relative_button ev.code ev.value ts_usec lib_dev ctx
  relative_dispatch _ ev ts_usec lib_dev ctx = []

  -- The handler leaves the device as it is.
  unfoldable pub process_relative_event : InputEvent → ℕ → Ptr → Ptr → List (LibinputEvent fl)
  unfolding relative_dispatch relative_axis relative_button
  process_relative_event ev ts_usec lib_dev ctx =
      relative_dispatch ev.event_type ev ts_usec lib_dev ctx
