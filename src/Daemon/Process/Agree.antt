-- ===== src/Daemon/Process/Agree.antt =====
-- The daemon and the library report the same motion for one finger.
use mathlib.Core.Path.{subst}
use libinput_rs.Common.{
  ℕ, ◌≡◌, sym, Bool, true, false, not, ◌||◌, List, [], ◌∷◌, ◌++◌, leb, if◌then◌else◌,
}
use libinput_rs.Common.Int.{ℤ, pos, is_zero}
use libinput_rs.Evdev.{InputEvent, rel_x, rel_y}
use libinput_rs.Floats.{Floats}
use libinput_rs.Ffi.{Ptr, LibinputEvent}
use libinput_rs.Backend.Tracked.{TrackedDevice}
use libinput_rs.Backend.Relative.{motion_event}
use libinput_rs.Backend.Touchpad.Sync.{
  point_total, leftover, hw_scaled, finger_count, report, clear_motion, has_movement,
  move_frame as library_frame, point as library_point, sync as library_sync,
}
use libinput_rs.Daemon.Config.{InputConfig}
use libinput_rs.Daemon.Wrapper.{DeviceWrapper, VirtualDevice, Run, syn_report}
use libinput_rs.Daemon.Process.{is_moved, sync}
use libinput_rs.Daemon.Process.Frames.{relative_event, sync-Wrote}

module _ {fl : Floats} where
  -- A device of the daemon and one of the library that have seen the same movement.
  pub record Agree (w : DeviceWrapper fl) (td : TrackedDevice fl) : Type 0 where
    pub current_dx : td.current_dx ≡ w.current_dx
    pub current_dy : td.current_dy ≡ w.current_dy
    pub remainder_x : td.remainder_x ≡ w.remainder_x
    pub remainder_y : td.remainder_y ≡ w.remainder_y

  -- The motion event of the library, if one of the values is not zero.
  abbrev pub motion : ℕ → ℤ → ℤ → Ptr → Ptr → TrackedDevice fl → List (LibinputEvent fl)
  motion ts_usec ex ey lib_dev ctx td =
      if not (is_zero ex) || not (is_zero ey)
      then motion_event ts_usec (fl.i32_as_f64 ex) (fl.i32_as_f64 ey)
          (fl.f32_as_f64 (hw_scaled fl td.current_dx)) (fl.f32_as_f64 (hw_scaled fl td.current_dy))
          ctx lib_dev
        ∷ []
      else []

  -- The whole of what a frame of one finger does on both sides, for the same motion.
  abbrev pub SameMotion :
      DeviceWrapper fl
      → VirtualDevice
      → InputEvent
      → Run fl
      → TrackedDevice fl
      → ℕ
      → Ptr
      → Ptr
      → TrackedDevice fl × List (LibinputEvent fl)
      → Type 0
  SameMotion w v ev r td ts_usec lib_dev ctx (td', out) =
      (ex : ℤ) × (ey : ℤ) × (r.v_device.sent
        ≡ v.sent ++ ((relative_event rel_x ex ++ relative_event rel_y ey) ++ ev ∷ syn_report ∷ []))
      × (out ≡ motion ts_usec ex ey lib_dev ctx td)
      × Agree r.wrapper td'

  same_movement :
      (w : DeviceWrapper fl) (td : TrackedDevice fl)
      → Agree w td
      → is_moved w ≡ true
      → has_movement td ≡ true
  unfolding has_movement is_moved
  same_movement w td agree moved = cc (agree.current_dx, agree.current_dy, moved)

  -- The library's device after the frame, and its event.
  abbrev library_moved :
      fl.F32 → ℕ → Ptr → Ptr → TrackedDevice fl → TrackedDevice fl × List (LibinputEvent fl)
  library_moved accel ts_usec lib_dev ctx td =
      let total_x = point_total fl accel td.current_dx td.remainder_x in
      let total_y = point_total fl accel td.current_dy td.remainder_y in
      (
        record td {
          tap_emitted = true;
          remainder_x = leftover fl total_x;
          remainder_y = leftover fl total_y;
          current_dx = pos 0;
          current_dy = pos 0;
        },
        motion ts_usec (fl.round_as_i32 total_x) (fl.round_as_i32 total_y) lib_dev ctx td,
      )

  library_frame_lem :
      (natural : Bool) (accel : fl.F32) (td : TrackedDevice fl) (ts_usec : ℕ) (lib_dev ctx : Ptr)
      → leb (finger_count td) 1 ≡ true
      → library_frame natural accel ts_usec lib_dev ctx td
        ≡ library_moved accel ts_usec lib_dev ctx td
  unfolding library_frame report library_point clear_motion
  library_frame_lem natural accel td ts_usec lib_dev ctx one = rw one

  library_sync_lem :
      (natural : Bool) (accel : fl.F32) (td : TrackedDevice fl) (ts_usec : ℕ) (lib_dev ctx : Ptr)
      → has_movement td ≡ true
      → td.pinch_active ≡ false
      → leb (finger_count td) 1 ≡ true
      → library_sync natural accel false 0 ts_usec lib_dev ctx td
        ≡ library_moved accel ts_usec lib_dev ctx td
  unfolding library_sync
  library_sync_lem natural accel td ts_usec lib_dev ctx moved no_pinch one =
      cc (no_pinch, moved, library_frame_lem natural accel td ts_usec lib_dev ctx one)

  -- Where one finger has moved on a device of the daemon and on one of the library that have seen the
  -- same movement, with the same factor, outside of a pinch and of typing, and where no write fails:
  -- the daemon writes the axes that move, each followed by a `SYN_REPORT`, so that the two are
  -- frames of their own, and then the `SYN` event and one more; the library reports the same motion
  -- as one event, or none where both are zero; and the two devices have seen the same again.
  pub sync-SameMotion :
      (natural : Bool) (config : InputConfig fl) (w : DeviceWrapper fl) (td : TrackedDevice fl)
      (v : VirtualDevice) (ev : InputEvent) (ts_usec : ℕ) (lib_dev ctx : Ptr)
      → Agree w td
      → ((n : ℕ) → v.refuses n ≡ false)
      → ev.code ≡ 0
      → is_moved w ≡ true
      → leb w.touch_fingers 1 ≡ true
      → leb (finger_count td) 1 ≡ true
      → td.pinch_active ≡ false
      → SameMotion w v ev
          (sync config false ev w v)
          td
          ts_usec
          lib_dev
          ctx
          (library_sync natural config.pointer_acceleration false 0 ts_usec lib_dev ctx td)
  sync-SameMotion natural config w td v ev ts_usec lib_dev ctx agree h syn moved one one' no_pinch =
      let wrote = sync-Wrote config ev w v h syn one moved in
      let accel = config.pointer_acceleration in
      let reported =
        library_sync_lem natural accel td ts_usec lib_dev ctx (same_movement w td agree moved)
          no_pinch one' in
      let same_x : point_total fl accel td.current_dx td.remainder_x
          ≡ point_total fl accel w.current_dx w.remainder_x =
        cc (agree.current_dx, agree.remainder_x) in
      let same_y : point_total fl accel td.current_dy td.remainder_y
          ≡ point_total fl accel w.current_dy w.remainder_y =
        cc (agree.current_dy, agree.remainder_y) in
      subst (SameMotion w v ev (sync config false ev w v) td ts_usec lib_dev ctx) (sym reported) (
        fl.round_as_i32 (point_total fl accel w.current_dx w.remainder_x),
        fl.round_as_i32 (point_total fl accel w.current_dy w.remainder_y),
        wrote.sent,
        cc (same_x, same_y),
        record {
          current_dx = cc wrote.wrapper;
          current_dy = cc wrote.wrapper;
          remainder_x = cc (wrote.wrapper, same_x);
          remainder_y = cc (wrote.wrapper, same_y);
        },
      )
