-- ===== src/Daemon/Batch/Clicks.antt =====
-- The daemon's physical clicks: the release goes out as the button that the press went out as.
use libinput_rs.Common.{
  suc, if◌then◌else◌, ℕ, ◌≡◌, ◌≢◌, ◌∙◌, true, false, none, some, List, [], ◌∷◌, ◌++◌, All, arith,
}
use libinput_rs.Common.Int.{ℤ, pos, is_zero}
use libinput_rs.Evdev.{InputEvent, key, Readings, btn_left}
use libinput_rs.Floats.{Floats}
use libinput_rs.Backend.Touchpad.Click.{is_pad_button}
use libinput_rs.Backend.Batch.Clicks.{left_button}
use libinput_rs.Daemon.Config.{InputConfig}
use libinput_rs.Daemon.Wrapper.{DeviceWrapper, VirtualDevice, emit_raw, syn_report, new_event, ◌>>◌}
use libinput_rs.Daemon.Process.{
  buttons, map_button, click_button, fingers, dispatch, note_key, bar_tap, process_event, is_typing,
}
use libinput_rs.Daemon.Process.Keeps.{
  Keeps, IsStable, emit_raw-Keeps, when-Keeps, emit_tap-Keeps, axes_always, process_event-Holds,
}
use libinput_rs.Daemon.Batch.{Timed, Batch, batch_event, batch}

abbrev pub IsOther : Timed → Type 0
IsOther e = e.1.code ≢ btn_left

-- What gets out of an event whose own write does not fail.
abbrev pub emitted : InputEvent → VirtualDevice → List InputEvent
emitted ev v = ev ∷ (if v.refuses (suc v.calls) then [] else syn_report ∷ [])

module _ {fl : Floats} (b : ℕ) where
  -- A touchpad that remembers a click of `b`.
  abbrev Remembers : DeviceWrapper fl → VirtualDevice → Type 0
  Remembers w v = (w.is_absolute ≡ true) × (w.active_click_button ≡ some b)

  Remembers-IsStable : IsStable Remembers (λ _. Unit {0})
  Remembers-IsStable = record {
    allowed = tt;
    ignores = λ w w' v same h. (same.is_absolute ∙ h.0, same.active_click_button ∙ h.1);
    refused = λ w v h. h;
    sent = λ ev w v q h. h;
  }

  map_button-other :
      (ev : InputEvent) (w : DeviceWrapper fl) → ev.code ≢ btn_left → map_button ev w ≡ (w, ev.code)
  unfolding map_button
  map_button-other ev w h = ground arith

  buttons-Remembers : (ev : InputEvent) → ev.code ≢ btn_left → Keeps Remembers (buttons ev)
  unfolding buttons
  buttons-Remembers ev h = record {
    run = λ w v r. rw (map_button-other ev w h) (
        (when-Keeps Remembers (is_pad_button ev.code)
            (emit_raw-Keeps Remembers Remembers-IsStable (new_event key ev.code ev.value) tt)).run
          w v r);
  }

  batch_event-Remembers :
      (config : InputConfig fl) (e : Timed) (s : Batch fl)
      → IsOther e
      → Remembers s.wrapper s.v_device
      → Remembers (batch_event config e s).wrapper (batch_event config e s).v_device
  unfolding batch_event
  batch_event-Remembers config (now, ev) s h r =
      let stable = Remembers-IsStable in
      process_event-Holds Remembers stable now config s.last_global_typing_time ev s.wrapper
        s.v_device r.0 (emit_tap-Keeps Remembers stable tt tt tt)
        (axes_always Remembers stable
          (is_typing config.disable_while_typing s.last_global_typing_time (now 1))
          (λ value. (tt, tt, tt)))
        (λ _. tt) (λ _. buttons-Remembers ev h) r

  batch-Remembers :
      (config : InputConfig fl) (es : List Timed) (s : Batch fl)
      → All IsOther es
      → Remembers s.wrapper s.v_device
      → Remembers (batch config es s).wrapper (batch config es s).v_device
  unfolding batch
  batch-Remembers config [] s hs r = r
  batch-Remembers config (e ∷ es) s (h, hs) r =
      batch-Remembers config es (batch_event config e s) hs (batch_event-Remembers config e s h r)

  -- The release of a remembered click.
  release_click :
      (config : InputConfig fl) (now : Readings) (ts : ℤ) (s : Batch fl)
      → Remembers s.wrapper s.v_device
      → is_pad_button b ≡ true
      → s.v_device.refuses s.v_device.calls ≡ false
      → let after = batch_event config (now, left_button ts (pos 0)) s in
        (after.v_device.sent ≡ s.v_device.sent ++ emitted (new_event key b (pos 0)) s.v_device)
        × (after.wrapper.active_click_button ≡ none)
  unfolding batch_event process_event dispatch note_key bar_tap fingers buttons map_button emit_raw
      ◌>>◌
  release_click config now ts s r pad accepted = ground arith

click_button-is_pad_button : (n : ℕ) → is_pad_button (click_button n) ≡ true
unfolding is_pad_button click_button
click_button-is_pad_button n = ground arith

module _ {fl : Floats} (config : InputConfig fl) where
  press_click :
      (now : Readings) (ts value : ℤ) (s : Batch fl)
      → s.wrapper.is_absolute ≡ true
      → is_zero value ≡ false
      → s.v_device.refuses s.v_device.calls ≡ false
      → let after = batch_event config (now, left_button ts value) s in
        let button = click_button s.wrapper.touch_fingers in
        (after.v_device.sent ≡ s.v_device.sent ++ emitted (new_event key button value) s.v_device)
        × Remembers button after.wrapper after.v_device
  unfolding batch_event process_event dispatch note_key bar_tap fingers buttons map_button emit_raw
      ◌>>◌
  press_click now ts value s pad down accepted =
      ground (arith, click_button-is_pad_button s.wrapper.touch_fingers)

  -- On a touchpad, press the pad's button, let any events follow that have not the code of the left
  -- button, and release it. If neither the write of the press nor that of the release fails, then the press goes
  -- out as the left, right or middle button, by the number of fingers, the release as the same
  -- button, and no click is remembered after it. A `SYN_REPORT` follows each where its own write does
  -- not fail. Other writes may fail.
  pub batch_press_release :
      (now now' : Readings) (ts ts' value : ℤ) (es : List Timed) (s : Batch fl)
      → s.wrapper.is_absolute ≡ true
      → is_zero value ≡ false
      → All IsOther es
      → let pressed = batch_event config (now, left_button ts value) s in
        let held = batch config es pressed in
        s.v_device.refuses s.v_device.calls ≡ false
        → held.v_device.refuses held.v_device.calls ≡ false
        → let button = click_button s.wrapper.touch_fingers in
          let released = batch_event config (now', left_button ts' (pos 0)) held in
          (pressed.v_device.sent
            ≡ s.v_device.sent ++ emitted (new_event key button value) s.v_device)
          × (released.v_device.sent
              ≡ held.v_device.sent ++ emitted (new_event key button (pos 0)) held.v_device)
          × (released.wrapper.active_click_button ≡ none)
  batch_press_release now now' ts ts' value es s pad down others accepted accepted' =
      let button = click_button s.wrapper.touch_fingers in
      let pressed = batch_event config (now, left_button ts value) s in
      let (shown, kept) = press_click now ts value s pad down accepted in
      let (done, forgotten) =
        release_click button config now' ts' (batch config es pressed)
          (batch-Remembers button config es pressed others kept)
          (click_button-is_pad_button s.wrapper.touch_fingers) accepted' in
      (shown, done, forgotten)
