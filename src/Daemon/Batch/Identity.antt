-- ===== src/Daemon/Batch/Identity.antt =====
-- What no event changes of a device of the daemon: what it is, and its path.
use libinput_rs.Common.{◌≡◌, refl, Bool, true, false, List, [], ◌∷◌, arith, if_split}
use libinput_rs.Evdev.{InputEvent}
use libinput_rs.Floats.{Floats}
use libinput_rs.Backend.Touchpad.Click.{is_pad_button}
use libinput_rs.Daemon.Config.{InputConfig}
use libinput_rs.Daemon.Wrapper.{DeviceWrapper, VirtualDevice, Run, new_event}
use libinput_rs.Daemon.Process.{buttons, map_button, note_key, process_event, is_typing}
use libinput_rs.Evdev.{key}
use libinput_rs.Daemon.Process.Keeps.{
  Keeps, IsStable, emit_raw-Keeps, when-Keeps, emit_tap-Keeps, axes_always, process_event-Holds,
}
use libinput_rs.Daemon.Batch.{Timed, Batch, batch_event, batch}

pub record SameDevice {fl : Floats} (w w' : DeviceWrapper fl) : Type 0 where
  pub device : w'.device ≡ w.device
  pub path : w'.path ≡ w.path
  pub is_absolute : w'.is_absolute ≡ w.is_absolute
  pub is_keyboard : w'.is_keyboard ≡ w.is_keyboard

module _ {fl : Floats} (w0 : DeviceWrapper fl) where
  abbrev Is : DeviceWrapper fl → VirtualDevice → Type 0
  Is w v = SameDevice w0 w

  Is-IsStable : IsStable Is (λ _. Unit {0})
  Is-IsStable = record {
    allowed = tt;
    ignores = λ w w' v same h. ground arith;
    refused = λ w v h. h;
    sent = λ ev w v q h. h;
  }

  map_button-Is :
      (ev : InputEvent) (w : DeviceWrapper fl) → SameDevice w0 w → SameDevice w0 (map_button ev w).0
  unfolding map_button
  map_button-Is ev w h = ground arith

  buttons-Is : (ev : InputEvent) → Keeps Is (buttons ev)
  unfolding buttons
  buttons-Is ev = record {
    run = λ w v h.
        (let out = map_button ev w in
          (when-Keeps Is (is_pad_button out.1)
              (emit_raw-Keeps Is Is-IsStable (new_event key out.1 ev.value) tt)).run
            out.0 v (map_button-Is ev w h));
  }

  note_key-Is :
      (e : Timed) (w : DeviceWrapper fl) → SameDevice w0 w → SameDevice w0 (note_key e.0 e.1 w)
  unfolding note_key
  note_key-Is e w h = ground arith

  other_device :
      (config : InputConfig fl) (e : Timed) (b : Batch fl)
      → b.wrapper.is_absolute ≡ false
      → SameDevice w0 b.wrapper
      → SameDevice w0 (batch_event config e b).wrapper
  unfolding batch_event process_event
  other_device config e b other h =
      let w = note_key e.0 e.1 b.wrapper in
      let kept =
        (emit_raw-Keeps Is Is-IsStable e.1 tt).run w b.v_device (note_key-Is e b.wrapper h) in
      if_split (λ (m : VirtualDevice → Run fl). SameDevice w0 (m b.v_device).wrapper)
        b.wrapper.is_absolute (λ yes_pad. cc (yes_pad, other)) (λ _. kept)

  touchpad :
      (config : InputConfig fl) (e : Timed) (b : Batch fl)
      → b.wrapper.is_absolute ≡ true
      → SameDevice w0 b.wrapper
      → SameDevice w0 (batch_event config e b).wrapper
  unfolding batch_event
  touchpad config e b pad h =
      process_event-Holds Is Is-IsStable e.0 config b.last_global_typing_time e.1 b.wrapper
        b.v_device pad (emit_tap-Keeps Is Is-IsStable tt tt tt)
        (axes_always Is Is-IsStable
          (is_typing config.disable_while_typing b.last_global_typing_time (e.0 1))
          (λ value. (tt, tt, tt)))
        (λ _. tt) (λ _. buttons-Is e.1) h

  batch_event-SameDevice :
      (config : InputConfig fl) (e : Timed) (b : Batch fl)
      → SameDevice w0 b.wrapper
      → SameDevice w0 (batch_event config e b).wrapper
  batch_event-SameDevice config e b h = go b.wrapper.is_absolute refl
    where
      go : (a : Bool) → b.wrapper.is_absolute ≡ a → SameDevice w0 (batch_event config e b).wrapper
      go true pad = touchpad config e b pad h
      go false other = other_device config e b other h

  batch_keeps :
      (config : InputConfig fl) (es : List Timed) (b : Batch fl)
      → SameDevice w0 b.wrapper
      → SameDevice w0 (batch config es b).wrapper
  unfolding batch
  batch_keeps config [] b h = h
  batch_keeps config (e ∷ es) b h =
      batch_keeps config es (batch_event config e b) (batch_event-SameDevice config e b h)

pub batch-SameDevice :
    {fl : Floats} (config : InputConfig fl) (es : List Timed) (b : Batch fl)
    → SameDevice b.wrapper (batch config es b).wrapper
batch-SameDevice config es b = batch_keeps b.wrapper config es b (ground arith)
