-- ===== src/Daemon/Batch.antt =====
-- src/event_loop.rs, `run`: the loop over the events that were fetched from one
-- device. An error of the handler is logged, and the next event follows.
pub mod Written
pub mod Clicks
pub mod Taps
pub mod Identity
pub mod Typing
use libinput_rs.Common.{
  ℕ, ◌==◌, Bool, true, false, ◌&&◌, ◌||◌, Option, none, some, List, [], ◌∷◌, if◌then◌else◌,
}
use libinput_rs.Common.Int.{is_one}
use libinput_rs.Evdev.{InputEvent, Readings, key_r}
use libinput_rs.Floats.{Floats}
use libinput_rs.Daemon.Config.{InputConfig}
use libinput_rs.Daemon.Wrapper.{DeviceWrapper, VirtualDevice}
use libinput_rs.Daemon.Process.{is_key, process_event}

-- An event, with the clock readings made while it is handled.
abbrev pub Timed : Type 0
Timed = Readings × InputEvent

pub record Batch (fl : Floats) : Type 0 where
  pub wrapper : DeviceWrapper fl
  pub v_device : VirtualDevice
  pub last_global_typing_time : Option ℕ
  pub trigger_reset : Bool

module _ {fl : Floats} where
  -- `R` is pressed on a keyboard while Ctrl and Alt count as pressed.
  unfoldable pub is_reset_chord : InputEvent → DeviceWrapper fl → Bool
  is_reset_chord ev w =
      w.is_keyboard
      && is_key ev.event_type
      && is_one ev.value
      && (ev.code == key_r)
      && w.ctrl_pressed
      && w.alt_pressed

  -- A keyboard's typing time becomes the global one.
  unfoldable pub typed : DeviceWrapper fl → Option ℕ → Option ℕ
  typed w typing =
      if w.is_keyboard
      then (elim w.last_typing_time [ none ↦ typing | some t ↦ some t ])
      else typing

  unfoldable pub batch_event : InputConfig fl → Timed → Batch fl → Batch fl
  unfolding is_reset_chord typed
  batch_event config (now, ev) b =
      let r = process_event now config b.last_global_typing_time ev b.wrapper b.v_device in
      record {
        wrapper = r.wrapper;
        v_device = r.v_device;
        last_global_typing_time = typed r.wrapper b.last_global_typing_time;
        trigger_reset = b.trigger_reset || is_reset_chord ev b.wrapper;
      }

  unfoldable pub batch : InputConfig fl → List Timed → Batch fl → Batch fl
  batch config [] b = b
  batch config (e ∷ es) b = batch config es (batch_event config e b)
