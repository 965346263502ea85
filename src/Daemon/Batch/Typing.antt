-- ===== src/Daemon/Batch/Typing.antt =====
-- When the last key was pressed, as the batches of a keyboard leave it for the touchpads.
use mathlib.Core.Path.{subst}
use libinput_rs.Common.{
  suc, ℕ, ◌≡◌, ◌∙◌, sym, ap, refl, true, false, not, ◌&&◌, Option, none, some, List, [], ◌∷◌, arith,
  if◌then◌else◌, if_split, if_both,
}
use libinput_rs.Common.Int.{is_zero}
use libinput_rs.Evdev.{InputEvent}
use libinput_rs.Floats.{Floats}
use libinput_rs.Daemon.Config.{InputConfig}
use libinput_rs.Daemon.Wrapper.{DeviceWrapper, VirtualDevice, Run, emit_raw}
use libinput_rs.Daemon.Process.{is_key, note_key, process_event}
use libinput_rs.Daemon.Batch.{Timed, Batch, typed, batch_event, batch}

abbrev pub press_or : Timed → Option ℕ → Option ℕ
press_or (now, ev) earlier =
    if is_key ev.event_type && not (is_zero ev.value) then some (now 0) else earlier

-- The time of the last press or repeat among the events; where there is none, the earlier one.
unfoldable pub latest_press : List Timed → Option ℕ → Option ℕ
latest_press [] earlier = earlier
latest_press (e ∷ es) earlier = latest_press es (press_or e earlier)

abbrev pub or_else : Option ℕ → Option ℕ → Option ℕ
or_else none t = t
or_else (some t) _ = some t

or_else_press :
    (e : Timed) (t g : Option ℕ) → or_else (press_or e t) (or_else t g) ≡ or_else (press_or e t) g
or_else_press e t g = ground arith

module _ {fl : Floats} where
  -- A keyboard that is not absolute too.
  pub record IsPlain (w : DeviceWrapper fl) : Type 0 where
    pub is_keyboard : w.is_keyboard ≡ true
    pub not_absolute : w.is_absolute ≡ false

  emit_raw-wrapper :
      (ev : InputEvent) (w : DeviceWrapper fl) (v : VirtualDevice) → (emit_raw ev w v).wrapper ≡ w
  unfolding emit_raw
  emit_raw-wrapper ev w v =
      if_both (λ (r : Run fl). r.wrapper ≡ w) (v.refuses v.calls) refl
        (if_both (λ (r : Run fl). r.wrapper ≡ w) (v.refuses (suc v.calls)) refl refl)

  plain_event :
      (config : InputConfig fl) (e : Timed) (b : Batch fl)
      → IsPlain b.wrapper
      → (batch_event config e b).wrapper ≡ note_key e.0 e.1 b.wrapper
  unfolding batch_event process_event
  plain_event config (now, ev) b h =
      let w = note_key now ev b.wrapper in
      if_split (λ (m : VirtualDevice → Run fl). (m b.v_device).wrapper ≡ w) b.wrapper.is_absolute
        (λ absolute. cc (absolute, h.not_absolute)) (λ _. emit_raw-wrapper ev w b.v_device)

  note_key-IsPlain : (e : Timed) (w : DeviceWrapper fl) → IsPlain w → IsPlain (note_key e.0 e.1 w)
  unfolding note_key
  note_key-IsPlain (now, ev) w h =
      let same = h.is_keyboard in let other = h.not_absolute in ground (arith, same, other)

  note_key-time :
      (e : Timed) (w : DeviceWrapper fl)
      → IsPlain w
      → (note_key e.0 e.1 w).last_typing_time ≡ press_or e w.last_typing_time
  unfolding note_key
  note_key-time (now, ev) w h = let same = h.is_keyboard in ground (arith, same)

  batch_event-IsPlain :
      (config : InputConfig fl) (e : Timed) (b : Batch fl)
      → IsPlain b.wrapper
      → IsPlain (batch_event config e b).wrapper
        × ((batch_event config e b).wrapper.last_typing_time
            ≡ press_or e b.wrapper.last_typing_time)
  batch_event-IsPlain config e b h =
      let same = plain_event config e b h in
      (
        subst IsPlain (sym same) (note_key-IsPlain e b.wrapper h),
        ap (λ w. w.last_typing_time) same ∙ note_key-time e b.wrapper h,
      )

  typed_keyboard :
      (w : DeviceWrapper fl) (t : Option ℕ)
      → w.is_keyboard ≡ true
      → typed w t ≡ or_else w.last_typing_time t
  unfolding typed
  typed_keyboard w t h = ground arith

  batch_event-typed :
      (config : InputConfig fl) (e : Timed) (b : Batch fl)
      → (batch_event config e b).last_global_typing_time
        ≡ typed (batch_event config e b).wrapper b.last_global_typing_time
  unfolding batch_event
  batch_event-typed config (now, ev) b = refl

  batch_event-time :
      (config : InputConfig fl) (e : Timed) (b : Batch fl)
      → IsPlain b.wrapper
      → (batch_event config e b).last_global_typing_time
        ≡ or_else (press_or e b.wrapper.last_typing_time) b.last_global_typing_time
  batch_event-time config e b h =
      let b' = batch_event config e b in
      let (plain, time) = batch_event-IsPlain config e b h in
      batch_event-typed config e b
      ∙ typed_keyboard b'.wrapper b.last_global_typing_time plain.is_keyboard
      ∙ ap (λ t. or_else t b.last_global_typing_time) time

  time_after :
      (config : InputConfig fl) (g : Option ℕ) (es : List Timed) (b : Batch fl)
      → IsPlain b.wrapper
      → b.last_global_typing_time ≡ or_else b.wrapper.last_typing_time g
      → (batch config es b).last_global_typing_time
        ≡ or_else (latest_press es b.wrapper.last_typing_time) g
  unfolding batch latest_press
  time_after config g [] b plain h = h
  time_after config g (e ∷ es) b plain h =
      let b' = batch_event config e b in
      let (plain', time) = batch_event-IsPlain config e b plain in
      let here : b'.last_global_typing_time ≡ or_else b'.wrapper.last_typing_time g =
        (batch_event-time config e b plain
          ∙ ap (or_else (press_or e b.wrapper.last_typing_time)) h
          ∙ or_else_press e b.wrapper.last_typing_time g
          ∙ ap (λ t. or_else t g) (sym time)) in
      time_after config g es b' plain' here ∙ ap (λ t. or_else (latest_press es t) g) time

  -- After a batch of a plain keyboard that is not empty, the typing time that the touchpads see is
  -- the time of that keyboard's own last press or repeat, in this batch or before, and the one before
  -- the batch only where that keyboard has none.
  pub batch-latest_press :
      (config : InputConfig fl) (e : Timed) (es : List Timed) (b : Batch fl)
      → IsPlain b.wrapper
      → (batch config (e ∷ es) b).last_global_typing_time
        ≡ or_else (latest_press (e ∷ es) b.wrapper.last_typing_time) b.last_global_typing_time
  unfolding batch latest_press
  batch-latest_press config e es b plain =
      let b' = batch_event config e b in
      let g = b.last_global_typing_time in
      let (plain', time) = batch_event-IsPlain config e b plain in
      time_after config g es b' plain'
        (batch_event-time config e b plain ∙ ap (λ t. or_else t g) (sym time))
      ∙ ap (λ t. or_else (latest_press es t) g) time
