-- ===== src/Daemon/Batch/Taps.antt =====
-- Taps of the daemon, and what a failed write leaves of one.
use libinput_rs.Common.{
  ℕ, suc, ◌+◌, ◌<◌, ◌≡◌, Bool, true, false, ◌||◌, some, List, [], ◌∷◌, ◌++◌, arith, refl, ap,
  append_assoc, append-nil, Option, if◌then◌else◌,
}
use libinput_rs.Common.Int.{ℤ, pos}
use libinput_rs.Evdev.{InputEvent, synchronization, key, Readings, btn_left, btn_touch}
use libinput_rs.Floats.{Floats}
use libinput_rs.Backend.Touchpad.Click.{is_pad_button}
use libinput_rs.Daemon.Config.{InputConfig}
use libinput_rs.Daemon.Wrapper.{
  DeviceWrapper, VirtualDevice, Run, ok, err, emit_raw, syn_report, new_event, ◌>>◌,
}
use libinput_rs.Daemon.Process.{
  emit_tap, touch_ends, lift, taps, fingers, buttons, map_button, dispatch, note_key, bar_tap,
  process_event, is_typing,
}

-- The three events of a tap.
abbrev pub tap_down : InputEvent
tap_down = new_event key btn_left (pos 1)

abbrev pub tap_syn : InputEvent
tap_syn = new_event synchronization 0 (pos 0)

abbrev pub tap_up : InputEvent
tap_up = new_event key btn_left (pos 0)

-- The writes of a tap: each of its three events ends a batch.
abbrev pub tap_writes : List InputEvent
tap_writes = tap_down ∷ syn_report ∷ tap_syn ∷ syn_report ∷ tap_up ∷ syn_report ∷ []

-- Of writes that begin with the `n`-th, those before the first that fails; and whether one fails.
abbrev pub written : (ℕ → Bool) → ℕ → List InputEvent → List InputEvent
written refuses n [] = []
written refuses n (ev ∷ evs) = if refuses n then [] else ev ∷ written refuses (suc n) evs

abbrev pub fails : (ℕ → Bool) → ℕ → List InputEvent → Bool
fails refuses n [] = false
fails refuses n (ev ∷ evs) = refuses n || fails refuses (suc n) evs

abbrev pub tap_written : VirtualDevice → List InputEvent
tap_written v = written v.refuses v.calls tap_writes

abbrev pub tap_fails : VirtualDevice → Bool
tap_fails v = fails v.refuses v.calls tap_writes

-- The end of a touch, as the kernel reports it.
abbrev pub touch_up : ℤ → InputEvent
touch_up timestamp = record {
  timestamp = timestamp;
  event_type = key;
  code = btn_touch;
  value = pos 0;
}

module _ {fl : Floats} where
  emit_tap_lem :
      (w : DeviceWrapper fl) (v : VirtualDevice)
      → let r = emit_tap w v in
        (r.v_device.sent ≡ v.sent ++ tap_written v)
        × (r.outcome ≡ (if tap_fails v then err else ok))
        × (r.wrapper ≡ w)
  unfolding emit_tap emit_raw ◌>>◌
  emit_tap_lem w v = ground (
    arith,
    append-nil v.sent,
    append_assoc v.sent (tap_down ∷ syn_report ∷ []) (tap_syn ∷ []),
    append_assoc v.sent (tap_down ∷ syn_report ∷ []) (tap_syn ∷ syn_report ∷ []),
    append_assoc v.sent (tap_down ∷ syn_report ∷ tap_syn ∷ syn_report ∷ []) (tap_up ∷ []),
    append_assoc v.sent (tap_down ∷ syn_report ∷ tap_syn ∷ syn_report ∷ [])
        (tap_up ∷ syn_report ∷ []),
  )

  -- A touch that ends as a tap: tap-to-click is on, no key was just typed, the finger has not moved,
  -- and the touch began less than 250 ms ago.
  abbrev pub Taps : Readings → InputConfig fl → Option ℕ → ℕ → DeviceWrapper fl → Type 0
  Taps now config typing start w =
      (w.is_absolute ≡ true)
      × (config.tap_to_click ≡ true)
      × (w.tap_emitted ≡ false)
      × (is_typing config.disable_while_typing typing (now 1) ≡ false)
      × (w.touch_start_time ≡ some start)
      × (now 3 < start + 250_000_000)

  note_key-touch_up :
      (now : Readings) (ts : ℤ) (w : DeviceWrapper fl) → note_key now (touch_up ts) w ≡ w
  unfolding note_key
  note_key-touch_up now ts w = ground arith

  taps-true :
      (now : Readings) (config : InputConfig fl) (typing : Option ℕ) (start : ℕ)
      (w : DeviceWrapper fl)
      → Taps now config typing start w
      → taps now config false w ≡ true
  unfolding taps
  taps-true now config typing start w (pad, on, still, idle, began, soon) = ground arith

  -- What stands after a run `r` of the writes of a tap: the reset follows only a success.
  abbrev Ended : DeviceWrapper fl → Bool → List InputEvent → Run fl → Type 0
  Ended w fails sent r =
      (r.v_device.sent ≡ sent)
      × (r.outcome ≡ (if fails then err else ok))
      × (r.wrapper ≡ (if fails then w else touch_ends w))

  reset_after :
      (w : DeviceWrapper fl) (fails : Bool) (sent : List InputEvent) (r : Run fl)
      → r.v_device.sent ≡ sent
      → r.outcome ≡ (if fails then err else ok)
      → r.wrapper ≡ w
      → Ended w fails sent (elim r.outcome [
        | ok ↦ record { outcome = ok; wrapper = touch_ends r.wrapper; v_device = r.v_device }
        | err ↦ r
      ])
  reset_after w true sent r s o e = rw o (s, o, e)
  reset_after w false sent r s o e = rw o (s, refl, ap touch_ends e)

  lift_lem :
      (now : Readings) (config : InputConfig fl) (w : DeviceWrapper fl) (v : VirtualDevice)
      → taps now config false w ≡ true
      → Ended
          (record w { touch_active = false })
          (tap_fails v)
          (v.sent ++ tap_written v)
          (lift now config false w v)
  unfolding lift ◌>>◌
  lift_lem now config w v t =
      let w' : DeviceWrapper fl = record w { touch_active = false } in
      let (s, o, e) = emit_tap_lem w' v in
      rw t (reset_after w' (tap_fails v) (v.sent ++ tap_written v) (emit_tap w' v) s o e)

  buttons_after :
      (ts : ℤ) (w : DeviceWrapper fl) (fails : Bool) (sent : List InputEvent) (r : Run fl)
      → Ended w fails sent r
      → Ended w fails sent
          (elim r.outcome [ ok ↦ buttons (touch_up ts) r.wrapper r.v_device | err ↦ r ])
  unfolding buttons map_button is_pad_button
  buttons_after ts w true sent r (s, o, e) = rw o (s, o, e)
  buttons_after ts w false sent r (s, o, e) = rw o (s, refl, e)

  touch_up_lem :
      (now : Readings) (config : InputConfig fl) (typing : Option ℕ) (ts : ℤ) (w : DeviceWrapper fl)
      (v : VirtualDevice)
      → w.is_absolute ≡ true
      → is_typing config.disable_while_typing typing (now 1) ≡ false
      → process_event now config typing (touch_up ts) w v
        ≡ (lift now config false >> buttons (touch_up ts)) w v
  unfolding process_event dispatch fingers bar_tap
  touch_up_lem now config typing ts w v pad idle = simp (pad, idle, note_key-touch_up now ts w)

  -- A tap writes a press of the left button, a `SYN` event and a release, each followed by a
  -- `SYN_REPORT`, in six writes. If one of the writes fails, what was written before it stands, the
  -- error comes back, and the device keeps the touch as it was, but that no finger is active; if
  -- none fails, the touch is reset.
  pub process_event-tap :
      (now : Readings) (config : InputConfig fl) (typing : Option ℕ) (ts : ℤ) (start : ℕ)
      (w : DeviceWrapper fl) (v : VirtualDevice)
      → Taps now config typing start w
      → let r = process_event now config typing (touch_up ts) w v in
        (r.v_device.sent ≡ v.sent ++ tap_written v)
        × (r.outcome ≡ (if tap_fails v then err else ok))
        × (r.wrapper ≡ (
            let lifted = record w { touch_active = false } in
            if tap_fails v then lifted else touch_ends lifted))
  unfolding ◌>>◌
  process_event-tap now config typing ts start w v t =
      let lifted : DeviceWrapper fl = record w { touch_active = false } in
      let written = v.sent ++ tap_written v in
      rw (touch_up_lem now config typing ts w v t.0 t.3) (
        buttons_after ts lifted (tap_fails v) written (lift now config false w v)
          (lift_lem now config w v (taps-true now config typing start w t)))
