-- ===== src/Daemon/Process/Keeps.antt =====
-- What the handlers of the daemon keep, because each write and each change of the device keeps it.
use mathlib.Core.Path.{subst}
use libinput_rs.Common.{
  append_assoc, ℕ, suc, ◌++◌, [], ◌∷◌, ◌≡◌, refl, Bool, true, false, not, ◌||◌, Option, if_both,
  leb, ◌==◌, arith, if_split, if◌then◌else◌,
}
use libinput_rs.Common.Int.{ℤ, pos, is_zero}
use libinput_rs.Common.Word.{i32_neg}
use libinput_rs.Evdev.{
  InputEvent, EventType, synchronization, key, relative, absolute, other, Readings, btn_left,
  btn_touch, btn_tool_doubletap, btn_tool_tripletap, rel_x, rel_y, rel_wheel,
}
use libinput_rs.Floats.{Floats}
use libinput_rs.Backend.Touchpad.Sync.{point_total, scroll_total, leftover}
use libinput_rs.Daemon.Config.{InputConfig}
use libinput_rs.Daemon.Wrapper.{
  DeviceWrapper, VirtualDevice, Run, Outcome, ok, err, Action, emit_raw, syn_report, done, update,
  when, ◌>>◌, new_event,
}
use libinput_rs.Daemon.Process.{
  note_key, taps, emit_tap, touch_begins, touch_ends, lift, fingers, buttons, axis, note_movement,
  is_moved, forget_movement, emit_relative, point, scroll, move_frame, sync, dispatch, bar_tap,
  process_event, is_typing,
}

-- The fields that no handler changes, but for the remembered click, which only a button changes.
pub record Same {fl : Floats} (w w' : DeviceWrapper fl) : Type 0 where
  pub device : w'.device ≡ w.device
  pub path : w'.path ≡ w.path
  pub is_absolute : w'.is_absolute ≡ w.is_absolute
  pub is_keyboard : w'.is_keyboard ≡ w.is_keyboard
  pub active_click_button : w'.active_click_button ≡ w.active_click_button

module _ {ℓ} {fl : Floats} (P : DeviceWrapper fl → VirtualDevice → Type ℓ) where
  abbrev pub Holds : Run fl → Type ℓ
  Holds r = P r.wrapper r.v_device

  -- A handler keeps it, however it ends.
  pub record Keeps (m : Action fl) : Type ℓ where
    pub run : (w : DeviceWrapper fl) (v : VirtualDevice) → P w v → Holds (m w v)

  then_holds :
      (k : Action fl)
      → Keeps k
      → (r : Run fl) (o : Outcome) → Holds r
      → Holds (elim o [ ok ↦ k r.wrapper r.v_device | err ↦ r ])
  then_holds k keep r ok h = keep.run r.wrapper r.v_device h
  then_holds k keep r err h = h

  pub >>-Keeps : {m k : Action fl} → Keeps m → Keeps k → Keeps (m >> k)
  unfolding ◌>>◌
  >>-Keeps {m} {k} km kk = record {
    run = λ w v h. then_holds k kk (m w v) (m w v).outcome (km.run w v h);
  }

  pub if-Keeps : (b : Bool) {m k : Action fl} → Keeps m → Keeps k → Keeps (if b then m else k)
  if-Keeps true km kk = km
  if-Keeps false km kk = kk

  pub done-Keeps : Keeps done
  done-Keeps = record { run = λ w v h. h }

  pub when-Keeps : (b : Bool) {m : Action fl} → Keeps m → Keeps (when b m)
  when-Keeps b km = if-Keeps b km done-Keeps

  -- It depends only on those fields of the device, and every write of an event with
  -- `Q` keeps it, whether it fails or not; the event that ends a batch is one.
  pub record IsStable {κ} (Q : InputEvent → Type κ) : Type (ℓ ⊔ κ) where
    pub allowed : Q syn_report
    pub ignores : (w w' : DeviceWrapper fl) (v : VirtualDevice) → Same w w' → P w v → P w' v
    pub refused :
        (w : DeviceWrapper fl) (v : VirtualDevice) → P w v → P w (record v { calls = suc v.calls })
    pub sent :
        (ev : InputEvent) (w : DeviceWrapper fl) (v : VirtualDevice)
        → Q ev
        → P w v
        → P w (record v { calls = suc v.calls; sent = v.sent ++ ev ∷ [] })

  module _ {κ} {Q : InputEvent → Type κ} (s : IsStable Q) where
    pub emit_raw-Keeps : (ev : InputEvent) → Q ev → Keeps (emit_raw ev)
    unfolding emit_raw
    emit_raw-Keeps ev q = record {
      run = λ w v h.
          (let v1 : VirtualDevice = record v { calls = suc v.calls; sent = v.sent ++ ev ∷ [] } in
            let h1 : P w v1 = s.sent ev w v q h in
            let both =
              subst (λ l. P w (record v { calls = suc (suc v.calls); sent = l }))
                (append_assoc v.sent (ev ∷ []) (syn_report ∷ []))
                (s.sent syn_report w v1 s.allowed h1) in
            if_both Holds (v.refuses v.calls) (s.refused w v h)
              (if_both Holds (v.refuses (suc v.calls)) (s.refused w v1 h1) both));
    }

    update-Keeps :
        (f : DeviceWrapper fl → DeviceWrapper fl)
        → ((w : DeviceWrapper fl) → Same w (f w))
        → Keeps (update f)
    update-Keeps f same = record { run = λ w v h. s.ignores w (f w) v (same w) h }

    pub emit_tap-Keeps :
        Q (new_event key btn_left (pos 1))
        → Q (new_event synchronization 0 (pos 0))
        → Q (new_event key btn_left (pos 0))
        → Keeps emit_tap
    unfolding emit_tap
    emit_tap-Keeps down syn up =
        >>-Keeps
          (>>-Keeps (emit_raw-Keeps (new_event key btn_left (pos 1)) down)
            (emit_raw-Keeps (new_event synchronization 0 (pos 0)) syn))
          (emit_raw-Keeps (new_event key btn_left (pos 0)) up)

    fingers-Keeps :
        (now : Readings) (config : InputConfig fl) (dwt : Bool) (ev : InputEvent)
        → Keeps emit_tap
        → Keeps (fingers now config dwt ev)
    unfolding fingers lift touch_begins touch_ends
    fingers-Keeps now config dwt ev tap =
        let released = update-Keeps (λ w. record w { touch_active = false }) (λ w. ground arith) in
        let count =
          λ (n : ℕ). update-Keeps (λ w. record w { touch_fingers = n }) (λ w. ground arith) in
        let up = is_zero ev.value in
        if-Keeps (ev.code == btn_touch)
          (if-Keeps up
            (record {
              run = λ w.
                  (>>-Keeps (>>-Keeps released (when-Keeps (taps now config dwt w) tap))
                      (update-Keeps touch_ends (λ w. ground arith))).run
                    w;
            })
            (update-Keeps (touch_begins now) (λ w. ground arith)))
          (if-Keeps (ev.code == btn_tool_doubletap) (count (if up then 1 else 2))
            (if-Keeps (ev.code == btn_tool_tripletap) (count (if up then 2 else 3)) done-Keeps))

    emit_relative-Keeps :
        (code : ℕ) (value : ℤ)
        → Q (new_event relative code value)
        → Keeps (emit_relative code value)
    emit_relative-Keeps code value q =
        when-Keeps (not (is_zero value)) (emit_raw-Keeps (new_event relative code value) q)

    -- Relative events of the three axes have `Q`.
    abbrev pub AxesHave : Type κ
    AxesHave =
        (value : ℤ)
        → Q (new_event relative rel_x value)
          × Q (new_event relative rel_y value)
          × Q (new_event relative rel_wheel value)

    point-Keeps : (config : InputConfig fl) → AxesHave → Keeps (point config)
    unfolding point
    point-Keeps config q = record {
      run = λ w.
          (let x = point_total fl config.pointer_acceleration w.current_dx w.remainder_x in
            let y = point_total fl config.pointer_acceleration w.current_dy w.remainder_y in
            let kept =
              >>-Keeps
                (>>-Keeps
                  (update-Keeps
                    (λ w. record w { remainder_x = leftover fl x; remainder_y = leftover fl y })
                    (λ w. ground arith))
                  (emit_relative-Keeps rel_x (fl.round_as_i32 x) (q (fl.round_as_i32 x)).0))
                (emit_relative-Keeps rel_y (fl.round_as_i32 y) (q (fl.round_as_i32 y)).1) in
            kept.run w);
    }

    scroll-Keeps : (config : InputConfig fl) → AxesHave → Keeps (scroll config)
    unfolding scroll
    scroll-Keeps config q = record {
      run = λ w.
          (let y = scroll_total fl w.current_dy w.remainder_y in
            let wheel = fl.round_as_i32 y in
            let value = if config.natural_scrolling then i32_neg wheel else wheel in
            let kept =
              >>-Keeps
                (>>-Keeps
                  (update-Keeps (λ w. record w { remainder_y = leftover fl y }) (λ w. ground arith))
                  (when-Keeps (not (is_zero wheel))
                    (emit_raw-Keeps (new_event relative rel_wheel value) (q value).2)))
                (update-Keeps (λ w. record w { remainder_x = fl.f32 0 1 }) (λ w. ground arith)) in
            kept.run w);
    }

    move_frame-Keeps : (config : InputConfig fl) → AxesHave → Keeps (move_frame config)
    unfolding move_frame
    move_frame-Keeps config q = record {
      run = λ w.
          (let kept =
              >>-Keeps
                (>>-Keeps (update-Keeps (λ w. record w { tap_emitted = true }) (λ w. ground arith))
                  (if-Keeps (leb w.touch_fingers 1) (point-Keeps config q)
                    (if-Keeps (w.touch_fingers == 2) (scroll-Keeps config q) done-Keeps)))
                (update-Keeps (λ w. record w { current_dx = pos 0; current_dy = pos 0 })
                  (λ w. ground arith)) in
            kept.run w);
    }

    -- While keys are typed no relative event is written.
    pub AxesHaveUnless : Bool → Type κ
    AxesHaveUnless true = Unit
    AxesHaveUnless false = AxesHave

    pub axes_always : (typing : Bool) → AxesHave → AxesHaveUnless typing
    unfolding AxesHaveUnless
    axes_always true a = tt
    axes_always false a = a

    pub axes_typing : (typing : Bool) → typing ≡ true → AxesHaveUnless typing
    unfolding AxesHaveUnless
    axes_typing true e = tt
    axes_typing false e = cc

    frame-Keeps :
        (config : InputConfig fl) (dwt : Bool)
        → AxesHaveUnless dwt
        → (moved : Bool)
        → Keeps (if dwt then update forget_movement else when moved (move_frame config))
    unfolding forget_movement AxesHaveUnless
    frame-Keeps config true q moved = update-Keeps forget_movement (λ w. ground arith)
    frame-Keeps config false q moved = when-Keeps moved (move_frame-Keeps config q)

    sync-Keeps :
        (config : InputConfig fl) (dwt : Bool) (ev : InputEvent)
        → AxesHaveUnless dwt
        → Q ev
        → Keeps (sync config dwt ev)
    unfolding sync
    sync-Keeps config dwt ev q r = record {
      run = λ w.
          (let written = emit_raw-Keeps ev r in
            let report =
              >>-Keeps (frame-Keeps config dwt q (is_moved w))
                (when-Keeps (is_moved w || not dwt) written) in
            if_both (λ (m : VirtualDevice → Run fl). (v : VirtualDevice) → P w v → Holds (m v))
              (ev.code == 0) (report.run w) (written.run w));
    }

    -- One event of a touchpad keeps it, if what the handler of buttons does keeps it.
    dispatch-Keeps :
        (now : Readings) (config : InputConfig fl) (dwt : Bool) (ev : InputEvent) (ty : EventType)
        → Keeps emit_tap
        → AxesHaveUnless dwt
        → (ty ≡ synchronization → Q ev)
        → (ty ≡ key → Keeps (buttons ev))
        → Keeps (dispatch now config dwt ty ev)
    unfolding dispatch axis note_movement
    dispatch-Keeps now config dwt ev key tap q r b =
        >>-Keeps (fingers-Keeps now config dwt ev tap) (b refl)
    dispatch-Keeps now config dwt ev absolute tap q r b =
        update-Keeps (axis now ev.code ev.value) (λ w. ground arith)
    dispatch-Keeps now config dwt ev synchronization tap q r b = sync-Keeps config dwt ev q (r refl)
    dispatch-Keeps now config dwt ev relative tap q r b = done-Keeps
    dispatch-Keeps now config dwt ev (other n) tap q r b = done-Keeps

    pub process_event-Holds :
        (now : Readings) (config : InputConfig fl) (typing : Option ℕ) (ev : InputEvent)
        (w : DeviceWrapper fl) (v : VirtualDevice)
        → w.is_absolute ≡ true
        → Keeps emit_tap
        → AxesHaveUnless (is_typing config.disable_while_typing typing (now 1))
        → (ev.event_type ≡ synchronization → Q ev)
        → (ev.event_type ≡ key → Keeps (buttons ev))
        → P w v
        → Holds (process_event now config typing ev w v)
    unfolding process_event note_key bar_tap
    process_event-Holds now config typing ev w v pad tap q r b h =
        let dwt = is_typing config.disable_while_typing typing (now 1) in
        let kept = dispatch-Keeps now config dwt ev ev.event_type tap q r b in
        let w' = bar_tap dwt (note_key now ev w) in
        let h' = s.ignores w w' v (ground arith) h in
        if_split (λ (m : VirtualDevice → Run fl). Holds (m v)) w.is_absolute (λ _. kept.run w' v h')
          (λ not_pad. cc (pad, not_pad))
