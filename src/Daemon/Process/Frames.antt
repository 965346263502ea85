-- ===== src/Daemon/Process/Frames.antt =====
-- What a frame of one finger writes, where no write fails.
use mathlib.Core.Path.{subst}
use libinput_rs.Common.{
  suc, ℕ, ◌≡◌, ◌∙◌, refl, sym, ap, true, false, List, [], ◌∷◌, ◌++◌, ◌==◌, arith, Bool-cases, inl,
  inr, leb, append_assoc, append-nil, if◌then◌else◌,
}
use libinput_rs.Common.Int.{ℤ, pos, is_zero}
use libinput_rs.Evdev.{InputEvent, relative, rel_x, rel_y}
use libinput_rs.Floats.{Floats}
use libinput_rs.Backend.Touchpad.Sync.{point_total, leftover}
use libinput_rs.Daemon.Config.{InputConfig}
use libinput_rs.Daemon.Wrapper.{
  DeviceWrapper, VirtualDevice, Run, Action, Outcome, ok, err, emit_raw, syn_report, update,
  new_event, ◌>>◌,
}
use libinput_rs.Daemon.Process.{emit_relative, point, move_frame, is_moved, sync}

-- A relative event in a batch of its own, if the value is not zero.
abbrev pub relative_event : ℕ → ℤ → List InputEvent
relative_event code value =
    if is_zero value then [] else new_event relative code value ∷ syn_report ∷ []

accepts :
    (v v' : VirtualDevice)
    → ((n : ℕ) → v.refuses n ≡ false)
    → v'.refuses ≡ v.refuses
    → (n : ℕ) → v'.refuses n ≡ false
accepts v v' h same n = ap (λ f. f n) same ∙ h n

module _ {fl : Floats} where
  -- A run that succeeds: which device it leaves, and what it writes.
  pub record Wrote (v : VirtualDevice) (w : DeviceWrapper fl) (out : List InputEvent) (r : Run fl)
      : Type 0 where
    pub outcome : r.outcome ≡ ok
    pub wrapper : r.wrapper ≡ w
    pub sent : r.v_device.sent ≡ v.sent ++ out
    pub refuses : r.v_device.refuses ≡ v.refuses

  emit_relative-Wrote :
      (code : ℕ) (value : ℤ) (w : DeviceWrapper fl) (v : VirtualDevice)
      → ((n : ℕ) → v.refuses n ≡ false)
      → Wrote v w (relative_event code value) (emit_relative code value w v)
  unfolding emit_raw
  emit_relative-Wrote code value w v h = elim (Bool-cases (is_zero value)) [
    | inl e ↦
        rw e (record {
          outcome = refl;
          wrapper = refl;
          sent = sym (append-nil v.sent);
          refuses = refl;
        })
    | inr e ↦
        rw (e, h v.calls, h (suc v.calls))
          (record { outcome = refl; wrapper = refl; sent = refl; refuses = refl })
  ]

  go_on :
      (v : VirtualDevice) (w : DeviceWrapper fl) (out : List InputEvent) (k : Action fl)
      (r : Run fl) (o : Outcome)
      → o ≡ ok
      → Wrote v w out (k r.wrapper r.v_device)
      → Wrote v w out (elim o [ ok ↦ k r.wrapper r.v_device | err ↦ r ])
  go_on v w out k r ok e h = h
  go_on v w out k r err e h = cc

  >>-Wrote :
      (m k : Action fl) (w w' w'' : DeviceWrapper fl) (v : VirtualDevice)
      (out out' : List InputEvent)
      → Wrote v w' out (m w v)
      → ((v' : VirtualDevice) → v'.refuses ≡ v.refuses → Wrote v' w'' out' (k w' v'))
      → Wrote v w'' (out ++ out') ((m >> k) w v)
  unfolding ◌>>◌
  >>-Wrote m k w w' w'' v out out' first next =
      let r = m w v in
      let after : Wrote r.v_device w'' out' (k r.wrapper r.v_device) =
        subst (λ x. Wrote r.v_device w'' out' (k x r.v_device)) (sym first.wrapper)
          (next r.v_device first.refuses) in
      go_on v w'' (out ++ out') k r r.outcome first.outcome (record {
        outcome = after.outcome;
        wrapper = after.wrapper;
        sent = after.sent ∙ ap (λ l. l ++ out') first.sent ∙ append_assoc v.sent out out';
        refuses = after.refuses ∙ first.refuses;
      })

  update-Wrote :
      (f : DeviceWrapper fl → DeviceWrapper fl) (w : DeviceWrapper fl) (v : VirtualDevice)
      → Wrote v (f w) [] (update f w v)
  update-Wrote f w v = record {
    outcome = refl;
    wrapper = refl;
    sent = sym (append-nil v.sent);
    refuses = refl;
  }

  -- What one finger moves on the daemon.
  point-Wrote :
      (config : InputConfig fl) (w : DeviceWrapper fl) (v : VirtualDevice)
      → ((n : ℕ) → v.refuses n ≡ false)
      → let total_x = point_total fl config.pointer_acceleration w.current_dx w.remainder_x in
        let total_y = point_total fl config.pointer_acceleration w.current_dy w.remainder_y in
        Wrote v
          (record w { remainder_x = leftover fl total_x; remainder_y = leftover fl total_y })
          (relative_event rel_x (fl.round_as_i32 total_x)
            ++ relative_event rel_y (fl.round_as_i32 total_y))
          (point config w v)
  unfolding point
  point-Wrote config w v h =
      let total_x = point_total fl config.pointer_acceleration w.current_dx w.remainder_x in
      let total_y = point_total fl config.pointer_acceleration w.current_dy w.remainder_y in
      let f = (λ (w : DeviceWrapper fl). record w {
        remainder_x = leftover fl total_x;
        remainder_y = leftover fl total_y;
      }) in
      let ex = fl.round_as_i32 total_x in
      let ey = fl.round_as_i32 total_y in
      >>-Wrote (update f >> emit_relative rel_x ex) (emit_relative rel_y ey) w (f w) (f w) v
        (relative_event rel_x ex) (relative_event rel_y ey)
        (>>-Wrote (update f) (emit_relative rel_x ex) w (f w) (f w) v [] (relative_event rel_x ex)
          (update-Wrote f w v)
          (λ v' same. emit_relative-Wrote rel_x ex (f w) v' (accepts v v' h same)))
        (λ v' same. emit_relative-Wrote rel_y ey (f w) v' (accepts v v' h same))

  -- The device after a frame of one finger.
  abbrev pub moved_on : InputConfig fl → DeviceWrapper fl → DeviceWrapper fl
  moved_on config w = record w {
    tap_emitted = true;
    remainder_x =
        leftover fl (point_total fl config.pointer_acceleration w.current_dx w.remainder_x);
    remainder_y =
        leftover fl (point_total fl config.pointer_acceleration w.current_dy w.remainder_y);
    current_dx = pos 0;
    current_dy = pos 0;
  }

  abbrev pub pointed : InputConfig fl → DeviceWrapper fl → List InputEvent
  pointed config w =
      relative_event rel_x
        (fl.round_as_i32 (point_total fl config.pointer_acceleration w.current_dx w.remainder_x))
      ++ relative_event rel_y
          (fl.round_as_i32 (point_total fl config.pointer_acceleration w.current_dy w.remainder_y))

  frame-Wrote :
      (config : InputConfig fl) (w : DeviceWrapper fl) (v : VirtualDevice)
      → ((n : ℕ) → v.refuses n ≡ false)
      → leb w.touch_fingers 1 ≡ true
      → Wrote v (moved_on config w) (pointed config w) (move_frame config w v)
  unfolding move_frame
  frame-Wrote config w v h one =
      let w1 : DeviceWrapper fl = record w { tap_emitted = true } in
      let w2 : DeviceWrapper fl = record w1 {
        remainder_x =
            leftover fl (point_total fl config.pointer_acceleration w.current_dx w.remainder_x);
        remainder_y =
            leftover fl (point_total fl config.pointer_acceleration w.current_dy w.remainder_y);
      } in
      let clear = (λ (w : DeviceWrapper fl). record w { current_dx = pos 0; current_dy = pos 0 }) in
      let m = (λ (a : Action fl).
        (update (λ w. record w { tap_emitted = true }) >> a >> update clear) w v) in
      let whole : Wrote v (moved_on config w) (pointed config w ++ []) (m (point config)) =
        (>>-Wrote (update (λ w. record w { tap_emitted = true }) >> point config) (update clear) w
          w2 (moved_on config w) v (pointed config w) []
          (>>-Wrote (update (λ w. record w { tap_emitted = true })) (point config) w w1 w2 v []
            (pointed config w) (update-Wrote (λ w. record w { tap_emitted = true }) w v)
            (λ v' same. point-Wrote config w1 v' (accepts v v' h same)))
          (λ v' same. update-Wrote clear w2 v')) in
      rw one (
        subst (λ out. Wrote v (moved_on config w) out (m (point config)))
          (append-nil (pointed config w)) whole)

  emit_raw-Wrote :
      (ev : InputEvent) (w : DeviceWrapper fl) (v : VirtualDevice)
      → ((n : ℕ) → v.refuses n ≡ false)
      → Wrote v w (ev ∷ syn_report ∷ []) (emit_raw ev w v)
  unfolding emit_raw
  emit_raw-Wrote ev w v h =
      rw (h v.calls, h (suc v.calls))
        (record { outcome = refl; wrapper = refl; sent = refl; refuses = refl })

  pub sync-Wrote :
      (config : InputConfig fl) (ev : InputEvent) (w : DeviceWrapper fl) (v : VirtualDevice)
      → ((n : ℕ) → v.refuses n ≡ false)
      → ev.code ≡ 0
      → leb w.touch_fingers 1 ≡ true
      → is_moved w ≡ true
      → Wrote v
          (moved_on config w)
          (pointed config w ++ ev ∷ syn_report ∷ [])
          (sync config false ev w v)
  unfolding sync
  sync-Wrote config ev w v h syn one moved =
      let report : (ev.code == 0) ≡ true = ground arith in
      let whole =
        >>-Wrote (move_frame config) (emit_raw ev) w (moved_on config w) (moved_on config w) v
          (pointed config w) (ev ∷ syn_report ∷ []) (frame-Wrote config w v h one)
          (λ v' same. emit_raw-Wrote ev (moved_on config w) v' (accepts v v' h same)) in
      rw (report, moved) whole
