-- ===== src/Daemon/Batch/Written.antt =====
-- What a touchpad makes the daemon write, over a batch of events.
use libinput_rs.Common.{
  ℕ, ◌+◌, ◌<◌, ◌==◌, ◌≡◌, ◌∙◌, refl, Bool, true, false, ◌||◌, Option, append_assoc, append-nil, ap,
  sym, some, List, [], ◌∷◌, ◌++◌, All, All-append, arith, if_split,
}
use libinput_rs.Common.Int.{ℤ, pos}
use libinput_rs.Evdev.{
  InputEvent, synchronization, key, relative, absolute, other, btn_left, rel_x, rel_y, rel_wheel,
}
use libinput_rs.Floats.{Floats}
use libinput_rs.Backend.Touchpad.Click.{is_pad_button}
use libinput_rs.Daemon.Config.{InputConfig}
use libinput_rs.Daemon.Wrapper.{DeviceWrapper, VirtualDevice, Run, syn_report, new_event}
use libinput_rs.Daemon.Process.{buttons, map_button, is_typing}
use libinput_rs.Daemon.Process.Keeps.{
  Holds, Keeps, IsStable, emit_raw-Keeps, emit_tap-Keeps, AxesHaveUnless, axes_always, axes_typing,
  process_event-Holds,
}
use libinput_rs.Daemon.Batch.{Timed, Batch, typed, batch_event, batch}

-- The capabilities that the virtual device is built with: three buttons, two axes and the wheel.
-- Every device may report `SYN` events.
unfoldable pub is_declared : InputEvent → Bool
is_declared ev = elim ev.event_type [
  | synchronization ↦ true
  | key ↦ is_pad_button ev.code
  | relative ↦ ev.code == rel_x || ev.code == rel_y || ev.code == rel_wheel
  | absolute ↦ false
  | other _ ↦ false
]

-- The events that pass while keys are typed: all but the relative ones.
abbrev pub is_still : InputEvent → Bool
is_still ev = elim ev.event_type [ relative ↦ false | _ ↦ true ]

declared_button :
    (code : ℕ) (value : ℤ)
    → is_pad_button code ≡ true
    → is_declared (new_event key code value) ≡ true
unfolding is_declared
declared_button code value h = h

declared_syn : (ev : InputEvent) → ev.event_type ≡ synchronization → is_declared ev ≡ true
unfolding is_declared
declared_syn ev e = rw e

still_syn : (ev : InputEvent) → ev.event_type ≡ synchronization → is_still ev ≡ true
still_syn ev e = rw e

typing_lem :
    (on : Bool) (t : ℕ) (typing : Option ℕ) (now : ℕ)
    → on ≡ true
    → typing ≡ some t
    → now < t + 500_000_000
    → is_typing on typing now ≡ true
unfolding is_typing
typing_lem on t typing now e recent soon = ground arith

left_pad : is_pad_button btn_left ≡ true
unfolding is_pad_button
left_pad = refl

module _ {fl : Floats} where
  -- A touchpad with the written events of a kind.
  abbrev Wrote :
      List InputEvent → Bool → (InputEvent → Type 0) → DeviceWrapper fl → VirtualDevice → Type 0
  Wrote base k Q w v =
      (w.is_absolute ≡ true)
      × (w.is_keyboard ≡ k)
      × ((out : List InputEvent) × (v.sent ≡ base ++ out) × All Q out)

  Wrote-IsStable :
      (base : List InputEvent) (k : Bool) (Q : InputEvent → Type 0)
      → Q syn_report
      → IsStable (Wrote base k Q) Q
  Wrote-IsStable base k Q report = record {
    allowed = report;
    ignores = λ w w' v same h. (same.is_absolute ∙ h.0, same.is_keyboard ∙ h.1, h.2);
    refused = λ w v h. h;
    sent = λ ev w v q h. (
      h.0,
      h.1,
      (
        h.2.0 ++ ev ∷ [],
        ap (λ l. l ++ ev ∷ []) h.2.1 ∙ append_assoc base h.2.0 (ev ∷ []),
        All-append Q h.2.0 (ev ∷ []) h.2.2 (q, tt),
      ),
    );
  }

  map_button-kind :
      (ev : InputEvent) (w : DeviceWrapper fl)
      → ((map_button ev w).0.is_absolute ≡ w.is_absolute)
        × ((map_button ev w).0.is_keyboard ≡ w.is_keyboard)
  unfolding map_button
  map_button-kind ev w = ground arith

  buttons-Wrote :
      (base : List InputEvent) (k : Bool) (Q : InputEvent → Type 0)
      → Q syn_report
      → ((code : ℕ) (value : ℤ) → is_pad_button code ≡ true → Q (new_event key code value))
      → (ev : InputEvent) → Keeps (Wrote base k Q) (buttons ev)
  unfolding buttons
  buttons-Wrote base k Q report q ev = record {
    run = λ w v h.
        (let out = map_button ev w in
          let kind = map_button-kind ev w in
          let h' : Wrote base k Q out.0 v = (kind.0 ∙ h.0, kind.1 ∙ h.1, h.2) in
          if_split
            (λ (m : DeviceWrapper fl → VirtualDevice → Run fl). Holds (Wrote base k Q) (m out.0 v))
            (is_pad_button out.1)
            (λ pad.
              (emit_raw-Keeps (Wrote base k Q) (Wrote-IsStable base k Q report)
                  (new_event key out.1 ev.value) (q out.1 ev.value pad)).run
                out.0 v h')
            (λ _. h'));
  }

  -- One event of a touchpad, where `Q` holds of all that it may write.
  process_event-Wrote :
      (base : List InputEvent) (k : Bool) (Q : InputEvent → Type 0)
      → ((code : ℕ) (value : ℤ) → is_pad_button code ≡ true → Q (new_event key code value))
      → (syn : (ev : InputEvent) → ev.event_type ≡ synchronization → Q ev)
      → (config : InputConfig fl) (e : Timed) (b : Batch fl)
      → AxesHaveUnless
          (Wrote base k Q)
          (Wrote-IsStable base k Q (syn syn_report refl))
          (is_typing config.disable_while_typing b.last_global_typing_time (e.0 1))
      → Wrote base k Q b.wrapper b.v_device
      → Wrote base k Q (batch_event config e b).wrapper (batch_event config e b).v_device
  unfolding batch_event
  process_event-Wrote base k Q button syn config (now, ev) b axes h =
      let stable = Wrote-IsStable base k Q (syn syn_report refl) in
      let left = λ (value : ℤ). button btn_left value left_pad in
      process_event-Holds (Wrote base k Q) stable now config b.last_global_typing_time ev b.wrapper
        b.v_device h.0
        (emit_tap-Keeps (Wrote base k Q) stable (left (pos 1))
          (syn (new_event synchronization 0 (pos 0)) refl) (left (pos 0)))
        axes (syn ev) (λ _. buttons-Wrote base k Q (syn syn_report refl) button ev) h

  declared_after :
      (base : List InputEvent) (config : InputConfig fl) (es : List Timed) (b : Batch fl)
      → Wrote base b.wrapper.is_keyboard (λ ev. is_declared ev ≡ true) b.wrapper b.v_device
      → (out : List InputEvent) × ((batch config es b).v_device.sent ≡ base ++ out)
        × All (λ ev. is_declared ev ≡ true) out
  unfolding batch is_declared
  declared_after base config [] b h = h.2
  declared_after base config (e ∷ es) b h =
      let k = b.wrapper.is_keyboard in
      let Q = (λ (ev : InputEvent). is_declared ev ≡ true) in
      let next =
        process_event-Wrote base k Q declared_button declared_syn config e b
          (axes_always (Wrote base k Q) (Wrote-IsStable base k Q (declared_syn syn_report refl))
            (is_typing config.disable_while_typing b.last_global_typing_time (e.0 1))
            (λ value. (refl, refl, refl)))
          h in
      declared_after base config es (batch_event config e b) (next.0, refl, next.2)

  -- Whatever events a touchpad sends, and whichever writes fail, the daemon adds only events that the
  -- virtual device is built for: its three buttons, the axes and the wheel, and `SYN` events.
  pub batch_declared :
      (config : InputConfig fl) (es : List Timed) (b : Batch fl)
      → b.wrapper.is_absolute ≡ true
      → (out : List InputEvent) × ((batch config es b).v_device.sent ≡ b.v_device.sent ++ out)
        × All (λ ev. is_declared ev ≡ true) out
  batch_declared config es b pad =
      declared_after b.v_device.sent config es b (pad, refl, ([], sym (append-nil _), tt))

  typed_event :
      (config : InputConfig fl) (e : Timed) (b : Batch fl)
      → (batch_event config e b).wrapper.is_keyboard ≡ false
      → (batch_event config e b).last_global_typing_time ≡ b.last_global_typing_time
  unfolding batch_event typed
  typed_event config (now, ev) b e = rw e

  still_after :
      (base : List InputEvent) (config : InputConfig fl) (t : ℕ) (es : List Timed) (b : Batch fl)
      → config.disable_while_typing ≡ true
      → b.last_global_typing_time ≡ some t
      → All (λ e. e.0 1 < t + 500_000_000) es
      → Wrote base false (λ ev. is_still ev ≡ true) b.wrapper b.v_device
      → (out : List InputEvent) × ((batch config es b).v_device.sent ≡ base ++ out)
        × All (λ ev. is_still ev ≡ true) out
  unfolding batch
  still_after base config t [] b on recent soon h = h.2
  still_after base config t (e ∷ es) b on recent (now, soon) h =
      let Q = (λ (ev : InputEvent). is_still ev ≡ true) in
      let typing =
        typing_lem config.disable_while_typing t b.last_global_typing_time (e.0 1) on recent now in
      let next =
        process_event-Wrote base false Q (λ code value p. refl) still_syn config e b
          (axes_typing (Wrote base false Q)
            (Wrote-IsStable base false Q (still_syn syn_report refl)) _ typing)
          h in
      still_after base config t es (batch_event config e b) on
        (typed_event config e b next.1 ∙ recent) soon next

  -- While the clock stands within 500 ms of a key press, disable-while-typing lets a touchpad that is
  -- no keyboard add no motion and no wheel to what the daemon wrote, whatever events it sends and
  -- whichever writes fail.
  pub batch_still :
      (config : InputConfig fl) (t : ℕ) (es : List Timed) (b : Batch fl)
      → config.disable_while_typing ≡ true
      → b.wrapper.is_absolute ≡ true
      → b.wrapper.is_keyboard ≡ false
      → b.last_global_typing_time ≡ some t
      → All (λ e. e.0 1 < t + 500_000_000) es
      → (out : List InputEvent) × ((batch config es b).v_device.sent ≡ b.v_device.sent ++ out)
        × All (λ ev. is_still ev ≡ true) out
  batch_still config t es b on pad not_keyboard recent soon =
      still_after b.v_device.sent config t es b on recent soon
        (pad, not_keyboard, ([], sym (append-nil _), tt))
