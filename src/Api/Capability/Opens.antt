-- ===== src/Api/Capability/Opens.antt =====
-- Opening devices, none of which is a keyboard with absolute axes that is no pointer.
use Prim.Native.String.{String}
use libinput_rs.Common.{
  ℕ, ◌≡◌, refl, true, not, ◌&&◌, Option, none, some, List, [], ◌∷◌, All, arith, if_both, if_split,
  false, unwrap_or, if◌then◌else◌,
}
use libinput_rs.Evdev.{Device, has_key_a}
use libinput_rs.Floats.{Floats}
use libinput_rs.Ffi.{Ptr}
use libinput_rs.Backend.World.{World, Pushed, with_effects, drop_fd}
use libinput_rs.Backend.Open.{
  Opening, failed, refused, opened, is_own_name, opens_as_pointer, allocate, track, open_device,
  try_open, scan_and_open, input_path, is_tracked_path, new_paths, handle_hotplug,
}
use libinput_rs.Backend.Drain.Follows.{Tracks}
use libinput_rs.Api.Capability.{is_proper, is_mixed}
use libinput_rs.Api.Capability.Table.{
  IsReady, Sends, Sends-refl, Sends-trans, Sends-tracked, track-Sends,
}

abbrev pub IsProper : Opening → Type 0
IsProper failed = Unit
IsProper (refused fd) = Unit
IsProper (opened fd d) = is_mixed d ≡ false

abbrev pub AllProper {ℓ} : {A : Type ℓ} → List (A × Opening) → Type 0
AllProper ps = All (λ p. IsProper p.1) ps

-- What is opened is a pointer or a keyboard.
taken_proper :
    (d : Device)
    → is_mixed d ≡ false
    → (not (opens_as_pointer d) && not (has_key_a d)) ≡ false
    → is_proper d ≡ true
unfolding is_mixed is_proper
taken_proper d mixed taken = ground arith

module _ {fl : Floats} where
  open_device-Sends :
      (path : String) (ctx : Ptr) (fd : ℕ) (d : Device) (w : World fl)
      → is_mixed d ≡ false
      → IsReady w
      → Sends w (open_device path ctx fd d w)
  unfolding open_device
  open_device-Sends path ctx fd d w proper ready =
      let dropped : Pushed fl = (with_effects (drop_fd fd ∷ []) w, []) in
      let tracked = track path ctx fd d w.next_ptr (allocate path ctx d w) in
      let same : Sends w dropped = Sends-tracked w dropped.0 [] refl refl ready.linked tt ready in
      if_both (λ r. Sends w r) (is_own_name (unwrap_or d.name "Unknown")) {x = dropped}
        {y = if not (opens_as_pointer d) && not (has_key_a d) then dropped else tracked} same
        (if_split (λ r. Sends w r) (not (opens_as_pointer d) && not (has_key_a d)) {x = dropped}
          {y = tracked} (λ _. same)
          (λ taken. track-Sends path ctx fd d w (taken_proper d proper taken) ready))

  pub try_open-Sends :
      (path : String) (ctx : Ptr) (o : Opening) (w : World fl)
      → IsProper o
      → IsReady w
      → Sends w (try_open path ctx o w)
  unfolding try_open
  try_open-Sends path ctx failed w proper ready = Sends-refl w ready
  try_open-Sends path ctx (refused fd) w proper ready =
      Sends-tracked w _ [] refl refl ready.linked tt ready
  try_open-Sends path ctx (opened fd d) w proper ready =
      open_device-Sends path ctx fd d w proper ready

  pub scan_and_open-Sends :
      (ctx : Ptr) (paths : List (String × Opening)) (w : World fl)
      → AllProper paths
      → IsReady w
      → Sends w (scan_and_open ctx paths w)
  unfolding scan_and_open
  scan_and_open-Sends ctx [] w proper ready = Sends-refl w ready
  scan_and_open-Sends ctx ((path, o) ∷ paths) w (proper, propers) ready =
      let first = try_open path ctx o w in
      let rest = scan_and_open ctx paths first.0 in
      let sends = try_open-Sends path ctx o w proper ready in
      Sends-trans w first.0 rest.0 first.1 rest.1 sends
        (scan_and_open-Sends ctx paths first.0 propers sends.ready)

  new_paths-AllProper :
      (ievents : List (Option String × Opening)) (tracked : Tracks fl)
      → AllProper ievents
      → AllProper (new_paths ievents tracked)
  unfolding new_paths
  new_paths-AllProper [] tracked h = tt
  new_paths-AllProper ((none, o) ∷ ievents) tracked (_, h) = new_paths-AllProper ievents tracked h
  new_paths-AllProper ((some name, o) ∷ ievents) tracked (proper, h) =
      let rest = new_paths-AllProper ievents tracked h in
      if_both (λ (ps : List (String × Opening)). AllProper ps)
        (is_tracked_path (input_path name) tracked) rest (proper, rest)

  pub handle_hotplug-Sends :
      (ctx : Ptr) (ievents : List (Option String × Opening)) (w : World fl)
      → AllProper ievents
      → IsReady w
      → Sends w (handle_hotplug ctx ievents w)
  unfolding handle_hotplug
  handle_hotplug-Sends ctx ievents w proper ready =
      scan_and_open-Sends ctx (new_paths ievents w.tracked) w
        (new_paths-AllProper ievents w.tracked proper) ready
