-- ===== src/Api/Life/Opens.antt =====
-- How the memory of a context grows where devices are opened.
use Prim.Native.String.{String}
use libinput_rs.Common.{
  ℕ, suc, ◌<◌, ◌==◌, ◌≡◌, ◌∙◌, refl, ap, sym, true, not, ◌||◌, ◌&&◌, List, [], ◌∷◌, arith,
  All-append, if_both, beq_self, unwrap_or, if◌then◌else◌, Bool-cases, inl, inr,
}
use libinput_rs.Common.Int.{pos}
use libinput_rs.Evdev.{Device, has_key_a}
use libinput_rs.Floats.{Floats}
use libinput_rs.Ffi.{Ptr}
use libinput_rs.Ffi.Device.{new_device}
use libinput_rs.Backend.Tracked.{new_tracked}
use libinput_rs.Backend.World.{World, Pushed, contains_key, with_effects, drop_fd}
use libinput_rs.Backend.Open.{
  Opening, failed, refused, opened, announce, is_own_name, opens_as_pointer, allocate, track,
  open_device, try_open, scan_and_open,
}
use libinput_rs.Backend.Drain.Sound.{IsLive-alloc}
use libinput_rs.Api.Objects.Refs.{Held}
use libinput_rs.Api.Life.Memory.{
  Memory, Grows, Grows-refl, Grows-trans, Grows-tracked, Keeps, is_listed-append, AllBelow-suc,
  is_listed-AllBelow, Different-append,
}

module _ {fl : Floats} where
  -- The client holds no reference to a device that is not yet there.
  unheld : (held : Held) (w : World fl) → Memory held w → held w.next_ptr ≡ 0
  unheld held w m =
      let absent = is_listed-AllBelow w.next_ptr w.devices m.below in
      let own = m.owned w.next_ptr in
      elim (Bool-cases (held w.next_ptr == 0)) [
        | inl e ↦ ground arith
        | inr e ↦ (let some_held : 0 < held w.next_ptr = ground arith in cc (absent, own some_held))
      ]

  allocate-Memory :
      (held : Held) (path : String) (ctx : Ptr) (d : Device) (w : World fl)
      → Memory held w
      → Memory held (allocate path ctx d w)
  unfolding allocate contains_key announce new_device
  allocate-Memory held path ctx d w m =
      let p = w.next_ptr in
      record {
        positive = omega arith;
        below =
            All-append (λ q. (0 < q) × (q < suc p)) w.devices (p ∷ [])
              (AllBelow-suc p w.devices m.below) ((m.positive, omega arith), tt);
        listed = λ q. ap (λ b. p == q || b) (m.listed q) ∙ sym (is_listed-append q p w.devices);
        different = Different-append p w.devices m.below m.different;
        counted = (ap (λ n. pos (suc n)) (sym (unheld held w m)), m.counted);
        owned = λ q h.
            (let old = m.owned q h in let e = is_listed-append q p w.devices in ground arith);
        live = IsLive-alloc p (announce path w.seat ctx d) w.heap w.tracked m.live;
      }

  allocate-Keeps :
      (path : String) (ctx : Ptr) (d : Device) (w : World fl)
      → Keeps w.heap (allocate path ctx d w).heap
  unfolding allocate contains_key
  allocate-Keeps path ctx d w q h = ground arith

  track-Grows :
      (held : Held) (path : String) (ctx : Ptr) (fd : ℕ) (d : Device) (w : World fl)
      → Memory held w
      → Grows held w (track path ctx fd d w.next_ptr (allocate path ctx d w))
  unfolding track allocate contains_key new_tracked
  track-Grows held path ctx fd d w m =
      let m' = allocate-Memory held path ctx d w m in
      let here : contains_key w.next_ptr (allocate path ctx d w).heap ≡ true =
        rw (beq_self w.next_ptr) refl in
      let keeps = allocate-Keeps path ctx d w in
      let w' = allocate path ctx d w in
      let made : Grows held w (w', []) = record { memory = m'; keeps = keeps; named = tt } in
      if_both (λ r. Grows held w r) (contains_key fd w.tracked)
        (Grows-trans held w w' _ [] [] made
          (Grows-tracked held w' _ [] refl refl refl m'.live tt m'))
        (Grows-trans held w w' _ [] _ made
          (Grows-tracked held w' _ _ refl refl refl (here, m'.live) (here, tt) m'))

  open_device-Grows :
      (held : Held) (path : String) (ctx : Ptr) (fd : ℕ) (d : Device) (w : World fl)
      → Memory held w
      → Grows held w (open_device path ctx fd d w)
  unfolding open_device
  open_device-Grows held path ctx fd d w m =
      let dropped : Pushed fl = (with_effects (drop_fd fd ∷ []) w, []) in
      let tracked = track path ctx fd d w.next_ptr (allocate path ctx d w) in
      let same : Grows held w dropped =
        Grows-tracked held w dropped.0 [] refl refl refl m.live tt m in
      if_both (λ r. Grows held w r) (is_own_name (unwrap_or d.name "Unknown")) {x = dropped}
        {y = if not (opens_as_pointer d) && not (has_key_a d) then dropped else tracked} same
        (if_both (λ r. Grows held w r) (not (opens_as_pointer d) && not (has_key_a d)) {x = dropped}
          {y = tracked} same (track-Grows held path ctx fd d w m))

  pub try_open-Grows :
      (held : Held) (path : String) (ctx : Ptr) (o : Opening) (w : World fl)
      → Memory held w
      → Grows held w (try_open path ctx o w)
  unfolding try_open
  try_open-Grows held path ctx failed w m = Grows-refl held w m
  try_open-Grows held path ctx (refused fd) w m =
      Grows-tracked held w _ [] refl refl refl m.live tt m
  try_open-Grows held path ctx (opened fd d) w m = open_device-Grows held path ctx fd d w m

  pub scan_and_open-Grows :
      (held : Held) (ctx : Ptr) (paths : List (String × Opening)) (w : World fl)
      → Memory held w
      → Grows held w (scan_and_open ctx paths w)
  unfolding scan_and_open
  scan_and_open-Grows held ctx [] w m = Grows-refl held w m
  scan_and_open-Grows held ctx ((path, o) ∷ paths) w m =
      let first = try_open path ctx o w in
      let rest = scan_and_open ctx paths first.0 in
      let grows = try_open-Grows held path ctx o w m in
      Grows-trans held w first.0 rest.0 first.1 rest.1 grows
        (scan_and_open-Grows held ctx paths first.0 grows.memory)
