-- ===== src/Backend/Drain/Sound.antt =====
-- What every part of the drain keeps: the table of devices is sound, and it changes as the
-- notifications say.
use Prim.Native.String.{String}
use libinput_rs.Common.{
  ℕ, ◌+◌, ◌≡◌, refl, unwrap_or, if◌then◌else◌, ◌&&◌, not, List, [], ◌∷◌, ◌++◌, arith, if_split,
  if_both, beq_self,
}
use libinput_rs.Evdev.{Device, has_key_a}
use libinput_rs.Floats.{Floats}
use libinput_rs.Ffi.{Ptr, LibinputEvent}
use libinput_rs.Ffi.Device.{LibinputDevice}
use libinput_rs.Backend.Tracked.{new_tracked}
use libinput_rs.Backend.World.{World, Pushed, contains_key, with_effects, drop_fd}
use libinput_rs.Backend.Open.{
  Opening, announce, is_own_name, opens_as_pointer, failed, refused, opened, allocate, track,
  open_device, try_open, scan_and_open,
}
use libinput_rs.Backend.Drain.Keys.{Distinct}
use libinput_rs.Backend.Drain.Follows.{Tracks, tally, IsLive}
use libinput_rs.Backend.Drain.Notices.{added, removed, added-append, removed-append}

-- No file descriptor stands twice in the table, and every device of it has its object.
pub record IsSound {fl : Floats} (heap : List (Ptr × LibinputDevice fl)) (l : Tracks fl)
    : Type 0 where
  pub live : IsLive heap l
  pub distinct : Distinct l

-- A table that became another while these events were pushed: it is sound, and each pointer stands
-- in it as often as before, plus the additions that were announced, less the removals.
pub record IsFair {fl : Floats} (before : Tracks fl) (heap : List (Ptr × LibinputDevice fl))
    (after : Tracks fl) (out : List (LibinputEvent fl)) : Type 0 where
  pub sound : IsSound heap after
  pub balance : (p : Ptr) → tally p after + removed p out ≡ tally p before + added p out

module _ {fl : Floats} where
  pub IsFair-trans :
      (l m n : Tracks fl) (heap heap' : List (Ptr × LibinputDevice fl))
      (out out' : List (LibinputEvent fl))
      → IsFair l heap m out
      → IsFair m heap' n out'
      → IsFair l heap' n (out ++ out')
  IsFair-trans l m n heap heap' out out' f g = record {
    sound = g.sound;
    balance = λ p.
        (let a = f.balance p in
          let b = g.balance p in
          let c = added-append p out out' in let d = removed-append p out out' in omega arith);
  }

  pub IsFair-refl :
      (heap : List (Ptr × LibinputDevice fl)) (l : Tracks fl) → IsSound heap l → IsFair l heap l []
  IsFair-refl heap l s = record { sound = s; balance = λ p. refl }

  pub IsLive-alloc :
      (p : Ptr) (dev : LibinputDevice fl) (heap : List (Ptr × LibinputDevice fl)) (l : Tracks fl)
      → IsLive heap l
      → IsLive ((p, dev) ∷ heap) l
  unfolding contains_key
  IsLive-alloc p dev heap [] h = tt
  IsLive-alloc p dev heap ((fd, td) ∷ l) (h, hs) = (ground arith, IsLive-alloc p dev heap l hs)

  -- The world after `r`, with what was pushed.
  abbrev pub Fair : World fl → Pushed fl → Type 0
  Fair w r = IsFair w.tracked r.0.heap r.0.tracked r.1

  abbrev pub Sound : World fl → Type 0
  Sound w = IsSound w.heap w.tracked

  track-Fair :
      (path : String) (ctx : Ptr) (fd : ℕ) (d : Device) (w : World fl)
      → Sound w
      → Fair w (track path ctx fd d w.next_ptr (allocate path ctx d w))
  unfolding track allocate new_tracked contains_key
  track-Fair path ctx fd d w s =
      let heap = (allocate path ctx d w).heap in
      let live : IsLive heap w.tracked =
        IsLive-alloc w.next_ptr (announce path w.seat ctx d) w.heap w.tracked s.live in
      if_split (λ r. Fair w r) (contains_key fd w.tracked)
        (λ _. IsFair-refl heap w.tracked (record { live = live; distinct = s.distinct }))
        (λ new. record {
          sound = record {
            live = (rw (beq_self w.next_ptr) refl, live);
            distinct = (new, s.distinct);
          };
          balance = λ p. omega arith;
        })

  open_device-Fair :
      (path : String) (ctx : Ptr) (fd : ℕ) (d : Device) (w : World fl)
      → Sound w
      → Fair w (open_device path ctx fd d w)
  unfolding open_device
  open_device-Fair path ctx fd d w s =
      let dropped : Pushed fl = (with_effects (drop_fd fd ∷ []) w, []) in
      let tracked = track path ctx fd d w.next_ptr (allocate path ctx d w) in
      let unchanged : Fair w dropped = IsFair-refl w.heap w.tracked s in
      if_both (λ r. Fair w r) (is_own_name (unwrap_or d.name "Unknown")) {x = dropped}
        {y = if not (opens_as_pointer d) && not (has_key_a d) then dropped else tracked} unchanged
        (if_both (λ r. Fair w r) (not (opens_as_pointer d) && not (has_key_a d)) {x = dropped}
          {y = tracked} unchanged (track-Fair path ctx fd d w s))

  pub try_open-Fair :
      (path : String) (ctx : Ptr) (o : Opening) (w : World fl)
      → Sound w
      → Fair w (try_open path ctx o w)
  unfolding try_open
  try_open-Fair path ctx failed w s = IsFair-refl w.heap w.tracked s
  try_open-Fair path ctx (refused fd) w s = IsFair-refl w.heap w.tracked s
  try_open-Fair path ctx (opened fd d) w s = open_device-Fair path ctx fd d w s

  pub scan_and_open-Fair :
      (ctx : Ptr) (paths : List (String × Opening)) (w : World fl)
      → Sound w
      → Fair w (scan_and_open ctx paths w)
  unfolding scan_and_open
  scan_and_open-Fair ctx [] w s = IsFair-refl w.heap w.tracked s
  scan_and_open-Fair ctx ((path, o) ∷ paths) w s =
      let first = try_open path ctx o w in
      let rest = scan_and_open ctx paths first.0 in
      let fair = try_open-Fair path ctx o w s in
      IsFair-trans w.tracked first.0.tracked rest.0.tracked first.0.heap rest.0.heap first.1 rest.1
        fair (scan_and_open-Fair ctx paths first.0 fair.sound)
