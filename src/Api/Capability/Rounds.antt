-- ===== src/Api/Capability/Rounds.antt =====
-- The rounds of a drain over the open devices, and the repeats of their keys.
use libinput_rs.Common.{
  ℕ, ◌≡◌, ◌∙◌, refl, ap, Option, some, List, [], ◌∷◌, ◌++◌, All, All-append, arith,
}
use libinput_rs.Floats.{Floats}
use libinput_rs.Ffi.{Ptr, LibinputEvent}
use libinput_rs.Ffi.Device.{LibinputDevice}
use libinput_rs.Backend.Tracked.{TrackedDevice}
use libinput_rs.Backend.Keyboard.{repeat_device, emit_key_repeats}
use libinput_rs.Backend.World.{lookup}
use libinput_rs.Backend.Batch.{drain_batch}
use libinput_rs.Backend.Batch.Consistent.{AllFrom, drain_batch-AllFrom, repeat_device-AllFrom}
use libinput_rs.Backend.Batch.Identity.{SameIdentity, drain_batch-SameIdentity}
use libinput_rs.Backend.Drain.{
  Fetch, fetched, gone, no_events, Drained, drain_fetched, drain_one, drain_devices,
}
use libinput_rs.Backend.Drain.Follows.{Tracks}
use libinput_rs.Api.Capability.Handlers.{AllAllowed}
use libinput_rs.Api.Capability.Batch.{
  links-SameIdentity, drain_batch-AllAllowed, repeat_device-AllAllowed,
}
use libinput_rs.Api.Capability.Table.{IsLinked, AllLinked, IsAllowed}

repeat_device-SameIdentity :
    {fl : Floats} (now : ℕ) (ctx : Ptr) (td : TrackedDevice fl)
    → SameIdentity td (repeat_device now ctx td).0
unfolding repeat_device
repeat_device-SameIdentity now ctx td = ground arith

module _ {fl : Floats} (heap : List (Ptr × LibinputDevice fl)) (ctx : Ptr) where
  -- What a device may send, seen through its pointer.
  AllAllowed-IsAllowed :
      (p : Ptr) (dev : LibinputDevice fl) (es : List (LibinputEvent fl))
      → lookup p heap ≡ some dev
      → AllFrom ctx p es
      → AllAllowed dev es
      → All (IsAllowed heap) es
  AllAllowed-IsAllowed p dev [] found from ok = tt
  AllAllowed-IsAllowed p dev (e ∷ es) found ((_, _, same, _), from) (ok, oks) = (
    (dev, ap (λ q. lookup q heap) same ∙ found, ok),
    AllAllowed-IsAllowed p dev es found from oks,
  )

  SameIdentity-IsLinked :
      (td td' : TrackedDevice fl) → SameIdentity td td' → IsLinked heap td → IsLinked heap td'
  SameIdentity-IsLinked td td' same (dev, found, link) = (
    dev,
    ap (λ q. lookup q heap) same.lib_device ∙ found,
    links-SameIdentity dev td td' same link,
  )

  -- What is left of a list of devices, with the events that were pushed for it.
  abbrev pub Pass : Tracks fl → List (LibinputEvent fl) → Type 0
  Pass l out = AllLinked heap l × All (IsAllowed heap) out

  abbrev pub Drains : Option (Drained fl) → Type 0
  Drains r = (d : Drained fl) × (r ≡ some d) × AllLinked heap d.tracked × All (IsAllowed heap) d.out

  drain_one-Drains :
      (rest : Option ℕ → Option (Drained fl))
      → ((g : Option ℕ) → Drains (rest g))
      → (fd : ℕ) (f : Fetch) (td : TrackedDevice fl) (g : Option ℕ) → IsLinked heap td
      → Drains (drain_one rest heap ctx fd f td g)
  unfolding drain_one drain_fetched
  drain_one-Drains rest total fd (fetched es) td g (dev, found, link) =
      let step = drain_batch dev g ctx es td g in
      let (d, eq, linked, allowed) = total step.global_typing_time in
      let same = drain_batch-SameIdentity dev g ctx es td g in
      let sent =
        AllAllowed-IsAllowed td.lib_device dev step.out found
          (drain_batch-AllFrom dev g ctx es td g) (drain_batch-AllAllowed dev g ctx es td g link) in
      (
        record d { tracked = (fd, step.td) ∷ d.tracked; out = step.out ++ d.out },
        cc (found, eq),
        (SameIdentity-IsLinked td step.td same (dev, found, link), linked),
        All-append (IsAllowed heap) step.out d.out sent allowed,
      )
  drain_one-Drains rest total fd gone td g link =
      let (d, eq, linked, allowed) = total g in
      (
        record d { tracked = (fd, td) ∷ d.tracked; dead_fds = fd ∷ d.dead_fds },
        cc eq,
        (link, linked),
        allowed,
      )
  drain_one-Drains rest total fd no_events td g link =
      let (d, eq, linked, allowed) = total g in
      (record d { tracked = (fd, td) ∷ d.tracked }, cc eq, (link, linked), allowed)

  pub drain_devices-Drains :
      (fetch : ℕ → Fetch) (l : Tracks fl) (g : Option ℕ)
      → AllLinked heap l
      → Drains (drain_devices heap ctx fetch l g)
  unfolding drain_devices
  drain_devices-Drains fetch [] g h = (_, refl, tt, tt)
  drain_devices-Drains fetch ((fd, td) ∷ l) g (link, h) =
      drain_one-Drains (drain_devices heap ctx fetch l) (λ g'. drain_devices-Drains fetch l g' h) fd
        (fetch fd) td g link

  pub emit_key_repeats-Pass :
      (now : ℕ) (l : Tracks fl)
      → AllLinked heap l
      → Pass (emit_key_repeats now ctx l).0 (emit_key_repeats now ctx l).1
  unfolding emit_key_repeats
  emit_key_repeats-Pass now [] h = (tt, tt)
  emit_key_repeats-Pass now ((fd, td) ∷ l) ((dev, found, link), h) =
      let (linked, allowed) = emit_key_repeats-Pass now l h in
      (
        (
          SameIdentity-IsLinked td (repeat_device now ctx td).0
              (repeat_device-SameIdentity now ctx td) (dev, found, link),
          linked,
        ),
        All-append (IsAllowed heap) (repeat_device now ctx td).1 (emit_key_repeats now ctx l).1
            (AllAllowed-IsAllowed td.lib_device dev (repeat_device now ctx td).1 found
              (repeat_device-AllFrom now ctx td) (repeat_device-AllAllowed dev now ctx td link))
            allowed,
      )
