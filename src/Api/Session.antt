-- ===== src/Api/Session.antt =====
-- What a client sees who calls the library in any order: which calls it makes, and the events that
-- it is handed.
pub mod Step
pub mod Balance
pub mod Order
pub mod Leaves
pub mod Settings
use Prim.Native.String.{String}
use mathlib.Core.Path.{subst}
use libinput_rs.Common.{
  ℕ, ◌+◌, ◌≡◌, refl, sym, Option, none, some, List, [], ◌∷◌, ◌++◌, append_assoc, append-nil, arith,
  suc, ◌==◌, Bool, true, false, ◌||◌, All, if◌then◌else◌,
}
use libinput_rs.Common.Int.{ℤ}
use libinput_rs.Floats.{Floats}
use libinput_rs.Ffi.{Ptr, null, LibinputEvent}
use libinput_rs.Ffi.Device.{LibinputDevice}
use libinput_rs.Backend.World.{World, LibinputInterface, contains_key}
use libinput_rs.Backend.Open.{Opening, try_open, scan_and_open}
use libinput_rs.Backend.Drain.{Answers, drain_into_queue}
use libinput_rs.Backend.Drain.Follows.{Tracks, IsLive, tally}
use libinput_rs.Backend.Drain.Notices.{added, removed, added-append, removed-append}
use libinput_rs.Backend.Drain.Sound.{
  IsSound, IsFair, Fair, Sound, scan_and_open-Fair, try_open-Fair,
}
use libinput_rs.Backend.Drain.Whole.{drain_into_queue-Fair}
use libinput_rs.Api.Context.{
  LibinputContext, new_context, create_context, push, populate_events, libinput_dispatch,
  libinput_get_event, libinput_udev_assign_seat, libinput_path_add_device,
}

-- A write to the settings of a device object, through its pointer.
unfoldable pub write_device {ℓ} : {A : Type ℓ} → Ptr → (A → A) → List (Ptr × A) → List (Ptr × A)
write_device p f [] = []
write_device p f ((q, a) ∷ heap) =
    let rest = write_device p f heap in if q == p then (q, f a) ∷ rest else (q, a) ∷ rest

-- A call of the client, with what the outside world answers in it. `configure` is any of the
-- functions that change settings of a device.
pub data Call (fl : Floats) : Type 0 where
  dispatch : Answers → Call fl
  get_event : Call fl
  assign_seat : Option String → List (String × Opening) → Call fl
  path_add_device : Option String → Opening → Call fl
  configure : Ptr → (LibinputDevice fl → LibinputDevice fl) → Call fl

module _ {fl : Floats} where
  abbrev pub handed : Option (LibinputEvent fl) → List (LibinputEvent fl)
  handed none = []
  handed (some e) = e ∷ []

  -- The context after a call, and the events that the client was handed in it; `none` where the
  -- call would read through a dangling device pointer.
  unfoldable pub call :
      Ptr
      → Call fl
      → Option (LibinputContext fl)
      → Option (Option (LibinputContext fl) × List (LibinputEvent fl))
  unfolding write_device
  call ctx (dispatch env) c = elim (libinput_dispatch ctx env c) [
    | none ↦ none
    | some (c', _) ↦ some (c', [])
  ]
  call ctx get_event c = let (c', e) = libinput_get_event c in some (c', handed e)
  call ctx (assign_seat name paths) c = some ((libinput_udev_assign_seat ctx name paths c).0, [])
  call ctx (path_add_device path o) c = some ((libinput_path_add_device ctx path o c).0, [])
  call ctx (configure p f) none = some (none, [])
  call ctx (configure p f) (some c) =
      some (some (record c { world = record c.world { heap = write_device p f c.world.heap } }), [])

  unfoldable pub calls :
      Ptr
      → List (Call fl)
      → Option (LibinputContext fl)
      → Option (Option (LibinputContext fl) × List (LibinputEvent fl))
  calls ctx [] c = some (c, [])
  calls ctx (k ∷ ks) c = elim (call ctx k c) [
    | none ↦ none
    | some (c', es) ↦ elim (calls ctx ks c') [
      | none ↦ none
      | some (c'', es') ↦ some (c'', es ++ es')
    ]
  ]
