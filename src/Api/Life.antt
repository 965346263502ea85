-- ===== src/Api/Life.antt =====
-- src/lib.rs and src/ffi_types.rs: a context from its creation to the last `libinput_unref`, which
-- drops it. The calls of a client on the context and on its devices come in any order; what is done
-- with a context or a device that was freed is no call of the library any more.
pub mod Memory
pub mod Opens
pub mod Drains
pub mod Client
pub mod Dropped
pub mod Well
pub mod Calls
pub mod Whole
use libinput_rs.Common.{Option, none, some, List, [], ◌∷◌, ◌++◌, map}
use libinput_rs.Common.Int.{ℤ, pos, negsuc}
use libinput_rs.Floats.{Floats}
use libinput_rs.Ffi.{Ptr, LibinputEvent}
use libinput_rs.Backend.World.{World, Effect, drop_fd}
use libinput_rs.Api.Context.{LibinputContext, libinput_ref, libinput_unref}
use libinput_rs.Api.Session.{Call, call}
use libinput_rs.Api.Objects.{Heap, free_all, libinput_device_ref, libinput_device_unref}

-- The calls of a session, and those that count references.
pub data LifeCall (fl : Floats) : Type 0 where
  library : Call fl → LifeCall fl
  ref_device unref_device : Ptr → LifeCall fl
  ref_context unref_context : LifeCall fl

-- A context that is there, or the world that was left when it was dropped.
pub data Life (fl : Floats) : Type 0 where
  alive : LibinputContext fl → Life fl
  dropped : World fl → Life fl

-- What a call leaves, and the events that the client was handed in it; `none` where the call would
-- read, write or free what is not there.
abbrev pub Lived : Floats → Type 0
Lived fl = Option (Life fl × List (LibinputEvent fl))

-- `if self.epoll_fd >= 0 { close }`.
unfoldable pub close_epoll : ℤ → List Effect
close_epoll (pos fd) = drop_fd fd ∷ []
close_epoll (negsuc n) = []

module _ {fl : Floats} where
  -- The end of a context: its devices are freed, and then its fields, with the file descriptors of
  -- the devices that are still open. The map of the devices has no order of its own. The watch of inotify,
  -- which is no part of the world here, is closed with them.
  unfoldable pub drop_context : LibinputContext fl → Option (World fl)
  unfolding close_epoll
  drop_context c =
      let w = c.world in
      elim (free_all w.devices w.heap) [
        | none ↦ none
        | some heap ↦ some (record w {
          heap = heap;
          tracked = [];
          effects = w.effects ++ close_epoll c.epoll_fd ++ map (λ e. drop_fd e.0) w.tracked;
        })
      ]

  abbrev pub set_heap : Heap fl → LibinputContext fl → LibinputContext fl
  set_heap heap c = record c { world = record c.world { heap = heap } }

  -- After a call that counts the references of a device.
  abbrev pub counted_device : LibinputContext fl → Option (Heap fl × Ptr) → Lived fl
  counted_device c none = none
  counted_device c (some (heap, _)) = some (alive (set_heap heap c), [])

  abbrev pub called : Option (Option (LibinputContext fl) × List (LibinputEvent fl)) → Lived fl
  called (some (some c, es)) = some (alive c, es)
  called _ = none

  -- A context that is not freed goes on.
  abbrev pub released : Option (World fl) → Option (LibinputContext fl) → Lived fl
  released w (some c) = some (alive c, [])
  released none none = none
  released (some w) none = some (dropped w, [])

  abbrev pub referenced : Option (LibinputContext fl) → Lived fl
  referenced none = none
  referenced (some c) = some (alive c, [])

  unfoldable pub life_call : Ptr → LifeCall fl → Life fl → Lived fl
  unfolding drop_context
  life_call ctx k (dropped w) = none
  life_call ctx (library k) (alive c) = called (call ctx k (some c))
  life_call ctx (ref_device p) (alive c) = counted_device c (libinput_device_ref p c.world.heap)
  life_call ctx (unref_device p) (alive c) = counted_device c (libinput_device_unref p c.world.heap)
  life_call ctx ref_context (alive c) = referenced (libinput_ref (some c))
  life_call ctx unref_context (alive c) = released (drop_context c) (libinput_unref (some c))
