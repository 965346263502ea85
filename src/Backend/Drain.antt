-- ===== src/Backend/Drain.antt =====
-- src/backend.rs, `drain_into_queue`: hotplug, key repeats, the events of every open device, and
-- the removal of devices that are gone.
pub mod Keys
pub mod Notices
pub mod Follows
pub mod Sound
pub mod Stamped
pub mod Named
pub mod Rounds
pub mod Whole
pub mod Removal
use libinput_rs.Common.{
  ℕ, ◌==◌, Bool, true, false, not, Option, none, some, List, [], ◌∷◌, ◌++◌, retain, if◌then◌else◌,
}
use Prim.Native.String.{String}
use libinput_rs.Floats.{Floats}
use libinput_rs.Ffi.{Ptr, LibinputEvent, LibinputEventType, EventPayload}
use libinput_rs.Ffi.Device.{LibinputDevice}
use libinput_rs.Backend.Tracked.{TrackedDevice}
use libinput_rs.Backend.Keyboard.{KeyboardStep, emit_key_repeats}
use libinput_rs.Backend.Batch.{Timed, drain_batch}
use libinput_rs.Backend.World.{
  World, Pushed, Effect, epoll_del, drop_fd, contains_key, lookup, with_effects,
}
use libinput_rs.Backend.Open.{Opening, handle_hotplug}

-- `fetch_events`: a batch, `ENODEV` or an unexpected end of file, or another error (`WouldBlock`
-- among them).
pub data Fetch : Type 0 where
  fetched : List Timed → Fetch
  gone : Fetch
  no_events : Fetch

-- What the environment answers in one drain: inotify, the clock for the repeats, and the devices.
pub record Answers : Type 0 where
  pub ievents : List (Option String × Opening)
  pub now : ℕ
  pub fetch : ℕ → Fetch

-- The loop over the file descriptors, as far as it has come.
pub record Drained (fl : Floats) : Type 0 where
  pub tracked : List (ℕ × TrackedDevice fl)
  pub global_typing_time : Option ℕ
  pub dead_fds : List ℕ
  pub out : List (LibinputEvent fl)

abbrev pub removed_event : {fl : Floats} → Ptr → Ptr → LibinputEvent fl
removed_event ctx lib_dev = record {
  event_type = LibinputEventType.device_removed;
  payload = EventPayload.device_removed;
  context = ctx;
  device = lib_dev;
}

module _ {fl : Floats} where
  -- A batch is handled under the settings of the device object; `none` is a read through a pointer
  -- whose object was freed.
  unfoldable pub drain_fetched :
      Option (LibinputDevice fl)
      → Ptr
      → List Timed
      → TrackedDevice fl
      → Option ℕ
      → Option (KeyboardStep fl)
  drain_fetched none ctx es td global = none
  drain_fetched (some dev) ctx es td global = some (drain_batch dev global ctx es td global)

  -- One round of the loop over the file descriptors, in front of the rounds that follow.
  unfoldable pub drain_one :
      (Option ℕ → Option (Drained fl))
      → List (Ptr × LibinputDevice fl)
      → Ptr
      → ℕ
      → Fetch
      → TrackedDevice fl
      → Option ℕ
      → Option (Drained fl)
  unfolding drain_fetched
  drain_one rest heap ctx fd (fetched es) td global =
      elim (drain_fetched (lookup td.lib_device heap) ctx es td global) [
        | none ↦ none
        | some step ↦ elim (rest step.global_typing_time) [
          | none ↦ none
          | some d ↦
              some (record d { tracked = (fd, step.td) ∷ d.tracked; out = step.out ++ d.out })
        ]
      ]
  drain_one rest heap ctx fd gone td global = elim (rest global) [
    | none ↦ none
    | some d ↦ some (record d { tracked = (fd, td) ∷ d.tracked; dead_fds = fd ∷ d.dead_fds })
  ]
  drain_one rest heap ctx fd no_events td global = elim (rest global) [
    | none ↦ none
    | some d ↦ some (record d { tracked = (fd, td) ∷ d.tracked })
  ]

  unfoldable pub drain_devices :
      List (Ptr × LibinputDevice fl)
      → Ptr
      → (ℕ → Fetch)
      → List (ℕ × TrackedDevice fl)
      → Option ℕ
      → Option (Drained fl)
  drain_devices heap ctx fetch [] global =
      some (record { tracked = []; global_typing_time = global; dead_fds = []; out = [] })
  drain_devices heap ctx fetch ((fd, td) ∷ devices) global =
      drain_one (drain_devices heap ctx fetch devices) heap ctx fd (fetch fd) td global

  -- `self.devices.remove(&fd)`.
  unfoldable pub without : ℕ → List (ℕ × TrackedDevice fl) → List (ℕ × TrackedDevice fl)
  without fd tracked = retain (λ e. not (e.0 == fd)) tracked

  -- A dead device leaves the epoll set, is closed by the callback if there is one, and again when
  -- its owner goes out of scope.
  unfoldable pub removal : Ptr → ℕ → World fl → Option (TrackedDevice fl) → Pushed fl
  unfolding without
  removal ctx fd w none = (w, [])
  removal ctx fd w (some td) = (
    with_effects
        (epoll_del fd
          ∷ (if w.interface.close_restricted
              then Effect.close_restricted fd ∷ drop_fd fd ∷ []
              else drop_fd fd ∷ []))
        (record w { tracked = without fd w.tracked }),
    removed_event ctx td.lib_device ∷ [],
  )

  unfoldable pub remove_dead : Ptr → ℕ → World fl → Pushed fl
  unfolding removal
  remove_dead ctx fd w = removal ctx fd w (lookup fd w.tracked)

  unfoldable pub remove_all : Ptr → List ℕ → World fl → Pushed fl
  remove_all ctx [] w = (w, [])
  remove_all ctx (fd ∷ fds) w =
      let (w', out) = remove_dead ctx fd w in
      let (w'', rest) = remove_all ctx fds w' in (w'', out ++ rest)

  -- The read of the devices and the removals, with the events that were pushed before.
  unfoldable pub finish_drain : Ptr → World fl → List (LibinputEvent fl) → Drained fl → Pushed fl
  finish_drain ctx w before d =
      let (w', out) =
        remove_all ctx d.dead_fds
          (record w { tracked = d.tracked; global_typing_time = d.global_typing_time }) in
      (w', before ++ d.out ++ out)

  unfoldable pub drain_into_queue : Ptr → Answers → World fl → Option (Pushed fl)
  unfolding finish_drain
  drain_into_queue ctx env w =
      let (w1, hot) = handle_hotplug ctx env.ievents w in
      let (tracked, repeats) = emit_key_repeats env.now ctx w1.tracked in
      elim (drain_devices w1.heap ctx env.fetch tracked w1.global_typing_time) [
        | none ↦ none
        | some d ↦ some (finish_drain ctx (record w1 { tracked = tracked }) (hot ++ repeats) d)
      ]
