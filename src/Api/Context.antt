-- ===== src/Api/Context.antt =====
-- src/ffi_types.rs, `LibinputContext`, and the functions of src/lib.rs on a context: its event
-- queue, its reference count, dispatch and the ways in which devices are added. A null pointer to a
-- context or an event is `none`. The lock of the backend is poisoned only by a panic, which ends
-- the process, so it is always taken.
pub mod Refs
use Prim.Native.String.{String}
use libinput_rs.Common.{ℕ, ◌+◌, Option, none, some, List, [], ◌∷◌, ◌++◌, if◌then◌else◌}
use libinput_rs.Common.Int.{ℤ, pos, negsuc, eq_ℤ}
use libinput_rs.Common.Word.{i32_add, i32_sub}
use libinput_rs.Floats.{Floats}
use libinput_rs.Ffi.{Ptr, null, LibinputEvent, LibinputEventType}
use libinput_rs.Ffi.Device.{LibinputSeat}
use libinput_rs.Backend.World.{World, LibinputInterface, Effect}
use libinput_rs.Backend.Open.{Opening, try_open, scan_and_open}
use libinput_rs.Backend.Drain.{Answers, drain_into_queue}

pub record LibinputContext (fl : Floats) : Type 0 where
  pub world : World fl
  pub event_queue : List (LibinputEvent fl)
  pub epoll_fd : ℤ
  pub user_data : Ptr
  pub seat : LibinputSeat
  pub refcount : ℤ

-- `context` is set by the functions that create a context.
unfoldable pub new_seat : Ptr → LibinputSeat
new_seat ctx = record {
  physical_name = "seat0";
  logical_name = "default";
  refcount = pos 1;
  user_data = null;
  context = ctx;
}

-- The file descriptor of inotify, where there is one, is registered.
unfoldable pub registered : Option ℕ → List Effect
registered none = []
registered (some fd) = Effect.epoll_add fd ∷ []

-- What a function on a context leaves behind, and returns.
abbrev pub Called : Floats → Type 0 → Type 0
Called fl A = Option (LibinputContext fl) × A

unfoldable pub last_or_null : List Ptr → Ptr
last_or_null [] = null
last_or_null (p ∷ []) = p
last_or_null (p ∷ q ∷ ps) = last_or_null (q ∷ ps)

module _ {fl : Floats} where
  -- `ctx` and `seat` are the pointers that the boxes get; the first device object goes behind them.
  unfoldable pub new_context :
      (interface : LibinputInterface) (user_data : Ptr) (epoll_fd : ℤ) (inotify_fd : Option ℕ)
      (ctx seat : Ptr)
      → LibinputContext fl
  unfolding new_seat registered
  new_context interface user_data epoll_fd inotify_fd ctx seat = record {
    world = record {
      interface = interface;
      seat = seat;
      devices = [];
      heap = [];
      next_ptr = ctx + seat + 1;
      tracked = [];
      global_typing_time = none;
      effects = registered inotify_fd;
    };
    event_queue = [];
    epoll_fd = epoll_fd;
    user_data = user_data;
    seat = new_seat ctx;
    refcount = pos 1;
  }

  -- `libinput_udev_create_context`.
  unfoldable pub create_context :
      Option LibinputInterface → Ptr → ℤ → Option ℕ → Ptr → Ptr → Option (LibinputContext fl)
  unfolding new_context
  create_context none user_data epoll_fd inotify_fd ctx seat = none
  create_context (some interface) user_data epoll_fd inotify_fd ctx seat =
      some (new_context interface user_data epoll_fd inotify_fd ctx seat)

  -- It is the same.
  unfoldable pub libinput_path_create_context :
      Option LibinputInterface → Ptr → ℤ → Option ℕ → Ptr → Ptr → Option (LibinputContext fl)
  unfolding new_context
  libinput_path_create_context none user_data epoll_fd inotify_fd ctx seat = none
  libinput_path_create_context (some interface) user_data epoll_fd inotify_fd ctx seat =
      some (new_context interface user_data epoll_fd inotify_fd ctx seat)

  abbrev pub push : World fl → List (LibinputEvent fl) → LibinputContext fl → LibinputContext fl
  push w out c = record c { world = w; event_queue = c.event_queue ++ out }

  -- The outer option is `none` where the drain would read through a dangling device pointer.
  unfoldable pub populate_events :
      Ptr → Answers → Option (LibinputContext fl) → Option (Option (LibinputContext fl))
  populate_events ctx env none = some none
  populate_events ctx env (some c) = elim (drain_into_queue ctx env c.world) [
    | none ↦ none
    | some (w, out) ↦ some (some (push w out c))
  ]

  unfoldable pub libinput_dispatch :
      Ptr → Answers → Option (LibinputContext fl) → Option (Called fl ℤ)
  unfolding populate_events
  libinput_dispatch ctx env none = some (none, negsuc 0)
  libinput_dispatch ctx env (some c) = elim (populate_events ctx env (some c)) [
    | none ↦ none
    | some c' ↦ some (c', pos 0)
  ]

  unfoldable pub libinput_get_event :
      Option (LibinputContext fl) → Called fl (Option (LibinputEvent fl))
  libinput_get_event none = (none, none)
  libinput_get_event (some c) = elim c.event_queue [
    | [] ↦ (some c, none)
    | e ∷ queue ↦ (some (record c { event_queue = queue }), some e)
  ]

  unfoldable pub libinput_next_event_type : Option (LibinputContext fl) → LibinputEventType
  libinput_next_event_type none = LibinputEventType.event_none
  libinput_next_event_type (some c) = elim c.event_queue [
    | [] ↦ LibinputEventType.event_none
    | e ∷ queue ↦ e.event_type
  ]

  unfoldable pub libinput_event_get_type : Option (LibinputEvent fl) → LibinputEventType
  libinput_event_get_type none = LibinputEventType.event_none
  libinput_event_get_type (some e) = e.event_type

  -- The paths are those that `evdev::enumerate` finds, with what comes of opening them. A string of
  -- C holds no NUL, so the name is always set.
  unfoldable pub libinput_udev_assign_seat :
      Ptr → Option String → List (String × Opening) → Option (LibinputContext fl) → Called fl ℤ
  libinput_udev_assign_seat ctx name paths none = (none, negsuc 0)
  libinput_udev_assign_seat ctx none paths (some c) = (some c, negsuc 0)
  libinput_udev_assign_seat ctx (some name) paths (some c) =
      let (w, out) = scan_and_open ctx paths c.world in
      (some (push w out (record c { seat = record c.seat { logical_name = name } })), pos 0)

  -- The last device of the context is returned, whether this call opened it or not.
  unfoldable pub libinput_path_add_device :
      Ptr → Option String → Opening → Option (LibinputContext fl) → Called fl Ptr
  unfolding last_or_null
  libinput_path_add_device ctx path o none = (none, null)
  libinput_path_add_device ctx none o (some c) = (some c, null)
  libinput_path_add_device ctx (some path) o (some c) =
      let (w, out) = try_open path ctx o c.world in (some (push w out c), last_or_null w.devices)

  unfoldable pub libinput_ref : Option (LibinputContext fl) → Option (LibinputContext fl)
  libinput_ref none = none
  libinput_ref (some c) = some (record c { refcount = i32_add c.refcount (pos 1) })

  -- `none` also where the last reference went and the context was freed.
  unfoldable pub libinput_unref : Option (LibinputContext fl) → Option (LibinputContext fl)
  libinput_unref none = none
  libinput_unref (some c) =
      let left = i32_sub c.refcount (pos 1) in
      if eq_ℤ left (pos 0) then none else some (record c { refcount = left })
