-- ===== src/Api/Life/Well.antt =====
-- What holds between the calls of a lawful client, and how the library's own calls keep it.
use libinput_rs.Common.{
  suc, ◌<◌, ◌==◌, ◌≡◌, ◌∙◌, refl, true, Option, none, some, List, [], ◌∷◌, ◌++◌, arith, All-append,
  All-map_of, Bool-cases, inl, inr,
}
use libinput_rs.Common.Int.{pos}
use mathlib.Core.Path.{subst}
use libinput_rs.Floats.{Floats}
use libinput_rs.Ffi.{Ptr, LibinputEvent}
use libinput_rs.Ffi.Device.{LibinputDevice}
use libinput_rs.Backend.World.{World, Pushed, contains_key}
use libinput_rs.Backend.Open.{try_open, scan_and_open}
use libinput_rs.Backend.Drain.Named.{IsNamed, Names}
use libinput_rs.Api.Context.{
  LibinputContext, push, populate_events, libinput_dispatch, libinput_get_event,
  libinput_udev_assign_seat, libinput_path_add_device,
}
use libinput_rs.Api.Session.{
  Call, dispatch, get_event, assign_seat, path_add_device, configure, call, write_device,
}
use libinput_rs.Api.Objects.{Heap}
use libinput_rs.Api.Session.Step.{contains_key-write_device}
use libinput_rs.Api.Objects.Refs.{Held, Counted, Counted-write_device}
use libinput_rs.Api.Life.{library, set_heap}
use libinput_rs.Api.Life.Memory.{is_listed, Memory, Grows, Keeps, Names-Keeps}
use libinput_rs.Api.Life.Opens.{try_open-Grows, scan_and_open-Grows}
use libinput_rs.Api.Life.Drains.{drain_into_queue-Grows}
use libinput_rs.Api.Life.Client.{Client, is_received, observe, MaySet}

-- The memory of the context is in order, the counts are right and within bounds, and events name
-- live devices.
pub record IsWell {fl : Floats} (cl : Client fl) (c : LibinputContext fl) : Type 0 where
  pub memory : Memory cl.held c.world
  pub referenced : 0 < cl.refs
  pub refcount : c.refcount ≡ pos cl.refs
  pub few : cl.refs < 0x8000_0000
  pub few_held : (q : Ptr) → suc (cl.held q) < 0x8000_0000
  pub received : Names c.world.heap cl.received
  pub queued : Names c.world.heap c.event_queue

module _ {fl : Floats} where
  -- The heap with other counts, where the client holds other references.
  pub counts-Memory :
      (held held' : Held) (heap : Heap fl) (w : World fl)
      → ((q : Ptr) → contains_key q heap ≡ contains_key q w.heap)
      → Counted held' heap
      → ((q : Ptr) → 0 < held' q → is_listed q w.devices ≡ true)
      → Memory held w
      → Memory held' (record w { heap = heap })
  counts-Memory held held' heap w same counted owned m = record {
    positive = m.positive;
    below = m.below;
    listed = λ q. same q ∙ m.listed q;
    different = m.different;
    counted = counted;
    owned = owned;
    live =
        All-map_of (λ e. contains_key e.1.lib_device w.heap ≡ true)
          (λ e. contains_key e.1.lib_device heap ≡ true) (λ e h. same e.1.lib_device ∙ h) w.tracked
          m.live;
  }

  -- A device that an event named is there.
  pub received_live :
      (heap : Heap fl) (p : Ptr) (es : List (LibinputEvent fl))
      → Names heap es
      → is_received p es ≡ true
      → contains_key p heap ≡ true
  received_live heap p [] n h = cc
  received_live heap p (e ∷ es) (n, ns) h = elim (Bool-cases (e.device == p)) [
    | inl same ↦
        (let eq : e.device ≡ p = ground arith in subst (λ q. contains_key q heap ≡ true) eq n)
    | inr other ↦ received_live heap p es ns (ground arith)
  ]

  -- Another context with as many references.
  pub renew-IsWell :
      (cl : Client fl) (c c' : LibinputContext fl)
      → Memory cl.held c'.world
      → c'.refcount ≡ c.refcount
      → Names c'.world.heap cl.received
      → Names c'.world.heap c'.event_queue
      → IsWell cl c
      → IsWell cl c'
  renew-IsWell cl c c' memory count received queued well = record {
    memory = memory;
    referenced = well.referenced;
    refcount = count ∙ well.refcount;
    few = well.few;
    few_held = well.few_held;
    received = received;
    queued = queued;
  }

  push-IsWell :
      (cl : Client fl) (c : LibinputContext fl) (r : Pushed fl)
      → IsWell cl c
      → Grows cl.held c.world r
      → IsWell cl (push r.0 r.1 c)
  push-IsWell cl c r well grows =
      let heap = r.0.heap in
      renew-IsWell cl c (push r.0 r.1 c) grows.memory refl
        (Names-Keeps c.world.heap heap cl.received grows.keeps well.received)
        (All-append (IsNamed heap) c.event_queue r.1
          (Names-Keeps c.world.heap heap c.event_queue grows.keeps well.queued) grows.named)
        well

  -- The library's call ends on a live context, with these events for the client.
  abbrev pub Goes :
      Client fl → Call fl → Option (Option (LibinputContext fl) × List (LibinputEvent fl)) → Type 0
  Goes cl k r =
      (c' : LibinputContext fl) × (es : List (LibinputEvent fl)) × (r ≡ some (some c', es))
      × IsWell (observe (library k) es cl) c'

  -- The client is handed events.
  heard-IsWell :
      (cl : Client fl) (c : LibinputContext fl) (es : List (LibinputEvent fl))
      → IsWell cl c
      → Names c.world.heap es
      → IsWell (record cl { received = cl.received ++ es }) c
  heard-IsWell cl c es well named = record {
    memory = well.memory;
    referenced = well.referenced;
    refcount = well.refcount;
    few = well.few;
    few_held = well.few_held;
    received = All-append (IsNamed c.world.heap) cl.received es well.received named;
    queued = well.queued;
  }

  get_event-Goes :
      (ctx : Ptr) (cl : Client fl) (c : LibinputContext fl)
      → IsWell cl c
      → (q : List (LibinputEvent fl)) → c.event_queue ≡ q
      → Goes cl get_event (call ctx get_event (some c))
  unfolding call libinput_get_event
  get_event-Goes ctx cl c well [] e = (c, [], cc e, heard-IsWell cl c [] well tt)
  get_event-Goes ctx cl c well (ev ∷ q) e =
      let named : Names c.world.heap (ev ∷ q) = subst (Names c.world.heap) e well.queued in
      let c' : LibinputContext fl = record c { event_queue = q } in
      let left : IsWell cl c' = renew-IsWell cl c c' well.memory refl well.received named.1 well in
      (record c { event_queue = q }, ev ∷ [], cc e, heard-IsWell cl _ (ev ∷ []) left (named.0, tt))

  -- A write to the settings of a device that leaves its count alone.
  set-IsWell :
      (cl : Client fl) (c : LibinputContext fl) (p : Ptr)
      (f : LibinputDevice fl → LibinputDevice fl)
      → ((dev : LibinputDevice fl) → (f dev).refcount ≡ dev.refcount)
      → IsWell cl c
      → IsWell cl (set_heap (write_device p f c.world.heap) c)
  set-IsWell cl c p f count well =
      let heap = write_device p f c.world.heap in
      let keeps : Keeps c.world.heap heap =
        λ q h. contains_key-write_device q p f c.world.heap ∙ h in
      let memory =
        counts-Memory cl.held cl.held heap c.world
          (λ q. contains_key-write_device q p f c.world.heap)
          (Counted-write_device cl.held cl.held p f c.world.heap (λ d e. count d ∙ e) (λ q e. refl)
            well.memory.counted)
          well.memory.owned well.memory in
      renew-IsWell cl c (set_heap heap c) memory refl
        (Names-Keeps c.world.heap heap cl.received keeps well.received)
        (Names-Keeps c.world.heap heap c.event_queue keeps well.queued) well

  -- A call of a lawful client comes to an end.
  pub call-Goes :
      (ctx : Ptr) (k : Call fl) (cl : Client fl) (c : LibinputContext fl)
      → MaySet k cl
      → IsWell cl c
      → Goes cl k (call ctx k (some c))
  unfolding call libinput_dispatch populate_events libinput_udev_assign_seat
      libinput_path_add_device
  call-Goes ctx (dispatch env) cl c may well =
      let (r, e, grows) = drain_into_queue-Grows cl.held ctx env c.world well.memory in
      (push r.0 r.1 c, [], cc e, heard-IsWell cl _ [] (push-IsWell cl c r well grows) tt)
  call-Goes ctx get_event cl c may well = get_event-Goes ctx cl c well c.event_queue refl
  call-Goes ctx (assign_seat none paths) cl c may well = (c, [], refl, heard-IsWell cl c [] well tt)
  call-Goes ctx (assign_seat (some name) paths) cl c may well =
      let r = scan_and_open ctx paths c.world in
      let c0 : LibinputContext fl = record c { seat = record c.seat { logical_name = name } } in
      let well0 : IsWell cl c0 =
        renew-IsWell cl c c0 well.memory refl well.received well.queued well in
      (
        push r.0 r.1 c0,
        [],
        refl,
        heard-IsWell cl _ []
            (push-IsWell cl c0 r well0 (scan_and_open-Grows cl.held ctx paths c.world well.memory))
            tt,
      )
  call-Goes ctx (path_add_device none o) cl c may well = (c, [], refl, heard-IsWell cl c [] well tt)
  call-Goes ctx (path_add_device (some path) o) cl c may well =
      let r = try_open path ctx o c.world in
      (
        push r.0 r.1 c,
        [],
        refl,
        heard-IsWell cl _ []
            (push-IsWell cl c r well (try_open-Grows cl.held path ctx o c.world well.memory)) tt,
      )
  call-Goes ctx (configure p f) cl c (known, count) well =
      (_, [], refl, heard-IsWell cl _ [] (set-IsWell cl c p f count well) tt)
