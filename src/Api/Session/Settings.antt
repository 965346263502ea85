-- ===== src/Api/Session/Settings.antt =====
-- The settings that a client makes through device pointers: what a session leaves of them.
use mathlib.Core.Path.{subst}
use mathlib.Core.Option.{some-injective}
use libinput_rs.Common.{
  ◌<◌, ◌==◌, ◌≡◌, ◌∙◌, refl, All, map, Option, none, some, List, [], ◌∷◌, ◌++◌, arith, unwrap_or,
  if◌then◌else◌, Bool-cases, inl, inr,
}
use libinput_rs.Floats.{Floats}
use libinput_rs.Ffi.{Ptr, LibinputEvent}
use libinput_rs.Ffi.Device.{LibinputDevice}
use libinput_rs.Backend.World.{World, lookup}
use libinput_rs.Backend.Open.{try_open, scan_and_open}
use libinput_rs.Backend.Drain.Whole.{drain_into_queue-Fair}
use libinput_rs.Backend.Drain.Sound.{Sound}
use libinput_rs.Api.Session.Leaves.{
  Leaves, LeavesIfAny, try_open-Leaves, scan_and_open-Leaves, drain_into_queue-Leaves,
}
use libinput_rs.Api.Context.{
  LibinputContext, populate_events, libinput_dispatch, libinput_get_event,
  libinput_udev_assign_seat, libinput_path_add_device,
}
use libinput_rs.Api.Config.Laws.{Setting, Settings, set, get, changed, set-some}
use libinput_rs.Api.Session.{
  Call, dispatch, get_event, assign_seat, path_add_device, configure, call, calls, write_device,
}
use libinput_rs.Api.Session.Balance.{call-Ends}

-- A client that makes settings through the setters: `request` is any other call.
pub data Request (fl : Floats) : Type 0 where
  request : Call fl → Request fl
  setting : Ptr → Setting fl → Request fl

module _ {fl : Floats} where
  -- The object of `p` is there and is this one.
  abbrev Has : Ptr → LibinputDevice fl → World fl → Type 0
  Has p dev w = (p < w.next_ptr) × (lookup p w.heap ≡ some dev)

  Has-Leaves :
      (p : Ptr) (dev : LibinputDevice fl) (w w' : World fl)
      → Leaves w w'
      → Has p dev w
      → Has p dev w'
  Has-Leaves p dev w w' leaves (below, here) =
      let (below', same) = leaves p below in (below', same ∙ here)

  -- What a call of the client itself does to the object of `p`.
  abbrev written : Ptr → Call fl → LibinputDevice fl → LibinputDevice fl
  written p (dispatch env) dev = dev
  written p get_event dev = dev
  written p (assign_seat name paths) dev = dev
  written p (path_add_device path o) dev = dev
  written p (configure q f) dev = if q == p then f dev else dev

  lookup-write_device :
      (p q : Ptr) (f : LibinputDevice fl → LibinputDevice fl)
      (heap : List (Ptr × LibinputDevice fl)) (dev : LibinputDevice fl)
      → lookup p heap ≡ some dev
      → lookup p (write_device q f heap) ≡ some (written p (configure q f) dev)
  unfolding lookup write_device
  lookup-write_device p q f [] dev h = cc h
  lookup-write_device p q f ((k, a) ∷ heap) dev h =
      let rest = lookup-write_device p q f heap dev in
      elim (Bool-cases (k == p)) [
        | inl here ↦
            (let found = subst (λ b. (if b then some a else lookup p heap) ≡ some dev) here h in
              subst
                (λ d.
                  lookup p (write_device q f ((k, a) ∷ heap)) ≡ some (written p (configure q f) d))
                (some-injective a dev found) (ground (arith, here)))
        | inr away ↦
            (let later = subst (λ b. (if b then some a else lookup p heap) ≡ some dev) away h in
              let e = rest later in ground (arith, away, e))
      ]

  abbrev Left :
      Ptr
      → LibinputDevice fl
      → Option (Option (LibinputContext fl) × List (LibinputEvent fl))
      → Type 0
  Left p dev none = Unit
  Left p dev (some (none, es)) = Unit
  Left p dev (some (some c, es)) = Has p dev c.world

  get_event-Left :
      (p : Ptr) (dev : LibinputDevice fl) (ctx : Ptr) (c : LibinputContext fl)
      → Has p dev c.world
      → (q : List (LibinputEvent fl)) → c.event_queue ≡ q
      → Left p dev (call ctx get_event (some c))
  unfolding call libinput_get_event
  get_event-Left p dev ctx c h [] e = rw (e, Left) h
  get_event-Left p dev ctx c h (ev ∷ q) e = rw (e, Left) h

  call-Left :
      (p : Ptr) (dev : LibinputDevice fl) (ctx : Ptr) (k : Call fl) (c : LibinputContext fl)
      → Sound c.world
      → Has p dev c.world
      → Left p (written p k dev) (call ctx k (some c))
  unfolding call libinput_dispatch populate_events libinput_udev_assign_seat
      libinput_path_add_device
  call-Left p dev ctx (dispatch env) c s h =
      let (r, e, _, _) = drain_into_queue-Fair ctx env c.world s in
      rw (e, Left)
        (Has-Leaves p dev c.world r.0
          (subst (LeavesIfAny c.world) e (drain_into_queue-Leaves ctx env c.world)) h)
  call-Left p dev ctx get_event c s h = get_event-Left p dev ctx c h c.event_queue refl
  call-Left p dev ctx (assign_seat none paths) c s h = h
  call-Left p dev ctx (assign_seat (some name) paths) c s h =
      Has-Leaves p dev c.world (scan_and_open ctx paths c.world).0
        (scan_and_open-Leaves ctx paths c.world) h
  call-Left p dev ctx (path_add_device none o) c s h = h
  call-Left p dev ctx (path_add_device (some path) o) c s h =
      Has-Leaves p dev c.world (try_open path ctx o c.world).0 (try_open-Leaves path ctx o c.world)
        h
  call-Left p dev ctx (configure q f) c s (below, here) =
      (below, lookup-write_device p q f c.world.heap dev here)

  abbrev pub IsPlain : Request fl → Type 0
  IsPlain (request (configure q f)) = ⊥
  IsPlain r = Unit

  -- What a setter leaves of a device.
  abbrev pub configured : Setting fl → LibinputDevice fl → LibinputDevice fl
  configured s dev = unwrap_or (set s (some dev)) dev

  abbrev pub to_call : Request fl → Call fl
  to_call (request k) = k
  to_call (setting p s) = configure p (configured s)

  -- What the getters of `p` are to read after the requests: the last value that its own setter was
  -- given, if it was called on `p`.
  abbrev pub read_after : Ptr → List (Request fl) → Settings fl → Settings fl
  read_after p [] now = now
  read_after p (request k ∷ rs) now = read_after p rs now
  read_after p (setting q s ∷ rs) now = read_after p rs (if q == p then changed s now else now)

  configured-changed :
      (s : Setting fl) (dev : LibinputDevice fl)
      → get (some (configured s dev)) ≡ changed s (get (some dev))
  configured-changed s dev = let (dev', e, f) = set-some s dev in rw e f

  set_one :
      (p q : Ptr) (s : Setting fl) (dev : LibinputDevice fl)
      → get (some (written p (configure q (configured s)) dev))
        ≡ (if q == p then changed s (get (some dev)) else get (some dev))
  set_one p q s dev = elim (Bool-cases (q == p)) [
    | inl here ↦ rw here (configured-changed s dev)
    | inr away ↦ rw away refl
  ]

  untouched :
      (p : Ptr) (k : Call fl) (dev : LibinputDevice fl)
      → IsPlain (request k)
      → written p k dev ≡ dev
  untouched p (dispatch env) dev plain = refl
  untouched p get_event dev plain = refl
  untouched p (assign_seat name paths) dev plain = refl
  untouched p (path_add_device path o) dev plain = refl
  untouched p (configure q f) dev plain = absurd plain

  -- What the device of `p` has become by the requests.
  abbrev became : Ptr → List (Request fl) → LibinputDevice fl → LibinputDevice fl
  became p [] dev = dev
  became p (r ∷ rs) dev = became p rs (written p (to_call r) dev)

  get-became :
      (p : Ptr) (rs : List (Request fl)) (dev : LibinputDevice fl)
      → All IsPlain rs
      → get (some (became p rs dev)) ≡ read_after p rs (get (some dev))
  get-became p [] dev plain = refl
  get-became p (request k ∷ rs) dev (plain, plains) =
      cc (get-became p rs (written p k dev) plains, untouched p k dev plain)
  get-became p (setting q s ∷ rs) dev (plain, plains) =
      cc (get-became p rs (written p (configure q (configured s)) dev) plains, set_one p q s dev)

  calls-step :
      (ctx : Ptr) (k : Call fl) (ks : List (Call fl)) (c c' c'' : LibinputContext fl)
      (es es' : List (LibinputEvent fl))
      → call ctx k (some c) ≡ some (some c', es)
      → calls ctx ks (some c') ≡ some (some c'', es')
      → calls ctx (k ∷ ks) (some c) ≡ some (some c'', es ++ es')
  unfolding calls
  calls-step ctx k ks c c' c'' es es' e e' = cc (e, e')

  calls-became :
      (ctx : Ptr) (rs : List (Request fl)) (c : LibinputContext fl) (p : Ptr)
      (dev : LibinputDevice fl)
      → Sound c.world
      → Has p dev c.world
      → (c' : LibinputContext fl) × (es : List (LibinputEvent fl)) × (calls ctx
            (map to_call rs)
            (some c)
          ≡ some (some c', es))
        × Has p (became p rs dev) c'.world
  unfolding calls
  calls-became ctx [] c p dev s h = (c, [], refl, h)
  calls-became ctx (r ∷ rs) c p dev s h =
      let (c', es, e, first) = call-Ends ctx (to_call r) c s in
      let kept : Has p (written p (to_call r) dev) c'.world =
        subst (Left p (written p (to_call r) dev)) e (call-Left p dev ctx (to_call r) c s h) in
      let (c'', es', e', rest) =
        calls-became ctx rs c' p (written p (to_call r) dev) first.sound kept in
      (c'', es ++ es', calls-step ctx (to_call r) (map to_call rs) c c' c'' es es' e e', rest)

  -- Let a client call setters on devices, and between them dispatch, fetch events, assign the seat
  -- and add paths, in any order. From a sound context in which `p` is a device object and a pointer
  -- that was given out, the calls end, `p` still is one, and each getter reads of it what the last
  -- call of its own setter on `p` set, or what it read before: flags as 0 or 1, a speed as
  -- `f64::clamp` limits it, everything else as given. Setters on other devices, and what the library
  -- does in between, change none of it.
  pub calls-get :
      (ctx : Ptr) (rs : List (Request fl)) (c : LibinputContext fl) (p : Ptr)
      (dev : LibinputDevice fl)
      → Sound c.world
      → All IsPlain rs
      → p < c.world.next_ptr
      → lookup p c.world.heap ≡ some dev
      → (c' : LibinputContext fl) × (es : List (LibinputEvent fl)) × (calls ctx
            (map to_call rs)
            (some c)
          ≡ some (some c', es))
        × (get (lookup p c'.world.heap) ≡ read_after p rs (get (some dev)))
  calls-get ctx rs c p dev s plain below here =
      let (c', es, e, h) = calls-became ctx rs c p dev s (below, here) in
      (c', es, e, cc (h.1, get-became p rs dev plain))
