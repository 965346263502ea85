-- ===== src/Api/Capability/Moves.antt =====
-- How one context becomes another while every event is of a kind that its device allows.
use libinput_rs.Common.{
  ◌<◌, ◌==◌, ◌≡◌, ◌⊎◌, inl, inr, some, List, [], ◌∷◌, ◌++◌, arith, All, All-append, All-split,
  All-map_of, Bool-cases,
}
use libinput_rs.Floats.{Floats}
use libinput_rs.Ffi.{Ptr, LibinputEvent}
use libinput_rs.Ffi.Device.{LibinputDevice}
use libinput_rs.Backend.World.{Pushed, lookup}
use libinput_rs.Backend.Tracked.{TrackedDevice}
use libinput_rs.Api.Context.{LibinputContext, push}
use libinput_rs.Api.Session.{
  Call, dispatch, get_event, assign_seat, path_add_device, configure, write_device,
}
use libinput_rs.Api.Capability.Table.{IsLinked, IsAllowed, IsReady, Sends}
use libinput_rs.Api.Capability.Opens.{IsProper, AllProper}

module _ {fl : Floats} where
  -- What a device is announced with stays as it is.
  abbrev pub SameFlags : (LibinputDevice fl → LibinputDevice fl) → Type 0
  SameFlags f =
      (dev : LibinputDevice fl)
      → ((f dev).has_keyboard ≡ dev.has_keyboard)
        × ((f dev).has_pointer ≡ dev.has_pointer)
        × ((f dev).has_gesture ≡ dev.has_gesture)

  -- No keyboard has absolute axes and is no pointer, and settings are no capabilities.
  abbrev pub IsMild : Call fl → Type 0
  IsMild (dispatch env) = AllProper env.ievents
  IsMild get_event = Unit
  IsMild (assign_seat name paths) = AllProper paths
  IsMild (path_add_device path o) = IsProper o
  IsMild (configure p f) = SameFlags f

  lookup-write_device :
      (q p : Ptr) (f : LibinputDevice fl → LibinputDevice fl) (dev : LibinputDevice fl)
      (heap : List (Ptr × LibinputDevice fl))
      → lookup q heap ≡ some dev
      → (lookup q (write_device p f heap) ≡ some dev)
        ⊎ (lookup q (write_device p f heap) ≡ some (f dev))
  unfolding lookup write_device
  lookup-write_device q p f dev [] found = cc
  lookup-write_device q p f dev ((i, d) ∷ heap) found = elim (Bool-cases (i == q)) [
    | inl e ↦ (elim (Bool-cases (i == p)) [
      | inl here ↦ inr (ground arith)
      | inr there ↦ inl (ground arith)
    ])
    | inr e ↦ (elim (lookup-write_device q p f dev heap (ground arith)) [
      | inl same ↦ inl (ground arith)
      | inr set ↦ inr (ground arith)
    ])
  ]

  -- What was allowed stays allowed after a write of settings.
  IsAllowed-write_device :
      (p : Ptr) (f : LibinputDevice fl → LibinputDevice fl) (heap : List (Ptr × LibinputDevice fl))
      → SameFlags f
      → (e : LibinputEvent fl) → IsAllowed heap e
      → IsAllowed (write_device p f heap) e
  IsAllowed-write_device p f heap same e (dev, found, ok) =
      let (k, m, g) = same dev in
      elim (lookup-write_device e.device p f dev heap found) [
        | inl old ↦ (dev, old, ok)
        | inr set ↦ (f dev, set, cc (k, m, g, ok))
      ]

  IsLinked-write_device :
      (p : Ptr) (f : LibinputDevice fl → LibinputDevice fl) (heap : List (Ptr × LibinputDevice fl))
      → SameFlags f
      → (td : TrackedDevice fl) → IsLinked heap td
      → IsLinked (write_device p f heap) td
  IsLinked-write_device p f heap same td (dev, found, ok) =
      let (k, m, g) = same dev in
      elim (lookup-write_device td.lib_device p f dev heap found) [
        | inl old ↦ (dev, old, ok)
        | inr set ↦ (f dev, set, cc (k, m, g, ok))
      ]

  below_set :
      (n p : Ptr) (f : LibinputDevice fl → LibinputDevice fl)
      (heap : List (Ptr × LibinputDevice fl))
      → All (λ e. e.0 < n) heap
      → All (λ e. e.0 < n) (write_device p f heap)
  unfolding write_device
  below_set n p f [] h = tt
  below_set n p f ((i, d) ∷ heap) (lt, h) = ground (arith, below_set n p f heap h)

-- A context that became another while the client was handed these events.
pub record IsMoved {fl : Floats} (c : LibinputContext fl) (es : List (LibinputEvent fl))
    (c' : LibinputContext fl) : Type 0 where
  pub ready : IsReady c'.world
  pub keeps : (e : LibinputEvent fl) → IsAllowed c.world.heap e → IsAllowed c'.world.heap e
  pub queued :
      All (IsAllowed c.world.heap) c.event_queue
      → All (IsAllowed c'.world.heap) (es ++ c'.event_queue)

module _ {fl : Floats} where
  pub IsMoved-refl : (c : LibinputContext fl) → IsReady c.world → IsMoved c [] c
  IsMoved-refl c ready = record { ready = ready; keeps = λ e h. h; queued = λ h. h }

  pub IsMoved-trans :
      (b c d : LibinputContext fl) (es es' : List (LibinputEvent fl))
      → IsMoved b es c
      → IsMoved c es' d
      → IsMoved b (es ++ es') d
  IsMoved-trans b c d es es' s t = record {
    ready = t.ready;
    keeps = λ e h. t.keeps e (s.keeps e h);
    queued = λ h.
        (let (first, q) = All-split (IsAllowed c.world.heap) es c.event_queue (s.queued h) in
          let (second, q') = All-split (IsAllowed d.world.heap) es' d.event_queue (t.queued q) in
          let old = All-map_of (IsAllowed c.world.heap) (IsAllowed d.world.heap) t.keeps es first in
          All-append (IsAllowed d.world.heap) (es ++ es') d.event_queue
            (All-append (IsAllowed d.world.heap) es es' old second) q');
  }

  pub push-IsMoved :
      (c : LibinputContext fl) (r : Pushed fl) → Sends c.world r → IsMoved c [] (push r.0 r.1 c)
  push-IsMoved c r s =
      let keeps : (e : LibinputEvent fl) → IsAllowed c.world.heap e → IsAllowed r.0.heap e =
        λ e (dev, found, ok). (dev, s.extends e.device dev found, ok) in
      record {
        ready = s.ready;
        keeps = keeps;
        queued = λ h.
            All-append (IsAllowed r.0.heap) c.event_queue r.1
              (All-map_of (IsAllowed c.world.heap) (IsAllowed r.0.heap) keeps c.event_queue h)
              s.allowed;
      }

  pub configure-Moves :
      (p : Ptr) (f : LibinputDevice fl → LibinputDevice fl) (c : LibinputContext fl)
      → SameFlags f
      → IsReady c.world
      → IsMoved c [] (record c { world = record c.world { heap = write_device p f c.world.heap } })
  configure-Moves p f c same ready =
      let heap = write_device p f c.world.heap in
      record {
        ready = record {
          below = below_set c.world.next_ptr p f c.world.heap ready.below;
          linked =
              All-map_of (λ e. IsLinked c.world.heap e.1) (λ e. IsLinked heap e.1)
                (λ e h. IsLinked-write_device p f c.world.heap same e.1 h) c.world.tracked
                ready.linked;
        };
        keeps = λ e h. IsAllowed-write_device p f c.world.heap same e h;
        queued = λ h.
            All-map_of (IsAllowed c.world.heap) (IsAllowed heap)
              (λ e k. IsAllowed-write_device p f c.world.heap same e k) c.event_queue h;
      }
