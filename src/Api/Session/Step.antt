-- ===== src/Api/Session/Step.antt =====
-- How one context becomes another while the client is handed events: the invariant of a session.
use libinput_rs.Common.{All-append, All-split, ◌+◌, ◌≡◌, refl, List, [], ◌∷◌, ◌++◌, arith}
use libinput_rs.Floats.{Floats}
use libinput_rs.Ffi.{Ptr, LibinputEvent}
use libinput_rs.Ffi.Device.{LibinputDevice}
use libinput_rs.Backend.World.{World, contains_key}
use libinput_rs.Backend.Drain.Follows.{Tracks, IsLive, tally}
use libinput_rs.Backend.Drain.Stamped.{IsStamped, AllStamped}
use libinput_rs.Backend.Drain.Notices.{added, removed, added-append, removed-append}
use libinput_rs.Backend.Drain.Sound.{IsFair, Sound}
use libinput_rs.Api.Context.{LibinputContext, push}
use libinput_rs.Api.Session.{write_device}

pub contains_key-write_device :
    {A : Type 0} (k p : Ptr) (f : A → A) (heap : List (Ptr × A))
    → contains_key k (write_device p f heap) ≡ contains_key k heap
unfolding contains_key write_device
contains_key-write_device k p f [] = refl
contains_key-write_device k p f ((q, a) ∷ heap) =
    ground (arith, contains_key-write_device k p f heap)

module _ {fl : Floats} where
  -- A context that became another while the client was handed these events.
  pub record IsStep (ctx : Ptr) (c : LibinputContext fl) (es : List (LibinputEvent fl))
      (c' : LibinputContext fl) : Type 0 where
    pub sound : Sound c'.world
    pub balance :
        (p : Ptr)
        → tally p c'.world.tracked
            + (removed p es + removed p c'.event_queue)
            + added p c.event_queue
          ≡ tally p c.world.tracked
            + (added p es + added p c'.event_queue)
            + removed p c.event_queue
    pub stamped : AllStamped ctx c.event_queue → AllStamped ctx (es ++ c'.event_queue)

  pub IsStep-trans :
      (ctx : Ptr) (b c d : LibinputContext fl) (es es' : List (LibinputEvent fl))
      → IsStep ctx b es c
      → IsStep ctx c es' d
      → IsStep ctx b (es ++ es') d
  IsStep-trans ctx b c d es es' s t = record {
    sound = t.sound;
    balance = λ p.
        (let x = s.balance p in
          let y = t.balance p in
          let u = added-append p es es' in let v = removed-append p es es' in omega arith);
    stamped = λ h.
        (let (first, q) = All-split (IsStamped ctx) es c.event_queue (s.stamped h) in
          let (second, q') = All-split (IsStamped ctx) es' d.event_queue (t.stamped q) in
          All-append (IsStamped ctx) (es ++ es') d.event_queue
            (All-append (IsStamped ctx) es es' first second) q');
  }

  pub IsStep-refl : (ctx : Ptr) (c : LibinputContext fl) → Sound c.world → IsStep ctx c [] c
  IsStep-refl ctx c s = record { sound = s; balance = λ p. omega arith; stamped = λ h. h }

  pub push-IsStep :
      (ctx : Ptr) (c : LibinputContext fl) (w : World fl) (out : List (LibinputEvent fl))
      → IsFair c.world.tracked w.heap w.tracked out
      → AllStamped ctx out
      → IsStep ctx c [] (push w out c)
  push-IsStep ctx c w out f k = record {
    sound = f.sound;
    balance = λ p.
        (let x = f.balance p in
          let u = added-append p c.event_queue out in
          let v = removed-append p c.event_queue out in omega arith);
    stamped = λ h. All-append (IsStamped ctx) c.event_queue out h k;
  }

  pub IsLive-write_device :
      (p : Ptr) (f : LibinputDevice fl → LibinputDevice fl) (heap : List (Ptr × LibinputDevice fl))
      (l : Tracks fl)
      → IsLive heap l
      → IsLive (write_device p f heap) l
  IsLive-write_device p f heap [] h = tt
  IsLive-write_device p f heap ((fd, td) ∷ l) (h, hs) =
      (cc (h, contains_key-write_device td.lib_device p f heap), IsLive-write_device p f heap l hs)
