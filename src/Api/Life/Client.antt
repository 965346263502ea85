-- ===== src/Api/Life/Client.antt =====
-- A client that keeps the rules of the interface: it uses a context while it holds a reference to
-- it, and a device that an event has named, and gives back no reference that it does not hold.
use libinput_rs.Common.{
  ℕ, suc, ◌-◌, ◌<◌, ◌==◌, ◌≡◌, Bool, true, false, ◌||◌, Option, none, some, List, [], ◌∷◌, ◌++◌,
}
use libinput_rs.Common.Int.{pos}
use libinput_rs.Floats.{Floats}
use libinput_rs.Ffi.{Ptr, LibinputEvent}
use libinput_rs.Ffi.Device.{LibinputDevice}
use libinput_rs.Backend.World.{contains_key}
use libinput_rs.Backend.Drain.Named.{Names}
use libinput_rs.Api.Session.{Call, configure}
use libinput_rs.Api.Objects.{take, release}
use libinput_rs.Api.Objects.Refs.{Held, hold, Counted}
use libinput_rs.Api.Life.{
  LifeCall, library, ref_device, unref_device, ref_context, unref_context, Life, alive, dropped,
  life_call,
}

-- What the client knows: its references to the context and to each device, and its events.
pub record Client (fl : Floats) : Type 0 where
  pub refs : ℕ
  pub held : Held
  pub received : List (LibinputEvent fl)

module _ {fl : Floats} where
  abbrev pub new_client : Client fl
  new_client = record { refs = 1; held = λ _. 0; received = [] }

  abbrev pub is_received : Ptr → List (LibinputEvent fl) → Bool
  is_received p [] = false
  is_received p (e ∷ es) = e.device == p || is_received p es

  -- A call was made, and these events were handed to the client.
  abbrev pub observe : LifeCall fl → List (LibinputEvent fl) → Client fl → Client fl
  observe (library k) es cl = record cl { received = cl.received ++ es }
  observe (ref_device p) es cl = record cl { held = hold (take p) cl.held }
  observe (unref_device p) es cl = record cl { held = hold (release p) cl.held }
  observe ref_context es cl = record cl { refs = suc cl.refs }
  observe unref_context es cl = record cl { refs = cl.refs - 1 }

  -- Settings are written to a device that the client was told of, and leave its count alone.
  abbrev pub MaySet : Call fl → Client fl → Type 0
  MaySet (configure p f) cl =
      (is_received p cl.received ≡ true)
      × ((dev : LibinputDevice fl) → (f dev).refcount ≡ dev.refcount)
  MaySet _ cl = Unit

  -- What a call asks of the client besides a reference to the context. Counts stay within an `i32`.
  abbrev pub MayAsk : LifeCall fl → Client fl → Type 0
  MayAsk (library k) cl = MaySet k cl
  MayAsk (ref_device p) cl =
      (is_received p cl.received ≡ true) × (suc (suc (cl.held p)) < 0x8000_0000)
  MayAsk (unref_device p) cl = 0 < cl.held p
  MayAsk ref_context cl = suc cl.refs < 0x8000_0000
  MayAsk unref_context cl = Unit

  -- The calls are made in turn, as far as they come; the client gets the events of each before the
  -- next.
  abbrev pub Lawful : Ptr → List (LifeCall fl) → Client fl → Life fl → Type 0
  Lawful ctx [] cl l = Unit
  Lawful ctx (k ∷ ks) cl l = (0 < cl.refs) × MayAsk k cl × elim (life_call ctx k l) [
    | none ↦ Unit
    | some (l', es) ↦ Lawful ctx ks (observe k es cl) l'
  ]

  unfoldable pub life_calls :
      Ptr → List (LifeCall fl) → Client fl → Life fl → Option (Client fl × Life fl)
  life_calls ctx [] cl l = some (cl, l)
  life_calls ctx (k ∷ ks) cl l = elim (life_call ctx k l) [
    | none ↦ none
    | some (l', es) ↦ life_calls ctx ks (observe k es cl) l'
  ]

  -- While the client holds a reference, the context is there and counts the client's references to
  -- it, and each device counts those of the client and one more; devices that the client holds or
  -- events name are there. Without a reference, the context was dropped and no device is left.
  abbrev pub IsAccounted : Client fl → Life fl → Type 0
  IsAccounted cl (alive c) =
      (0 < cl.refs)
      × (c.refcount ≡ pos cl.refs)
      × Counted cl.held c.world.heap
      × Names c.world.heap (cl.received ++ c.event_queue)
      × ((q : Ptr) → 0 < cl.held q → contains_key q c.world.heap ≡ true)
  IsAccounted cl (dropped w) = (cl.refs ≡ 0) × (w.heap ≡ [])
