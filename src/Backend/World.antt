-- ===== src/Backend/World.antt =====
-- What the backend works on: the part of the context that it reads and writes, the device objects
-- behind the pointers, its own table of open devices, and what it does to the outside world.
use libinput_rs.Common.{
  ℕ, ◌==◌, Bool, false, ◌||◌, Option, none, some, List, [], ◌∷◌, ◌++◌, if◌then◌else◌,
}
use libinput_rs.Floats.{Floats}
use libinput_rs.Ffi.{Ptr, LibinputEvent}
use libinput_rs.Ffi.Device.{LibinputDevice}
use libinput_rs.Backend.Tracked.{TrackedDevice}

-- Which of the two callbacks the client gave.
pub record LibinputInterface : Type 0 where
  pub open_restricted : Bool
  pub close_restricted : Bool

-- Calls that leave the library. `drop_fd` is the close that Rust makes where the owner of a file
-- descriptor goes out of scope.
pub data Effect : Type 0 where
  epoll_add epoll_del close_restricted drop_fd : ℕ → Effect

-- `heap` holds the boxed device objects by their pointers; `next_ptr` is a pointer that is not in
-- use. `devices` is the context's list of device pointers, `tracked` the backend's map from file
-- descriptors, and `effects` what was done so far, oldest first.
pub record World (fl : Floats) : Type 0 where
  pub interface : LibinputInterface
  pub seat : Ptr
  pub devices : List Ptr
  pub heap : List (Ptr × LibinputDevice fl)
  pub next_ptr : Ptr
  pub tracked : List (ℕ × TrackedDevice fl)
  pub global_typing_time : Option ℕ
  pub effects : List Effect

-- The world after a function of the backend, and the events that it pushed.
abbrev pub Pushed : Floats → Type 0
Pushed fl = World fl × List (LibinputEvent fl)

module _ {ℓ} {A : Type ℓ} where
  unfoldable pub contains_key : ℕ → List (ℕ × A) → Bool
  contains_key k [] = false
  contains_key k ((j, a) ∷ rest) = j == k || contains_key k rest

  unfoldable pub lookup : ℕ → List (ℕ × A) → Option A
  lookup k [] = none
  lookup k ((j, a) ∷ rest) = if j == k then some a else lookup k rest

abbrev pub with_effects : {fl : Floats} → List Effect → World fl → World fl
with_effects es w = record w { effects = w.effects ++ es }
