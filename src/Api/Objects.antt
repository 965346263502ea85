-- ===== src/Api/Objects.antt =====
-- src/lib.rs: the functions on devices and seats through their pointers, and the end of a context in
-- src/ffi_types.rs. Devices are on the heap, and a call of a pointer that is not there is `none`.
pub mod Refs
pub mod Freed
pub mod Info
pub mod Shared
pub mod Absent
use Prim.Native.String.{String}
use libinput_rs.Common.{
  ℕ, ◌==◌, Bool, true, false, not, ◌||◌, Option, none, some, List, [], ◌∷◌, ◌++◌, retain,
  if◌then◌else◌,
}
use libinput_rs.Common.Int.{ℤ, pos, negsuc}
use libinput_rs.Common.Word.{i32_add, i32_sub}
use libinput_rs.Floats.{Floats}
use libinput_rs.Ffi.{Ptr, null}
use libinput_rs.Ffi.Device.{LibinputDevice, LibinputSeat}
use libinput_rs.Backend.World.{lookup}
use libinput_rs.Api.Session.{write_device}

abbrev pub Heap : Floats → Type 0
Heap fl = List (Ptr × LibinputDevice fl)

-- `remaining <= 0`.
abbrev is_spent : ℤ → Bool
is_spent (pos n) = n == 0
is_spent (negsuc n) = true

-- The calls of a client that count references to devices.
pub data RefCall : Type 0 where
  take release : Ptr → RefCall

module _ {fl : Floats} where
  -- `drop(Box::from_raw(p))`.
  abbrev pub free : Ptr → Heap fl → Heap fl
  free p heap = retain (λ e. not (e.0 == p)) heap

  unfoldable pub libinput_device_ref : Ptr → Heap fl → Option (Heap fl × Ptr)
  unfolding write_device
  libinput_device_ref p heap = if p == null then some (heap, null) else (elim (lookup p heap) [
    | none ↦ none
    | some dev ↦
        some
          (write_device p (λ dev. record dev { refcount = i32_add dev.refcount (pos 1) }) heap, p)
  ])

  unfoldable pub libinput_device_unref : Ptr → Heap fl → Option (Heap fl × Ptr)
  unfolding write_device
  libinput_device_unref p heap = if p == null then some (heap, null) else (elim (lookup p heap) [
    | none ↦ none
    | some dev ↦
        if is_spent (i32_sub dev.refcount (pos 1))
        then some (free p heap, null)
        else some
            (write_device p (λ dev. record dev { refcount = i32_sub dev.refcount (pos 1) }) heap, p)
  ])

  -- The devices that a context frees when it is dropped, in turn; `none` where one is freed that is
  -- not there.
  unfoldable pub free_all : List Ptr → Heap fl → Option (Heap fl)
  free_all [] heap = some heap
  free_all (p ∷ ps) heap =
      let rest = free_all ps (free p heap) in
      if p == null
      then free_all ps heap
      else (elim (lookup p heap) [ none ↦ none | some dev ↦ rest ])

  unfoldable pub ref_call : RefCall → Heap fl → Option (Heap fl × Ptr)
  unfolding libinput_device_ref libinput_device_unref
  ref_call (take p) heap = libinput_device_ref p heap
  ref_call (release p) heap = libinput_device_unref p heap

  unfoldable pub ref_calls : List RefCall → Heap fl → Option (Heap fl)
  ref_calls [] heap = some heap
  ref_calls (c ∷ cs) heap = elim (ref_call c heap) [
    | none ↦ none
    | some (heap', _) ↦ ref_calls cs heap'
  ]
