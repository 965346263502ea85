-- ===== src/Witness/Objects.antt =====
-- Devices of the C interface: references to two of them, and a name for the seat.
use libinput_rs.Common.{ℕ, ◌≡◌, refl, true, false, none, some, List, [], ◌∷◌, arith, All}
use Prim.Native.String.{String}
use libinput_rs.Common.Int.{pos}
use libinput_rs.Ffi.Device.{new_device}
use libinput_rs.Api.Context.{LibinputContext, new_context}
use libinput_rs.Api.Objects.{Heap, RefCall, take, release, ref_calls, free_all}
use libinput_rs.Api.Objects.Refs.{held_after, Counted}
use libinput_rs.Api.Objects.Freed.{ref_calls-free_all}
use libinput_rs.Api.Objects.Info.{
  Named, libinput_device_set_seat_logical_name, device_set_seat_logical_name_lem,
}
use libinput_rs.Backend.World.{contains_key}
use libinput_rs.Witness.Data.{fl, pad_device}

abbrev heap : Heap fl
heap = (5, pad_device) ∷ (4, pad_device) ∷ []

abbrev held_for_a_while : List RefCall
held_for_a_while = take 5 ∷ take 5 ∷ release 5 ∷ take 4 ∷ release 5 ∷ []

ref_calls-free_all_example :
    (heap' : Heap fl) × (left : Heap fl) × (ref_calls held_for_a_while heap ≡ some heap')
    × Counted (held_after (λ _. 0) held_for_a_while) heap'
    × (free_all (4 ∷ 5 ∷ []) heap' ≡ some left)
    × All (λ p. contains_key p left ≡ false) (4 ∷ 5 ∷ [])
unfolding contains_key new_device
ref_calls-free_all_example =
    ref_calls-free_all held_for_a_while (4 ∷ 5 ∷ []) heap ((refl, tt), (tt, tt))
      ((refl, refl), ((refl, refl), tt))
      ((refl, refl), ((refl, refl), ((refl, refl), ((refl, refl), ((refl, refl), tt)))))
      (tt, (tt, (omega arith, (tt, (omega arith, tt))))) (omega arith) (refl, (refl, tt))

abbrev context : LibinputContext fl
context =
    new_context (record { open_restricted = true; close_restricted = true }) 0 (pos 3) none 1 2

-- Every name that is not empty is read as "a".
abbrev all_a : List ℕ → String
all_a [] = ""
all_a (_ ∷ bytes) = "a"

device_set_seat_logical_name_lem_example :
    Named all_a some
      (some "a")
      context
      (libinput_device_set_seat_logical_name all_a some (some (97 ∷ [])) (some pad_device) context)
unfolding new_device
device_set_seat_logical_name_lem_example =
    device_set_seat_logical_name_lem all_a some (some (97 ∷ [])) (some pad_device) context
