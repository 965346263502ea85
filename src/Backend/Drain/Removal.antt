-- ===== src/Backend/Drain/Removal.antt =====
-- The removal of devices that are gone from the table.
use libinput_rs.Common.{
  ℕ, ◌+◌, ◌==◌, ◌≡◌, refl, ap, true, Bool-cases, inl, inr, not, Option, none, some, List, [], ◌∷◌,
  arith, bool_to_nat, retain, All-retain,
}
use libinput_rs.Floats.{Floats}
use libinput_rs.Ffi.{Ptr}
use libinput_rs.Backend.Tracked.{TrackedDevice}
use libinput_rs.Backend.World.{World, contains_key, lookup}
use libinput_rs.Backend.Drain.{without, removal, remove_dead, remove_all}
use libinput_rs.Backend.Drain.Keys.{Distinct, Distinct-without, without_first}
use libinput_rs.Backend.Drain.Follows.{Tracks, tally}
use libinput_rs.Backend.Drain.Sound.{IsFair-refl, IsFair-trans, Fair, Sound}

module _ {fl : Floats} where
  -- Taking out a device takes its pointer out of the table once.
  tally-without :
      (p fd : ℕ) (td : TrackedDevice fl) (l : Tracks fl)
      → Distinct l
      → lookup fd l ≡ some td
      → tally p (without fd l) + bool_to_nat (td.lib_device == p) ≡ tally p l
  unfolding lookup retain without
  tally-without p fd td [] d h = cc
  tally-without p fd td ((j, t) ∷ l) d h = elim (Bool-cases (j == fd)) [
    | inl e ↦
        (let first : t ≡ td = (let same : some t ≡ some td = ground (arith, h) in ground arith) in
          let less : without fd ((j, t) ∷ l) ≡ l = without_first fd j t l d e in
          let gone : bool_to_nat (td.lib_device == p) ≡ bool_to_nat (t.lib_device == p) =
            cc first in
          (let q : tally p (without fd ((j, t) ∷ l)) ≡ tally p l = ap (tally p) less in
            grind (arith, gone, q)))
    | inr e ↦ ground (arith, tally-without p fd td l d.1)
  ]

  removal-Fair :
      (ctx : Ptr) (fd : ℕ) (w : World fl) (o : Option (TrackedDevice fl))
      → lookup fd w.tracked ≡ o
      → Sound w
      → Fair w (removal ctx fd w o)
  unfolding removal without
  removal-Fair ctx fd w none e s = IsFair-refl w.heap w.tracked s
  removal-Fair ctx fd w (some td) e s = record {
    sound = record {
      live =
          All-retain (λ x. contains_key x.1.lib_device w.heap ≡ true) (λ x. not (x.0 == fd))
            w.tracked s.live;
      distinct = Distinct-without fd w.tracked s.distinct;
    };
    balance = λ p. (let c = tally-without p fd td w.tracked s.distinct e in omega arith);
  }

  remove_dead-Fair : (ctx : Ptr) (fd : ℕ) (w : World fl) → Sound w → Fair w (remove_dead ctx fd w)
  unfolding remove_dead
  remove_dead-Fair ctx fd w s = removal-Fair ctx fd w (lookup fd w.tracked) refl s

  pub remove_all-Fair :
      (ctx : Ptr) (fds : List ℕ) (w : World fl) → Sound w → Fair w (remove_all ctx fds w)
  unfolding remove_all
  remove_all-Fair ctx [] w s = IsFair-refl w.heap w.tracked s
  remove_all-Fair ctx (fd ∷ fds) w s =
      let first = remove_dead ctx fd w in
      let rest = remove_all ctx fds first.0 in
      let fair = remove_dead-Fair ctx fd w s in
      IsFair-trans w.tracked first.0.tracked rest.0.tracked first.0.heap rest.0.heap first.1 rest.1
        fair (remove_all-Fair ctx fds first.0 fair.sound)
