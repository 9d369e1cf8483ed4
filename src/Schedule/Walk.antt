-- ===== src/Schedule/Walk.antt =====
-- The walk over the days of firedSlotsBetween ends.
use social.Prelude.{
  ℕ, zero, suc, ◌+◌, ◌<◌, true, false, leb, ◌≡◌, inl, inr, refl, sym, ap, ◌∙◌, arith, Bool-cases,
  tests,
}
use social.Prelude.Int.{ℤ}
use social.Model.{Time, Slot}
use social.Model.Zone.{Zone}
use social.Schedule.Fired.{walk_days, next_day, fires_on}

-- The days of a zone begin one after the other.
abbrev pub Advances : Zone → Type 0
Advances z = (t : Time) → t < next_day z t

module _ (k : ℕ) (z : Zone) (slot : Slot) (hour min : ℤ) (from at cursor : Time) where
  walk_days-stop : leb cursor at ≡ false → walk_days (suc k) z slot hour min from at cursor ≡ 0
  unfolding walk_days
  walk_days-stop e = ground (arith, e)

  walk_days-step :
      leb cursor at ≡ true
      → walk_days (suc k) z slot hour min from at cursor
        ≡ fires_on z slot hour min from at cursor
          + walk_days k z slot hour min from at (next_day z cursor)
  unfolding walk_days
  walk_days-step e = ground (arith, e)

walk_days-done :
    (k : ℕ) (z : Zone) (slot : Slot) (hour min : ℤ) (from at cursor : Time)
    → at < cursor
    → walk_days k z slot hour min from at cursor ≡ 0
unfolding walk_days
walk_days-done zero z slot hour min from at cursor h = refl
walk_days-done (suc k) z slot hour min from at cursor h =
    walk_days-stop k z slot hour min from at cursor (grind tests)

-- In a zone whose days advance, the walk over the days ends by itself: with as much fuel as the
-- window is long, more fuel changes nothing.
pub walk_days-enough :
    (fuel k : ℕ) (z : Zone) (slot : Slot) (hour min : ℤ) (from at cursor : Time)
    → Advances z
    → at < cursor + fuel
    → walk_days (fuel + k) z slot hour min from at cursor
      ≡ walk_days fuel z slot hour min from at cursor
unfolding walk_days
walk_days-enough zero k z slot hour min from at cursor a h =
    let zero_plus : 0 + k ≡ k = omega arith in
    rw zero_plus (walk_days-done k z slot hour min from at cursor (omega arith))
walk_days-enough (suc fuel) k z slot hour min from at cursor a h =
    let more : suc fuel + k ≡ suc (fuel + k) = omega arith in
    let ih =
      walk_days-enough fuel k z slot hour min from at (next_day z cursor) a
        (let m = a cursor in omega (arith, m)) in
    rw more (elim (Bool-cases (leb cursor at)) [
      | inl e ↦
          walk_days-step (fuel + k) z slot hour min from at cursor e
          ∙ (ap (λ n. fires_on z slot hour min from at cursor + n) ih
              ∙ sym (walk_days-step fuel z slot hour min from at cursor e))
      | inr e ↦
          walk_days-stop (fuel + k) z slot hour min from at cursor e
          ∙ sym (walk_days-stop fuel z slot hour min from at cursor e)
    ])
