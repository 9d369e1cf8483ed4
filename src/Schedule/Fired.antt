-- ===== src/Schedule/Fired.antt =====
-- firedSlotsBetween of schedule.go. A time zone is what the time package makes of a name in the
-- zone database: local days and clocks of an instant, and the instant of a local date.
use social.Prelude.{
  ℕ, zero, suc, ◌+◌, ◌-◌, ◌%◌, String, Bool, true, false, ◌&&◌, ◌==◌, leb, ltb, if◌then◌else◌,
  Option, none, some, List, [], ◌∷◌,
}
use social.Prelude.Int.{ℤ, pos, negsuc}
use social.Model.{Time, Slot, PublicationSchedule}
use social.Model.Zone.{Zone}
use social.Schedule.TimeOfDay.{scan_time}

-- cursor.Weekday(): day 0, the first of January of year 1, is a Monday.
unfoldable pub weekday : ℕ → ℕ
weekday day = (day + 1) % 7

unfoldable pub is_weekday : ℤ → ℕ → Bool
unfolding weekday
is_weekday (pos n) day = n == weekday day
is_weekday (negsuc n) day = false

-- cursor.AddDate(0, 0, 1)
unfoldable pub next_day : Zone → Time → Time
next_day z t = z.date (z.local_day t + 1) (pos 0) (pos 0) (z.local_clock t)

-- The body of the loop for one day: 1 if the slot fires in (from, now], else 0.
unfoldable pub fires_on : Zone → Slot → (hour min : ℤ) (from now cursor : Time) → ℕ
unfolding is_weekday
fires_on z slot hour min from now cursor =
    let fire = z.date (z.local_day cursor) hour min 0 in
    if is_weekday slot.weekday (z.local_day cursor)
    then (if ltb from fire && leb fire now then 1 else 0)
    else 0

-- for !cursor.After(nowLocal) { … }
unfoldable pub walk_days : ℕ → Zone → Slot → (hour min : ℤ) (from now cursor : Time) → ℕ
unfolding fires_on next_day
walk_days zero z slot hour min from now cursor = 0
walk_days (suc fuel) z slot hour min from now cursor = elim (leb cursor now) [
  | false ↦ 0
  | true ↦
      fires_on z slot hour min from now cursor
      + walk_days fuel z slot hour min from now (next_day z cursor)
]

-- The fuel is the length of the window from the first midnight, since each day begins later than
-- the one before.
unfoldable pub count_fires : Zone → Slot → (from now : Time) → Option (ℤ × ℤ) → ℕ
unfolding walk_days
count_fires z slot from now none = 0
count_fires z slot from now (some (hour, min)) =
    let start = z.date (z.local_day from) (pos 0) (pos 0) 0 in
    walk_days (suc (now - start)) z slot hour min from now start

unfoldable pub slot_fires : (String → Option Zone) → (from now : Time) → Slot → ℕ
unfolding count_fires scan_time
slot_fires load from now slot = elim (load slot.timezone) [
  | none ↦ 0
  | some z ↦ count_fires z slot from now (scan_time slot.time)
]

-- The result is parallel to the slots.
unfoldable pub fired_slots : (String → Option Zone) → List Slot → (from now : Time) → List ℕ
unfolding slot_fires
fired_slots load [] from now = []
fired_slots load (slot ∷ slots) from now =
    slot_fires load from now slot ∷ fired_slots load slots from now

unfoldable pub fired_slots_between :
    (String → Option Zone) → PublicationSchedule → (from now : Time) → List ℕ
unfolding fired_slots
fired_slots_between load s from now = fired_slots load s.slots from now
