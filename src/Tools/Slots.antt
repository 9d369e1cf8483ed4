-- ===== src/Tools/Slots.antt =====
-- The slots of the stored schedules are valid.
use social.Prelude.{
  ℕ, suc, ◌≤◌, String, true, Option, none, some, List, [], ◌∷◌, ◌≡◌, ◌⊎◌, inl, inr, refl, subst,
  arith, Option-cases, All, tests,
}
use social.Prelude.Int.{ℤ, pos, negsuc}
use social.Model.{Slot, PublicationSchedule, Db}
use social.Model.Zone.{Zone}
use social.Model.Errors.{ok}
use social.Exec.{Env, Sys}
use social.Exec.Yields.{Yields}
use social.Schedule.TimeOfDay.{scan_time}
use social.Tools.Schedules.{
  within, is_clock, is_known, slot_fault, slots_fault, validate_slots, read_slots, or_fault,
  decoded_slots,
}

-- A slot of a day of the week and of a time of the day, in a zone that can be loaded.
pub record IsValidSlot (load : String → Option Zone) (slot : Slot) : Type 0 where
  pub zone : Zone
  pub loaded : load slot.timezone ≡ some zone
  pub day : ℕ
  pub hour : ℕ
  pub minute : ℕ
  pub weekly : (slot.weekday ≡ pos day) × (day ≤ 6)
  pub scanned : scan_time slot.time ≡ some (pos hour, pos minute)
  pub daily : (hour ≤ 23) × (minute ≤ 59)

abbrev pub HasValidSlots : (String → Option Zone) → PublicationSchedule → Type 0
HasValidSlots load s = All (IsValidSlot load) s.slots

abbrev pub ValidSlots : (String → Option Zone) → Db → Type 0
ValidSlots load db = All (HasValidSlots load) db.schedules

within_cases : (max : ℕ) (n : ℤ) → within max n ≡ true → (k : ℕ) × ((n ≡ pos k) × (k ≤ max))
unfolding within
within_cases max (pos k) h = (k, (refl, grind tests))
within_cases max (negsuc k) h = absurd (cc)

is_known_cases : (o : Option Zone) → is_known o ≡ true → (z : Zone) × (o ≡ some z)
unfolding is_known
is_known_cases none h = absurd (cc)
is_known_cases (some z) h = (z, refl)

is_clock_cases :
    (o : Option (ℤ × ℤ))
    → is_clock o ≡ true
    → (h m : ℕ) × ((o ≡ some (pos h, pos m)) × ((h ≤ 23) × (m ≤ 59)))
unfolding is_clock within
is_clock_cases none e = absurd (cc)
is_clock_cases (some (pos h, pos m)) e = (h, m, (refl, (grind tests, grind tests)))
is_clock_cases (some (pos h, negsuc m)) e = absurd (ground arith)
is_clock_cases (some (negsuc h, m)) e = absurd (ground arith)

-- The four tests that a slot without a fault has passed.
slot_fault-none :
    (load : String → Option Zone) (quote : String → String) (i : ℕ) (slot : Slot)
    → slot_fault load quote i slot ≡ none
    → (within 6 slot.weekday ≡ true)
      × ((is_clock (scan_time slot.time) ≡ true) × (is_known (load slot.timezone) ≡ true))
unfolding slot_fault
slot_fault-none load quote i slot e = (ground arith, (ground arith, ground arith))

slot_fault-IsValidSlot :
    (load : String → Option Zone) (quote : String → String) (i : ℕ) (slot : Slot)
    → slot_fault load quote i slot ≡ none
    → IsValidSlot load slot
slot_fault-IsValidSlot load quote i slot e =
    let (w, (c, k)) = slot_fault-none load quote i slot e in
    let (day, weekly) = within_cases 6 slot.weekday w in
    let (hour, minute, (scanned, daily)) = is_clock_cases (scan_time slot.time) c in
    let (zone, loaded) = is_known_cases (load slot.timezone) k in
    record {
      zone = zone;
      loaded = loaded;
      day = day;
      hour = hour;
      minute = minute;
      weekly = weekly;
      scanned = scanned;
      daily = daily;
    }

slots_fault-IsValidSlot :
    (load : String → Option Zone) (quote : String → String) (i : ℕ) (slots : List Slot)
    → slots_fault load quote i slots ≡ none
    → All (IsValidSlot load) slots
unfolding slots_fault
slots_fault-IsValidSlot load quote i [] e = tt
slots_fault-IsValidSlot load quote i (slot ∷ slots) e =
    elim (Option-cases (slot_fault load quote i slot)) [
      | inl f ↦ (
        slot_fault-IsValidSlot load quote i slot f,
        slots_fault-IsValidSlot load quote (suc i) slots (ground arith),
      )
      | inr (x, f) ↦ absurd (ground arith)
    ]

checked_slots :
    (slots : List Slot) (env : Env) (s : Sys)
    → ((validate_slots slots env s).1 ≡ s)
      × ((a : List Slot)
          → (validate_slots slots env s).0 ≡ ok a
          → All (IsValidSlot env.load_location) a)
unfolding validate_slots or_fault
checked_slots slots env s = elim (Option-cases (slots_fault env.load_location env.quote 0 slots)) [
  | inl e ↦ rw e (
    refl,
    λ a h.
        subst (All (IsValidSlot env.load_location)) (let same : slots ≡ a = cc in same)
          (slots_fault-IsValidSlot env.load_location env.quote 0 slots e),
  )
  | inr (x, e) ↦ rw e (refl, λ a h. absurd (cc))
]

decoded_slots_valid :
    (parsed : List Slot ⊎ String) (env : Env) (s : Sys)
    → ((decoded_slots parsed env s).1 ≡ s)
      × ((a : List Slot)
          → (decoded_slots parsed env s).0 ≡ ok a
          → All (IsValidSlot env.load_location) a)
unfolding decoded_slots
decoded_slots_valid (inl slots) env s = checked_slots slots env s
decoded_slots_valid (inr e) env s = (refl, λ a h. absurd (cc))

module _ {env : Env} where
  pub read_slots-Yields :
      (raw : String)
      → Yields env
          (ValidSlots env.load_location)
          (All (IsValidSlot env.load_location))
          (read_slots raw)
  unfolding read_slots
  read_slots-Yields raw = record {
    at = λ s i.
        let (same, valid) = decoded_slots_valid (env.parse_slots raw) env s in (rw same i, valid);
  }
