-- ===== src/Schedule/TimeOfDay.antt =====
-- fmt.Sscanf(slot.Time, "%d:%d", &hour, &min) as schedule.go and schedule_mcp.go use it.
use social.Prelude.{
  ℕ, suc, ◌+◌, ◌-◌, ◌*◌, String, Bool, true, false, ◌&&◌, ◌==◌, leb, if◌then◌else◌, Option, none,
  some, List, [], ◌∷◌, ◌≡◌, refl,
}
use social.Prelude.Int.{ℤ, pos, negsuc}
use social.Platform.Text.{runes, is_space, signed}

abbrev newline : ℕ
newline = 10

-- SkipSpace: blanks are passed, and a line end is an error.
unfoldable pub skip_space : List ℕ → Option (List ℕ)
unfolding is_space
skip_space [] = some []
skip_space (c ∷ cs) =
    let rest = skip_space cs in
    if c == newline then none else if is_space c then rest else some (c ∷ cs)

-- The value of the digits at the start, how many there are, and what follows.
pub record Digits : Type 0 where
  pub value : ℕ
  pub taken : ℕ
  pub rest : List ℕ

unfoldable pub scan_digits : ℕ → ℕ → List ℕ → Digits
scan_digits value taken [] = record { value = value; taken = taken; rest = [] }
scan_digits value taken (c ∷ cs) =
    let more = scan_digits (value * 10 + (c - 48)) (suc taken) cs in
    if leb 48 c && leb c 57 then more else record { value = value; taken = taken; rest = c ∷ cs }

abbrev with_rest : Option ℤ → List ℕ → Option (ℤ × List ℕ)
with_rest none cs = none
with_rest (some n) cs = some (n, cs)

-- The digits after the sign: at least one, and a value that fits an int.
unfoldable pub scan_unsigned : Bool → List ℕ → Option (ℤ × List ℕ)
unfolding scan_digits signed
scan_unsigned minus cs =
    let d = scan_digits 0 0 cs in
    if d.taken == 0 then none else with_rest (signed minus (some d.value)) d.rest

unfoldable pub scan_signed : List ℕ → Option (ℤ × List ℕ)
unfolding scan_unsigned
scan_signed [] = none
scan_signed (c ∷ cs) =
    if c == b'-'
    then scan_unsigned true cs
    else if c == b'+'
    then scan_unsigned false cs
    else scan_unsigned false (c ∷ cs)

abbrev scan_blank : Option (List ℕ) → Option (ℤ × List ℕ)
scan_blank none = none
scan_blank (some cs) = scan_signed cs

-- %d
unfoldable pub scan_int : List ℕ → Option (ℤ × List ℕ)
unfolding skip_space scan_signed
scan_int cs = scan_blank (skip_space cs)

abbrev with_hour : ℤ → Option (ℤ × List ℕ) → Option (ℤ × ℤ)
with_hour h none = none
with_hour h (some (m, rest)) = some (h, m)

unfoldable pub scan_minute : Option (ℤ × List ℕ) → Option (ℤ × ℤ)
unfolding scan_int
scan_minute none = none
scan_minute (some (h, [])) = none
scan_minute (some (h, c ∷ cs)) = if c == b':' then with_hour h (scan_int cs) else none

-- Hour and minute; what follows the minute is not read.
unfoldable pub scan_time : String → Option (ℤ × ℤ)
unfolding scan_minute runes
scan_time s = scan_minute (scan_int (runes s))

scan_nine : scan_time "09:30" ≡ some (pos 9, pos 30)
unfolding scan_time
scan_nine = refl

scan_trailing : scan_time "9:5pm" ≡ some (pos 9, pos 5)
unfolding scan_time
scan_trailing = refl

scan_negative : scan_time "-1: 7" ≡ some (negsuc 0, pos 7)
unfolding scan_time
scan_negative = refl

scan_malformed : scan_time "0900" ≡ none
unfolding scan_time
scan_malformed = refl
