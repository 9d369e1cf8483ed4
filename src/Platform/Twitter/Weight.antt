-- ===== src/Platform/Twitter/Weight.antt =====
-- xWeightedBodyLen of twitter.go and the regular expression `https?://\S+` that it searches with.
use social.Prelude.{
  ℕ, zero, suc, ◌+◌, ◌-◌, String, Bool, ◌||◌, ◌==◌, if◌then◌else◌, Option, none, some, List, [],
  ◌∷◌, length,
}
use social.Platform.Text.{runes}

abbrev pub x_tco_url_len : ℕ
x_tco_url_len = 23

-- \s of the regexp package: tab, newline, form feed, carriage return, space.
unfoldable pub is_white : ℕ → Bool
is_white c = c == 9 || c == 10 || c == 12 || c == 13 || c == 32

-- How many characters `\S*` takes at the start.
unfoldable pub run_length : List ℕ → ℕ
unfolding is_white
run_length [] = 0
run_length (c ∷ cs) = let n = run_length cs in if is_white c then 0 else suc n

-- `://\S+` at the start: the characters taken, or no match.
unfoldable pub match_tail : List ℕ → Option ℕ
unfolding run_length
match_tail (c ∷ d ∷ e ∷ cs) =
    if c == b':'
    then if d == b'/'
      then if e == b'/'
        then (if run_length cs == 0 then none else some (3 + run_length cs))
        else none
      else none
    else none
match_tail _ = none

abbrev longer : ℕ → Option ℕ → Option ℕ
longer n none = none
longer n (some k) = some (n + k)

-- `s?://\S+` at the start.
unfoldable pub match_secure : List ℕ → Option ℕ
unfolding match_tail
match_secure [] = none
match_secure (c ∷ cs) = if c == b's' then longer 1 (match_tail cs) else match_tail (c ∷ cs)

-- `https?://\S+` at the start.
unfoldable pub match_url : List ℕ → Option ℕ
unfolding match_secure
match_url (a ∷ b ∷ c ∷ d ∷ cs) =
    if a == b'h'
    then if b == b't'
      then if c == b't' then (if d == b'p' then longer 4 (match_secure cs) else none) else none
      else none
    else none
match_url _ = none

-- FindAllString: the lengths of the matches from left to right; `skip` characters of the last match
-- are still to be passed.
unfoldable pub find_urls : ℕ → List ℕ → List ℕ
find_urls skip [] = []
find_urls (suc skip) (c ∷ cs) = find_urls skip cs
find_urls zero (c ∷ cs) = elim (match_url (c ∷ cs)) [
  | none ↦ find_urls zero cs
  | some n ↦ n ∷ find_urls (n - 1) cs
]

-- The loop of xWeightedBodyLen: `total += xTcoURLLen - len(m)`. The sum in brackets is never
-- negative, since the lengths of all matches are counted in the total from the start.
unfoldable pub reweigh : ℕ → List ℕ → ℕ
reweigh total [] = total
reweigh total (m ∷ ms) = reweigh (total + x_tco_url_len - m) ms

unfoldable pub x_weighted_body_len : String → ℕ
unfolding runes find_urls reweigh
x_weighted_body_len body = reweigh (length (runes body)) (find_urls 0 (runes body))
