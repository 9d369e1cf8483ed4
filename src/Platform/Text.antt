-- ===== src/Platform/Text.antt =====
-- Go's strings and strconv, as far as the platform clients and the worker use them.
use Prim.Native.Char.{code}
use Prim.Native.String.{◌++◌}
use social.Prelude.{
  ℕ, zero, suc, ◌+◌, ◌-◌, ◌*◌, String, Bool, true, false, ◌&&◌, ◌||◌, ◌==◌, leb, if◌then◌else◌,
  Option, none, some, List, [], ◌∷◌, length,
}
use social.Prelude.Int.{ℤ, pos, negsuc}

-- []rune(s)
unfoldable pub runes : String → List ℕ
runes String.[] = []
runes (String.◌∷◌ c s) = code c ∷ runes s

-- string(runes[:n])
unfoldable pub take_runes : ℕ → String → String
take_runes zero s = ""
take_runes (suc n) String.[] = ""
take_runes (suc n) (String.◌∷◌ c s) = String.◌∷◌ c (take_runes n s)

-- truncate of mastodon.go
unfoldable pub truncate : String → ℕ → String
truncate s n = if leb (length (runes s)) n then s else take_runes n s ++ "…"

-- The value of a run of decimal digits, at least one, or nothing.
unfoldable pub decimal_from : ℕ → List ℕ → Option ℕ
decimal_from n [] = some n
decimal_from n (c ∷ cs) =
    let rest = decimal_from (n * 10 + (c - 48)) cs in if leb 48 c && leb c 57 then rest else none

unfoldable pub decimal : List ℕ → Option ℕ
unfolding decimal_from
decimal [] = none
decimal (c ∷ cs) = decimal_from 0 (c ∷ cs)

abbrev max_int : ℕ
max_int = 9223372036854775807

-- An int of 64 bits: a value out of range is an error.
unfoldable pub signed : Bool → Option ℕ → Option ℤ
signed minus none = none
signed false (some n) = if leb n max_int then some (pos n) else none
signed true (some zero) = some (pos 0)
signed true (some (suc n)) = if leb n max_int then some (negsuc n) else none

-- strconv.Atoi
unfoldable pub atoi_runes : List ℕ → Option ℤ
unfolding decimal signed
atoi_runes [] = none
atoi_runes (c ∷ cs) =
    if c == 45
    then signed true (decimal cs)
    else if c == 43
    then signed false (decimal cs)
    else signed false (decimal (c ∷ cs))

unfoldable pub atoi : String → Option ℤ
unfolding atoi_runes runes
atoi s = atoi_runes (runes s)

-- unicode.IsSpace
unfoldable pub is_space : ℕ → Bool
is_space c =
    (leb 9 c && leb c 13)
    || c == 32
    || c == 133
    || c == 160
    || c == 5760
    || (leb 8192 c && leb c 8202)
    || c == 8232
    || c == 8233
    || c == 8239
    || c == 8287
    || c == 12288

-- Whether a text has only characters of the given kind.
unfoldable pub only : (ℕ → Bool) → String → Bool
only kind String.[] = true
only kind (String.◌∷◌ c s) = kind (code c) && only kind s

unfoldable pub trim_left : (ℕ → Bool) → String → String
trim_left kind String.[] = ""
trim_left kind (String.◌∷◌ c s) =
    let rest = trim_left kind s in if kind (code c) then rest else String.◌∷◌ c s

unfoldable pub trim_right : (ℕ → Bool) → String → String
unfolding only
trim_right kind String.[] = ""
trim_right kind (String.◌∷◌ c s) =
    let rest = trim_right kind s in if only kind (String.◌∷◌ c s) then "" else String.◌∷◌ c rest

-- strings.TrimSpace
unfoldable pub trim_space : String → String
unfolding is_space trim_left trim_right
trim_space s = trim_left is_space (trim_right is_space s)

-- strings.TrimRight(s, "/")
unfoldable pub trim_slashes : String → String
unfolding trim_right
trim_slashes s = trim_right (λ c. c == 47) s

-- strings.CutPrefix(s, prefix): what follows the prefix, if it is there.
unfoldable pub cut_prefix : (prefix s : String) → Option String
cut_prefix String.[] s = some s
cut_prefix (String.◌∷◌ c prefix) String.[] = none
cut_prefix (String.◌∷◌ c prefix) (String.◌∷◌ d s) =
    let rest = cut_prefix prefix s in if code c == code d then rest else none

-- strings.ReplaceAll(s, "+", "%20")
unfoldable pub replace_plus : String → String
replace_plus String.[] = ""
replace_plus (String.◌∷◌ c s) =
    let rest = replace_plus s in if code c == 43 then "%20" ++ rest else String.◌∷◌ c rest
