-- ===== src/Base/Text.antt =====
-- Python's `str`: length, slices, concatenation and order by code points, decimal printing.
use Prim.Native.Nat.{ℕ, zero, suc, ◌/◌, ◌%◌, ◌≤◌}
use Prim.Native.Char.{Char, code}
use Prim.Native.String.{String, ◌++◌}
use mathlib.Core.Bool.{Bool, true, false, ◌&&◌, ◌||◌}
use mathlib.Core.List.{List, [], ◌∷◌}
use native.Mathlib.Omega.{arith}
use goggles.Base.Tests.{ltb, nat_beq, if◌then◌else◌}

-- len(s)
unfoldable pub str_len : String → ℕ
str_len String.[] = 0
str_len (String.◌∷◌ c s) = suc (str_len s)

-- The truth value of a text: `bool(s)`.
abbrev pub nonempty : String → Bool
nonempty String.[] = false
nonempty (String.◌∷◌ c s) = true

-- s[:n]
unfoldable pub str_take : ℕ → String → String
str_take zero s = ""
str_take (suc n) String.[] = ""
str_take (suc n) (String.◌∷◌ c s) = String.◌∷◌ c (str_take n s)

abbrev pub chars : String → List Char
chars String.[] = []
chars (String.◌∷◌ c s) = c ∷ chars s

-- s <= t, by code points.
unfoldable pub str_leb : String → String → Bool
str_leb String.[] t = true
str_leb (String.◌∷◌ c s) String.[] = false
str_leb (String.◌∷◌ c s) (String.◌∷◌ d t) =
    ltb (code c) (code d) || (nat_beq (code c) (code d) && str_leb s t)

abbrev pub str_all : (Char → Bool) → String → Bool
str_all p String.[] = true
str_all p (String.◌∷◌ c s) = p c && str_all p s

pub str_len-str_take-le : (n : ℕ) (s : String) → str_len (str_take n s) ≤ n
unfolding str_len str_take
str_len-str_take-le zero s = omega arith
str_len-str_take-le (suc n) String.[] = omega arith
str_len-str_take-le (suc n) (String.◌∷◌ c s) = omega (arith, str_len-str_take-le n s)

-- "sep".join(parts)
unfoldable pub join : String → List String → String
join sep [] = ""
join sep (s ∷ []) = s
join sep (s ∷ t ∷ rest) = s ++ (sep ++ join sep (t ∷ rest))

digit : ℕ → String
digit n =
    if nat_beq n 0
    then "0"
    else if nat_beq n 1
    then "1"
    else if nat_beq n 2
    then "2"
    else if nat_beq n 3
    then "3"
    else if nat_beq n 4
    then "4"
    else if nat_beq n 5
    then "5"
    else if nat_beq n 6
    then "6"
    else if nat_beq n 7
    then "7"
    else if nat_beq n 8
    then "8"
    else "9"

digits_below : ℕ → ℕ → String
digits_below zero n = ""
digits_below (suc fuel) n =
    let rest = digits_below fuel (n / 10) in if ltb n 10 then digit n else rest ++ digit (n % 10)

-- str(n); a number has fewer digits than n + 1.
unfoldable pub show : ℕ → String
unfolding digits_below digit
show n = digits_below (suc n) n
