-- ===== src/Base/Text.antt =====
-- What the program uses of Go's packages strings and fmt: TrimSpace, ToLower, and the verb %06d.
use Prim.Native.Nat.{Ordering, ℕ, zero, suc, ◌+◌, ◌-◌, ◌/◌, ◌%◌}
use Prim.Native.Char.{code}
use Prim.Native.String.{String, len, slice, ◌++◌, compare}
use mathlib.Core.Path.{◌≡◌, refl}
use mathlib.Core.Bool.{Bool, true, false, ◌||◌, ◌&&◌}
use mathlib.Core.List.{List, [], ◌∷◌}
use cs320_cluster_process_ma.Base.Int.{ℤ, pos, negsuc}
use cs320_cluster_process_ma.Base.Tests.{ltb, leb, nat_beq, if◌then◌else◌}

-- unicode.IsSpace on a code point.
abbrev pub is_space : ℕ → Bool
is_space c =
    (leb 9 c && leb c 13)
    || nat_beq c 0x20
    || nat_beq c 0x85
    || nat_beq c 0xa0
    || nat_beq c 0x1680
    || (leb 0x2000 c && leb c 0x200a)
    || nat_beq c 0x2028
    || nat_beq c 0x2029
    || nat_beq c 0x202f
    || nat_beq c 0x205f
    || nat_beq c 0x3000

abbrev is_empty : String → Bool
is_empty String.[] = true
is_empty (String.◌∷◌ c s) = false

unfoldable pub trim_left : String → String
trim_left String.[] = ""
trim_left (String.◌∷◌ c s) =
    let rest = trim_left s in if is_space (code c) then rest else String.◌∷◌ c s

unfoldable pub trim_right : String → String
trim_right String.[] = ""
trim_right (String.◌∷◌ c s) =
    let rest = trim_right s in if is_space (code c) && is_empty rest then "" else String.◌∷◌ c rest

-- strings.TrimSpace
unfoldable pub trim_space : String → String
unfolding trim_left trim_right
trim_space s = trim_right (trim_left s)

-- unicode.ToLower on the letters with an ASCII lower case: A to Z, and the two others that
-- Unicode maps into ASCII (U+0130 and U+212A). Other letters stay outside ASCII.
abbrev lower_code : ℕ → ℕ
lower_code c =
    if leb b'A' c && leb c b'Z'
    then c + 32
    else if nat_beq c 0x130
    then b'i'
    else if nat_beq c 0x212a
    then b'k'
    else c

-- The code points of strings.ToLower, as far as a comparison with an ASCII text sees them.
unfoldable pub to_lower : String → List ℕ
to_lower String.[] = []
to_lower (String.◌∷◌ c s) = lower_code (code c) ∷ to_lower s

-- The code points of a text.
abbrev pub codes : String → List ℕ
codes String.[] = []
codes (String.◌∷◌ c s) = code c ∷ codes s

-- Whether a list of code points is that of a text.
abbrev pub spells : List ℕ → String → Bool
spells [] String.[] = true
spells (c ∷ cs) (String.◌∷◌ d s) = nat_beq c (code d) && spells cs s
spells _ _ = false

-- Go's `<` on texts.
abbrev pub before : String → String → Bool
before s t = elim (compare s t) [ Ordering.lt ↦ true | _ ↦ false ]

abbrev zeros : ℕ → String
zeros zero = ""
zeros (suc n) = "0" ++ zeros n

-- The decimal digits of a number of at most `fuel` digits.
abbrev pub decimal : (fuel n : ℕ) → String
decimal zero n = ""
decimal (suc fuel) n =
    let rest = decimal fuel (n / 10) in
    let digit = slice "0123456789" (n % 10) (n % 10 + 1) in
    if ltb n 10 then digit else rest ++ digit

-- fmt.Sprintf("event-%06d", n), for a uint64 (at most 20 digits).
unfoldable pub event_id : ℕ → String
event_id n = let digits = decimal 20 n in "event-" ++ zeros (6 - len digits) ++ digits

-- `%d` of an int64.
unfoldable pub decimal_int : ℤ → String
decimal_int (pos n) = decimal 20 n
decimal_int (negsuc n) = "-" ++ decimal 20 (suc n)

event_id_small : event_id 42 ≡ "event-000042"
unfolding event_id
event_id_small = refl

trim_space_test : trim_space " \t a b \n" ≡ "a b"
unfolding trim_space
trim_space_test = refl
