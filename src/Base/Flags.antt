-- ===== src/Base/Flags.antt =====
-- What the program uses of Go's package flag: a set of text and integer flags, and Parse.
pub mod Ints
use Prim.Native.Char.{Char, code}
use Prim.Native.String
use Prim.Native.String.{String}
use mathlib.Core.Path.{◌≡◌, refl}
use mathlib.Core.Bool.{Bool, true, false, ◌||◌}
use mathlib.Core.Option.{Option, none, some}
use mathlib.Core.List.{List, [], ◌∷◌}
use cs320_cluster_process_ma.Base.Tests.{nat_beq, if◌then◌else◌}
use cs320_cluster_process_ma.Base.Int.{ℤ, pos, IsInt}
use cs320_cluster_process_ma.Base.Equality.{◌==◌, string_eq}

-- The value of a flag, of a field of a body, or of a column.
pub data Value : Type 0 where
  text : String → Value
  int : ℤ → Value

-- The flags of a set with their values.
abbrev pub Flags : Type 0
Flags = List (String × Value)

-- What an argument is: no flag, `--`, a syntax error, or a flag with the value behind its `=`.
pub data Token : Type 0 where
  operand terminator bad : Token
  flag : String → Option String → Token

abbrev push_name : Char → String × Option String → String × Option String
push_name c (name, value) = (String.◌∷◌ c name, value)

abbrev at_equals : String → String × Option String
at_equals String.[] = ("", none)
at_equals (String.◌∷◌ c s) =
    let rest = at_equals s in if nat_beq (code c) b'=' then ("", some s) else push_name c rest

abbrev to_flag : String × Option String → Token
to_flag (name, value) = flag name value

abbrev named : String → Token
named String.[] = bad
named (String.◌∷◌ c s) =
    if nat_beq (code c) b'-' || nat_beq (code c) b'='
    then bad
    else to_flag (push_name c (at_equals s))

abbrev long_named : String → Token
long_named String.[] = terminator
long_named (String.◌∷◌ c s) = named (String.◌∷◌ c s)

abbrev after_minus : String → Token
after_minus String.[] = operand
after_minus (String.◌∷◌ c s) =
    if nat_beq (code c) b'-' then long_named s else named (String.◌∷◌ c s)

unfoldable pub token : String → Token
token String.[] = operand
token (String.◌∷◌ c s) = if nat_beq (code c) b'-' then after_minus s else operand

module _ (parse_int : String → Option ℤ) where
  abbrev pub int_value : Option ℤ → Option Value
  int_value none = none
  int_value (some n) = some (int n)

  -- Value.Set of a text and of an integer flag; strconv.ParseInt with base 0 is the parameter.
  abbrev pub set_value : Value → String → Option Value
  set_value (text _) given = some (text given)
  set_value (int _) given = int_value (parse_int given)

  abbrev pub set_first : String → Option Value → Flags → Option Flags
  set_first name none flags = none
  set_first name (some value) flags = some ((name, value) ∷ flags)

  abbrev pub keep_first : String × Value → Option Flags → Option Flags
  keep_first entry none = none
  keep_first entry (some flags) = some (entry ∷ flags)

  -- A flag that the set does not declare, `help` included, is an error.
  abbrev pub set_flag : String → String → Flags → Option Flags
  set_flag name given [] = none
  set_flag name given ((key, value) ∷ flags) =
      let rest = set_flag name given flags in
      if key == name
      then set_first key (set_value value given) flags
      else keep_first (key, value) rest

  abbrev with_arguments : List String → Flags → Option (Flags × List String)
  with_arguments arguments flags = some (flags, arguments)

  -- FlagSet.Parse, then the flags and Args(); `none` is an error.
  unfoldable pub parse_flags : List String → Flags → Option (Flags × List String)
  unfolding token
  parse_flags [] flags = some (flags, [])
  parse_flags (argument ∷ []) flags = elim (token argument) [
    | operand ↦ some (flags, argument ∷ [])
    | terminator ↦ some (flags, [])
    | bad ↦ none
    | flag name none ↦ none
    | flag name (some given) ↦ elim (set_flag name given flags) [
      | none ↦ none
      | some set ↦ some (set, [])
    ]
  ]
  parse_flags (argument ∷ next ∷ rest) flags = elim (token argument) [
    | operand ↦ some (flags, argument ∷ next ∷ rest)
    | terminator ↦ some (flags, next ∷ rest)
    | bad ↦ none
    | flag name none ↦ elim (set_flag name next flags) [
      | none ↦ none
      | some set ↦ parse_flags rest set
    ]
    | flag name (some given) ↦ elim (set_flag name given flags) [
      | none ↦ none
      | some set ↦ parse_flags (next ∷ rest) set
    ]
  ]

-- The numbers under the names are machine integers.
abbrev pub HasIntFields : Flags → Type 0
HasIntFields [] = Unit
HasIntFields ((_, text _) ∷ fields) = HasIntFields fields
HasIntFields ((_, int n) ∷ fields) = IsInt n × HasIntFields fields

-- The value under a name: of the variable that a declaration returns, after Parse.
abbrev pub int_named : String → Flags → ℤ
int_named name [] = pos 0
int_named name ((key, text _) ∷ flags) = let rest = int_named name flags in rest
int_named name ((key, int n) ∷ flags) =
    let rest = int_named name flags in if key == name then n else rest

abbrev pub text_named : String → Flags → String
text_named name [] = ""
text_named name ((key, int _) ∷ flags) = let rest = text_named name flags in rest
text_named name ((key, text t) ∷ flags) =
    let rest = text_named name flags in if key == name then t else rest

parse_flags_test :
    (parse_int : String → Option ℤ)
    → parse_flags parse_int
        ("-id" ∷ "n1" ∷ "--name=a=b" ∷ "x" ∷ "-y" ∷ [])
        (("id", text "") ∷ ("name", text "") ∷ [])
      ≡ some (("id", text "n1") ∷ ("name", text "a=b") ∷ [], "x" ∷ "-y" ∷ [])
unfolding parse_flags
parse_flags_test parse_int = refl
