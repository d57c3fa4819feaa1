-- ===== src/Base/Urls.antt =====
-- What the program uses of Go's package net/url, on the texts that need no escape.
use Prim.Native.Char.{Char, code}
pub mod Parts
pub mod Targets
use Prim.Native.String
use Prim.Native.String.{String, ◌++◌}
use mathlib.Core.Path.{◌≡◌, refl, ap}
use mathlib.Core.Bool.{Bool, true, false, ◌&&◌, ◌||◌, not}
use mathlib.Core.Option.{Option, none, some}
use mathlib.Core.List.{List, [], ◌∷◌, map}
use native.Mathlib.Omega.{arith}
use text.Mathlib.TextLemmas.{cons-append, nil-append, append-nil}
use Prim.Native.Nat.{ℕ}
use cs320_cluster_process_ma.Base.Tests.{leb, nat_beq, if◌then◌else◌}
use cs320_cluster_process_ma.Base.Equality.{◌==◌, string_eq}

-- A separator in front of the first part, or a character of it.
abbrev pub push : Char → List String → List String
push c [] = String.◌∷◌ c "" ∷ []
push c (part ∷ parts) = String.◌∷◌ c part ∷ parts

-- strings.Split with a separator of one ASCII character.
unfoldable pub split : ℕ → String → List String
split separator String.[] = "" ∷ []
split separator (String.◌∷◌ c s) =
    let rest = split separator s in if nat_beq (code c) separator then "" ∷ rest else push c rest

-- strings.Cut with a separator of one ASCII character; the second part is empty without it.
unfoldable pub cut : ℕ → String → String × String
cut separator String.[] = ("", "")
cut separator (String.◌∷◌ c s) =
    let (before, after) = cut separator s in
    if nat_beq (code c) separator then ("", s) else (String.◌∷◌ c before, after)

-- Whether every character satisfies a test.
unfoldable pub every : (ℕ → Bool) → String → Bool
every test String.[] = true
every test (String.◌∷◌ c s) = test (code c) && every test s

-- A visible ASCII character that neither starts an escape or a fragment nor is one in a query.
abbrev pub is_literal : ℕ → Bool
is_literal c =
    leb 33 c
    && leb c 126
    && not (nat_beq c b'%' || nat_beq c b'#' || nat_beq c b'+' || nat_beq c b';')

-- A segment of a path that path.Clean leaves alone.
abbrev pub is_clean_segment : String → Bool
is_clean_segment s = not (s == "" || s == "." || s == "..")

abbrev pub all_clean : List String → Bool
all_clean [] = true
all_clean (s ∷ segments) = is_clean_segment s && all_clean segments

-- The segments of a path and the raw query.
pub record Target : Type 0 where
  pub segments : List String
  pub query : String

abbrev pub rooted : List String → Option (List String)
rooted (root ∷ segments) = if root == "" && all_clean segments then some segments else none
rooted [] = none

abbrev pub with_query : String → Option (List String) → Option Target
with_query query none = none
with_query query (some segments) = some (record { segments = segments; query = query })

-- The target of a request. `none` stands for a text that net/url would refuse or unescape, and for
-- a path that http.ServeMux would redirect to a clean one.
unfoldable pub parse_target : String → Option Target
unfolding every cut split
parse_target text =
    let (path, query) = cut b'?' text in
    if every is_literal text then with_query query (rooted (split b'/' path)) else none

abbrev value_in : String → List (String × String) → String
value_in name [] = ""
value_in name ((key, value) ∷ pairs) =
    let rest = value_in name pairs in if key == name then value else rest

-- URL.Query().Get
unfoldable pub query_value : String → String → String
unfolding cut split
query_value name query = value_in name (map (cut b'=') (split b'&' query))

abbrev is_last : String → Bool
is_last String.[] = true
is_last (String.◌∷◌ c s) = false

-- strings.TrimRight with a cutset of one ASCII character.
unfoldable pub trim_end : ℕ → String → String
trim_end cutset String.[] = ""
trim_end cutset (String.◌∷◌ c s) =
    let rest = trim_end cutset s in
    if nat_beq (code c) cutset && is_last rest then "" else String.◌∷◌ c rest
