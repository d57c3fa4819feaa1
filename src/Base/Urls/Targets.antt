-- ===== src/Base/Urls/Targets.antt =====
-- Targets of requests that are put together from a prefix, an identifier and a suffix.
use Prim.Native.Nat.{ℕ}
use Prim.Native.String.{String, ◌++◌}
use mathlib.Core.Path.{◌≡◌, refl}
use mathlib.Core.Bool.{Bool, true, ◌&&◌}
use mathlib.Core.List.{List, [], ◌∷◌}
use mathlib.Core.Option.{some}
use text.Mathlib.TextLemmas.{cons-append, nil-append, append-nil, append_assoc}
use cs320_cluster_process_ma.Base.Equality.{◌==◌, string_eq}
use cs320_cluster_process_ma.Base.Urls.{
  split, cut, every, is_literal, is_clean_segment, all_clean, rooted, with_query, parse_target,
  query_value,
}
use cs320_cluster_process_ma.Base.Urls.Parts.{
  every-append, and_true, split_none, split-append, cut_none, cut-append, every-le, other_than,
  prepend, glue,
}

-- A character of a path, and one of a segment.
abbrev pub is_path_code : ℕ → Bool
is_path_code c = is_literal c && other_than b'?' c

abbrev pub is_segment_code : ℕ → Bool
is_segment_code c = is_path_code c && other_than b'/' c

-- A text that is a segment of a path as it stands.
pub record IsSegment (s : String) : Type 0 where
  pub codes : every is_segment_code s ≡ true
  pub clean : is_clean_segment s ≡ true

every_path : (s : String) → every is_segment_code s ≡ true → every is_path_code s ≡ true
every_path s = every-le is_segment_code is_path_code s λ c h. (and_true _ _ h).0

-- A target without a query, by its segments.
pub parse_target-path :
    (s : String)
    → every is_path_code s ≡ true
    → parse_target s ≡ with_query "" (rooted (split b'/' s))
unfolding parse_target
parse_target-path s h =
    rw
      (
        cut_none b'?' s (every-le is_path_code (other_than b'?') s (λ c e. (and_true _ _ e).1) h),
        every-le is_path_code is_literal s (λ c e. (and_true _ _ e).0) h,
      )
      refl

-- A segment between a prefix and a suffix.
pub parse_target-segment :
    (prefix suffix s : String)
    → every is_path_code prefix ≡ true
    → every is_path_code suffix ≡ true
    → IsSegment s
    → parse_target (prefix ++ (s ++ suffix))
      ≡ with_query "" (rooted (glue (split b'/' prefix) (prepend s (split b'/' suffix))))
parse_target-segment prefix suffix s hp hs h =
    let single =
      split_none b'/' s
        (every-le is_segment_code (other_than b'/') s (λ c e. (and_true _ _ e).1) h.codes) in
    let whole : every is_path_code (prefix ++ (s ++ suffix)) ≡ true =
      rw
        (
          every-append is_path_code prefix (s ++ suffix),
          hp,
          every-append is_path_code s suffix,
          every_path s h.codes,
          hs,
        )
        refl in
    rw
      (
        parse_target-path (prefix ++ (s ++ suffix)) whole,
        split-append b'/' prefix (s ++ suffix),
        split-append b'/' s suffix,
        single,
      )
      refl

-- The segment at the end.
pub parse_target-last :
    (prefix s : String)
    → every is_path_code prefix ≡ true
    → IsSegment s
    → parse_target (prefix ++ s) ≡ with_query "" (rooted (glue (split b'/' prefix) (s ∷ [])))
parse_target-last prefix s hp h =
    let single =
      split_none b'/' s
        (every-le is_segment_code (other_than b'/') s (λ c e. (and_true _ _ e).1) h.codes) in
    let whole : every is_path_code (prefix ++ s) ≡ true =
      rw (every-append is_path_code prefix s, hp, every_path s h.codes) refl in
    rw (parse_target-path (prefix ++ s) whole, split-append b'/' prefix s, single) refl

-- The item of a collection under /api/v1, and an action on it.
pub item_target :
    (prefix collection s : String)
    → every is_path_code prefix ≡ true
    → split b'/' prefix ≡ "" ∷ "api" ∷ "v1" ∷ collection ∷ "" ∷ []
    → is_clean_segment collection ≡ true
    → IsSegment s
    → parse_target (prefix ++ s)
      ≡ some (record { segments = "api" ∷ "v1" ∷ collection ∷ s ∷ []; query = "" })
item_target prefix collection s hp same named h =
    rw (parse_target-last prefix s hp h, same, nil-append s, named, h.clean) refl

pub action_target :
    (prefix suffix collection action s : String)
    → every is_path_code prefix ≡ true
    → every is_path_code suffix ≡ true
    → split b'/' prefix ≡ "" ∷ "api" ∷ "v1" ∷ collection ∷ "" ∷ []
    → split b'/' suffix ≡ "" ∷ action ∷ []
    → is_clean_segment collection ≡ true
    → is_clean_segment action ≡ true
    → IsSegment s
    → parse_target (prefix ++ (s ++ suffix))
      ≡ some (record { segments = "api" ∷ "v1" ∷ collection ∷ s ∷ action ∷ []; query = "" })
action_target prefix suffix collection action s hp hs same ending named acting h =
    rw
      (
        parse_target-segment prefix suffix s hp hs h,
        same,
        ending,
        append-nil s,
        nil-append s,
        named,
        h.clean,
        acting,
      )
      refl

-- A value that needs no escape behind a `=` in a query.
abbrev pub is_value_code : ℕ → Bool
is_value_code c = is_literal c && other_than b'&' c

cut_equals :
    (key value : String)
    → every (other_than b'=') key ≡ true
    → cut b'=' (key ++ ("=" ++ value)) ≡ (key, value)
unfolding cut
cut_equals key value h =
    rw (cut-append b'=' key ("=" ++ value) h, cons-append, nil-append) (rw (append-nil key) refl)

pub query_value-equals :
    (key value : String)
    → every (other_than b'=') key ≡ true
    → every (other_than b'&') key ≡ true
    → every is_value_code value ≡ true
    → (key == key) ≡ true
    → query_value key (key ++ ("=" ++ value)) ≡ value
unfolding query_value every
query_value-equals key value no_equals no_and h self =
    let values = every-le is_value_code (other_than b'&') value (λ c e. (and_true _ _ e).1) h in
    let whole : every (other_than b'&') (key ++ ("=" ++ value)) ≡ true =
      rw
        (
          every-append (other_than b'&') key ("=" ++ value),
          every-append (other_than b'&') "=" value,
          no_and,
          values,
        )
        refl in
    rw (split_none b'&' (key ++ ("=" ++ value)) whole, cut_equals key value no_equals, self) refl

cut_question :
    (path query : String)
    → every (other_than b'?') path ≡ true
    → cut b'?' (path ++ ("?" ++ query)) ≡ (path, query)
unfolding cut
cut_question path query h =
    rw (cut-append b'?' path ("?" ++ query) h, cons-append, nil-append) (rw (append-nil path) refl)

query_target :
    (path key value : String) (segments : List String)
    → every is_path_code path ≡ true
    → every is_literal key ≡ true
    → every is_value_code value ≡ true
    → split b'/' path ≡ "" ∷ segments
    → all_clean segments ≡ true
    → parse_target (path ++ ("?" ++ (key ++ ("=" ++ value))))
      ≡ some (record { segments = segments; query = key ++ ("=" ++ value) })
unfolding parse_target every
query_target path key value segments hp hk h same clean =
    let no_question = every-le is_path_code (other_than b'?') path (λ c e. (and_true _ _ e).1) hp in
    let rest : every is_literal (key ++ ("=" ++ value)) ≡ true =
      rw
        (
          every-append is_literal key ("=" ++ value),
          every-append is_literal "=" value,
          hk,
          every-le is_value_code is_literal value (λ c e. (and_true _ _ e).0) h,
        )
        refl in
    let whole : every is_literal (path ++ ("?" ++ (key ++ ("=" ++ value)))) ≡ true =
      rw
        (
          every-append is_literal path ("?" ++ (key ++ ("=" ++ value))),
          every-append is_literal "?" (key ++ ("=" ++ value)),
          rest,
          every-le is_path_code is_literal path (λ c e. (and_true _ _ e).0) hp,
        )
        refl in
    rw (cut_question path (key ++ ("=" ++ value)) no_question, whole, same, clean) refl

-- The same, with the literal in front of the value as one text.
pub value_target :
    (prefix path key value : String) (segments : List String)
    → prefix ≡ path ++ ("?" ++ (key ++ "="))
    → every is_path_code path ≡ true
    → every is_literal key ≡ true
    → every is_value_code value ≡ true
    → split b'/' path ≡ "" ∷ segments
    → all_clean segments ≡ true
    → parse_target (prefix ++ value)
      ≡ some (record { segments = segments; query = key ++ ("=" ++ value) })
value_target prefix path key value segments joined hp hk h same clean =
    rw
      (
        joined,
        append_assoc path ("?" ++ (key ++ "=")) value,
        append_assoc "?" (key ++ "=") value,
        append_assoc key "=" value,
      )
      (query_target path key value segments hp hk h same clean)
