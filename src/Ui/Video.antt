-- ===== src/Ui/Video.antt =====
-- src-tauri/src/ui/video_stream.rs: the ranges of a file that a request asks for.
pub mod Ranges
use arx_runa.Prelude.{
  ℕ, ◌+◌, ◌-◌, ◌*◌, ◌≤◌, ◌<◌, ◌^◌, ◌%◌, min, Bool, true, false, ◌||◌, ◌≡◌, Option, Option-cases,
  inl, inr, none, some, [], ◌∷◌, Text, codes, arith, ltb, leb, ◌===◌, if◌then◌else◌, Result, ok,
  err, ok_or,
}
use arx_runa.Prelude.Strings.{is_empty, strip_prefix, split_once, split, to_ascii_lowercase}
use arx_runa.Storage.Validation.{parse_u64}

-- The error `()`.
pub data Unsatisfiable : Type 0 where
  unsatisfiable : Unsatisfiable

abbrev pub max_range_bytes : ℕ
max_range_bytes = 8 * 1024 * 1024

-- First and last byte, and whether a range was asked for.
abbrev pub Range : Type 0
Range = ℕ × ℕ × Bool

abbrev pub and_then :
    {A B : Type 0} → Option A → (A → Result Unsatisfiable B) → Result Unsatisfiable B
and_then none f = err unsatisfiable
and_then (some a) f = f a

abbrev pub range_from : ℕ → Text → ℕ → Result Unsatisfiable Range
range_from file_size end_str start =
    if leb file_size start
    then err unsatisfiable
    else if is_empty end_str
    then ok (start, min ((start + max_range_bytes - 1) % 2 ^ 64) (file_size - 1), true)
    else and_then (parse_u64 end_str) λ requested.
      if ltb requested start
      then err unsatisfiable
      else ok (start, min requested (file_size - 1), true)

-- No header; a header that is no text; a header. `file_size` is positive where it is called.
unfoldable pub parse_range_header : Option (Option Text) → ℕ → Result Unsatisfiable Range
unfolding parse_u64
parse_range_header none file_size = ok (0, file_size - 1, false)
parse_range_header (some header) file_size = and_then header λ value.
    and_then (strip_prefix (codes "bytes=") value) λ range.
      and_then (split_once b'-' range)
        λ parts. and_then (parse_u64 parts.0) λ start. range_from file_size parts.1 start
