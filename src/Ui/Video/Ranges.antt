-- ===== src/Ui/Video/Ranges.antt =====
-- The ranges that video_stream.rs lets through lie in the file, and are served.
use native.Mathlib.Nat.{mul-le-mul}
use arx_runa.Prelude.{
  ℕ, suc, ◌+◌, ◌-◌, ◌≤◌, ◌<◌, ◌≡◌, true, Option, Option-cases, inl, inr, none, some, Text, Bytes,
  List, ◌∙◌, ◌^◌, ◌*◌, ap, [], ◌∷◌, length, slice, length-slice, arith, ok, codes,
}
use arx_runa.Prelude.Strings.{is_empty, strip_prefix, split_once}
use arx_runa.Storage.Validation.{parse_u64, parse_chunk_size_bytes_range}
use arx_runa.World.{Env, IsLawful, World, FilePath, done, join}
use arx_runa.Manifest.Types.{ChunkRecord}
use arx_runa.Manifest.Rows.{Configured}
use arx_runa.Pipeline.Pieces.{
  chunks, concat, ArePieces, ArePieces-count, chunks-ArePieces, concat-chunks,
}
use arx_runa.Pipeline.Tampering.{size_positive}
use arx_runa.Pipeline.Encrypt.Stored.{AreStored}
use arx_runa.Pipeline.Range.{decrypt_file_range_to_memory}
use arx_runa.Pipeline.Range.Serving.{decrypt_range-AreStored}
use arx_runa.Ui.Video.{max_range_bytes, Range, range_from, parse_range_header}

-- First and last byte of a range are in the file.
abbrev IsInside : ℕ → Range → Type 0
IsInside file_size r = (r.0 ≤ r.1) × (r.1 < file_size)

range_from-IsInside :
    (file_size : ℕ) (end_str : Text) (start : ℕ) (r : Range)
    → file_size ≤ 2 ^ 63
    → range_from file_size end_str start ≡ ok r
    → IsInside file_size r × (is_empty end_str ≡ true → r.1 - r.0 < max_range_bytes)
range_from-IsInside file_size end_str start r small h = elim (Option-cases (parse_u64 end_str)) [
  | inl k ↦ ground (arith, k)
  | inr (requested, k) ↦ ground (arith, k)
]

-- A range that `parse_range_header` gives for a file that is not empty lies in the file, whose size is
-- far enough below 2^64 that the end of a range without one does not wrap around.
pub parse_range_header-IsInside :
    (header : Option (Option Text)) (file_size : ℕ) (r : Range)
    → 0 < file_size
    → file_size ≤ 2 ^ 63
    → parse_range_header header file_size ≡ ok r
    → IsInside file_size r
unfolding parse_range_header
parse_range_header-IsInside none file_size r positive small h = ground arith
parse_range_header-IsInside (some none) file_size r positive small h = cc
parse_range_header-IsInside (some (some value)) file_size r positive small h =
    elim (Option-cases (strip_prefix (codes "bytes=") value)) [
      | inl k ↦ absurd (ground (arith, k))
      | inr (range, k) ↦ elim (Option-cases (split_once b'-' range)) [
        | inl l ↦ absurd (ground (arith, k, l))
        | inr (parts, l) ↦ elim (Option-cases (parse_u64 parts.0)) [
          | inl o ↦ absurd (ground (arith, k, l, o))
          | inr (start, o) ↦
              (range_from-IsInside file_size parts.1 start r small (ground (arith, k, l, o))).0
        ]
      ]
    ]

-- A source of fewer than 2^32 chunks, which are at most 64 MiB each.
source_bound :
    (size : ℕ) (source : Bytes) (ps : List Bytes)
    → ArePieces size ps
    → concat ps ≡ source
    → size ≤ 2 ^ 26
    → length ps < 2 ^ 32
    → length source ≤ 2 ^ 63
unfolding concat
source_bound size source [] a joined small few = omega (arith, ap (length {A = ℕ}) joined)
source_bound size source (p ∷ ps) a joined small few =
    let upper = (ArePieces-count size p ps a).1 in
    let most : suc (length ps) * size ≤ 2 ^ 32 * 2 ^ 26 =
      mul-le-mul {n₂ = 2 ^ 32} (omega arith) small in
    omega (arith, upper, most, ap (length {A = ℕ}) joined)

-- When no call fails, `parse_range_header` and `decrypt_file_range_to_memory` serve a request for a
-- source that is not empty, of less than 2^64 bytes and fewer than 2^32 chunks, whose blobs are in
-- `pending`: a header that parses for it gets the bytes from the first to the last, as many as the
-- content length says.
pub serve_range :
    (env : Env) (lawful : IsLawful env) (calm : (n : ℕ) → env.fate n ≡ done)
    (file_id file_key : Bytes) (staging_dir : FilePath) (bound size : ℕ) (source : Bytes)
    (rows : List ChunkRecord) (header : Option (Option Text)) (r : Range) (w : World)
    → Configured w.manifest size
    → 0 < length source
    → length source < 2 ^ 64
    → length (chunks size source) < 2 ^ 32
    → AreStored env file_id file_key
        (join staging_dir (codes "pending"))
        size
        w.files
        bound
        0
        (chunks size source)
        rows
    → parse_range_header header (length source) ≡ ok r
    → (w' : World) × (decrypt_file_range_to_memory r.0 r.1 env file_id file_key
          (length source)
          rows
          staging_dir
          w
        ≡ (ok (slice r.0 (suc r.1) source), w'))
      × (length (slice r.0 (suc r.1) source) ≡ r.1 - r.0 + 1)
serve_range env lawful calm file_id file_key staging_dir bound size source rows header r w c
      positive long few stored h =
    let sized = parse_chunk_size_bytes_range c.0 size c.2 in
    let whole = size_positive w size c in
    let small =
      source_bound size source (chunks size source) (chunks-ArePieces size source whole)
        (concat-chunks size source whole) (omega (arith, sized)) few in
    let i = parse_range_header-IsInside header (length source) r positive small h in
    let (w', served) =
      decrypt_range-AreStored env lawful calm file_id file_key staging_dir bound size r.0 r.1 source
        rows w c i.0 i.1 long few stored in
    (w', served, length-slice r.0 (suc r.1) source (omega arith) (omega arith) ∙ omega arith)
