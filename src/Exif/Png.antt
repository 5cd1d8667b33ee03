-- ===== src/Exif/Png.antt =====
-- `strip_png_metadata` of exif.rs.
pub mod Chunks
pub mod Cleaning
use arx_runa.Prelude.{
  ℕ, zero, suc, ◌+◌, ◌*◌, Bool, ◌||◌, [], ◌∷◌, ◌++◌, Bytes, length, take, drop, slice, ltb, codes,
  ◌===◌, if◌then◌else◌,
}

abbrev pub signature_len : ℕ
signature_len = 8

-- `u32::from_be_bytes` of the first four bytes.
unfoldable pub chunk_data_len : Bytes → ℕ
chunk_data_len (a ∷ b ∷ c ∷ d ∷ rest) = ((a * 256 + b) * 256 + c) * 256 + d
chunk_data_len _ = 0

unfoldable pub should_drop : Bytes → Bool
should_drop chunk_type =
    chunk_type === codes "eXIf"
    || chunk_type === codes "tEXt"
    || chunk_type === codes "iTXt"
    || chunk_type === codes "zTXt"

-- Length, type, data and checksum.
unfoldable pub total_chunk_len : Bytes → ℕ
unfolding chunk_data_len
total_chunk_len rest = 4 + 4 + chunk_data_len rest + 4

-- The loop, on fuel: each round drops twelve bytes at least.
unfoldable pub png_loop : ℕ → Bytes → Bytes
unfolding should_drop total_chunk_len
png_loop zero rest = []
png_loop (suc f) rest =
    let total = total_chunk_len rest in
    let more = png_loop f (drop total rest) in
    if ltb (length rest) 12 || ltb (length rest) total
    then []
    else if should_drop (slice 4 8 rest)
    then more
    else take total rest ++ more

unfoldable pub strip_png_metadata : Bytes → Bytes
unfolding png_loop
strip_png_metadata bytes =
    if ltb (length bytes) (signature_len + 12)
    then bytes
    else take signature_len bytes ++ png_loop (length bytes) (drop signature_len bytes)
