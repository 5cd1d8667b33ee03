-- ===== src/Exif/Jpeg.antt =====
-- `strip_jpeg_metadata` of exif.rs.
pub mod Segments
use arx_runa.Prelude.{
  ℕ, zero, suc, ◌+◌, ◌*◌, Bool, ◌||◌, ◌&&◌, not, [], ◌∷◌, ◌++◌, Bytes, length, take, drop, ltb, leb,
  ◌==◌, if◌then◌else◌,
}

-- APP1, APP2 and APP13.
unfoldable pub should_drop : ℕ → Bool
should_drop marker = marker == 0xe1 || marker == 0xe2 || marker == 0xed

-- The size of the segment that `rest` begins with: the marker, and the length that its third and
-- fourth byte give.
unfoldable pub segment_size : Bytes → ℕ
segment_size (b ∷ m ∷ hi ∷ lo ∷ rest) = 2 + (hi * 256 + lo)
segment_size _ = 2

-- What follows the segment: the bit stream after a start of scan, copied as it is, or more segments.
abbrev pub follow : ℕ → Bytes → Bytes → Bytes
follow marker rest more = if marker == 0xda then rest else more

-- The loop, on fuel: each round drops a byte at least.
unfoldable pub jpeg_loop : ℕ → Bytes → Bytes
unfolding should_drop segment_size
jpeg_loop zero rest = []
jpeg_loop (suc f) [] = []
jpeg_loop (suc f) (b ∷ []) = []
jpeg_loop (suc f) (b ∷ marker ∷ tail) =
    let here = b ∷ marker ∷ tail in
    let size = segment_size here in
    let after_fill = jpeg_loop f (marker ∷ tail) in
    let after_marker = 0xff ∷ marker ∷ jpeg_loop f tail in
    let after_segment = follow marker (drop size here) (jpeg_loop f (drop size here)) in
    if not (b == 0xff)
    then here
    else if marker == 0x00
    then after_fill
    else if marker == 0xd9
    then 0xff ∷ marker ∷ []
    else if marker == 0xd8 || (leb 0xd0 marker && leb marker 0xd7)
    then after_marker
    else if ltb (length here) 4 || ltb (length here) size
    then []
    else if should_drop marker
    then after_segment
    else take size here ++ after_segment

unfoldable pub strip_jpeg_metadata : Bytes → Bytes
unfolding jpeg_loop
strip_jpeg_metadata bytes =
    if ltb (length bytes) 4 then bytes else take 2 bytes ++ jpeg_loop (length bytes) (drop 2 bytes)
