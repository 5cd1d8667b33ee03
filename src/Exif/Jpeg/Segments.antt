-- ===== src/Exif/Jpeg/Segments.antt =====
-- The segments of a JPEG image, as its specification has them, and what `strip_jpeg_metadata` of
-- exif.rs makes of them.
use arx_runa.Prelude.{
  ℕ, zero, suc, ◌+◌, ◌*◌, ◌≤◌, ◌<◌, Bool, Bool-cases, inl, inr, true, false, ◌&&◌, ◌||◌, ◌⊎◌, ◌≡◌,
  ◌≢◌, refl, ap, ◌∙◌, sym, List, [], ◌∷◌, ◌++◌, Bytes, length, take, drop, ltb, leb, ◌==◌,
  if◌then◌else◌, arith, length-append, take-append_exact, drop-append_exact, append_assoc,
}
use arx_runa.Exif.Jpeg.{should_drop, segment_size, follow, jpeg_loop, strip_jpeg_metadata}

-- A marker behind 0xff, two bytes of size, which counts itself, and the content.
pub record Segment : Type 0 where
  pub marker : ℕ
  pub high : ℕ
  pub low : ℕ
  pub content : Bytes

-- Markers from 0xd0 to 0xd9 stand alone: they are those of restarts, and of the image's start and end.
abbrev pub IsSegment : Segment → Type 0
IsSegment s =
    (0xc0 ≤ s.marker)
    × (s.marker < 0xff)
    × ((s.marker < 0xd0) ⊎ (0xda ≤ s.marker))
    × (s.high * 256 + s.low ≡ 2 + length s.content)

abbrev pub encode : Segment → Bytes
encode s = 0xff ∷ s.marker ∷ s.high ∷ s.low ∷ s.content

-- APP1, APP2 and APP13.
abbrev pub is_metadata : Segment → Bool
is_metadata s = s.marker == 225 || s.marker == 226 || s.marker == 237

abbrev pub encode_all : List Segment → Bytes
encode_all [] = []
encode_all (s ∷ segments) = encode s ++ encode_all segments

abbrev pub without_metadata : List Segment → List Segment
without_metadata [] = []
without_metadata (s ∷ segments) =
    let rest = without_metadata segments in if is_metadata s then rest else s ∷ rest

-- Segments in front of the start of the scan, whose marker is 0xda.
abbrev pub AreSegments : List Segment → Type 0
AreSegments [] = Unit
AreSegments (s ∷ segments) = (IsSegment s × (s.marker ≢ 0xda)) × AreSegments segments

module _ (s : Segment) (more : Bytes) (h : IsSegment s) where
  size-encode : segment_size (encode s ++ more) ≡ length (encode s)
  unfolding segment_size
  size-encode = omega (arith, h.3)

  -- A round of the loop on a segment.
  jpeg_loop-encode :
      (fuel : ℕ)
      → jpeg_loop (suc fuel) (encode s ++ more) ≡ (
          if is_metadata s
          then follow s.marker more (jpeg_loop fuel more)
          else encode s ++ follow s.marker more (jpeg_loop fuel more))
  unfolding jpeg_loop should_drop
  jpeg_loop-encode fuel =
      let here = encode s ++ more in
      let t = size-encode in
      let l = length-append s.content more in
      let taken : take (segment_size here) here ≡ encode s =
        take-append_exact (segment_size here) (encode s) more t in
      let dropped : drop (segment_size here) here ≡ more =
        drop-append_exact (segment_size here) (encode s) more t in
      let marked : s.marker == 0x00 ≡ false = ground arith in
      let no_end : s.marker == 0xd9 ≡ false = ground arith in
      let alone : s.marker == 0xd8 || (leb 0xd0 s.marker && leb s.marker 0xd7) ≡ false =
        ground arith in
      let fits : ltb (length here) 4 || ltb (length here) (segment_size here) ≡ false =
        ground (arith, l, t) in
      rw marked (rw no_end (rw alone (rw fits (rw taken (rw dropped refl)))))

-- Segments in front of a scan, whose bit stream is anything.
scan_loop :
    (fuel : ℕ) (segments : List Segment) (scan : Segment) (stream : Bytes)
    → AreSegments segments
    → IsSegment scan
    → scan.marker ≡ 0xda
    → length (encode_all segments) < fuel
    → jpeg_loop fuel (encode_all segments ++ (encode scan ++ stream))
      ≡ encode_all (without_metadata segments) ++ (encode scan ++ stream)
scan_loop zero segments scan stream h is_scan start fits = absurd (omega arith)
scan_loop (suc fuel) [] scan stream h is_scan start fits =
    let kept : is_metadata scan ≡ false = ground arith in
    let starts : scan.marker == 0xda ≡ true = ground arith in
    jpeg_loop-encode scan stream is_scan fuel ∙ rw kept (rw starts refl)
scan_loop (suc fuel) (s ∷ segments) scan stream h is_scan start fits =
    let tail = encode scan ++ stream in
    let more = encode_all segments ++ tail in
    let other : s.marker == 0xda ≡ false = let ne = h.0.1 in ground arith in
    let ih =
      scan_loop fuel segments scan stream h.1 is_scan start
        (omega (arith, length-append s.content (encode_all segments))) in
    let round =
      ap (jpeg_loop (suc fuel)) (append_assoc (encode s) (encode_all segments) tail)
      ∙ jpeg_loop-encode s more h.0.0 fuel in
    elim (Bool-cases (is_metadata s)) [
      | inl drops ↦ round ∙ rw drops (rw other ih)
      | inr keeps ↦
          round
          ∙ rw keeps (
              rw other (
                ap (λ (x : Bytes). encode s ++ x) ih
                ∙ sym (append_assoc (encode s) (encode_all (without_metadata segments)) tail)))
    ]

-- A JPEG of segments in front of a scan is stripped of its APP1, APP2 and APP13 segments, and of
-- nothing else: the start of the image, the other segments in their order, and the scan with whatever
-- follows it are left as they are.
pub strip_jpeg_metadata-encode_all :
    (segments : List Segment) (scan : Segment) (stream : Bytes)
    → AreSegments segments
    → IsSegment scan
    → scan.marker ≡ 0xda
    → strip_jpeg_metadata (0xff ∷ 0xd8 ∷ (encode_all segments ++ (encode scan ++ stream)))
      ≡ 0xff ∷ 0xd8 ∷ (encode_all (without_metadata segments) ++ (encode scan ++ stream))
unfolding strip_jpeg_metadata
strip_jpeg_metadata-encode_all segments scan stream h is_scan start =
    let bytes : Bytes = 0xff ∷ 0xd8 ∷ (encode_all segments ++ (encode scan ++ stream)) in
    let l = length-append (encode_all segments) (encode scan ++ stream) in
    let enough : ltb (length bytes) 4 ≡ false = ground (arith, l) in
    rw enough (
      ap (λ (x : Bytes). 0xff ∷ 0xd8 ∷ x)
        (scan_loop (length bytes) segments scan stream h is_scan start (omega (arith, l))))
