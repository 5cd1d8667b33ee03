-- ===== src/Examples/Images.antt =====
-- Runs of the theorems on image metadata: a PNG of a text chunk and an end chunk, and a JPEG of an
-- APP1 segment, a table and a scan.
use arx_runa.Prelude.{◌≡◌, refl, ◌++◌, [], ◌∷◌, Bytes, arith, take, drop, codes, ◌===◌, inr}
use arx_runa.Exif.Png.{strip_png_metadata}
use arx_runa.Exif.Png.Chunks.{Chunk, encode}
use arx_runa.Exif.Png.Cleaning.{
  IsClean, encode_all, strip_png_metadata-IsClean, strip_png_metadata-encode_all,
}
use arx_runa.Exif.Jpeg.{strip_jpeg_metadata}
use arx_runa.Exif.Jpeg.Segments.{Segment, strip_jpeg_metadata-encode_all}
use arx_runa.Exif.Jpeg.Segments

abbrev signature : Bytes
signature = 0x89 ∷ 0x50 ∷ 0x4e ∷ 0x47 ∷ 0x0d ∷ 0x0a ∷ 0x1a ∷ 0x0a ∷ []

abbrev text_chunk : Chunk
text_chunk = record {
  size = (0, 0, 0, 2);
  kind = codes "tEXt";
  content = 104 ∷ 105 ∷ [];
  checksum = 1 ∷ 2 ∷ 3 ∷ 4 ∷ [];
}

abbrev end_chunk : Chunk
end_chunk = record {
  size = (0, 0, 0, 0);
  kind = codes "IEND";
  content = [];
  checksum = 0xae ∷ 0x42 ∷ 0x60 ∷ 0x82 ∷ [];
}

abbrev image : Bytes
image = signature ++ encode_all (text_chunk ∷ end_chunk ∷ [])

-- The text chunk is dropped.
stripped_image : strip_png_metadata image ≡ signature ++ encode end_chunk
unfolding strip_png_metadata ◌===◌
stripped_image = refl

strip_png_metadata-IsClean_example :
    (take 8 (strip_png_metadata image) ≡ take 8 image) × IsClean (drop 8 (strip_png_metadata image))
strip_png_metadata-IsClean_example = strip_png_metadata-IsClean image (omega arith)

strip_png_metadata-encode_all_example :
    strip_png_metadata image ≡ signature ++ encode_all (end_chunk ∷ [])
unfolding ◌===◌
strip_png_metadata-encode_all_example =
    strip_png_metadata-encode_all signature (text_chunk ∷ end_chunk ∷ []) refl
      ((refl, refl, refl), ((refl, refl, refl), tt))

abbrev exif_segment : Segment
exif_segment = record { marker = 0xe1; high = 0; low = 3; content = 7 ∷ [] }

abbrev table : Segment
table = record { marker = 0xdb; high = 0; low = 4; content = 5 ∷ 6 ∷ [] }

abbrev scan : Segment
scan = record { marker = 0xda; high = 0; low = 2; content = [] }

abbrev stream : Bytes
stream = 8 ∷ 9 ∷ 0xff ∷ 0xd9 ∷ []

strip_jpeg_metadata-encode_all_example :
    strip_jpeg_metadata (
      0xff
      ∷ 0xd8
      ∷ (Segments.encode_all (exif_segment ∷ table ∷ []) ++ (Segments.encode scan ++ stream)))
    ≡ 0xff ∷ 0xd8 ∷ (Segments.encode_all (table ∷ []) ++ (Segments.encode scan ++ stream))
strip_jpeg_metadata-encode_all_example =
    strip_jpeg_metadata-encode_all (exif_segment ∷ table ∷ []) scan stream
      (
        ((omega arith, omega arith, inr (omega arith), refl), λ e. absurd (omega arith)),
        (((omega arith, omega arith, inr (omega arith), refl), λ e. absurd (omega arith)), tt),
      )
      (omega arith, omega arith, inr (omega arith), refl) refl
