-- ===== src/Exif.antt =====
-- src-tauri/src/storage/pipeline/exif.rs: metadata stripped from JPEG and PNG images in memory.
-- `bytes[pos..]` of the source is the list that a loop still has to read; what it pushes on `out` is
-- put before what the rest of the loop gives.
pub mod Jpeg
pub mod Png
pub mod Fuel
use arx_runa.Prelude.{Bool, ◌||◌, Bytes, length, take, ◌===◌, if◌then◌else◌, ltb, [], ◌∷◌}
use Jpeg.{strip_jpeg_metadata}
use Png.{strip_png_metadata}

abbrev pub starts_with : Bytes → Bytes → Bool
starts_with bytes prefix = take (length prefix) bytes === prefix

unfoldable pub is_jpeg : Bytes → Bool
is_jpeg bytes = starts_with bytes (0xff ∷ 0xd8 ∷ [])

unfoldable pub is_png : Bytes → Bool
is_png bytes = starts_with bytes (0x89 ∷ 0x50 ∷ 0x4e ∷ 0x47 ∷ 0x0d ∷ 0x0a ∷ 0x1a ∷ 0x0a ∷ [])

unfoldable pub is_image_magic : Bytes → Bool
unfolding is_jpeg is_png
is_image_magic bytes = is_jpeg bytes || is_png bytes

unfoldable pub strip_exif : Bytes → Bytes
unfolding is_jpeg is_png strip_jpeg_metadata strip_png_metadata
strip_exif bytes =
    if is_jpeg bytes
    then strip_jpeg_metadata bytes
    else if is_png bytes
    then strip_png_metadata bytes
    else bytes
