-- ===== src/Examples/Pictures.antt =====
-- A picture whose metadata is stripped as it is encrypted.
use arx_runa.Prelude.{
  ◌≤◌, ◌<◌, ◌^◌, ◌≡◌, refl, ap, ◌∙◌, List, [], ◌∷◌, Bytes, codes, true, some, none, ok, arith,
  length, if◌then◌else◌, ◌===◌,
}
use arx_runa.World.{World, FilePath, path_eq}
use arx_runa.World.Files.{read_file, attempt}
use arx_runa.Manifest.Types.{ChunkRecord}
use arx_runa.Exif.{is_image_magic, strip_exif}
use arx_runa.Exif.Jpeg.{strip_jpeg_metadata}
use arx_runa.Pipeline.Pieces.{chunks, chunks_one, pad}
use arx_runa.Pipeline.Encrypt.{encrypt_file, read_magic_bytes, read_some}
use arx_runa.Pipeline.Encrypt.Stored.{AreStored}
use arx_runa.Pipeline.Files.{first_read, plaintext_of, encrypt_file-AreStored}
use arx_runa.Pipeline.RoundTrip.Writing.{encrypt_bytes-done}
use arx_runa.Examples.Toy.{env, lawful, calm, manifest, world-Configured}
use arx_runa.Examples.Transfers.{pending, file_id, key}

abbrev picture : FilePath
picture = codes "home" ∷ codes "picture.jpg" ∷ []

-- A JPEG of an APP1 segment and a scan.
abbrev picture_bytes : Bytes
picture_bytes = 0xff ∷ 0xd8 ∷ 0xff ∷ 0xe1 ∷ 0 ∷ 3 ∷ 7 ∷ 0xff ∷ 0xda ∷ 0 ∷ 2 ∷ 8 ∷ 9 ∷ []

abbrev stripped : Bytes
stripped = 0xff ∷ 0xd8 ∷ 0xff ∷ 0xda ∷ 0 ∷ 2 ∷ 8 ∷ 9 ∷ []

strips : strip_exif picture_bytes ≡ stripped
unfolding strip_exif strip_jpeg_metadata ◌===◌
strips = refl

-- Call 6 opens the picture, and call 7 reads eight bytes of it.
abbrev world : World
world = record {
  files = λ p. if path_eq p picture then some picture_bytes else none;
  manifest = manifest;
  calls = 6;
  draws = 0;
  staged = [];
  progress = [];
}

picture-found : world.files picture ≡ some picture_bytes
unfolding path_eq ◌===◌
picture-found = refl

-- What is encrypted of the picture is the stripped one.
read_whole : plaintext_of picture_bytes (first_read env world picture_bytes) ≡ stripped
unfolding is_image_magic pad ◌===◌
read_whole = strips

one_chunk : length (chunks 131_072 (strip_exif picture_bytes)) < 2 ^ 32
one_chunk =
    let one : chunks 131_072 (strip_exif picture_bytes) ≡ stripped ∷ [] =
      ap (chunks 131_072) strips ∙ chunks_one 131_072 stripped (omega arith) (omega arith) in
    omega (arith, ap length one)

picture_run :
    (rows : List ChunkRecord) × (w' : World) × (encrypt_file env picture file_id key pending true
        world
      ≡ (ok rows, w'))
unfolding encrypt_file read_magic_bytes read_file read_some attempt is_image_magic pad path_eq ◌===◌
picture_run =
    encrypt_bytes-done env lawful calm file_id key pending true 131_072 (strip_exif picture_bytes)
      (record world { calls = 9 }) world-Configured one_chunk

encrypt_file-AreStored_example :
    (first_read env world picture_bytes ≤ 8)
    × (first_read env world picture_bytes ≤ 13)
    × (0 < 13 → 0 < first_read env world picture_bytes)
    × AreStored env file_id key pending 131_072 picture_run.1.files picture_run.1.draws 0
        (chunks 131_072 (plaintext_of picture_bytes (first_read env world picture_bytes)))
        picture_run.0
    × (picture_run.1.manifest ≡ world.manifest)
encrypt_file-AreStored_example =
    encrypt_file-AreStored env lawful file_id key pending picture picture_bytes true 131_072 world
      picture_run.1 picture_run.0 world-Configured picture-found picture_run.2
