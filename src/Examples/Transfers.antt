-- ===== src/Examples/Transfers.antt =====
-- Uploads and downloads of the toy vault.
use arx_runa.Prelude.{
  ◌≡◌, ◌⊎◌, List, [], ◌∷◌, Bytes, codes, true, ok, arith, sym, subst, ◌≤◌, ◌<◌, slice,
}
use arx_runa.Manifest.Rows.{Configured}
use arx_runa.Pipeline.Pieces.{chunks}
use arx_runa.World.{World, FilePath, join}
use arx_runa.Manifest.Types.{ChunkRecord}
use arx_runa.Pipeline.Encrypt.{encrypt_bytes, encrypt_file}
use arx_runa.Pipeline.Encrypt.Stored.{AreStored, Extends}
use arx_runa.Pipeline.Decrypt.{decrypt_file_to_memory}
use arx_runa.Pipeline.Decrypt.Integrity.{HashCollision}
use arx_runa.Pipeline.Tampering.{
  decrypt-encrypt_bytes_integrity, encrypt_bytes-Extends, encrypt_bytes-AreStored,
}
use arx_runa.Pipeline.Files.{encrypt_file-AreStored, decrypt-encrypt_file_integrity}
use arx_runa.Pipeline.Range.{decrypt_file_range_to_memory}
use arx_runa.Pipeline.Range.Integrity.{decrypt_range-encrypt_bytes_integrity}
use arx_runa.Pipeline.Range.Serving.{decrypt_range-AreStored}
use arx_runa.Pipeline.RoundTrip.{decrypt-encrypt_bytes_round, decrypt-encrypt_file_round}
use arx_runa.Examples.Toy.{
  env, lawful, calm, world, world-Configured, note, note_bytes, note-found, note-plain, note_chunks,
  zeros,
}

abbrev pub staging : FilePath
staging = codes "staging" ∷ []

abbrev pub pending : FilePath
pending = join staging (codes "pending")

decrypt-encrypt_file_round_example :
    (rows : List ChunkRecord) × (w₁ w₂ : World) × (encrypt_file env note
        (zeros 16)
        (zeros 32)
        pending
        true
        world
      ≡ (ok rows, w₁))
    × (decrypt_file_to_memory env (zeros 16) (zeros 32) 3 rows staging true w₁
        ≡ (ok note_bytes, w₂))
decrypt-encrypt_file_round_example =
    decrypt-encrypt_file_round env lawful calm (zeros 16) (zeros 32) staging true 131_072 note
      note_bytes world world-Configured note-found note-plain (omega arith) note_chunks

abbrev pub key : Bytes
key = zeros 32

abbrev pub file_id : Bytes
file_id = zeros 16

pub bytes_run :
    (rows : List ChunkRecord) × (w₁ w₂ : World) × (encrypt_bytes env note_bytes file_id key pending
        true world
      ≡ (ok rows, w₁))
    × (decrypt_file_to_memory env file_id key 3 rows staging true w₁ ≡ (ok note_bytes, w₂))
bytes_run =
    decrypt-encrypt_bytes_round env lawful calm file_id key staging true 131_072 note_bytes world
      world-Configured (omega arith) note_chunks

pub bytes_kept : Configured bytes_run.1.manifest 131_072
bytes_kept =
    subst (λ m. Configured m 131_072)
      (sym
        (encrypt_bytes-Extends env lawful file_id key pending true 131_072 note_bytes world
          bytes_run.1 bytes_run.0 world-Configured bytes_run.3).manifest)
      world-Configured

encrypt_bytes-Extends_example : Extends env pending world bytes_run.1
encrypt_bytes-Extends_example =
    encrypt_bytes-Extends env lawful file_id key pending true 131_072 note_bytes world bytes_run.1
      bytes_run.0 world-Configured bytes_run.3

encrypt_bytes-AreStored_example :
    AreStored env file_id key pending 131_072 bytes_run.1.files bytes_run.1.draws 0
      (chunks 131_072 note_bytes)
      bytes_run.0
encrypt_bytes-AreStored_example =
    encrypt_bytes-AreStored env lawful file_id key pending true 131_072 note_bytes world bytes_run.1
      bytes_run.0 world-Configured bytes_run.3

decrypt-encrypt_bytes_integrity_example : (note_bytes ≡ note_bytes) ⊎ HashCollision env.hash
decrypt-encrypt_bytes_integrity_example =
    decrypt-encrypt_bytes_integrity env lawful file_id key pending staging true true 131_072
      note_bytes note_bytes bytes_run.0 world bytes_run.1 bytes_run.1 bytes_run.2 world-Configured
      bytes_run.3 bytes_kept bytes_run.4

file_run :
    (rows : List ChunkRecord) × (w₁ w₂ : World) × (encrypt_file env note file_id key pending true
        world
      ≡ (ok rows, w₁))
    × (decrypt_file_to_memory env file_id key 3 rows staging true w₁ ≡ (ok note_bytes, w₂))
file_run =
    decrypt-encrypt_file_round env lawful calm file_id key staging true 131_072 note note_bytes
      world world-Configured note-found note-plain (omega arith) note_chunks

file_kept : Configured file_run.1.manifest 131_072
file_kept =
    subst (λ m. Configured m 131_072)
      (sym
        (encrypt_file-AreStored env lawful file_id key pending note note_bytes true 131_072 world
          file_run.1 file_run.0 world-Configured note-found file_run.3).4)
      world-Configured

decrypt-encrypt_file_integrity_example : (note_bytes ≡ note_bytes) ⊎ HashCollision env.hash
decrypt-encrypt_file_integrity_example =
    decrypt-encrypt_file_integrity env lawful file_id key pending staging note true true 131_072
      note_bytes note_bytes file_run.0 world file_run.1 file_run.1 file_run.2 world-Configured
      note-found note-plain file_run.3 file_kept file_run.4

pub pending_run :
    AreStored env file_id key pending 131_072 bytes_run.1.files bytes_run.1.draws 0
      (chunks 131_072 note_bytes)
      bytes_run.0
pending_run =
    encrypt_bytes-AreStored env lawful file_id key pending true 131_072 note_bytes world bytes_run.1
      bytes_run.0 world-Configured bytes_run.3

range_run :
    (w' : World) × (decrypt_file_range_to_memory 1 2 env file_id key 3 bytes_run.0 staging
        bytes_run.1
      ≡ (ok (slice 1 3 note_bytes), w'))
range_run =
    decrypt_range-AreStored env lawful calm file_id key staging bytes_run.1.draws 131_072 1 2
      note_bytes bytes_run.0 bytes_run.1 bytes_kept (omega arith) (omega arith) (omega arith)
      note_chunks pending_run

decrypt_range-AreStored_example :
    (w' : World) × (decrypt_file_range_to_memory 1 2 env file_id key 3 bytes_run.0 staging
        bytes_run.1
      ≡ (ok (slice 1 3 note_bytes), w'))
decrypt_range-AreStored_example =
    decrypt_range-AreStored env lawful calm file_id key staging bytes_run.1.draws 131_072 1 2
      note_bytes bytes_run.0 bytes_run.1 bytes_kept (omega arith) (omega arith) (omega arith)
      note_chunks pending_run

decrypt_range-encrypt_bytes_integrity_example :
    (1 ≤ 2) × (2 < 3) × ((slice 1 3 note_bytes ≡ slice 1 3 note_bytes) ⊎ HashCollision env.hash)
decrypt_range-encrypt_bytes_integrity_example =
    decrypt_range-encrypt_bytes_integrity env lawful file_id key pending staging true 131_072 1 2
      note_bytes (slice 1 3 note_bytes) bytes_run.0 world bytes_run.1 bytes_run.1 range_run.0
      world-Configured bytes_run.3 bytes_kept range_run.1
