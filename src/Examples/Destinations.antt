-- ===== src/Examples/Destinations.antt =====
-- A temporary file put in place of an old one, and a file decrypted to a destination.
use arx_runa.Prelude.{
  ℕ, ◌≡◌, ◌≢◌, ◌⊎◌, refl, true, false, [], ◌∷◌, some, none, codes, ok, if◌then◌else◌, ◌===◌, Text,
  arith, ◌≤◌, ◌<◌,
}
use arx_runa.World.{World, FilePath, path_eq, path_eq_iff, join, blob_file}
use arx_runa.Pipeline.Disk.{replace_destination_with_temp, temporary_name}
use arx_runa.Pipeline.Disk.Replacing.{replace_destination_with_temp_keeps}
use arx_runa.Pipeline.Tampering.{encrypt_bytes-Extends}
use arx_runa.Pipeline.Decrypt.Integrity.{HashCollision}
use arx_runa.Pipeline.Disk.{decrypt_file}
use arx_runa.Pipeline.Disk.Calm.{decrypt_file-done}
use arx_runa.Pipeline.Disk.Integrity.{decrypt_file-encrypt_bytes_integrity}
use arx_runa.Examples.Toy.{
  env, lawful, calm, manifest, note_bytes, note_chunks, world, world-Configured,
}
use arx_runa.Examples.Transfers.{staging, pending, file_id, key, bytes_run, bytes_kept, pending_run}

abbrev target : FilePath
target = codes "out.txt" ∷ []

abbrev temporary : FilePath
temporary = temporary_name env target 7

abbrev before : World
before = record {
  files = λ p.
      if path_eq p temporary
      then some (4 ∷ [])
      else if path_eq p target
      then some (9 ∷ [])
      else none;
  manifest = manifest;
  calls = 0;
  draws = 8;
  staged = [];
  progress = [];
}

temporary-filled : before.files temporary ≡ some (4 ∷ [])
unfolding path_eq temporary_name join ◌===◌
temporary-filled = refl

ne : (p q : FilePath) → path_eq p q ≡ false → p ≢ q
ne p q h e = cc ((path_eq_iff p q).1 e, h)

replace_destination_with_temp_keeps_example :
    ((replace_destination_with_temp env target temporary before).1.files target ≡ some (4 ∷ []))
    ⊎ ((¬ ((replace_destination_with_temp env target temporary before).0 ≡ ok tt))
        × (((replace_destination_with_temp env target temporary before).1.files target
              ≡ before.files target)
            ⊎ ((replace_destination_with_temp env target temporary before).1.files
                  (temporary_name env target 8)
                ≡ before.files target)))
unfolding path_eq temporary_name join ◌===◌
replace_destination_with_temp_keeps_example =
    replace_destination_with_temp_keeps env target temporary before (4 ∷ []) temporary-filled
      (ne target temporary refl) (ne target (temporary_name env target 8) refl)
      (ne temporary (temporary_name env target 8) refl)

target-plain : (u : ℕ) → target ≢ temporary_name env target u
unfolding temporary_name join
target-plain u e = cc e

blobs-apart : (u : ℕ) (name : Text) → join pending (blob_file name) ≢ temporary_name env target u
unfolding temporary_name join blob_file
blobs-apart u name e = cc e

target-apart :
    (d : ℕ)
    → world.draws ≤ d
    → d < bytes_run.1.draws
    → target ≢ join pending (blob_file (env.hyphenated (env.uuid_at d)))
unfolding join blob_file
target-apart d from to e = cc e

target-free : bytes_run.1.files target ≡ none
unfolding path_eq ◌===◌
target-free =
    (encrypt_bytes-Extends env lawful file_id key pending true 131_072 note_bytes world bytes_run.1
        bytes_run.0 world-Configured bytes_run.3).others
      target target-apart

-- The blobs of a file of three bytes are decrypted to a destination.
disk_run :
    (w' : World) × (decrypt_file env target file_id key 3 bytes_run.0 staging true bytes_run.1
      ≡ (ok tt, w'))
    × (w'.files target ≡ some note_bytes)
disk_run =
    decrypt_file-done env lawful calm file_id key staging 131_072 bytes_run.1.draws true target
      note_bytes bytes_run.0 bytes_run.1 bytes_kept (omega (arith, note_chunks)) pending_run
      target-free target-plain blobs-apart

decrypt_file-encrypt_bytes_integrity_example :
    (disk_run.0.files target ≡ some note_bytes) ⊎ HashCollision env.hash
decrypt_file-encrypt_bytes_integrity_example =
    decrypt_file-encrypt_bytes_integrity env lawful target file_id key staging true pending true
      131_072 note_bytes bytes_run.0 world bytes_run.1 bytes_run.1 disk_run.0 world-Configured
      bytes_run.3 bytes_kept target-plain disk_run.1
