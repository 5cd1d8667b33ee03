-- ===== src/Examples/Uploads.antt =====
-- An upload to a vault that lacks a setting.
use arx_runa.Prelude.{◌≡◌, refl, [], ◌∷◌, none, codes, err, true}
use arx_runa.World.{World, FilePath, path_eq}
use arx_runa.World.Files.{attempt, read_file}
use arx_runa.Storage.Error.{database}
use arx_runa.Storage.Validation.{parse_u64, parse_chunk_size_bytes}
use arx_runa.Manifest.Types.{Node, file}
use arx_runa.Manifest.Rows.{get_meta, read_chunk_size_bytes}
use arx_runa.Exif.{is_image_magic}
use arx_runa.Pipeline.Encrypt.{read_some}
use arx_runa.Vault.{upload_file, metadata_len, strip_exif_if_image, read_epoch_buffer_enabled}
use arx_runa.Vault.Atomic.{upload_file_atomic}
use arx_runa.Prelude.{◌===◌}
use arx_runa.Examples.Toy.{env, world, note, zeros}

abbrev new_node : Node
new_node = record {
  node_id = 40;
  parent_id = none;
  node_type = file;
  name = codes "note";
  created_at = 0;
  modified_at = 0;
  size_bytes = 0;
  file_key_wrapped = none;
}

abbrev staging : FilePath
staging = codes "staging" ∷ []

abbrev after : World
after = (upload_file env 0 note new_node (zeros 32) staging true world).1

refused : upload_file env 0 note new_node (zeros 32) staging true world ≡ (err database, after)
unfolding upload_file metadata_len strip_exif_if_image read_epoch_buffer_enabled
    read_chunk_size_bytes get_meta parse_chunk_size_bytes parse_u64 read_file read_some attempt
    path_eq is_image_magic ◌===◌
refused = refl

upload_file_atomic_example : after.manifest ≡ world.manifest
upload_file_atomic_example =
    upload_file_atomic env 0 note new_node (zeros 32) staging true world after database refused
