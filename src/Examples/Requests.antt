-- ===== src/Examples/Requests.antt =====
-- Runs of the theorems on remote paths, endpoints and requests for a range.
use arx_runa.Prelude.{
  ◌+◌, ◌-◌, ◌≡◌, refl, true, false, some, [], ◌∷◌, Text, codes, arith, length, slice, ok,
}
use arx_runa.Prelude.Strings.{is_empty, starts_with, all, contains_char, split, split_once, NoneIs}
use arx_runa.World.{World}
use arx_runa.Cloud.Remote.{is_allowed, validate_remote_path, root_path, compose_remote_root}
use arx_runa.Cloud.Remote.Traversal.{dots, validate_remote_path-IsBelow}
use arx_runa.Cloud.Remote.Composing.{split_once-compose_remote_root}
use arx_runa.Ui.Video.{parse_range_header}
use arx_runa.Ui.Video.Ranges.{serve_range}
use arx_runa.Pipeline.Range.{decrypt_file_range_to_memory}
use arx_runa.Examples.Toy.{env, lawful, calm, note_bytes, note_chunks}
use arx_runa.Examples.Transfers.{staging, file_id, key, bytes_run, bytes_kept, pending_run}

abbrev blobs : Text
blobs = codes "vault/blobs"

validate_remote_path-IsBelow_example :
    (blobs ≡ blobs)
    × (is_empty blobs ≡ false)
    × (starts_with (b'/' ∷ []) blobs ≡ false)
    × NoneIs dots (split b'/' blobs)
    × (all is_allowed blobs ≡ true)
unfolding validate_remote_path
validate_remote_path-IsBelow_example = validate_remote_path-IsBelow blobs blobs refl

abbrev root : Text
root = codes "drive:bucket/vault/blobs"

composed : compose_remote_root (codes "drive") (codes "bucket") blobs ≡ ok root
unfolding compose_remote_root
composed = refl

split_once-compose_remote_root_example :
    (split_once b':' root ≡ some (codes "drive", root_path (codes "bucket") blobs))
    × (contains_char b':' (root_path (codes "bucket") blobs) ≡ false)
    × NoneIs dots (split b'/' (root_path (codes "bucket") blobs))
split_once-compose_remote_root_example =
    split_once-compose_remote_root (codes "drive") (codes "bucket") blobs root composed

abbrev url : Text
url = codes "https://s3.example:9000/"

asks : parse_range_header (some (some (codes "bytes=1-7"))) (length note_bytes) ≡ ok (1, 2, true)
unfolding parse_range_header
asks = refl

serve_range_example :
    (w' : World) × (decrypt_file_range_to_memory 1 2 env file_id key
        (length note_bytes)
        bytes_run.0
        staging
        bytes_run.1
      ≡ (ok (slice 1 3 note_bytes), w'))
    × (length (slice 1 3 note_bytes) ≡ 2 - 1 + 1)
serve_range_example =
    serve_range env lawful calm file_id key staging bytes_run.1.draws 131_072 note_bytes bytes_run.0
      (some (some (codes "bytes=1-7"))) (1, 2, true) bytes_run.1 bytes_kept (omega arith)
      (omega arith) note_chunks pending_run asks
