-- ===== src/Storage/Validation.antt =====
-- src-tauri/src/storage/validation.rs, and `parse::<u64>` of Rust's standard library.
use arx_runa.Prelude.{
  ℕ, ◌+◌, ◌-◌, ◌*◌, ◌^◌, ◌≤◌, ◌≡◌, Bool, ◌&&◌, ◌||◌, not, Option, none, some, [], ◌∷◌, arith, leb,
  ltb, ◌==◌, if◌then◌else◌, Text, codes, ◌===◌, Result, ok, err,
}
use arx_runa.Storage.Error.{StorageError, database, constraint_violation}
use arx_runa.Manifest.Types.{NodeType, file, directory}
use arx_runa.World.{Env}

-- Digits from the left, failing on the first value past 2^64.
unfoldable pub parse_digits : ℕ → Text → Option ℕ
parse_digits n [] = some n
parse_digits n (c ∷ rest) =
    let n' = n * 10 + (c - b'0') in
    let next = parse_digits n' rest in
    if leb b'0' c && leb c b'9' && ltb n' (2 ^ 64) then next else none

unfoldable pub strip_plus : Text → Text
strip_plus [] = []
strip_plus (c ∷ rest) = if c == b'+' then rest else c ∷ rest

unfoldable pub nonempty_digits : Text → Option ℕ
unfolding parse_digits
nonempty_digits [] = none
nonempty_digits (c ∷ rest) = parse_digits 0 (c ∷ rest)

-- `str::parse::<u64>`: an optional `+`, then digits.
unfoldable pub parse_u64 : Text → Option ℕ
unfolding strip_plus nonempty_digits
parse_u64 s = nonempty_digits (strip_plus s)

-- `usize::try_from` of a `u64`, on a platform with 64-bit addresses.
abbrev pub usize_try_from : ℕ → Result StorageError ℕ
usize_try_from n = if ltb n (2 ^ 64) then ok n else err database

abbrev pub min_chunk_size : ℕ
min_chunk_size = 131_072

abbrev pub max_chunk_size : ℕ
max_chunk_size = 67_108_864

in_range : Option ℕ → Result StorageError ℕ
in_range none = err database
in_range (some chunk_size) =
    if leb min_chunk_size chunk_size && leb chunk_size max_chunk_size
    then ok chunk_size
    else err database

unfoldable pub parse_chunk_size_bytes : Text → Result StorageError ℕ
unfolding in_range
parse_chunk_size_bytes value = in_range (parse_u64 value)

unfoldable pub is_immutable_manifest_meta_key : Text → Bool
is_immutable_manifest_meta_key key =
    key === codes "schema_version"
    || key === codes "vault_id"
    || key === codes "snapshot_counter"
    || key === codes "chunk_size_bytes"
    || key === codes "epoch_buffer_enabled"

-- What `Uuid::parse_str` gave, tested for version 4 and the canonical spelling.
abbrev canonical : Env → Text → Option ℕ → Result StorageError (Unit {0})
canonical env blob_name none = err constraint_violation
canonical env blob_name (some parsed) =
    if not (env.uuid_version parsed == 4) || not (env.hyphenated parsed === blob_name)
    then err constraint_violation
    else ok tt

unfoldable pub validate_blob_name_uuid_v4 : Env → Text → Result StorageError (Unit {0})
validate_blob_name_uuid_v4 env blob_name = canonical env blob_name (env.parse_uuid blob_name)

unfoldable pub validate_chunk_target_node : Option NodeType → Result StorageError (Unit {0})
validate_chunk_target_node (some file) = ok tt
validate_chunk_target_node (some directory) = err constraint_violation
validate_chunk_target_node none = err constraint_violation

unfoldable pub validate_size_padded_matches_chunk_size : ℕ → ℕ → Result StorageError (Unit {0})
validate_size_padded_matches_chunk_size size_padded chunk_size_bytes =
    if size_padded == chunk_size_bytes then ok tt else err constraint_violation

unfoldable pub validate_immutable_meta_matches_expected :
    Text → Text → Text → Result StorageError (Unit {0})
validate_immutable_meta_matches_expected key expected actual =
    if expected === actual then ok tt else err constraint_violation

pub parse_chunk_size_bytes_range :
    (value : Text) (n : ℕ)
    → parse_chunk_size_bytes value ≡ ok n
    → (min_chunk_size ≤ n) × (n ≤ max_chunk_size)
unfolding parse_chunk_size_bytes
parse_chunk_size_bytes_range value n h = ground arith
