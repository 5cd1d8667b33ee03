-- ===== src/Cloud/Remote.antt =====
-- src-tauri/src/storage/cloud/remote_path.rs. The regular expressions are read as the test of each
-- character that they are.
pub mod Traversal
pub mod Composing
use arx_runa.Prelude.{
  ℕ, Bool, true, false, not, ◌&&◌, ◌||◌, [], ◌∷◌, ◌++◌, Text, codes, ◌==◌, if◌then◌else◌, Result,
  ok, err, leb,
}
use arx_runa.Prelude.Strings.{
  is_empty, any, all, contains_char, contains, starts_with, ends_with_char, is_control,
  is_ascii_alphabetic, is_ascii_alphanumeric,
}

-- Without the messages.
pub data CloudTransportError : Type 0 where
  not_found bucket_name_taken authentication_failed timeout io_error : CloudTransportError
  rclone_process_failed sharing_not_supported other : CloudTransportError

-- A character of `[a-zA-Z0-9._/-]`.
abbrev pub is_allowed : ℕ → Bool
is_allowed c = is_ascii_alphanumeric c || c == b'.' || c == b'_' || c == b'/' || c == b'-'

-- `^[a-zA-Z0-9._/-]+$`.
abbrev pub matches_path : Text → Bool
matches_path s = not (is_empty s) && all is_allowed s

-- A character of `[a-zA-Z0-9._-]`.
abbrev pub is_name_char : ℕ → Bool
is_name_char c = is_ascii_alphanumeric c || c == b'.' || c == b'_' || c == b'-'

-- `^[a-zA-Z0-9][a-zA-Z0-9._-]*$`.
abbrev pub matches_name : Text → Bool
matches_name [] = false
matches_name (c ∷ s) = is_ascii_alphanumeric c && all is_name_char s

unfoldable pub validate_remote_path : Text → Result CloudTransportError Text
validate_remote_path remote_path =
    if is_empty remote_path
    then err other
    else if starts_with (b'/' ∷ []) remote_path
    then err other
    else if contains (b'.' ∷ b'.' ∷ []) remote_path
    then err other
    else if any is_control remote_path
    then err other
    else if not (matches_path remote_path)
    then err other
    else ok remote_path

unfoldable pub validate_remote_prefix : Text → Result CloudTransportError Text
unfolding validate_remote_path
validate_remote_prefix remote_prefix =
    if is_empty remote_prefix then ok remote_prefix else validate_remote_path remote_prefix

unfoldable pub validate_remote_name : Text → Result CloudTransportError Text
validate_remote_name remote_name =
    if is_empty remote_name
    then err other
    else if any is_control remote_name
    then err other
    else if not (matches_name remote_name)
    then err other
    else ok remote_name

unfoldable pub validate_remote_root_component : Text → Bool → Result CloudTransportError Text
validate_remote_root_component value allow_empty =
    if is_empty value && allow_empty
    then ok value
    else if is_empty value
    then err other
    else if any is_control value
    then err other
    else if starts_with (b'/' ∷ []) value || ends_with_char b'/' value
    then err other
    else if contains (b'/' ∷ b'/' ∷ []) value
    then err other
    else if contains (b'.' ∷ b'.' ∷ []) value
    then err other
    else if contains_char b':' value
    then err other
    else if contains_char b'\\' value
    then err other
    else if not (matches_path value)
    then err other
    else ok value

abbrev pub and_then :
    {A B : Type 0}
    → Result CloudTransportError A
    → (A → Result CloudTransportError B)
    → Result CloudTransportError B
and_then (ok a) f = f a
and_then (err e) f = err e

abbrev pub root_path : Text → Text → Text
root_path bucket path_prefix =
    if is_empty path_prefix
    then bucket
    else if is_empty bucket
    then path_prefix
    else bucket ++ b'/' ∷ path_prefix

unfoldable pub compose_remote_root : Text → Text → Text → Result CloudTransportError Text
unfolding validate_remote_name validate_remote_root_component
compose_remote_root remote_name bucket path_prefix =
    and_then (validate_remote_name remote_name) λ remote_name'.
      and_then (validate_remote_root_component bucket true) λ bucket'.
        and_then (validate_remote_root_component path_prefix true)
          λ path_prefix'. ok (remote_name' ++ b':' ∷ root_path bucket' path_prefix')

-- The path behind a drive letter and its colon, if it has these.
abbrev pub path_after_drive : Text → Text
path_after_drive [] = []
path_after_drive (c ∷ []) = c ∷ []
path_after_drive (c ∷ d ∷ s) = if d == b':' && is_ascii_alphabetic c then s else c ∷ d ∷ s

unfoldable pub validate_local_path_prefix : Text → Result CloudTransportError (Unit {0})
validate_local_path_prefix path =
    if is_empty path
    then err other
    else if any is_control path
    then err other
    else if contains (b'.' ∷ b'.' ∷ []) path
    then err other
    else if contains (b'/' ∷ b'/' ∷ []) path
    then err other
    else if contains_char b':' (path_after_drive path)
    then err other
    else ok tt
