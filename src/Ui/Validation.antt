-- ===== src/Ui/Validation.antt =====
-- src-tauri/src/ui/validation.rs. The classes \p{L} and \p{N} of the crate regex are a test that is
-- an argument.
use arx_runa.Prelude.{
  ℕ, Bool, false, not, ◌||◌, ◌&&◌, List, [], ◌∷◌, Text, Option, none, some, ◌==◌, ◌===◌, leb,
  if◌then◌else◌, Result, ok, err,
}
use arx_runa.Prelude.Strings.{is_empty, any, all, contains_char, starts_with, split, is_control}

pub data InvalidInput : Type 0 where
  invalid_input : InvalidInput

abbrev pub any_is : Text → List Text → Bool
any_is s [] = false
any_is s (t ∷ parts) = t === s || any_is s parts

abbrev pub is_vault_char : (ℕ → Bool) → ℕ → Bool
is_vault_char is_letter_or_number c =
    is_letter_or_number c || c == b' ' || c == b'.' || c == b'_' || c == b'/' || c == b'-'

unfoldable pub validate_vault_path : (ℕ → Bool) → Text → Result InvalidInput (Unit {0})
validate_vault_path is_letter_or_number path =
    if contains_char b'\\' path
    then err invalid_input
    else if starts_with (b'/' ∷ []) path
    then err invalid_input
    else if any_is (b'.' ∷ b'.' ∷ []) (split b'/' path)
    then err invalid_input
    else if any is_control path
    then err invalid_input
    else if not (all (is_vault_char is_letter_or_number) path)
    then err invalid_input
    else ok tt

abbrev pub is_version_4 : (ℕ → ℕ) → Option ℕ → Result InvalidInput (Unit {0})
is_version_4 version none = err invalid_input
is_version_4 version (some id) = if version id == 4 then ok tt else err invalid_input

-- `Uuid::parse_str` and the version of a UUID are arguments.
unfoldable pub validate_file_id :
    (Text → Option ℕ) → (ℕ → ℕ) → Text → Result InvalidInput (Unit {0})
validate_file_id parse_uuid version id =
    if is_empty id then err invalid_input else is_version_4 version (parse_uuid id)

unfoldable pub validate_password : Text → Result InvalidInput (Unit {0})
validate_password password = if is_empty password then err invalid_input else ok tt

unfoldable pub validate_chunk_size : ℕ → Result InvalidInput (Unit {0})
validate_chunk_size chunk_size_bytes =
    if leb 131_072 chunk_size_bytes && leb chunk_size_bytes 67_108_864
    then ok tt
    else err invalid_input

-- `trim_start_matches('/')`.
unfoldable pub normalise_vault_path : Text → Text
normalise_vault_path [] = []
normalise_vault_path (c ∷ path) =
    let rest = normalise_vault_path path in if c == b'/' then rest else c ∷ path
