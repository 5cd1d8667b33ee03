-- ===== src/Auth/Errors.antt =====
-- src-tauri/src/auth/error.rs and key_source.rs.
use arx_runa.Prelude.{ℕ, Bool, not, Option, none, some, Bytes, ◌==◌, if◌then◌else◌, Result, ok, err}

-- The messages are left out.
pub data KeySourceError : Type 0 where
  not_found : KeySourceError
  invalid_size : ℕ → KeySourceError
  io_failed : KeySourceError

pub data AuthenticationError : Type 0 where
  invalid_credentials key_file_not_found memory_lock_failed vault_header_invalid :
      AuthenticationError
  session_already_active session_not_active invalid_recovery_phrase no_recovery_slot :
      AuthenticationError
  key_source : KeySourceError → AuthenticationError

-- What the operating system says of an open file: its kind and size, and its first 32 bytes.
pub record Handle : Type 0 where
  pub metadata : Option (Bool × ℕ)
  pub contents : Option Bytes

-- How `File::open` ends.
pub data Opened : Type 0 where
  missing refused : Opened
  opened : Handle → Opened

abbrev pub check_metadata : Option (Bool × ℕ) → Result KeySourceError (Unit {0})
check_metadata none = err io_failed
check_metadata (some (is_file, len)) =
    if not is_file then err io_failed else if not (len == 32) then err (invalid_size len) else ok tt

abbrev pub read_exact : Option Bytes → Result KeySourceError Bytes
read_exact none = err io_failed
read_exact (some bytes) = ok bytes

abbrev pub after_metadata :
    Result KeySourceError (Unit {0}) → Option Bytes → Result KeySourceError Bytes
after_metadata (ok _) contents = read_exact contents
after_metadata (err e) contents = err e

unfoldable pub read_key : Opened → Result KeySourceError Bytes
read_key missing = err not_found
read_key refused = err io_failed
read_key (opened file) = after_metadata (check_metadata file.metadata) file.contents
