-- ===== src/Storage/Error.antt =====
-- src-tauri/src/storage/error.rs, without the message texts.
use arx_runa.Prelude.{ℕ}
use arx_runa.Crypto.Types.{CryptoError}

pub data StorageError : Type 0 where
  database not_found checksum_mismatch decryption_failed io wrong_key : StorageError
  constraint_violation : StorageError
  epoch_buffer_not_flushed : ℕ → StorageError

abbrev pub from_crypto : CryptoError → StorageError
from_crypto CryptoError.checksum_mismatch = StorageError.checksum_mismatch
from_crypto CryptoError.decryption_failed = StorageError.decryption_failed
from_crypto _ = database
