-- ===== src/Manifest/Types.antt =====
-- Rows of the manifest: src-tauri/src/storage/types/*.rs and the tables of schema.rs. A UUID is its
-- 128-bit value.
use arx_runa.Prelude.{ℕ, Option, List, Text, Bytes}

pub data NodeType : Type 0 where
  file directory : NodeType

pub record Node : Type 0 where
  pub node_id : ℕ
  pub parent_id : Option ℕ
  pub node_type : NodeType
  pub name : Text
  pub created_at : ℕ
  pub modified_at : ℕ
  pub size_bytes : ℕ
  pub file_key_wrapped : Option Bytes

pub record ChunkRecord : Type 0 where
  pub chunk_id : ℕ
  pub node_id : ℕ
  pub chunk_index : ℕ
  pub blob_name : Text
  pub size_padded : ℕ
  pub blake3_checksum : Bytes
  pub epoch_blob_id : Option ℕ
  pub byte_offset : Option ℕ
  pub byte_length : Option ℕ

pub record EpochBlobRecord : Type 0 where
  pub epoch_blob_id : ℕ
  pub blob_name : Text
  pub file_key_wrapped : Bytes
  pub size_padded : ℕ
  pub blake3_checksum : Bytes

pub record EpochBufferEntry : Type 0 where
  pub entry_id : ℕ
  pub node_id : ℕ
  pub plaintext : Bytes
  pub size_bytes : ℕ

-- A row of `epoch_buffer`.
pub record BufferRow : Type 0 where
  pub entry : EpochBufferEntry
  pub queued_at : ℕ

pub record PendingDeletion : Type 0 where
  pub blob_name : Text
  pub queued_at : ℕ

pub record Manifest : Type 0 where
  pub meta : Text → Option Text
  pub nodes : List Node
  pub chunks : List ChunkRecord
  pub epoch_blobs : List EpochBlobRecord
  pub epoch_buffer : List BufferRow
  pub pending_deletions : List PendingDeletion
