-- ===== src/Lib.antt =====
-- Arx Runa: an encrypted vault of files. A file is cut into chunks of one size, each chunk is
-- encrypted on its own and staged as a blob with a random name, and a manifest (SQLCipher) holds
-- which blobs, in which order, make up which file. This library models the storage core of
-- src-tauri/src and what it relies on.
--
-- Files, by the code that they are about:
-- - Prelude: Boolean tests, lists, slices, results and texts over the native numbers.
-- - Crypto: crypto/encrypt_chunk.rs, decrypt_chunk.rs, checksum.rs (Chunk, Checksum, Types),
--   wrap_key.rs and recovery_wrap.rs (WrapKey). The AEAD of the crate chacha20poly1305 is the
--   record Cipher with the laws IsAead; BLAKE3 is a function `hash`.
-- - Storage: storage/error.rs, storage/validation.rs.
-- - Manifest: rows of the tables (storage/types, schema.rs) and reads (sqlcipher.rs).
--   Hierarchy is the tree of nodes and its moves: Depth and Subtree relate the recursive query to
--   paths of parents. Deletion is delete_node with its cascades and the queue of blobs to be deleted
--   in the cloud. Meta is set_meta and the snapshot counter.
-- - World: what storage works on. A world has the files, the manifest, how many calls and random
--   draws were made, and the progress reports. An action takes a world and returns a result and a
--   world. The record Env says how the n-th call ends: done, failed, or torn (a write that fails
--   and leaves other bytes); so a theorem over every Env covers every way in which the file system
--   and the database can fail. IsLawful has the laws of the crates uuid and rand.
-- - Exif: storage/pipeline/exif.rs. Png/Chunks and Jpeg/Segments say what the parts of an image are, in
--   the words of the formats, and Fuel that the loops of exif.rs have fuel enough.
-- - Pipeline/Encrypt, Files: storage/pipeline/encrypt_file.rs. Pipeline/Decrypt, Range, Disk:
--   storage/pipeline/decrypt_file.rs, into memory, by range, and to a destination on disk.
--   Tampering and RoundTrip relate the two.
-- - Epoch: storage/vault_ops/epoch_flush.rs, with the commit of sqlcipher.rs (Manifest/Store) and
--   the readers of epoch blobs in decrypt_file.rs, into memory and to disk (Disk).
-- - Vault: storage/vault_ops/upload_file.rs, download_file.rs and routing.rs, over the node rows of
--   sqlcipher.rs (Manifest/Nodes). Vault/Deleting: delete_file.rs.
-- - Auth: auth/error.rs, key_source.rs (Errors), auth/kdf.rs, crypto/hkdf.rs, auth/session/keys.rs
--   (Keys) and auth/session/manager.rs (Session). The record Platform has the crates argon2 and hkdf,
--   memory locking and SQLCipher. Session/Guards is a step relation: operations, locks, the timeout
--   task and the calls of the manager in any order.
-- - Cloud: storage/cloud/remote_path.rs, endpoint.rs and vault_header.rs (Header). Endpoint/Hosts says
--   what the host of an authority is.
-- - Ui: ui/validation.rs and the range headers of ui/video_stream.rs.
-- - Examples: a toy cipher and vault, and runs of the theorems on them.
--
-- The abstract view of what is staged is AreStored (Pipeline/Encrypt/Stored): the i-th row names a
-- blob that encrypts the i-th chunk under the file's key with the index i. Both encryption loops
-- establish it, and the decryption loops are proved against it.
--
-- Bounds and fuel: u32 and u64 arithmetic that the code checks is checked in the model; `usize` has
-- 64 bits. Loops over lists are structural. `encrypt_stream` has the length of the source plus one
-- as fuel, since each round but the last reads a byte at least; `read_loop` has the size of its
-- buffer; the loops of exif.rs have the length of the image.
-- The recursive queries on nodes have as many rounds as there are nodes, and no node of a forest is
-- deeper than that (Depth-lt-length); SQLite does not end on a cycle.
--
-- Not modelled: concurrency of the asynchronous runtime (a task that encrypt_bytes spawns for
-- cleanup runs at once; what a lock of a session does behind its wait is one step), zeroization,
-- message texts, cloud synchronisation, sharing and the user interface.
pub mod Prelude
pub mod Crypto
pub mod Storage
pub mod Manifest
pub mod World
pub mod Exif
pub mod Pipeline
pub mod Epoch
pub mod Vault
pub mod Examples
pub mod Auth
pub mod Cloud
pub mod Ui
