-- ===== src/Examples/Toy.antt =====
-- A cipher and an environment that satisfy the laws, for concrete runs.
use arx_runa.Prelude.{
  ℕ, zero, suc, ◌≤◌, ◌≡◌, refl, ◌&&◌, Option, none, some, [], ◌∷◌, Bytes, Text, codes, length,
  replicate, leb, le→leb, if◌then◌else◌, ◌===◌, ===_iff, arith, length-replicate,
}
use arx_runa.Prelude.{◌^◌, ◌<◌, ap, take, false}
use arx_runa.Exif.{is_image_magic}
use arx_runa.Pipeline.Pieces.{chunks, chunks_one, pad}
use arx_runa.Crypto.Cipher.{Cipher, IsAead, max_plaintext}
use arx_runa.World.{Env, IsLawful, World, FilePath, path_eq, done}
use arx_runa.Manifest.Types.{Manifest}
use arx_runa.Manifest.Rows.{Configured}
use arx_runa.Storage.Validation.{parse_u64, parse_chunk_size_bytes}

abbrev pub zeros : ℕ → Bytes
zeros n = replicate n 0

abbrev pub toy : Cipher
toy = record {
  seal = λ key nonce aad m. if leb (length m) max_plaintext then some (m, zeros 16) else none;
  unseal = λ key nonce aad ciphertext tag.
      if leb (length ciphertext) max_plaintext && tag === zeros 16 then some ciphertext else none;
}

pub toy-IsAead : IsAead toy
toy-IsAead = record {
  seal_total = λ key nonce aad m h. ((m, zeros 16), rw (le→leb (length m) max_plaintext h));
  seal_length = λ key nonce aad m ciphertext tag h. (ground arith, ground arith);
  unseal-seal = λ key nonce aad m ciphertext tag h. ground (arith, ===_iff tag (zeros 16));
  seal-unseal = λ key nonce aad ciphertext tag m h. ground (arith, ===_iff tag (zeros 16));
}

abbrev only : Text → Option ℕ
only [] = none
only (u ∷ []) = some u
only (u ∷ v ∷ rest) = none

-- The n-th draw is n, and a UUID is written as one character.
abbrev pub env : Env
env = record {
  cipher = toy;
  hash = λ b. b;
  nonce_at = λ n. replicate 24 n;
  key_at = λ n. replicate 32 n;
  uuid_at = λ n. n;
  hyphenated = λ u. u ∷ [];
  parse_uuid = only;
  uuid_version = λ u. 4;
  uuid_bytes = λ u. replicate 16 u;
  fate = λ n. done;
  short = λ n. n;
}

pub lawful : IsLawful env
lawful = record {
  aead = toy-IsAead;
  nonce_length = λ n. length-replicate 24 n;
  key_length = λ n. length-replicate 32 n;
  parse-hyphenated = λ u. refl;
  version_at = λ n. refl;
  uuid_distinct = λ m n e. e;
}

pub calm : (n : ℕ) → env.fate n ≡ done
calm n = refl

abbrev pub manifest : Manifest
manifest = record {
  meta = λ key. if key === codes "chunk_size_bytes" then some (codes "131072") else none;
  nodes = [];
  chunks = [];
  epoch_blobs = [];
  epoch_buffer = [];
  pending_deletions = [];
}

abbrev pub note : FilePath
note = codes "home" ∷ codes "note.txt" ∷ []

abbrev pub note_bytes : Bytes
note_bytes = 1 ∷ 2 ∷ 3 ∷ []

-- A vault that holds nothing, and a file of three bytes.
abbrev pub world : World
world = record {
  files = λ p. if path_eq p note then some note_bytes else none;
  manifest = manifest;
  calls = 0;
  draws = 0;
  staged = [];
  progress = [];
}

pub world-Configured : Configured manifest 131_072
unfolding parse_chunk_size_bytes parse_u64 ◌===◌
world-Configured = (codes "131072", refl, refl)

pub note-found : world.files note ≡ some note_bytes
unfolding path_eq ◌===◌
note-found = refl

pub note-plain : (n : ℕ) → n ≤ 8 → is_image_magic (pad 8 (take n note_bytes)) ≡ false
unfolding is_image_magic pad ◌===◌
note-plain zero h = refl
note-plain (suc zero) h = refl
note-plain (suc (suc zero)) h = refl
note-plain (suc (suc (suc n))) h = refl

pub note_chunks : length (chunks 131_072 note_bytes) < 2 ^ 32
note_chunks = omega (arith, ap length (chunks_one 131_072 note_bytes (omega arith) (omega arith)))
