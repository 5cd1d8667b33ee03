-- ===== src/Pipeline/Decrypt/Integrity.antt =====
-- decrypt_file.rs gives back the file that was encrypted or fails, whatever has become of the blobs
-- in staging and however the calls end, unless BLAKE3 has a collision.
use arx_runa.Prelude.{
  ℕ, ◌+◌, ◌*◌, ◌≡◌, ◌≢◌, ◌⊎◌, inl, inr, ap, ◌∙◌, Bool, true, List, [], ◌∷◌, ◌++◌, Option, Bytes,
  length, take, ok, arith, Result-cases, Bool-cases, length-append, take-append_exact, ◌===◌,
  ===_iff,
}
use arx_runa.World.{Env, IsLawful, World, FilePath}
use arx_runa.World.Files.{report}
use arx_runa.Crypto.Chunk.{decrypt_chunk, decrypt_chunk-eq-ok_iff}
use arx_runa.Crypto.Checksum.{verify_checksum, verify_checksum-ok, compute_checksum}
use arx_runa.Storage.Validation.{validate_blob_name_uuid_v4}
use arx_runa.Manifest.Types.{ChunkRecord}
use arx_runa.Pipeline.Pieces.{pad, concat, ArePieces}
use arx_runa.Pipeline.Encrypt.Stored.{IsStored, AreStored}
use arx_runa.Pipeline.Decrypt.{
  resolve_blob_path, read_encrypted_blob, open_chunk, next_bytes, memory_loop, bytes_to_write,
  is_empty,
}

-- The pieces from position `i` on make up the rest of the file.
abbrev pub Remaining : ℕ → ℕ → ℕ → List Bytes → Type 0
Remaining file_size size i [] = Unit {0}
Remaining file_size size i (p ∷ ps) = file_size ≡ i * size + length (concat (p ∷ ps))

-- Two byte strings with one hash.
pub record HashCollision (hash : Bytes → Bytes) : Type 0 where
  pub left : Bytes
  pub right : Bytes
  pub differ : left ≢ right
  pub agree : compute_checksum hash left ≡ compute_checksum hash right

module _ (env : Env) (file_id file_key : Bytes) (staging_dir : FilePath) (blob_len : ℕ) where
  -- A chunk that opens has passed the checksum and the cipher.
  open_chunk-ok :
      (r : ChunkRecord) (w w' : World) (m : Bytes)
      → open_chunk env file_id file_key staging_dir blob_len r w ≡ (ok m, w')
      → (b : Bytes) × (compute_checksum env.hash b ≡ r.blake3_checksum)
        × (decrypt_chunk env.cipher (record { inner = b }) file_key file_id r.chunk_index ≡ ok m)
  unfolding open_chunk
  open_chunk-ok r w w' m h = elim (Result-cases (validate_blob_name_uuid_v4 env r.blob_name)) [
    | inr (e, k) ↦ absurd (ground (arith, k))
    | inl (valid, k) ↦
        let resolved = resolve_blob_path env staging_dir r.blob_name w in
        elim (Result-cases resolved.0) [
          | inr (e, l) ↦ absurd (ground (arith, k, l))
          | inl (path, l) ↦
              let read = read_encrypted_blob env path blob_len resolved.1 in
              elim (Result-cases read.0) [
                | inr (e, o) ↦ absurd (ground (arith, k, l, o))
                | inl (b, o) ↦ elim (Result-cases (verify_checksum env.hash b r.blake3_checksum)) [
                  | inr (e, p) ↦ absurd (ground (arith, k, l, o, p))
                  | inl (v, p) ↦
                      elim (Result-cases
                        (decrypt_chunk env.cipher v file_key file_id r.chunk_index)) [
                          | inr (e, q) ↦ absurd (ground (arith, k, l, o, p, q))
                          | inl (m', q) ↦
                              let (same, summed) =
                                verify_checksum-ok env.hash b r.blake3_checksum v p in
                              (b, summed, ground (arith, k, l, o, p, q, same))
                        ]
                ]
              ]
        ]
  ]

  -- The bytes that a round writes are the front of what its chunk opens to.
  next_bytes-ok :
      (file_size size : ℕ) (is_last : Bool) (r : ChunkRecord) (w w' : World) (out : Bytes)
      → next_bytes env file_id file_key staging_dir blob_len file_size size is_last r w
        ≡ (ok out, w')
      → (m : Bytes) × (w₁ : World) × (n : ℕ) × (open_chunk env file_id file_key staging_dir blob_len
            r w
          ≡ (ok m, w₁))
        × (bytes_to_write file_size size is_last r ≡ ok n)
        × (out ≡ take n m)
  unfolding next_bytes
  next_bytes-ok file_size size is_last r w w' out h =
      let opened = open_chunk env file_id file_key staging_dir blob_len r w in
      elim (Result-cases opened.0) [
        | inr (e, k) ↦ absurd (ground (arith, k))
        | inl (m, k) ↦ elim (Result-cases (bytes_to_write file_size size is_last r)) [
          | inr (e, l) ↦ absurd (ground (arith, k, l))
          | inl (n, l) ↦ (m, opened.1, n, cc k, l, ground (arith, k, l))
        ]
      ]

  memory_loop-ok :
      (file_size size : ℕ) (reports : Bool) (r : ChunkRecord) (rows : List ChunkRecord) (so_far : ℕ)
      (w w' : World) (out : Bytes)
      → memory_loop env file_id file_key staging_dir blob_len file_size size reports
          (r ∷ rows)
          so_far
          w
        ≡ (ok out, w')
      → (bytes rest : Bytes) × (w₁ w₂ : World) × (next_bytes env file_id file_key staging_dir
            blob_len file_size size
            (is_empty rows)
            r
            w
          ≡ (ok bytes, w₁))
        × (memory_loop env file_id file_key staging_dir blob_len file_size size reports rows
              (so_far + length bytes)
              w₂
            ≡ (ok rest, w'))
        × (out ≡ bytes ++ rest)
  unfolding memory_loop report
  memory_loop-ok file_size size reports r rows so_far w w' out h =
      let first =
        next_bytes env file_id file_key staging_dir blob_len file_size size (is_empty rows) r w in
      elim (Result-cases first.0) [
        | inr (e, k) ↦ absurd (ground (arith, k))
        | inl (bytes, k) ↦
            let reported = (report reports (so_far + length bytes) file_size first.1).1 in
            let looped =
              memory_loop env file_id file_key staging_dir blob_len file_size size reports rows
                (so_far + length bytes) reported in
            elim (Result-cases looped.0) [
              | inr (e, l) ↦ absurd (ground (arith, k, l))
              | inl (rest, l) ↦
                  (bytes, rest, first.1, reported, cc k, ground (arith, k, l), ground (arith, k, l))
            ]
      ]

module _ (env : Env) (lawful : IsLawful env) (file_id file_key : Bytes) (dir : FilePath) where
  module _ (files : FilePath → Option Bytes) (bound size : ℕ) where
    -- What the row of a piece opens to is the padded piece.
    pub open_chunk-pad :
        (staging_dir : FilePath) (blob_len i : ℕ) (p : Bytes) (r : ChunkRecord) (w w' : World)
        (m : Bytes)
        → IsStored env file_id file_key dir size files bound i p r
        → open_chunk env file_id file_key staging_dir blob_len r w ≡ (ok m, w')
        → (m ≡ pad size p) ⊎ HashCollision env.hash
    open_chunk-pad staging_dir blob_len i p r w w' m s h =
        let (b, summed, opened) =
          open_chunk-ok env file_id file_key staging_dir blob_len r w w' m h in
        let original =
          (decrypt_chunk-eq-ok_iff env.cipher lawful.aead file_key file_id i s.blob (pad size p)).1
            (s.nonce, s.nonce_length, s.sealed) in
        elim (Bool-cases (b === s.blob)) [
          | inl same ↦
              let e = (===_iff b s.blob).0 same in
              inl (ground (arith, e, opened, original, s.indexed))
          | inr other ↦ inr (record {
            left = b;
            right = s.blob;
            differ = λ e. cc (other, (===_iff b s.blob).1 e);
            agree = summed ∙ s.summed;
          })
        ]

    last_length :
        (file_size i n : ℕ) (p : Bytes) (r : ChunkRecord)
        → r.chunk_index ≡ i
        → file_size ≡ i * size + length p
        → bytes_to_write file_size size true r ≡ ok n
        → n ≡ length p
    last_length file_size i n p r indexed total h =
        let product : r.chunk_index * size ≡ i * size = ap (λ (x : ℕ). x * size) indexed in
        ground (arith, product)

    pub take-pad : (n : ℕ) (p : Bytes) → n ≡ length p → take n (pad size p) ≡ p
    unfolding pad
    take-pad n p e = take-append_exact n p _ e

    -- One round gives the piece.
    pub next_bytes-piece :
        (staging_dir : FilePath) (blob_len file_size i : ℕ) (is_last : Bool) (p : Bytes)
        (r : ChunkRecord) (w w' : World) (out : Bytes)
        → IsStored env file_id file_key dir size files bound i p r
        → ((n : ℕ) → bytes_to_write file_size size is_last r ≡ ok n → n ≡ length p)
        → next_bytes env file_id file_key staging_dir blob_len file_size size is_last r w
          ≡ (ok out, w')
        → (out ≡ p) ⊎ HashCollision env.hash
    next_bytes-piece staging_dir blob_len file_size i is_last p r w w' out s count h =
        let (m, w₁, n, opened, counted, cut) =
          next_bytes-ok env file_id file_key staging_dir blob_len file_size size is_last r w w' out
            h in
        elim (open_chunk-pad staging_dir blob_len i p r w w₁ m s opened) [
          | inr collision ↦ inr collision
          | inl padded ↦ inl (cc (cut, padded, take-pad n p (count n counted)))
        ]

    -- What a round counts is the length of its piece, and what is left for the rounds behind it.
    pub piece_length :
        (file_size i : ℕ) (p : Bytes) (ps : List Bytes) (r : ChunkRecord) (rows : List ChunkRecord)
        → AreStored env file_id file_key dir size files bound i (p ∷ ps) (r ∷ rows)
        → ArePieces size (p ∷ ps)
        → file_size ≡ i * size + length (concat (p ∷ ps))
        → ((n : ℕ) → bytes_to_write file_size size (is_empty rows) r ≡ ok n → n ≡ length p)
          × (ArePieces size ps × Remaining file_size size (i + 1) ps)
    unfolding concat
    piece_length file_size i p [] r [] s a e = (
      λ n h. last_length file_size i n p r s.0.indexed (omega (arith, length-append p [])) h,
      (tt, tt),
    )
    piece_length file_size i p [] r (r' ∷ rows) s a e = elim s.1 [ ]
    piece_length file_size i p (q ∷ ps) r [] s a e = elim s.1 [ ]
    piece_length file_size i p (q ∷ ps) r (r' ∷ rows) s a e =
        (λ n h. ground arith, (a.1, omega (arith, length-append p (concat (q ∷ ps)))))

    pub memory_loop-concat :
        (staging_dir : FilePath) (blob_len file_size : ℕ) (reports : Bool) (ps : List Bytes)
        (rows : List ChunkRecord) (i so_far : ℕ) (w w' : World) (out : Bytes)
        → AreStored env file_id file_key dir size files bound i ps rows
        → ArePieces size ps
        → Remaining file_size size i ps
        → memory_loop env file_id file_key staging_dir blob_len file_size size reports rows so_far w
          ≡ (ok out, w')
        → (out ≡ concat ps) ⊎ HashCollision env.hash
    unfolding concat
    memory_loop-concat staging_dir blob_len file_size reports [] [] i so_far w w' out s a e h =
        unfold memory_loop in inl (cc)
    memory_loop-concat staging_dir blob_len file_size reports [] (r ∷ rows) i so_far w w' out s a e
          h =
        elim s [ ]
    memory_loop-concat staging_dir blob_len file_size reports (p ∷ ps) [] i so_far w w' out s a e
          h =
        elim s [ ]
    memory_loop-concat staging_dir blob_len file_size reports (p ∷ ps) (r ∷ rows) i so_far w w' out
          s a e h =
        let (bytes, rest, w₁, w₂, first, looped, joined) =
          memory_loop-ok env file_id file_key staging_dir blob_len file_size size reports r rows
            so_far w w' out h in
        let (full, after) = piece_length file_size i p ps r rows s a e in
        elim (next_bytes-piece staging_dir blob_len file_size i (is_empty rows) p r w w₁ bytes s.0
          full first) [
            | inr collision ↦ inr collision
            | inl piece ↦
                elim (memory_loop-concat staging_dir blob_len file_size reports ps rows (i + 1)
                  (so_far + length bytes) w₂ w' rest s.1 after.0 after.1 looped) [
                    | inr collision ↦ inr collision
                    | inl pieces ↦ inl (cc (joined, piece, pieces))
                  ]
          ]
