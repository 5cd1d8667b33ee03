-- ===== src/Pipeline/Encrypt/Stored.antt =====
-- What a chunk in staging is (encrypt_file.rs): the abstract view of the staged files and the rows
-- that the two encryption loops promise and the decryption loops read.
use arx_runa.Prelude.{
  ℕ, suc, ◌+◌, ◌^◌, ◌≤◌, ◌<◌, ◌≡◌, ◌≢◌, refl, Option, none, some, List, [], ◌∷◌, Bytes, length, ok,
  Result, arith, Bool, inl, inr,
}
use arx_runa.World.{join-blob_file_injective}
use arx_runa.Prelude.{Result-cases, ap, sym, ◌∙◌}
use arx_runa.Storage.Error.{StorageError}
use arx_runa.World.Files.{update, update_self, update_ne}
use arx_runa.World.{Env, IsLawful, World, FilePath, join, blob_file}
use arx_runa.Crypto.Chunk.{encrypt_chunk, nonce_len}
use arx_runa.Crypto.Checksum.{compute_checksum}
use arx_runa.Manifest.Types.{ChunkRecord}
use arx_runa.Pipeline.Pieces.{pad}
use arx_runa.Pipeline.Encrypt.{stage_chunk}

module _ (env : Env) (file_id file_key : Bytes) (dir : FilePath) (size : ℕ) where
  -- The row `r` stands for the piece `p` at position `i`; its name was drawn before `bound`.
  pub record IsStored (files : FilePath → Option Bytes) (bound i : ℕ) (p : Bytes) (r : ChunkRecord)
      : Type 0 where
    pub draw : ℕ
    pub before : draw < bound
    pub nonce : Bytes
    pub nonce_length : length nonce ≡ nonce_len
    pub blob : Bytes
    pub sealed : encrypt_chunk env.cipher nonce (pad size p) file_key file_id i ≡ ok blob
    pub named : r.blob_name ≡ env.hyphenated (env.uuid_at draw)
    pub in_place : files (join dir (blob_file r.blob_name)) ≡ some blob
    pub summed : r.blake3_checksum ≡ compute_checksum env.hash blob
    pub indexed : r.chunk_index ≡ i
    pub index_fits : i < 2 ^ 32
    pub padded : r.size_padded ≡ size
    pub standalone : r.epoch_blob_id ≡ none

  -- The rows stand for the pieces, in order, from position `i` on.
  abbrev pub AreStored : (FilePath → Option Bytes) → ℕ → ℕ → List Bytes → List ChunkRecord → Type 0
  AreStored files bound i [] [] = Unit {0}
  AreStored files bound i (p ∷ ps) (r ∷ rs) =
      IsStored files bound i p r × AreStored files bound (i + 1) ps rs
  AreStored files bound i _ _ = ⊥

-- Where `stage_chunk` puts its blob, when `draws` values have been drawn before.
abbrev pub staged_path : Env → FilePath → ℕ → FilePath
staged_path env dir draws = join dir (blob_file (env.hyphenated (env.uuid_at (suc draws))))

module _ (env : Env) (file_id file_key : Bytes) (dir : FilePath) (reports : Bool) (size total : ℕ)
    (plaintext : Bytes) (bytes_read i so_far : ℕ) (w : World) where
  -- The row that `stage_chunk` returns for `blob`.
  abbrev pub staged_row : Bytes → ChunkRecord
  staged_row blob = record {
    chunk_id = env.uuid_at (suc (suc w.draws));
    node_id = 0;
    chunk_index = i;
    blob_name = env.hyphenated (env.uuid_at (suc w.draws));
    size_padded = size;
    blake3_checksum = compute_checksum env.hash blob;
    epoch_blob_id = none;
    byte_offset = none;
    byte_length = none;
  }

  abbrev pub run : Result StorageError ChunkRecord × World
  run = stage_chunk env file_id file_key dir reports size total plaintext bytes_read i so_far w

  -- All that matters of a round of `stage_chunk` that succeeds.
  pub record Staged (r : ChunkRecord) (w' : World) : Type 0 where
    pub blob : Bytes
    pub sealed :
        encrypt_chunk env.cipher (env.nonce_at w.draws) plaintext file_key file_id i ≡ ok blob
    pub row : r ≡ staged_row blob
    pub files :
        (q : FilePath) → w'.files q ≡ update w.files (staged_path env dir w.draws) (some blob) q
    pub draws : w'.draws ≡ suc (suc (suc w.draws))
    pub calls : w'.calls ≡ suc w.calls
    pub manifest : w'.manifest ≡ w.manifest

  stage_chunk-ok : (r : ChunkRecord) (w' : World) → run ≡ (ok r, w') → Staged r w'
  unfolding stage_chunk
  stage_chunk-ok r w' h =
      elim (Result-cases
        (encrypt_chunk env.cipher (env.nonce_at w.draws) plaintext file_key file_id i)) [
          | inr (e, fails) ↦ absurd (ground (arith, fails))
          | inl (blob, seals) ↦ record {
            blob = blob;
            sealed = seals;
            row = ground (arith, seals);
            files = λ q. ground (arith, seals);
            draws = ground (arith, seals);
            calls = ground (arith, seals);
            manifest = ground (arith, seals);
          }
        ]

module _ (env : Env) (dir : FilePath) where
  -- From `w` to `w'` new blobs may have been written to `dir`, and nothing else was touched.
  pub record Extends (w w' : World) : Type 0 where
    pub draws : w.draws ≤ w'.draws
    pub others :
        (q : FilePath)
        → ((d : ℕ)
            → w.draws ≤ d
            → d < w'.draws
            → q ≢ join dir (blob_file (env.hyphenated (env.uuid_at d))))
        → w'.files q ≡ w.files q
    pub manifest : w'.manifest ≡ w.manifest

  pub Extends-refl : (w w' : World) → w ≡ w' → Extends w w'
  Extends-refl w w' e =
      rw (← e) (record { draws = omega arith; others = λ q _. refl; manifest = refl })

  -- What counts of the first world is its files, its draws and its manifest.
  pub Extends-from :
      {u v w : World}
      → v.files ≡ u.files
      → v.draws ≡ u.draws
      → v.manifest ≡ u.manifest
      → Extends v w
      → Extends u w
  Extends-from {u} {v} {w} files draws manifest x = record {
    draws = omega (arith, draws, x.draws);
    others = λ q other.
        x.others q (λ d from to. other d (omega (arith, draws)) to) ∙ ap (λ f. f q) files;
    manifest = x.manifest ∙ manifest;
  }

  pub Extends-trans : {u v w : World} → Extends u v → Extends v w → Extends u w
  Extends-trans {u} {v} {w} h k = record {
    draws = omega (arith, h.draws, k.draws);
    others = λ q other.
        k.others q (λ d from to. other d (omega (arith, h.draws)) to)
        ∙ h.others q (λ d from to. other d from (omega (arith, k.draws)));
    manifest = k.manifest ∙ h.manifest;
  }

module _ (env : Env) (lawful : IsLawful env) (dir : FilePath) where
  name_injective :
      (d d' : ℕ) → env.hyphenated (env.uuid_at d) ≡ env.hyphenated (env.uuid_at d') → d ≡ d'
  name_injective d d' e =
      lawful.uuid_distinct d d'
        (cc (lawful.parse-hyphenated (env.uuid_at d), e, lawful.parse-hyphenated (env.uuid_at d')))

  module _ (file_id file_key : Bytes) (size : ℕ) where
    -- Later work keeps what is stored.
    pub IsStored-Extends :
        {w w' : World} {i : ℕ} {p : Bytes} {r : ChunkRecord}
        → Extends env dir w w'
        → IsStored env file_id file_key dir size w.files w.draws i p r
        → IsStored env file_id file_key dir size w'.files w'.draws i p r
    IsStored-Extends {w} {w'} {i} {p} {r} x s = record {
      draw = s.draw;
      nonce = s.nonce;
      nonce_length = s.nonce_length;
      blob = s.blob;
      sealed = s.sealed;
      named = s.named;
      summed = s.summed;
      indexed = s.indexed;
      index_fits = s.index_fits;
      padded = s.padded;
      standalone = s.standalone;
      before = omega (arith, x.draws, s.before);
      in_place =
          x.others (join dir (blob_file r.blob_name)) (λ d from to e.
            let same = name_injective s.draw d (sym s.named ∙ join-blob_file_injective dir _ _ e) in
            absurd (omega (arith, s.before)))
          ∙ s.in_place;
    }

    pub AreStored-Extends :
        {w w' : World} (i : ℕ) (ps : List Bytes) (rs : List ChunkRecord)
        → Extends env dir w w'
        → AreStored env file_id file_key dir size w.files w.draws i ps rs
        → AreStored env file_id file_key dir size w'.files w'.draws i ps rs
    AreStored-Extends i [] [] x s = tt
    AreStored-Extends i (p ∷ ps) [] x s = s
    AreStored-Extends i [] (r ∷ rs) x s = s
    AreStored-Extends i (p ∷ ps) (r ∷ rs) x s =
        (IsStored-Extends x s.0, AreStored-Extends (i + 1) ps rs x s.1)

    module _ (reports : Bool) (total : ℕ) where
      -- One round of either loop stores its piece.
      pub Staged-IsStored :
          (piece : Bytes) (n i so_far : ℕ) (w w' : World) (r : ChunkRecord)
          → i < 2 ^ 32
          → stage_chunk env file_id file_key dir reports size total (pad size piece) n i so_far w
            ≡ (ok r, w')
          → IsStored env file_id file_key dir size w'.files w'.draws i piece r
            × Extends env dir w w'
      Staged-IsStored piece n i so_far w w' r fits h =
          let s =
            stage_chunk-ok env file_id file_key dir reports size total (pad size piece) n i so_far w
              r w' h in
          (
            record {
              draw = suc w.draws;
              before = omega (arith, s.draws);
              nonce = env.nonce_at w.draws;
              nonce_length = lawful.nonce_length w.draws;
              blob = s.blob;
              sealed = s.sealed;
              named = ap (λ (x : ChunkRecord). x.blob_name) s.row;
              in_place =
                  ap (λ (x : ChunkRecord). w'.files (join dir (blob_file x.blob_name))) s.row
                  ∙ s.files (staged_path env dir w.draws)
                  ∙ update_self w.files (staged_path env dir w.draws) (some s.blob);
              summed = ap (λ (x : ChunkRecord). x.blake3_checksum) s.row;
              indexed = ap (λ (x : ChunkRecord). x.chunk_index) s.row;
              index_fits = fits;
              padded = ap (λ (x : ChunkRecord). x.size_padded) s.row;
              standalone = ap (λ (x : ChunkRecord). x.epoch_blob_id) s.row;
            },
            record {
              draws = omega (arith, s.draws);
              others = λ q other.
                  s.files q
                  ∙ update_ne w.files (staged_path env dir w.draws) q (some s.blob)
                      (other (suc w.draws) (omega arith) (omega (arith, s.draws)));
              manifest = s.manifest;
            },
          )
