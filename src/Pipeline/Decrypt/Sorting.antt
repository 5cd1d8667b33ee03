-- ===== src/Pipeline/Decrypt/Sorting.antt =====
-- `read_and_validate_chunks` of decrypt_file.rs on the rows of an encrypted file.
use arx_runa.Prelude.{
  ℕ, ◌+◌, ◌≡◌, refl, ap, ◌∙◌, List, [], ◌∷◌, Option, Bytes, ok, arith, Result-cases, inl, inr,
  le→leb,
}
use arx_runa.World.{Env, World, FilePath}
use arx_runa.Manifest.Types.{ChunkRecord}
use arx_runa.Manifest.Rows.{Configured, read_chunk_size_bytes, read_chunk_size_bytes-ok}
use arx_runa.Pipeline.Encrypt.Stored.{AreStored}
use arx_runa.Pipeline.Decrypt.{
  insert_by_index, sort_by_index, validate_rows, read_and_validate_chunks,
}

-- The rows have the indices `i`, `i + 1` and so on, in this order.
abbrev pub Consecutive : ℕ → List ChunkRecord → Type 0
Consecutive i [] = Unit {0}
Consecutive i (r ∷ rows) = (r.chunk_index ≡ i) × Consecutive (i + 1) rows

insert_first :
    (i : ℕ) (r : ChunkRecord) (rows : List ChunkRecord)
    → r.chunk_index ≡ i
    → Consecutive (i + 1) rows
    → insert_by_index r rows ≡ r ∷ rows
unfolding insert_by_index
insert_first i r [] e c = refl
insert_first i r (s ∷ rows) e c = rw (le→leb r.chunk_index s.chunk_index (omega (arith, c.0)))

-- Sorting leaves consecutive rows as they are.
pub sort_by_index-Consecutive :
    (i : ℕ) (rows : List ChunkRecord) → Consecutive i rows → sort_by_index rows ≡ rows
unfolding sort_by_index
sort_by_index-Consecutive i [] c = refl
sort_by_index-Consecutive i (r ∷ rows) c =
    ap (insert_by_index r) (sort_by_index-Consecutive (i + 1) rows c.1)
    ∙ insert_first i r rows c.0 c.1

pub AreStored-Consecutive :
    (env : Env) (file_id file_key : Bytes) (dir : FilePath) (size bound i : ℕ)
    (files : FilePath → Option Bytes) (ps : List Bytes) (rows : List ChunkRecord)
    → AreStored env file_id file_key dir size files bound i ps rows
    → Consecutive i rows
AreStored-Consecutive env file_id file_key dir size bound i files [] [] s = tt
AreStored-Consecutive env file_id file_key dir size bound i files (p ∷ ps) [] s = elim s [ ]
AreStored-Consecutive env file_id file_key dir size bound i files [] (r ∷ rows) s = elim s [ ]
AreStored-Consecutive env file_id file_key dir size bound i files (p ∷ ps) (r ∷ rows) s = (
  s.0.indexed,
  AreStored-Consecutive env file_id file_key dir size bound (i + 1) files ps rows s.1,
)

module _ (env : Env) where
  -- What validation returns when it succeeds.
  pub read_and_validate_chunks-ok :
      (file_size size : ℕ) (rows : List ChunkRecord) (w w' : World) (v : List ChunkRecord × ℕ × ℕ)
      → Configured w.manifest size
      → read_and_validate_chunks env file_size rows w ≡ (ok v, w')
      → (v.0 ≡ sort_by_index rows) × (v.1 ≡ size)
  unfolding read_and_validate_chunks
  read_and_validate_chunks-ok file_size size rows w w' v c h =
      let read = read_chunk_size_bytes env w in
      elim (Result-cases read.0) [
        | inr (e, k) ↦ absurd (ground (arith, k))
        | inl (found, k) ↦
            let same = (read_chunk_size_bytes-ok env w read.1 found size c (cc k)).0 in
            elim (Result-cases (validate_rows found 0 (sort_by_index rows))) [
              | inr (e, l) ↦ absurd (ground (arith, k, l))
              | inl (u, l) ↦ (ground (arith, k, l, same), ground (arith, k, l, same))
            ]
      ]
