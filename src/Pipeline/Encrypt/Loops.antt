-- ===== src/Pipeline/Encrypt/Loops.antt =====
-- The loops of encrypt_file.rs store the pieces of the source, for any way in which calls may fail
-- and reads may come up short.
use arx_runa.Prelude.{
  ℕ, suc, ◌+◌, ◌^◌, ◌<◌, ◌≡◌, Bool, List, [], ◌∷◌, Bytes, length, ok, arith, inl, inr, Result-cases,
}
use arx_runa.World.{Env, IsLawful, World, FilePath}
use arx_runa.Manifest.Types.{ChunkRecord}
use arx_runa.Pipeline.Pieces.{pad}
use arx_runa.Pipeline.Encrypt.{next_index, stage_chunk, encrypt_pieces}
use arx_runa.Pipeline.Encrypt.Stored.{
  AreStored, Extends, Extends-refl, Extends-trans, IsStored-Extends, Staged-IsStored,
}

next_index-ok : (i j : ℕ) → next_index i ≡ ok j → (j ≡ suc i) × (j < 2 ^ 32)
next_index-ok i j h = ground arith

module _ (env : Env) (lawful : IsLawful env) (file_id file_key : Bytes) (dir : FilePath) where
  module _ (reports : Bool) (size total : ℕ) where
    -- The rows stand for the pieces, and only new blobs were written.
    abbrev pub Stores : ℕ → List Bytes → List ChunkRecord → World → World → Type 0
    Stores i ps rows w w' =
        AreStored env file_id file_key dir size w'.files w'.draws i ps rows × Extends env dir w w'

    pub Stores-nil :
        (i : ℕ) (rows : List ChunkRecord) (w w' : World)
        → rows ≡ []
        → w ≡ w'
        → Stores i [] rows w w'
    Stores-nil i rows w w' e k = rw e (tt, Extends-refl env dir w w' k)

    pub Stores-cons :
        (p : Bytes) (ps : List Bytes) (i n so_far : ℕ) (r : ChunkRecord) (rows : List ChunkRecord)
        (w w₁ w' : World)
        → i < 2 ^ 32
        → stage_chunk env file_id file_key dir reports size total (pad size p) n i so_far w
          ≡ (ok r, w₁)
        → Stores (i + 1) ps rows w₁ w'
        → Stores i (p ∷ ps) (r ∷ rows) w w'
    Stores-cons p ps i n so_far r rows w w₁ w' fits h rest =
        let (stored, extends) =
          Staged-IsStored env lawful dir file_id file_key size reports total p n i so_far w w₁ r
            fits h in
        (
          (IsStored-Extends env lawful dir file_id file_key size rest.1 stored, rest.0),
          Extends-trans env dir extends rest.1,
        )

    -- The parts of a round of `encrypt_pieces` that succeeds.
    encrypt_pieces-ok :
        (p : Bytes) (ps : List Bytes) (i so_far : ℕ) (w w' : World) (rows : List ChunkRecord)
        → encrypt_pieces env file_id file_key dir reports size total (p ∷ ps) i so_far w
          ≡ (ok rows, w')
        → (row : ChunkRecord) × (w₁ : World) × (rest : List ChunkRecord) × (stage_chunk env file_id
              file_key dir reports size total
              (pad size p)
              (length p)
              i
              so_far
              w
            ≡ (ok row, w₁))
          × (i + 1 < 2 ^ 32)
          × (encrypt_pieces env file_id file_key dir reports size total ps
                (i + 1)
                (so_far + length p)
                w₁
              ≡ (ok rest, w'))
          × (rows ≡ row ∷ rest)
    unfolding encrypt_pieces
    encrypt_pieces-ok p ps i so_far w w' rows h =
        let staged =
          stage_chunk env file_id file_key dir reports size total (pad size p) (length p) i so_far
            w in
        let looped =
          encrypt_pieces env file_id file_key dir reports size total ps (i + 1) (so_far + length p)
            staged.1 in
        elim (Result-cases staged.0) [
          | inr (e, f) ↦ absurd (ground (arith, f))
          | inl (row, f) ↦ elim (Result-cases looped.0) [
            | inr (e, g) ↦ absurd (ground (arith, f, g))
            | inl (rest, g) ↦ (
              row,
              staged.1,
              rest,
              cc f,
              ground (arith, f, g),
              ground (arith, f, g),
              ground (arith, f, g),
            )
          ]
        ]

    pub encrypt_pieces-Stores :
        (ps : List Bytes) (i so_far : ℕ) (w w' : World) (rows : List ChunkRecord)
        → i < 2 ^ 32
        → encrypt_pieces env file_id file_key dir reports size total ps i so_far w ≡ (ok rows, w')
        → Stores i ps rows w w'
    encrypt_pieces-Stores [] i so_far w w' rows fits h =
        unfold encrypt_pieces in Stores-nil i rows w w' (cc) (cc)
    encrypt_pieces-Stores (p ∷ ps) i so_far w w' rows fits h =
        let (row, w₁, rest, staged, next, looped, parts) =
          encrypt_pieces-ok p ps i so_far w w' rows h in
        rw parts (
          Stores-cons p ps i (length p) so_far row rest w w₁ w' fits staged
            (encrypt_pieces-Stores ps (i + 1) (so_far + length p) w₁ w' rest next looped))
