-- ===== src/Pipeline/Encrypt/Streaming.antt =====
-- The streaming loop of `encrypt_file_inner` stores the same pieces as `encrypt_bytes` would.
use arx_runa.Prelude.{
  ℕ, zero, suc, ◌+◌, ◌^◌, ◌≤◌, ◌<◌, ◌≡◌, refl, Bool, List, [], ◌∷◌, Bytes, length, ok, Result,
  arith, inl, inr, take, drop, length-take, length-drop, ltb, ◌==◌, Bool-cases, Result-cases,
  ltb→lt, not_ltb→le, length_zero,
}
use mathlib.Core.Path.{subst}
use arx_runa.World.{Env, IsLawful, World, FilePath}
use arx_runa.Storage.Error.{StorageError}
use arx_runa.Manifest.Types.{ChunkRecord}
use arx_runa.Pipeline.Pieces.{pad, chunks, chunks-nil, chunks_one, chunks_step}
use arx_runa.Pipeline.Encrypt.{stage_chunk, read_chunk_plaintext, encrypt_stream}
use arx_runa.Pipeline.Encrypt.Reading.{read_chunk_plaintext-ok}
use arx_runa.Pipeline.Encrypt.Stored.{Extends, Extends-trans}
use arx_runa.Pipeline.Encrypt.Loops.{Stores, Stores-nil, Stores-cons}

module _ (env : Env) (file_id file_key : Bytes) (dir : FilePath) (reports : Bool)
    (size total : ℕ) where
  abbrev stage : Bytes → ℕ → ℕ → World → Result StorageError ChunkRecord × World
  stage p i so_far w =
      stage_chunk env file_id file_key dir reports size total (pad size p) (length p) i so_far w

  -- How a round of the loop that succeeds ends.
  data Round (f : ℕ) (p source : Bytes) (i so_far : ℕ) (w₁ w' : World) (rows : List ChunkRecord)
      : Type 0 where
    empty : length p ≡ 0 → rows ≡ [] → w₁ ≡ w' → Round f p source i so_far w₁ w' rows
    last :
        (row : ChunkRecord)
        → 0 < length p
        → length p < size
        → stage p i so_far w₁ ≡ (ok row, w')
        → rows ≡ row ∷ []
        → Round f p source i so_far w₁ w' rows
    more :
        (row : ChunkRecord) (w₂ : World) (rest : List ChunkRecord)
        → 0 < length p
        → size ≤ length p
        → stage p i so_far w₁ ≡ (ok row, w₂)
        → i + 1 < 2 ^ 32
        → encrypt_stream env file_id file_key dir reports size total f source
            (i + 1)
            (so_far + length p)
            w₂
          ≡ (ok rest, w')
        → rows ≡ row ∷ rest
        → Round f p source i so_far w₁ w' rows

  encrypt_stream-Round :
      (f : ℕ) (source : Bytes) (i so_far : ℕ) (w w' : World) (rows : List ChunkRecord)
      → encrypt_stream env file_id file_key dir reports size total (suc f) source i so_far w
        ≡ (ok rows, w')
      → (got : Bytes × Bytes) × (w₁ : World) × (read_chunk_plaintext env size source w
          ≡ (ok got, w₁))
        × Round f got.0 got.1 i so_far w₁ w' rows
  unfolding encrypt_stream
  encrypt_stream-Round f source i so_far w w' rows h =
      let read = read_chunk_plaintext env size source w in
      elim (Result-cases read.0) [
        | inr (e, k) ↦ absurd (ground (arith, k))
        | inl (got, k) ↦ elim (Bool-cases (length got.0 == 0)) [
          | inl none_left ↦
              (got, read.1, cc k, empty (ground arith) (ground (arith, k)) (ground (arith, k)))
          | inr some_left ↦
              let staged = stage got.0 i so_far read.1 in
              elim (Result-cases staged.0) [
                | inr (e, l) ↦ absurd (ground (arith, k, l))
                | inl (row, l) ↦ elim (Bool-cases (ltb (length got.0) size)) [
                  | inl short ↦ (
                    got,
                    read.1,
                    cc k,
                    last row (ground arith) (ltb→lt _ _ short) (ground (arith, k, l))
                        (ground (arith, k, l)),
                  )
                  | inr full ↦
                      let looped =
                        encrypt_stream env file_id file_key dir reports size total f got.1 (i + 1)
                          (so_far + length got.0) staged.1 in
                      elim (Result-cases looped.0) [
                        | inr (e, m) ↦ absurd (ground (arith, k, l, m))
                        | inl (rest, m) ↦ (
                          got,
                          read.1,
                          cc k,
                          more row staged.1 rest (ground arith) (not_ltb→le _ _ full) (cc l)
                              (ground (arith, k, l, m)) (ground (arith, k, l, m))
                              (ground (arith, k, l, m)),
                        )
                      ]
                ]
              ]
        ]
      ]

module _ (env : Env) (lawful : IsLawful env) (file_id file_key : Bytes) (dir : FilePath) where
  module _ (reports : Bool) (size total : ℕ) (positive : 0 < size) where
    abbrev Keeps : ℕ → Bytes → List ChunkRecord → World → World → Type 0
    Keeps i source rows w w' =
        Stores env lawful file_id file_key dir reports size total i (chunks size source) rows w w'

    calls_Extends : (w w' : World) → w' ≡ record w { calls = w'.calls } → Extends env dir w w'
    calls_Extends w w' e =
        rw e (record { draws = omega arith; others = λ q _. refl; manifest = refl })

    -- Reading only makes calls, so it can be put before what a round stores.
    Keeps-read :
        (i : ℕ) (source : Bytes) (rows : List ChunkRecord) (w w₁ w' : World)
        → w₁ ≡ record w { calls = w₁.calls }
        → Keeps i source rows w₁ w'
        → Keeps i source rows w w'
    Keeps-read i source rows w w₁ w' e k = (k.0, Extends-trans env dir (calls_Extends w w₁ e) k.1)

    one-Keeps :
        (source : Bytes) (i so_far : ℕ) (w w' : World) (row : ChunkRecord)
        → i < 2 ^ 32
        → 0 < length source
        → length source ≤ size
        → stage env file_id file_key dir reports size total (take size source) i so_far w
          ≡ (ok row, w')
        → Keeps i source (row ∷ []) w w'
    one-Keeps source i so_far w w' row fits some_left short staged =
        rw (chunks_one size source some_left short) (
          Stores-cons env lawful file_id file_key dir reports size total (take size source) [] i
            (length (take size source)) so_far row [] w w' w' fits staged
            (Stores-nil env lawful file_id file_key dir reports size total (i + 1) [] w' w' refl
              refl))

    Round-Keeps :
        (f : ℕ) (source : Bytes) (i so_far : ℕ) (w₁ w' : World) (rows : List ChunkRecord)
        → i < 2 ^ 32
        → ((so_far' : ℕ) (w₂ : World) (rest : List ChunkRecord)
            → length (drop size source) < length source
            → i + 1 < 2 ^ 32
            → encrypt_stream env file_id file_key dir reports size total f
                (drop size source)
                (i + 1)
                so_far'
                w₂
              ≡ (ok rest, w')
            → Keeps (i + 1) (drop size source) rest w₂ w')
        → Round env file_id file_key dir reports size total f
            (take size source)
            (drop size source)
            i
            so_far
            w₁
            w'
            rows
        → Keeps i source rows w₁ w'
    Round-Keeps f source i so_far w₁ w' rows fits again (empty nothing same stopped) =
        let none_left : source ≡ [] = length_zero source (omega (arith, length-take size source)) in
        rw (none_left, chunks-nil size)
          (Stores-nil env lawful file_id file_key dir reports size total i rows w₁ w' same stopped)
    Round-Keeps f source i so_far w₁ w' rows fits again (last row some_left short staged same) =
        rw same (
          one-Keeps source i so_far w₁ w' row fits (omega (arith, length-take size source))
            (omega (arith, length-take size source)) staged)
    Round-Keeps f source i so_far w₁ w' rows fits again
          (more row w₂ rest some_left full staged next looped same) =
        let size_taken = length-take size source in
        rw (same, chunks_step size source positive (omega arith))
          (Stores-cons env lawful file_id file_key dir reports size total (take size source)
            (chunks size (drop size source)) i (length (take size source)) so_far row rest w₁ w₂ w'
            fits staged
            (again (so_far + length (take size source)) w₂ rest
              (omega (arith, length-drop size source)) next looped))

    pub encrypt_stream-Stores :
        (f : ℕ) (source : Bytes) (i so_far : ℕ) (w w' : World) (rows : List ChunkRecord)
        → length source < f
        → i < 2 ^ 32
        → encrypt_stream env file_id file_key dir reports size total f source i so_far w
          ≡ (ok rows, w')
        → Keeps i source rows w w'
    encrypt_stream-Stores zero source i so_far w w' rows enough fits h = elim enough [ ]
    encrypt_stream-Stores (suc f) source i so_far w w' rows enough fits h =
        let (got, w₁, read, round) =
          encrypt_stream-Round env file_id file_key dir reports size total f source i so_far w w'
            rows h in
        let (given, world) = read_chunk_plaintext-ok env size source w w₁ got read in
        let round' =
          subst
            (λ (g : Bytes × Bytes).
              Round env file_id file_key dir reports size total f g.0 g.1 i so_far w₁ w' rows)
            given round in
        Keeps-read i source rows w w₁ w' world (
          Round-Keeps f source i so_far w₁ w' rows fits
            (λ so_far' w₂ rest shorter next looped.
              encrypt_stream-Stores f (drop size source) (i + 1) so_far' w₂ w' rest (omega arith)
                next looped)
            round')
