-- ===== src/Pipeline/Range/Covering.antt =====
-- The chunks from `range_start / chunk_size` to `range_end / chunk_size` cover the range: what
-- `decrypt_file_range_to_memory` gives is that part of the file.
use arx_runa.Prelude.{
  ℕ, zero, suc, ◌+◌, ◌-◌, ◌*◌, ◌≤◌, ◌<◌, ◌≡◌, ◌⊎◌, inl, inr, refl, sym, ap, ◌∙◌, min, max, List, [],
  ◌∷◌, ◌++◌, Option, Bytes, arith, length, take, drop, ok, Result-cases, Bool-cases, ltb,
  length-append, subst, ltb→lt, not_ltb→le, length-take,
}
use arx_runa.World.{Env, IsLawful, World, FilePath}
use arx_runa.Manifest.Types.{ChunkRecord}
use arx_runa.Pipeline.Pieces.{length-pad, concat, ArePieces, ArePieces-rest, first_length}
use arx_runa.Pipeline.Encrypt.Stored.{IsStored, AreStored}
use arx_runa.Pipeline.Decrypt.{open_chunk}
use arx_runa.Pipeline.Decrypt.Integrity.{HashCollision, open_chunk-pad, take-pad}
use arx_runa.Pipeline.Range.{real_bytes, overlap, range_chunk, range_loop}
use arx_runa.Pipeline.Range.Slicing.{window, window-append, window_empty, slice-window}

-- The pieces from position `i` on are the rest of the `count` chunks of the file.
abbrev pub Fits : ℕ → ℕ → ℕ → ℕ → List Bytes → Type 0
Fits size file_size count i [] = Unit {0}
Fits size file_size count i (p ∷ ps) =
    (i + length (p ∷ ps) ≡ count) × (file_size ≡ i * size + length (concat (p ∷ ps)))

ends_before : (i k size from : ℕ) → (i + suc k) * size ≤ from → i * size + size ≤ from
ends_before i k size from h =
    let grows : i * size + size + k * size ≡ (i + suc k) * size = omega arith in omega arith

-- What the slice of one chunk gives is its window of the piece.
pub overlap-window :
    (from last offset n : ℕ) (plaintext out : Bytes)
    → 0 < n
    → n ≤ length plaintext
    → overlap from last offset n plaintext ≡ ok out
    → out ≡ window from (suc last) offset (take n plaintext)
overlap-window from last offset n plaintext out positive fits h =
    elim (Bool-cases (ltb (min last (offset + n - 1)) (max from offset))) [
      | inl apart ↦
          let empty =
            window_empty from (suc last) offset (take n plaintext)
              (let strict = ltb→lt _ _ apart in omega (arith, length-take n plaintext)) in
          ground (arith, apart, empty)
      | inr meet ↦
          let cut = slice-window from last offset n plaintext positive fits (not_ltb→le _ _ meet) in
          ground (arith, cut, meet)
    ]

module _ (env : Env) (lawful : IsLawful env) (file_id file_key : Bytes) (dir : FilePath) where
  module _ (files : FilePath → Option Bytes) (bound size : ℕ) (staging_dir : FilePath)
      (blob_len file_size count : ℕ) where
    abbrev Stored : ℕ → List Bytes → List ChunkRecord → Type 0
    Stored i ps rows = AreStored env file_id file_key dir size files bound i ps rows

    -- The bytes of a chunk that are the file's are those of its piece.
    pub real_bytes-piece :
        (i n : ℕ) (p : Bytes) (ps : List Bytes) (r : ChunkRecord)
        → r.chunk_index ≡ i
        → ArePieces size (p ∷ ps)
        → i + length (p ∷ ps) ≡ count
        → file_size ≡ i * size + length (concat (p ∷ ps))
        → real_bytes file_size size count r ≡ ok n
        → n ≡ length p
    unfolding concat
    real_bytes-piece i n p [] r indexed a counted total h =
        let product : r.chunk_index * size ≡ i * size = ap (λ (x : ℕ). x * size) indexed in
        let alone = length-append p [] in ground (arith, product, alone)
    real_bytes-piece i n p (q ∷ ps) r indexed a counted total h = ground (arith, a.0)

    module _ (range_start range_end : ℕ) where
      abbrev pub from_piece : ℕ → Bytes → Bytes
      from_piece i p = window range_start (suc range_end) (i * size) p

      range_chunk-ok :
          (r : ChunkRecord) (w w' : World) (out : Bytes)
          → range_chunk range_start range_end env file_id file_key staging_dir blob_len file_size
              size count r w
            ≡ (ok out, w')
          → (m : Bytes) × (n : ℕ) × (open_chunk env file_id file_key staging_dir blob_len r w
              ≡ (ok m, w'))
            × (real_bytes file_size size count r ≡ ok n)
            × (overlap range_start range_end (r.chunk_index * size) n m ≡ ok out)
      unfolding range_chunk
      range_chunk-ok r w w' out h =
          let opened = open_chunk env file_id file_key staging_dir blob_len r w in
          elim (Result-cases opened.0) [
            | inr (e, k) ↦ absurd (ground (arith, k))
            | inl (m, k) ↦ elim (Result-cases (real_bytes file_size size count r)) [
              | inr (e, l) ↦ absurd (ground (arith, k, l))
              | inl (n, l) ↦ (m, n, cc (k, l, h), l, cc (k, l, h))
            ]
          ]

      range_chunk-window :
          (i : ℕ) (p : Bytes) (ps : List Bytes) (r : ChunkRecord) (w w' : World) (out : Bytes)
          → IsStored env file_id file_key dir size files bound i p r
          → ArePieces size (p ∷ ps)
          → 0 < length p
          → i + length (p ∷ ps) ≡ count
          → file_size ≡ i * size + length (concat (p ∷ ps))
          → range_chunk range_start range_end env file_id file_key staging_dir blob_len file_size
              size count r w
            ≡ (ok out, w')
          → (out ≡ from_piece i p) ⊎ HashCollision env.hash
      range_chunk-window i p ps r w w' out s a positive counted total h =
          let (m, n, opened, real, cut) = range_chunk-ok r w w' out h in
          let whole = real_bytes-piece i n p ps r s.indexed a counted total real in
          elim (open_chunk-pad env lawful file_id file_key dir files bound size staging_dir blob_len
            i p r w w' m s opened) [
              | inr collision ↦ inr collision
              | inl padded ↦
                  let long = length-pad size p (first_length size p ps a) in
                  let windowed =
                    overlap-window range_start range_end (r.chunk_index * size) n m out
                      (omega (arith, whole))
                      (omega (arith, whole, ap length padded, long, first_length size p ps a))
                      cut in
                  inl (
                    windowed
                    ∙ ap (λ (x : ℕ). window range_start (suc range_end) (x * size) (take n m))
                        s.indexed
                    ∙ ap (window range_start (suc range_end) (i * size)) (
                        ap (take n) padded
                        ∙ take-pad env lawful file_id file_key dir files bound size n p whole))
            ]

    pub Fits-rest :
        (i : ℕ) (p : Bytes) (ps : List Bytes)
        → ArePieces size (p ∷ ps)
        → Fits size file_size count i (p ∷ ps)
        → Fits size file_size count (i + 1) ps
    unfolding concat
    Fits-rest i p [] a f = tt
    Fits-rest i p (q ∷ ps) a f =
        (omega (arith, f.0), omega (arith, f.1, a.0, length-append p (concat (q ∷ ps))))

    pub first_positive :
        (p : Bytes) (ps : List Bytes) → 0 < size → ArePieces size (p ∷ ps) → 0 < length p
    first_positive p [] positive a = a.0
    first_positive p (q ∷ ps) positive a = omega (arith, a.0)

    module _ (range_start range_end : ℕ) where
      abbrev pub from_pieces : ℕ → List Bytes → Bytes
      from_pieces i ps = window range_start (suc range_end) (i * size) (concat ps)

      pub nothing_of : (offset : ℕ) → window {A = ℕ} range_start (suc range_end) offset [] ≡ []
      nothing_of offset = window_empty range_start (suc range_end) offset [] (omega arith)

      -- The window of the pieces is that of the first, and that of the others.
      pub from_pieces-cons :
          (i : ℕ) (p : Bytes) (ps : List Bytes)
          → ArePieces size (p ∷ ps)
          → from_pieces i (p ∷ ps)
            ≡ window range_start (suc range_end) (i * size) p ++ from_pieces (i + 1) ps
      unfolding concat
      from_pieces-cons i p [] a =
          window-append range_start (suc range_end) (i * size) p []
          ∙ ap (λ r. window range_start (suc range_end) (i * size) p ++ r)
              (nothing_of (i * size + length p) ∙ sym (nothing_of ((i + 1) * size)))
      from_pieces-cons i p (q ∷ ps) a =
          let next : i * size + length p ≡ (i + 1) * size = omega (arith, a.0) in
          window-append range_start (suc range_end) (i * size) p (concat (q ∷ ps))
          ∙ ap
              (λ (x : ℕ).
                window range_start (suc range_end) (i * size) p
                ++ window range_start (suc range_end) x (concat (q ∷ ps)))
              next

      range_loop-ok :
          (r : ChunkRecord) (rows : List ChunkRecord) (w w' : World) (out : Bytes)
          → range_loop range_start range_end env file_id file_key staging_dir blob_len file_size
              size count
              (r ∷ rows)
              w
            ≡ (ok out, w')
          → (bytes rest : Bytes) × (w₁ : World) × (range_chunk range_start range_end env file_id
                file_key staging_dir blob_len file_size size count r w
              ≡ (ok bytes, w₁))
            × (range_loop range_start range_end env file_id file_key staging_dir blob_len file_size
                  size count rows w₁
                ≡ (ok rest, w'))
            × (out ≡ bytes ++ rest)
      unfolding range_loop
      range_loop-ok r rows w w' out h =
          let first =
            range_chunk range_start range_end env file_id file_key staging_dir blob_len file_size
              size count r w in
          elim (Result-cases first.0) [
            | inr (e, k) ↦ absurd (ground (arith, k))
            | inl (bytes, k) ↦
                let looped =
                  range_loop range_start range_end env file_id file_key staging_dir blob_len
                    file_size size count rows first.1 in
                elim (Result-cases looped.0) [
                  | inr (e, l) ↦ absurd (ground (arith, k, l))
                  | inl (rest, l) ↦ (
                    bytes,
                    rest,
                    first.1,
                    ap (λ x. (x, first.1)) k,
                    ground (arith, k, l),
                    ground (arith, k, l),
                  )
                ]
          ]

      -- Chunks enough to reach the end of the range give all of it that lies behind their start.
      pub range_loop-window :
          (ps : List Bytes) (rows : List ChunkRecord) (i n : ℕ) (w w' : World) (out : Bytes)
          → 0 < size
          → Stored i ps rows
          → ArePieces size ps
          → Fits size file_size count i ps
          → suc range_end ≤ (i + n) * size
          → range_loop range_start range_end env file_id file_key staging_dir blob_len file_size
              size count
              (take n rows)
              w
            ≡ (ok out, w')
          → (out ≡ from_pieces i ps) ⊎ HashCollision env.hash
      range_loop-window ps rows i zero w w' out positive s a f reach h =
          let behind =
            window_empty range_start (suc range_end) (i * size) (concat ps) (omega arith) in
          unfold range_loop in inl (cc (behind, h))
      range_loop-window [] [] i (suc n) w w' out positive s a f reach h =
          unfold range_loop concat in inl (cc (nothing_of (i * size), h))
      range_loop-window [] (r ∷ rows) i (suc n) w w' out positive s a f reach h = elim s [ ]
      range_loop-window (p ∷ ps) [] i (suc n) w w' out positive s a f reach h = elim s [ ]
      range_loop-window (p ∷ ps) (r ∷ rows) i (suc n) w w' out positive s a f reach h =
          let (bytes, rest, w₁, first, looped, joined) = range_loop-ok r (take n rows) w w' out h in
          elim (range_chunk-window range_start range_end i p ps r w w₁ bytes s.0 a
            (first_positive p ps positive a) f.0 f.1 first) [
              | inr collision ↦ inr collision
              | inl piece ↦
                  elim (range_loop-window ps rows (i + 1) n w₁ w' rest positive s.1
                    (ArePieces-rest size p ps a) (Fits-rest i p ps a f) (omega arith) looped) [
                      | inr collision ↦ inr collision
                      | inl others ↦ inl (cc (joined, piece, others, from_pieces-cons i p ps a))
                    ]
            ]

      -- The pieces that end before the range can be skipped.
      pub skip :
          (k : ℕ) (ps : List Bytes) (rows : List ChunkRecord) (i : ℕ)
          → Stored i ps rows
          → ArePieces size ps
          → Fits size file_size count i ps
          → (i + k) * size ≤ range_start
          → Stored (i + k) (drop k ps) (drop k rows)
            × ArePieces size (drop k ps)
            × Fits size file_size count (i + k) (drop k ps)
            × (from_pieces (i + k) (drop k ps) ≡ from_pieces i ps)
      skip zero ps rows i s a f before =
          let same : i ≡ i + 0 = omega arith in
          subst
            (λ (x : ℕ).
              Stored x ps rows
              × ArePieces size ps
              × Fits size file_size count x ps
              × (from_pieces x ps ≡ from_pieces i ps))
            same (s, a, f, refl)
      skip (suc k) [] [] i s a f before = (
        tt,
        tt,
        tt,
        unfold concat in (nothing_of ((i + suc k) * size) ∙ sym (nothing_of (i * size))),
      )
      skip (suc k) [] (r ∷ rows) i s a f before = elim s [ ]
      skip (suc k) (p ∷ ps) [] i s a f before = elim s [ ]
      skip (suc k) (p ∷ ps) (r ∷ rows) i s a f before =
          let next : (i + 1) + k ≡ i + suc k = omega arith in
          let (s', a', f', same) =
            skip k ps rows (i + 1) s.1 (ArePieces-rest size p ps a) (Fits-rest i p ps a f)
              (omega arith) in
          let gone =
            window_empty range_start (suc range_end) (i * size) p
              (omega (arith, first_length size p ps a, ends_before i k size range_start before)) in
          let joined = from_pieces-cons i p ps a ∙ ap (λ b. b ++ from_pieces (i + 1) ps) gone in
          subst
            (λ (x : ℕ).
              Stored x (drop k ps) (drop k rows)
              × ArePieces size (drop k ps)
              × Fits size file_size count x (drop k ps)
              × (from_pieces x (drop k ps) ≡ from_pieces i (p ∷ ps)))
            next (s', a', f', same ∙ sym joined)
