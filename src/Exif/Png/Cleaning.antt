-- ===== src/Exif/Png/Cleaning.antt =====
-- What `strip_png_metadata` of exif.rs leaves.
use arx_runa.Prelude.{
  ℕ, zero, suc, ◌≤◌, Bool-cases, inl, inr, true, false, ◌||◌, ◌≡◌, refl, ap, ◌∙◌, sym, subst, List,
  [], ◌∷◌, ◌++◌, Bytes, length, take, drop, ltb, if◌then◌else◌, arith, length-append, length-take,
  take-append_exact, drop-append_exact,
}
use arx_runa.Exif.Png.{total_chunk_len, png_loop, strip_png_metadata}
use arx_runa.Exif.Png.Chunks.{
  Chunk, IsChunk, encode, is_metadata, length-encode, png_loop-encode, parse_chunk,
}

-- Whole chunks, none of them of metadata.
pub data IsClean : Bytes → Type 0 where
  nothing_left : IsClean []
  next_chunk :
      (c : Chunk) (rest : Bytes)
      → IsChunk c
      → is_metadata c ≡ false
      → IsClean rest
      → IsClean (encode c ++ rest)

keep-IsClean :
    (c : Chunk) (h : IsChunk c) (more : Bytes)
    → IsClean more
    → IsClean (if is_metadata c then more else encode c ++ more)
keep-IsClean c h more clean = elim (Bool-cases (is_metadata c)) [
  | inl drops ↦ rw drops clean
  | inr keeps ↦ rw keeps (next_chunk c more h keeps clean)
]

png_loop_stops :
    (fuel : ℕ) (rest : Bytes)
    → ltb (length rest) 12 || ltb (length rest) (total_chunk_len rest) ≡ true
    → png_loop (suc fuel) rest ≡ []
unfolding png_loop
png_loop_stops fuel rest h = rw h refl

png_loop-IsClean : (fuel : ℕ) (rest : Bytes) → IsClean (png_loop fuel rest)
png_loop-IsClean zero rest = unfold png_loop in nothing_left
png_loop-IsClean (suc fuel) rest =
    let t = total_chunk_len rest in
    elim (Bool-cases (ltb (length rest) 12 || ltb (length rest) t)) [
      | inl stops ↦ subst IsClean (sym (png_loop_stops fuel rest stops)) nothing_left
      | inr goes ↦
          let (c, h, parsed) = parse_chunk rest (ground (arith, goes)) (ground (arith, goes)) in
          let more = drop t rest in
          let round = ap (png_loop (suc fuel)) parsed ∙ png_loop-encode c more h fuel in
          subst IsClean (sym round)
            (keep-IsClean c h (png_loop fuel more) (png_loop-IsClean fuel more))
    ]

-- A stripped PNG that is long enough to have a chunk is its signature and whole chunks, none of which
-- is an eXIf, tEXt, iTXt or zTXt chunk.
pub strip_png_metadata-IsClean :
    (bytes : Bytes)
    → 20 ≤ length bytes
    → (take 8 (strip_png_metadata bytes) ≡ take 8 bytes)
      × IsClean (drop 8 (strip_png_metadata bytes))
unfolding strip_png_metadata
strip_png_metadata-IsClean bytes long =
    let chunks = png_loop (length bytes) (drop 8 bytes) in
    let enough : ltb (length bytes) 20 ≡ false = ground arith in
    let eight : 8 ≡ length (take 8 bytes) = omega (arith, length-take 8 bytes) in
    rw enough (
      take-append_exact 8 (take 8 bytes) chunks eight,
      subst IsClean (sym (drop-append_exact 8 (take 8 bytes) chunks eight))
          (png_loop-IsClean (length bytes) (drop 8 bytes)),
    )

-- Chunks one behind the other, and those that are no metadata.
abbrev pub encode_all : List Chunk → Bytes
encode_all [] = []
encode_all (c ∷ cs) = encode c ++ encode_all cs

abbrev pub without_metadata : List Chunk → List Chunk
without_metadata [] = []
without_metadata (c ∷ cs) =
    let rest = without_metadata cs in if is_metadata c then rest else c ∷ rest

abbrev pub AreChunks : List Chunk → Type 0
AreChunks [] = Unit
AreChunks (c ∷ cs) = IsChunk c × AreChunks cs

png_loop-encode_all :
    (fuel : ℕ) (cs : List Chunk)
    → AreChunks cs
    → length (encode_all cs) ≤ fuel
    → png_loop fuel (encode_all cs) ≡ encode_all (without_metadata cs)
png_loop-encode_all zero [] h fits = unfold png_loop in refl
png_loop-encode_all (suc fuel) [] h fits = unfold png_loop in refl
png_loop-encode_all zero (c ∷ cs) h fits =
    absurd (omega (arith, length-append (encode c) (encode_all cs), length-encode c h.0))
png_loop-encode_all (suc fuel) (c ∷ cs) h fits =
    let ih =
      png_loop-encode_all fuel cs h.1
        (omega (arith, length-append (encode c) (encode_all cs), length-encode c h.0)) in
    let round = png_loop-encode c (encode_all cs) h.0 fuel in
    elim (Bool-cases (is_metadata c)) [
      | inl drops ↦ round ∙ rw drops ih
      | inr keeps ↦ round ∙ rw keeps (ap (λ (x : Bytes). encode c ++ x) ih)
    ]

-- A PNG of a signature and chunks is stripped of its eXIf, tEXt, iTXt and zTXt chunks, and of nothing
-- else: the signature and the other chunks are left as they are, in their order.
pub strip_png_metadata-encode_all :
    (signature : Bytes) (cs : List Chunk)
    → length signature ≡ 8
    → AreChunks cs
    → strip_png_metadata (signature ++ encode_all cs)
      ≡ signature ++ encode_all (without_metadata cs)
unfolding strip_png_metadata
strip_png_metadata-encode_all signature [] eight h =
    let short : ltb (length (signature ++ [])) 20 ≡ true =
      ground (arith, length-append signature []) in
    rw short refl
strip_png_metadata-encode_all signature (c ∷ cs) eight h =
    let bytes = signature ++ encode_all (c ∷ cs) in
    let l = length-append signature (encode_all (c ∷ cs)) in
    let enough : ltb (length bytes) 20 ≡ false =
      ground (arith, l, length-append (encode c) (encode_all cs), length-encode c h.0) in
    let head = take-append_exact 8 signature (encode_all (c ∷ cs)) (sym eight) in
    let tail = drop-append_exact 8 signature (encode_all (c ∷ cs)) (sym eight) in
    let looped = png_loop-encode_all (length bytes) (c ∷ cs) h (omega (arith, l)) in
    rw enough (
      ap (λ (x : Bytes). x ++ png_loop (length bytes) (drop 8 bytes)) head
      ∙ ap (λ (x : Bytes). signature ++ png_loop (length bytes) x) tail
      ∙ ap (λ (x : Bytes). signature ++ x) looped)
