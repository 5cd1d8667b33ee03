-- ===== src/Exif/Png/Chunks.antt =====
-- The chunks of a PNG image, as its specification has them, and the loop of exif.rs on them.
use arx_runa.Prelude.{
  ℕ, suc, ◌+◌, ◌*◌, ◌≤◌, Bool, false, ◌||◌, ◌≡◌, refl, ap, ◌∙◌, sym, List, [], ◌∷◌, ◌++◌, Bytes,
  length, take, drop, slice, ltb, ◌===◌, if◌then◌else◌, arith, length-append, length-take,
  length-drop, take-append-drop, take-append_exact, drop-append_exact, append_assoc, drop-drop,
}
use arx_runa.Exif.Png.{chunk_data_len, should_drop, total_chunk_len, png_loop}

-- Four bytes of size, the most significant first, then the type, the content and a checksum.
pub record Chunk : Type 0 where
  pub size : ℕ × ℕ × ℕ × ℕ
  pub kind : Bytes
  pub content : Bytes
  pub checksum : Bytes

abbrev pub IsChunk : Chunk → Type 0
IsChunk c =
    (c.size.0 * 16_777_216 + c.size.1 * 65_536 + c.size.2 * 256 + c.size.3 ≡ length c.content)
    × (length c.kind ≡ 4)
    × (length c.checksum ≡ 4)

abbrev pub encode : Chunk → Bytes
encode c = c.size.0 ∷ c.size.1 ∷ c.size.2 ∷ c.size.3 ∷ (c.kind ++ (c.content ++ c.checksum))

-- The bytes of "eXIf", "tEXt", "iTXt" and "zTXt".
abbrev pub metadata_kinds : List Bytes
metadata_kinds =
    (0x65 ∷ 0x58 ∷ 0x49 ∷ 0x66 ∷ [])
    ∷ (0x74 ∷ 0x45 ∷ 0x58 ∷ 0x74 ∷ [])
    ∷ (0x69 ∷ 0x54 ∷ 0x58 ∷ 0x74 ∷ [])
    ∷ (0x7a ∷ 0x54 ∷ 0x58 ∷ 0x74 ∷ [])
    ∷ []

abbrev pub is_one_of : Bytes → List Bytes → Bool
is_one_of kind [] = false
is_one_of kind (k ∷ kinds) = kind === k || is_one_of kind kinds

abbrev pub is_metadata : Chunk → Bool
is_metadata c = is_one_of c.kind metadata_kinds

should_drop-metadata : (c : Chunk) → should_drop c.kind ≡ is_metadata c
unfolding should_drop
should_drop-metadata c = ground arith

pub length-encode : (c : Chunk) → IsChunk c → length (encode c) ≡ 12 + length c.content
length-encode c h = omega (
  arith,
  length-append c.kind (c.content ++ c.checksum),
  length-append c.content c.checksum,
  h.1,
  h.2,
)

module _ (c : Chunk) (more : Bytes) (h : IsChunk c) where
  total-encode : total_chunk_len (encode c ++ more) ≡ length (encode c)
  unfolding total_chunk_len chunk_data_len
  total-encode = omega (arith, h.0, length-encode c h)

  slice-encode : slice 4 8 (encode c ++ more) ≡ c.kind
  slice-encode =
      ap (take 4) (append_assoc c.kind (c.content ++ c.checksum) more)
      ∙ take-append_exact 4 c.kind ((c.content ++ c.checksum) ++ more) (sym h.1)

  -- A round of the loop passes over a chunk of metadata, and keeps any other.
  pub png_loop-encode :
      (fuel : ℕ)
      → png_loop (suc fuel) (encode c ++ more)
        ≡ (if is_metadata c then png_loop fuel more else encode c ++ png_loop fuel more)
  unfolding png_loop
  png_loop-encode fuel =
      let t = total-encode in
      let taken : take (total_chunk_len (encode c ++ more)) (encode c ++ more) ≡ encode c =
        take-append_exact (total_chunk_len (encode c ++ more)) (encode c) more t in
      let dropped : drop (total_chunk_len (encode c ++ more)) (encode c ++ more) ≡ more =
        drop-append_exact (total_chunk_len (encode c ++ more)) (encode c) more t in
      let dropping = ap should_drop slice-encode ∙ should_drop-metadata c in
      let l = length-append (encode c) more in
      let n = length-encode c h in
      let long : ltb (length (encode c ++ more)) 12 ≡ false = ground (arith, l, n) in
      let fits : ltb (length (encode c ++ more)) (total_chunk_len (encode c ++ more)) ≡ false =
        ground (arith, l, t) in
      rw long (rw fits (rw dropping (rw taken (rw dropped refl))))

-- Bytes that the loop does not stop at begin with a chunk.
pub parse_chunk :
    (rest : Bytes)
    → 12 ≤ length rest
    → total_chunk_len rest ≤ length rest
    → (c : Chunk) × IsChunk c × (rest ≡ encode c ++ drop (total_chunk_len rest) rest)
unfolding total_chunk_len chunk_data_len
parse_chunk [] long fits = elim long [ ]
parse_chunk (a ∷ []) long fits = absurd (omega arith)
parse_chunk (a ∷ b ∷ []) long fits = absurd (omega arith)
parse_chunk (a ∷ b ∷ d ∷ []) long fits = absurd (omega arith)
parse_chunk (a ∷ b ∷ d ∷ e ∷ tail) long fits =
    let n = ((a * 256 + b) * 256 + d) * 256 + e in
    let body = drop 4 tail in
    let c : Chunk = record {
      size = (a, b, d, e);
      kind = take 4 tail;
      content = take n body;
      checksum = take 4 (drop n body);
    } in
    let end = drop 4 (drop n body) in
    let t : 4 + 4 + n + 4 ≡ suc (suc (suc (suc (4 + (n + 4))))) = omega arith in
    let after : drop (4 + 4 + n + 4) (a ∷ b ∷ d ∷ e ∷ tail) ≡ end =
      ap (λ (k : ℕ). drop k (a ∷ b ∷ d ∷ e ∷ tail)) t
      ∙ sym (drop-drop (n + 4) 4 tail)
      ∙ sym (drop-drop 4 n body) in
    let split : tail ≡ (c.kind ++ (c.content ++ c.checksum)) ++ end =
      sym (take-append-drop 4 tail)
      ∙ ap (λ (x : Bytes). take 4 tail ++ x) (sym (take-append-drop n body))
      ∙ ap (λ (x : Bytes). take 4 tail ++ (take n body ++ x))
          (sym (take-append-drop 4 (drop n body)))
      ∙ sym (
          append_assoc c.kind (c.content ++ c.checksum) end
          ∙ ap (λ (x : Bytes). c.kind ++ x) (append_assoc c.content c.checksum end)) in
    let kinds = length-take 4 tail in
    let bodies = length-drop 4 tail in
    (
      c,
      (
        omega (arith, length-take n body, bodies),
        omega (arith, kinds),
        omega (arith, length-take 4 (drop n body), length-drop n body, bodies),
      ),
      ap (λ (x : Bytes). a ∷ b ∷ d ∷ e ∷ x) split ∙ ap (λ (x : Bytes). encode c ++ x) (sym after),
    )
