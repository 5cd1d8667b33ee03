-- ===== src/Exif/Fuel.antt =====
-- The fuel of the loops of exif.rs: the length of what is to be read is enough.
use arx_runa.Prelude.{
  ℕ, zero, suc, ◌≤◌, ◌≡◌, refl, [], ◌∷◌, Bytes, length, drop, arith, length-drop,
}
use arx_runa.Exif.Jpeg.{segment_size, jpeg_loop}
use arx_runa.Exif.Png.{total_chunk_len, png_loop}

total-bound : (rest : Bytes) → 12 ≤ total_chunk_len rest
unfolding total_chunk_len
total-bound rest = omega arith

-- The PNG loop gives the same on every fuel that is at least the length of what is left.
pub png_loop_fuel :
    (f g : ℕ) (rest : Bytes) → length rest ≤ f → length rest ≤ g → png_loop f rest ≡ png_loop g rest
unfolding png_loop
png_loop_fuel zero zero rest h k = refl
png_loop_fuel zero (suc g) [] h k = refl
png_loop_fuel zero (suc g) (x ∷ rest) h k = elim h [ ]
png_loop_fuel (suc f) zero [] h k = refl
png_loop_fuel (suc f) zero (x ∷ rest) h k = elim k [ ]
png_loop_fuel (suc f) (suc g) rest h k =
    let t = total_chunk_len rest in
    let b = total-bound rest in
    let l = length-drop t rest in
    let more = png_loop_fuel f g (drop t rest) (omega arith) (omega arith) in cc

segment_size-bound : (rest : Bytes) → 2 ≤ segment_size rest
unfolding segment_size
segment_size-bound [] = omega arith
segment_size-bound (a ∷ []) = omega arith
segment_size-bound (a ∷ b ∷ []) = omega arith
segment_size-bound (a ∷ b ∷ c ∷ []) = omega arith
segment_size-bound (a ∷ b ∷ c ∷ d ∷ rest) = omega arith

-- The JPEG loop gives the same on every fuel that is at least the length of what is left.
pub jpeg_loop_fuel :
    (f g : ℕ) (rest : Bytes)
    → length rest ≤ f
    → length rest ≤ g
    → jpeg_loop f rest ≡ jpeg_loop g rest
unfolding jpeg_loop
jpeg_loop_fuel zero zero rest h k = refl
jpeg_loop_fuel zero (suc g) [] h k = refl
jpeg_loop_fuel zero (suc g) (x ∷ rest) h k = elim h [ ]
jpeg_loop_fuel (suc f) zero [] h k = refl
jpeg_loop_fuel (suc f) zero (x ∷ rest) h k = elim k [ ]
jpeg_loop_fuel (suc f) (suc g) [] h k = refl
jpeg_loop_fuel (suc f) (suc g) (b ∷ []) h k = refl
jpeg_loop_fuel (suc f) (suc g) (b ∷ marker ∷ tail) h k =
    let here : Bytes = b ∷ marker ∷ tail in
    let size = segment_size here in
    let s = segment_size-bound here in
    let l = length-drop size here in
    let fill = jpeg_loop_fuel f g (marker ∷ tail) (omega arith) (omega arith) in
    let mark = jpeg_loop_fuel f g tail (omega arith) (omega arith) in
    let segment = jpeg_loop_fuel f g (drop size here) (omega arith) (omega arith) in cc
