-- ===== src/Pipeline/Pieces.antt =====
-- A file cut into pieces, `source_bytes.chunks(chunk_size)`, and a piece padded to a full chunk.
use arx_runa.Prelude.{
  ℕ, zero, suc, ◌-◌, ◌*◌, ◌≤◌, ◌<◌, ◌≡◌, refl, sym, ap, ◌∙◌, List, [], ◌∷◌, ◌++◌, arith, length,
  take, drop, replicate, length-append, length-take, length-drop, length-replicate,
  take-append-drop, drop_all, dec_le, Bytes,
}

-- `[T]::chunks(size)`, on fuel: the length of the list is enough.
chunks_fuel : ℕ → ℕ → Bytes → List Bytes
chunks_fuel zero size xs = []
chunks_fuel (suc f) size [] = []
chunks_fuel (suc f) size (x ∷ xs) = take size (x ∷ xs) ∷ chunks_fuel f size (drop size (x ∷ xs))

unfoldable pub chunks : ℕ → Bytes → List Bytes
unfolding chunks_fuel
chunks size xs = chunks_fuel (length xs) size xs

-- A buffer of `size` zeros with the piece copied to its front.
unfoldable pub pad : ℕ → Bytes → Bytes
pad size piece = piece ++ replicate (size - length piece) 0

unfoldable pub concat : List Bytes → Bytes
concat [] = []
concat (p ∷ ps) = p ++ concat ps

pub length-pad : (size : ℕ) (piece : Bytes) → length piece ≤ size → length (pad size piece) ≡ size
unfolding pad
length-pad size piece h = omega (
  arith,
  length-append piece (replicate (size - length piece) 0),
  length-replicate {A = ℕ} (size - length piece) 0,
)

-- The pieces that `chunks` gives: full ones, and a last one that is neither empty nor longer.
abbrev pub ArePieces : ℕ → List Bytes → Type 0
ArePieces size [] = Unit {0}
ArePieces size (p ∷ []) = (0 < length p) × (length p ≤ size)
ArePieces size (p ∷ q ∷ ps) = (length p ≡ size) × ArePieces size (q ∷ ps)

chunks_fuel-concat :
    (f size : ℕ) (xs : Bytes) → 0 < size → length xs ≤ f → concat (chunks_fuel f size xs) ≡ xs
unfolding chunks_fuel concat
chunks_fuel-concat zero size [] hs h = refl
chunks_fuel-concat zero size (x ∷ xs) hs h = elim h [ ]
chunks_fuel-concat (suc f) size [] hs h = refl
chunks_fuel-concat (suc f) size (x ∷ xs) hs h =
    ap (λ r. take size (x ∷ xs) ++ r)
      (chunks_fuel-concat f size (drop size (x ∷ xs)) hs (omega (arith, length-drop size (x ∷ xs))))
    ∙ take-append-drop size (x ∷ xs)

ArePieces-cons :
    (size : ℕ) (p : Bytes) (ps : List Bytes)
    → 0 < size
    → length p ≡ size
    → ArePieces size ps
    → ArePieces size (p ∷ ps)
ArePieces-cons size p [] h k rest = (omega arith, omega arith)
ArePieces-cons size p (q ∷ ps) h k rest = (k, rest)

chunks_fuel-nil : (f size : ℕ) → chunks_fuel f size [] ≡ []
unfolding chunks_fuel
chunks_fuel-nil zero size = refl
chunks_fuel-nil (suc f) size = refl

pub concat-chunks : (size : ℕ) (xs : Bytes) → 0 < size → concat (chunks size xs) ≡ xs
unfolding chunks
concat-chunks size xs h = chunks_fuel-concat (length xs) size xs h (omega arith)

chunks_fuel-ArePieces :
    (f size : ℕ) (xs : Bytes) → 0 < size → length xs ≤ f → ArePieces size (chunks_fuel f size xs)
unfolding chunks_fuel
chunks_fuel-ArePieces zero size xs hs h = tt
chunks_fuel-ArePieces (suc f) size [] hs h = tt
chunks_fuel-ArePieces (suc f) size (x ∷ xs) hs h = elim (dec_le (length (x ∷ xs)) size) [
  | yes last ↦
      rw (drop_all size (x ∷ xs) last, chunks_fuel-nil f size)
        (omega (arith, length-take size (x ∷ xs)), omega (arith, length-take size (x ∷ xs)))
  | no more ↦
      ArePieces-cons size (take size (x ∷ xs)) _ hs (omega (arith, length-take size (x ∷ xs))) (
        chunks_fuel-ArePieces f size (drop size (x ∷ xs)) hs
          (omega (arith, length-drop size (x ∷ xs))))
]

pub chunks-ArePieces : (size : ℕ) (xs : Bytes) → 0 < size → ArePieces size (chunks size xs)
unfolding chunks
chunks-ArePieces size xs h = chunks_fuel-ArePieces (length xs) size xs h (omega arith)

-- Any fuel from the list's length on gives the same pieces.
chunks_fuel_agree :
    (f g size : ℕ) (xs : Bytes)
    → 0 < size
    → length xs ≤ f
    → length xs ≤ g
    → chunks_fuel f size xs ≡ chunks_fuel g size xs
unfolding chunks_fuel
chunks_fuel_agree f g size [] hs h k = chunks_fuel-nil f size ∙ sym (chunks_fuel-nil g size)
chunks_fuel_agree zero g size (x ∷ xs) hs h k = elim h [ ]
chunks_fuel_agree (suc f) zero size (x ∷ xs) hs h k = elim k [ ]
chunks_fuel_agree (suc f) (suc g) size (x ∷ xs) hs h k =
    ap (λ r. take size (x ∷ xs) ∷ r)
      (chunks_fuel_agree f g size (drop size (x ∷ xs)) hs (omega (arith, length-drop size (x ∷ xs)))
        (omega (arith, length-drop size (x ∷ xs))))

-- One piece off the front.
pub chunks-cons :
    (size : ℕ) (x : ℕ) (xs : Bytes)
    → 0 < size
    → chunks size (x ∷ xs) ≡ take size (x ∷ xs) ∷ chunks size (drop size (x ∷ xs))
unfolding chunks
chunks-cons size x xs h =
    ap (λ r. take size (x ∷ xs) ∷ r)
      (chunks_fuel_agree (length xs) _ size (drop size (x ∷ xs)) h
        (omega (arith, length-drop size (x ∷ xs))) (omega arith))

pub chunks-nil : (size : ℕ) → chunks size [] ≡ []
unfolding chunks
chunks-nil size = refl

-- A list that fits one piece is that piece.
pub chunks_one :
    (size : ℕ) (xs : Bytes) → 0 < length xs → length xs ≤ size → chunks size xs ≡ take size xs ∷ []
chunks_one size [] h k = elim h [ ]
chunks_one size (x ∷ xs) h k =
    rw (chunks-cons size x xs (omega arith), drop_all size (x ∷ xs) k, chunks-nil size)

-- The first piece of a list that is not empty.
pub chunks_step :
    (size : ℕ) (xs : Bytes)
    → 0 < size
    → 0 < length xs
    → chunks size xs ≡ take size xs ∷ chunks size (drop size xs)
chunks_step size [] h k = elim k [ ]
chunks_step size (x ∷ xs) h k = chunks-cons size x xs h

pub first_length :
    (size : ℕ) (p : Bytes) (ps : List Bytes) → ArePieces size (p ∷ ps) → length p ≤ size
first_length size p [] a = a.1
first_length size p (q ∷ ps) a = omega (arith, a.0)

pub ArePieces-rest :
    (size : ℕ) (p : Bytes) (ps : List Bytes) → ArePieces size (p ∷ ps) → ArePieces size ps
ArePieces-rest size p [] a = tt
ArePieces-rest size p (q ∷ ps) a = a.1

-- How many pieces there are, by the length of what they make up.
pub ArePieces-count :
    (size : ℕ) (p : Bytes) (ps : List Bytes)
    → ArePieces size (p ∷ ps)
    → (length ps * size < length (concat (p ∷ ps)))
      × (length (concat (p ∷ ps)) ≤ suc (length ps) * size)
unfolding concat
ArePieces-count size p [] a =
    (omega (arith, length-append p [], a), omega (arith, length-append p [], a))
ArePieces-count size p (q ∷ ps) a =
    let rest = ArePieces-count size q ps a.1 in
    (
      omega (arith, a.0, rest, length-append p (q ++ concat ps)),
      omega (arith, a.0, rest, length-append p (q ++ concat ps)),
    )
