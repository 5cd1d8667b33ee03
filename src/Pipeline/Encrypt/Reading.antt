-- ===== src/Pipeline/Encrypt/Reading.antt =====
-- `read_chunk_plaintext` of encrypt_file.rs fills its buffer, however short the reads come.
use arx_runa.Prelude.{
  ℕ, zero, suc, ◌+◌, ◌-◌, ◌≤◌, ◌<◌, ◌≡◌, ◌⊎◌, refl, ap, ◌∙◌, List, [], ◌∷◌, ◌++◌, Bytes, length, ok,
  arith, inl, inr, take, drop, length-take, min, ◌==◌, Bool-cases, Result-cases, ==_iff, drop-drop,
}
use arx_runa.World.{Env, World}
use arx_runa.Pipeline.Encrypt.{read_count, read_some, read_loop, read_chunk_plaintext}

pub read_count_bounds :
    (space available s : ℕ)
    → (read_count space available s ≤ space)
      × (read_count space available s ≤ available)
      × (read_count space available s ≡ 0 → min space available ≡ 0)
read_count_bounds space available s = elim (Bool-cases (min space available == 0)) [
  | inl nothing ↦ rw nothing (omega arith, omega arith, λ _. (==_iff _ 0).0 nothing)
  | inr more ↦
      let room : 0 < min space available = ground arith in
      rw more (omega arith, omega arith, λ e. absurd (omega arith))
]

module _ {A : Type 0} where
  -- Two reads in a row.
  pub take-take_rest :
      (n m : ℕ) (xs : List A)
      → n ≤ m
      → n ≤ length xs
      → take n xs ++ take (m - n) (drop n xs) ≡ take m xs
  take-take_rest zero m xs h k = ap (λ (j : ℕ). take j xs) (omega arith)
  take-take_rest (suc n) zero xs h k = elim h [ ]
  take-take_rest (suc n) (suc m) [] h k = elim k [ ]
  take-take_rest (suc n) (suc m) (x ∷ xs) h k = ap (◌∷◌ x) (
      ap (λ (j : ℕ). take n xs ++ take j (drop n xs)) (omega arith)
      ∙ take-take_rest n m xs (omega arith) (omega arith))

no_read :
    (space : ℕ) (rest : Bytes)
    → min space (length rest) ≡ 0
    → ◌≡◌ {A = Bytes × Bytes} ([], rest) (take space rest, drop space rest)
no_read zero rest h = refl
no_read (suc space) [] h = refl
no_read (suc space) (x ∷ rest) h = absurd (omega arith)

two_reads :
    (n space : ℕ) (rest : Bytes)
    → n ≤ space
    → n ≤ length rest
    → ◌≡◌ {A = Bytes × Bytes}
        (take n rest ++ take (space - n) (drop n rest), drop (space - n) (drop n rest))
        (take space rest, drop space rest)
two_reads n space rest h k =
    let all : n + (space - n) ≡ space = omega arith in
    let end = drop-drop (space - n) n rest ∙ ap (λ (j : ℕ). drop j rest) all in
    λ i. (take-take_rest n space rest h k i, end i)

module _ (env : Env) where
  pub read_some-ok :
      (space : ℕ) (rest : Bytes) (w w' : World) (g : Bytes × Bytes)
      → read_some env space rest w ≡ (ok g, w')
      → (n : ℕ) × (g ≡ (take n rest, drop n rest))
        × (w' ≡ record w { calls = suc w.calls })
        × (n ≤ space)
        × (n ≤ length rest)
        × (n ≡ 0 → min space (length rest) ≡ 0)
  unfolding read_some
  read_some-ok space rest w w' g h =
      let n = read_count space (length rest) (env.short w.calls) in
      let bounds = read_count_bounds space (length rest) (env.short w.calls) in
      (n, ground arith, ground arith, bounds.0, bounds.1, bounds.2)

  -- The parts of a round of the loop that succeeds.
  read_loop-round :
      (f space : ℕ) (rest : Bytes) (w w' : World) (g : Bytes × Bytes)
      → read_loop env (suc f) space rest w ≡ (ok g, w')
      → (first : Bytes × Bytes) × (w₁ : World) × (read_some env space rest w ≡ (ok first, w₁))
        × (((length first.0 ≡ 0) × (g ≡ ([], rest)) × (w' ≡ w₁))
            ⊎ ((others : Bytes × Bytes) × (0 < length first.0)
                × (read_loop env f (space - length first.0) first.1 w₁ ≡ (ok others, w'))
                × (g ≡ (first.0 ++ others.0, others.1))))
  unfolding read_loop
  read_loop-round f space rest w w' g h =
      let got = read_some env space rest w in
      elim (Result-cases got.0) [
        | inr (e, k) ↦ absurd (ground (arith, k))
        | inl (first, k) ↦ elim (Bool-cases (length first.0 == 0)) [
          | inl stop ↦
              (first, got.1, cc k, inl (ground (arith, k), ground (arith, k), ground (arith, k)))
          | inr go_on ↦
              let looped = read_loop env f (space - length first.0) first.1 got.1 in
              elim (Result-cases looped.0) [
                | inr (e, l) ↦ absurd (ground (arith, k, l))
                | inl (others, l) ↦ (
                  first,
                  got.1,
                  cc k,
                  inr (others, ground arith, ground (arith, k, l), ground (arith, k, l)),
                )
              ]
        ]
      ]

  read_loop-ok :
      (f space : ℕ) (rest : Bytes) (w w' : World) (g : Bytes × Bytes)
      → space ≤ f
      → read_loop env f space rest w ≡ (ok g, w')
      → (g ≡ (take space rest, drop space rest)) × (w' ≡ record w { calls = w'.calls })
  read_loop-ok zero zero rest w w' g h e = unfold read_loop in (ground arith, ground arith)
  read_loop-ok zero (suc space) rest w w' g h e = elim h [ ]
  read_loop-ok (suc f) space rest w w' g h e =
      let (first, w₁, read, outcome) = read_loop-round f space rest w w' g e in
      let (n, given, world, fits, available, stuck) = read_some-ok space rest w w₁ first read in
      let taken : first.0 ≡ take n rest = ap (λ (p : Bytes × Bytes). p.0) given in
      let left : first.1 ≡ drop n rest = ap (λ (p : Bytes × Bytes). p.1) given in
      let size : length first.0 ≡ n = omega (arith, ap length taken, length-take n rest) in
      elim outcome [
        | inl (none_left, same, stopped) ↦
            (same ∙ no_read space rest (stuck (omega arith)), ground (arith, world))
        | inr (others, some_left, looped, joined) ↦
            let (rest_ok, world') =
              read_loop-ok f (space - length first.0) first.1 w₁ w' others (omega arith) looped in
            let split = two_reads n space rest fits available in
            (
              ground (arith, joined, rest_ok, taken, left, size, split),
              ground (arith, world, world'),
            )
      ]

  -- A successful read of a chunk takes as many bytes as the buffer holds, or all that are left.
  pub read_chunk_plaintext-ok :
      (space : ℕ) (rest : Bytes) (w w' : World) (g : Bytes × Bytes)
      → read_chunk_plaintext env space rest w ≡ (ok g, w')
      → (g ≡ (take space rest, drop space rest)) × (w' ≡ record w { calls = w'.calls })
  unfolding read_chunk_plaintext
  read_chunk_plaintext-ok space rest w w' g e = read_loop-ok space space rest w w' g (omega arith) e
