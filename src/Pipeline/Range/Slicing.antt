-- ===== src/Pipeline/Range/Slicing.antt =====
-- A range of the file, seen from the offset of a part of it.
use arx_runa.Prelude.{
  ℕ, zero, suc, ◌+◌, ◌-◌, ◌≤◌, ◌<◌, ◌≡◌, refl, sym, ap, ◌∙◌, min, max, List, [], ◌∷◌, ◌++◌, arith,
  length, take, drop, slice, length-take, drop_all, dec_le,
}

module _ {A : Type 0} where
  take_nil : (n : ℕ) → take {A = A} n [] ≡ []
  take_nil zero = refl
  take_nil (suc n) = refl

  pub drop_nil : (n : ℕ) → drop {A = A} n [] ≡ []
  drop_nil zero = refl
  drop_nil (suc n) = refl

  pub drop-take : (n m : ℕ) (xs : List A) → drop n (take m xs) ≡ take (m - n) (drop n xs)
  drop-take zero m xs = let same : m ≡ m - 0 = omega arith in ap (λ (k : ℕ). take k xs) same
  drop-take (suc n) zero xs =
      let nothing : 0 ≡ 0 - suc n = omega arith in ap (λ (k : ℕ). take k (drop (suc n) xs)) nothing
  drop-take (suc n) (suc m) [] = sym (take_nil (suc m - suc n))
  drop-take (suc n) (suc m) (x ∷ xs) =
      let same : m - n ≡ suc m - suc n = omega arith in
      drop-take n m xs ∙ ap (λ (k : ℕ). take k (drop n xs)) same

  take-append : (n : ℕ) (xs ys : List A) → take n (xs ++ ys) ≡ take n xs ++ take (n - length xs) ys
  take-append zero [] ys = refl
  take-append zero (x ∷ xs) ys =
      let nothing : 0 ≡ 0 - length (x ∷ xs) = omega arith in ap (λ (k : ℕ). take k ys) nothing
  take-append (suc n) [] ys =
      let same : suc n ≡ suc n - 0 = omega arith in ap (λ (k : ℕ). take k ys) same
  take-append (suc n) (x ∷ xs) ys =
      let same : n - length xs ≡ suc n - length (x ∷ xs) = omega arith in
      ap (◌∷◌ x) (take-append n xs ys ∙ ap (λ (k : ℕ). take n xs ++ take k ys) same)

  drop-append : (n : ℕ) (xs ys : List A) → drop n (xs ++ ys) ≡ drop n xs ++ drop (n - length xs) ys
  drop-append zero [] ys = refl
  drop-append zero (x ∷ xs) ys =
      let nothing : 0 ≡ 0 - length (x ∷ xs) = omega arith in
      ap (λ (k : ℕ). x ∷ (xs ++ drop k ys)) nothing
  drop-append (suc n) [] ys =
      let same : suc n ≡ suc n - 0 = omega arith in ap (λ (k : ℕ). drop k ys) same
  drop-append (suc n) (x ∷ xs) ys =
      let same : n - length xs ≡ suc n - length (x ∷ xs) = omega arith in
      drop-append n xs ys ∙ ap (λ (k : ℕ). drop n xs ++ drop k ys) same

  take-take : (n m : ℕ) (xs : List A) → take n (take m xs) ≡ take (min n m) xs
  take-take zero m xs = let nothing : 0 ≡ min 0 m = omega arith in ap (λ (k : ℕ). take k xs) nothing
  take-take (suc n) zero xs =
      let nothing : 0 ≡ min (suc n) 0 = omega arith in ap (λ (k : ℕ). take k xs) nothing
  take-take (suc n) (suc m) [] = sym (take_nil (min (suc n) (suc m)))
  take-take (suc n) (suc m) (x ∷ xs) =
      let same : suc (min n m) ≡ min (suc n) (suc m) = omega arith in
      ap (◌∷◌ x) (take-take n m xs) ∙ ap (λ (k : ℕ). take k (x ∷ xs)) same

  -- The part of `xs`, which begins at `offset`, that lies between `from` and `to`.
  abbrev pub window : ℕ → ℕ → ℕ → List A → List A
  window from to offset xs = drop (from - offset) (take (to - offset) xs)

  rest_window :
      (a b : ℕ) (xs ys : List A)
      → drop (a - length (take b xs)) (take (b - length xs) ys)
        ≡ drop (a - length xs) (take (b - length xs) ys)
  rest_window a b xs ys = elim (dec_le (length xs) b) [
    | yes fits ↦
        ap (λ (n : ℕ). drop (a - n) (take (b - length xs) ys)) (omega (arith, length-take b xs))
    | no short ↦
        let nothing : b - length xs ≡ 0 = omega arith in
        ap (λ (n : ℕ). drop (a - length (take b xs)) (take n ys)) nothing
        ∙ drop_nil (a - length (take b xs))
        ∙ sym (ap (λ (n : ℕ). drop (a - length xs) (take n ys)) nothing ∙ drop_nil (a - length xs))
  ]

  pub window-append :
      (from to offset : ℕ) (xs ys : List A)
      → window from to offset (xs ++ ys)
        ≡ window from to offset xs ++ window from to (offset + length xs) ys
  window-append from to offset xs ys =
      let b = to - offset in
      let a = from - offset in
      ap (drop a) (take-append b xs ys)
      ∙ drop-append a (take b xs) (take (b - length xs) ys)
      ∙ ap (λ r. drop a (take b xs) ++ r)
          (rest_window a b xs ys
            ∙ ap (λ (n : ℕ). drop (a - length xs) (take n ys)) (omega arith)
            ∙ ap (λ (n : ℕ). drop n (take (to - (offset + length xs)) ys)) (omega arith))

  -- A part that ends before the range, or begins behind it, has nothing of it.
  pub window_empty :
      (from to offset : ℕ) (xs : List A)
      → min (to - offset) (length xs) ≤ from - offset
      → window from to offset xs ≡ []
  window_empty from to offset xs h =
      drop_all (from - offset) (take (to - offset) xs) (omega (arith, length-take (to - offset) xs))

  -- The window of the whole is the slice.
  pub window_whole : (from to : ℕ) (xs : List A) → window from to 0 xs ≡ slice from to xs
  window_whole from to xs =
      let start : from - 0 ≡ from = omega arith in
      let end : to - 0 ≡ to = omega arith in
      ap (λ (k : ℕ). drop k (take (to - 0) xs)) start
      ∙ ap (λ (k : ℕ). drop from (take k xs)) end
      ∙ drop-take from to xs

  -- The slice that the source cuts out of one part is the window.
  pub slice-window :
      (from last offset n : ℕ) (xs : List A)
      → 0 < n
      → n ≤ length xs
      → max from offset ≤ min last (offset + n - 1)
      → slice (max from offset - offset) (min last (offset + n - 1) - offset + 1) xs
        ≡ window from (suc last) offset (take n xs)
  slice-window from last offset n xs positive fits h =
      let start : max from offset - offset ≡ from - offset = omega arith in
      let end : min last (offset + n - 1) - offset + 1 ≡ min (suc last - offset) n = omega arith in
      sym (drop-take (max from offset - offset) (min last (offset + n - 1) - offset + 1) xs)
      ∙ ap (λ (k : ℕ). drop k (take (min last (offset + n - 1) - offset + 1) xs)) start
      ∙ ap (λ (k : ℕ). drop (from - offset) (take k xs)) end
      ∙ ap (drop (from - offset)) (sym (take-take (suc last - offset) n xs))
