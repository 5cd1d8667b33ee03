-- ===== src/Prelude/Slices.antt =====
-- `take`, `drop` and sublists by position: the slices `&v[a..b]` of the source.
use Prim.Native.Nat.{ℕ, zero, suc, ◌+◌, ◌-◌, ◌≤◌}
use mathlib.Core.Path.{◌≡◌, refl, ap, ◌∙◌}
use mathlib.Core.List.{List, [], ◌∷◌, ◌++◌}
use native.Mathlib.Omega.{arith}
use arx_runa.Prelude.Lists.{length, take, drop, length-take, length-drop}

module _ {ℓ} {A : Type ℓ} where
  -- `&xs[from..to]`.
  abbrev pub slice : ℕ → ℕ → List A → List A
  slice from to xs = take (to - from) (drop from xs)

  pub take_all : (n : ℕ) (xs : List A) → length xs ≤ n → take n xs ≡ xs
  take_all zero [] h = refl
  take_all zero (x ∷ xs) h = elim h [ ]
  take_all (suc n) [] h = refl
  take_all (suc n) (x ∷ xs) h = ap (◌∷◌ x) (take_all n xs (omega arith))

  pub drop_all : (n : ℕ) (xs : List A) → length xs ≤ n → drop n xs ≡ []
  drop_all zero [] h = refl
  drop_all zero (x ∷ xs) h = elim h [ ]
  drop_all (suc n) [] h = refl
  drop_all (suc n) (x ∷ xs) h = drop_all n xs (omega arith)

  pub take-append_left : (n : ℕ) (xs ys : List A) → n ≤ length xs → take n (xs ++ ys) ≡ take n xs
  take-append_left zero xs ys h = refl
  take-append_left (suc n) [] ys h = elim h [ ]
  take-append_left (suc n) (x ∷ xs) ys h = ap (◌∷◌ x) (take-append_left n xs ys (omega arith))

  pub drop-append_left :
      (n : ℕ) (xs ys : List A) → n ≤ length xs → drop n (xs ++ ys) ≡ drop n xs ++ ys
  drop-append_left zero xs ys h = refl
  drop-append_left (suc n) [] ys h = elim h [ ]
  drop-append_left (suc n) (x ∷ xs) ys h = drop-append_left n xs ys (omega arith)

  pub take-append_exact : (n : ℕ) (xs ys : List A) → n ≡ length xs → take n (xs ++ ys) ≡ xs
  take-append_exact n xs ys h = take-append_left n xs ys (omega arith) ∙ take_all n xs (omega arith)

  pub drop-append_exact : (n : ℕ) (xs ys : List A) → n ≡ length xs → drop n (xs ++ ys) ≡ ys
  drop-append_exact zero [] ys h = refl
  drop-append_exact zero (x ∷ xs) ys h = absurd (omega arith)
  drop-append_exact (suc n) [] ys h = absurd (omega arith)
  drop-append_exact (suc n) (x ∷ xs) ys h = drop-append_exact n xs ys (omega arith)

  pub drop-drop : (m n : ℕ) (xs : List A) → drop m (drop n xs) ≡ drop (n + m) xs
  drop-drop m n xs = go m n (n + m) xs refl
    where
      go : (m n k : ℕ) (xs : List A) → k ≡ n + m → drop m (drop n xs) ≡ drop k xs
      go m zero k xs e = ap (λ (j : ℕ). drop j xs) (omega arith)
      go zero (suc n) zero [] e = absurd (omega arith)
      go zero (suc n) (suc k) [] e = refl
      go (suc m) (suc n) zero [] e = absurd (omega arith)
      go (suc m) (suc n) (suc k) [] e = refl
      go m (suc n) zero (x ∷ xs) e = absurd (omega arith)
      go m (suc n) (suc k) (x ∷ xs) e = go m n k xs (omega arith)

  pub take-take : (m n : ℕ) (xs : List A) → m ≤ n → take m (take n xs) ≡ take m xs
  take-take zero n xs h = refl
  take-take (suc m) zero xs h = elim h [ ]
  take-take (suc m) (suc n) [] h = refl
  take-take (suc m) (suc n) (x ∷ xs) h = ap (◌∷◌ x) (take-take m n xs (omega arith))

  pub length-slice :
      (from to : ℕ) (xs : List A)
      → from ≤ to
      → to ≤ length xs
      → length (slice from to xs) ≡ to - from
  length-slice from to xs h k =
      omega (arith, length-take (to - from) (drop from xs), length-drop from xs)

  -- Equal lists split at the same length split equally.
  pub append_inj :
      (s₁ s₂ t₁ t₂ : List A) → s₁ ++ t₁ ≡ s₂ ++ t₂ → length s₁ ≡ length s₂ → (s₁ ≡ s₂) × (t₁ ≡ t₂)
  append_inj [] [] t₁ t₂ e h = (refl, e)
  append_inj [] (y ∷ s₂) t₁ t₂ e h = absurd (omega arith)
  append_inj (x ∷ s₁) [] t₁ t₂ e h = absurd (omega arith)
  append_inj (x ∷ s₁) (y ∷ s₂) t₁ t₂ e h =
      let rest : (s₁ ≡ s₂) × (t₁ ≡ t₂) = append_inj s₁ s₂ t₁ t₂ (cc) (omega arith) in
      (cc (rest.0), rest.1)
