-- ===== src/Manifest/Meta/Counting.antt =====
-- The numbers that calls of `increment_snapshot_counter` give: sqlcipher.rs.
use arx_runa.Prelude.{
  ℕ, zero, suc, ◌+◌, ◌^◌, ◌<◌, ◌≡◌, refl, sym, ap, ◌∙◌, subst, ◌⊎◌, inl, inr, Bool-cases, some,
  List, [], ◌∷◌, Text, codes, arith, ltb, ===_refl, Result, Result-cases, ok, err,
}
use arx_runa.World.{Env, World, done, Fate-cases}
use arx_runa.World.Files.{attempt}
use arx_runa.Storage.Error.{StorageError}
use arx_runa.Storage.Validation.{parse_u64}
use arx_runa.Manifest.Types.{Manifest}
use arx_runa.Manifest.Store.{settle-err}
use arx_runa.Manifest.Store.Transactions.{transaction-ok}
use arx_runa.Manifest.Meta.{to_string, put_meta, increments, increment_snapshot_counter}
use arx_runa.Manifest.Meta.Decimal.{parse_u64-to_string}

-- The counter is written in decimal, and says `n`.
abbrev pub HasCounter : Manifest → ℕ → Type 0
HasCounter m n = (t : Text) × (m.meta (codes "snapshot_counter") ≡ some t) × (parse_u64 t ≡ some n)

abbrev pub kept : Result StorageError ℕ → List ℕ → List ℕ
kept (ok n) results = n ∷ results
kept (err e) results = results

-- A number of calls one after the other, and what those give that succeed.
abbrev pub calls_of : Env → ℕ → World → List ℕ × World
calls_of env zero w = ([], w)
calls_of env (suc k) w =
    let (r, w') = increment_snapshot_counter env w in
    let (results, end) = calls_of env k w' in (kept r results, end)

abbrev pub AreIncreasing : ℕ → List ℕ → Type 0
AreIncreasing n [] = Unit
AreIncreasing n (x ∷ xs) = (n < x) × AreIncreasing x xs

abbrev pub count_up : ℕ → ℕ → List ℕ
count_up n zero = []
count_up n (suc k) = suc n ∷ count_up (suc n) k

put_meta-HasCounter :
    (m : Manifest) (n : ℕ)
    → n < 2 ^ 64
    → HasCounter (put_meta (codes "snapshot_counter") (to_string n) m) n
put_meta-HasCounter m n small =
    (to_string n, rw (===_refl (codes "snapshot_counter")) refl, parse_u64-to_string n small)

module _ (env : Env) where
  increments-ok :
      (w w' : World) (n r : ℕ)
      → HasCounter w.manifest n
      → increments env w ≡ (ok r, w')
      → (r ≡ suc n) × HasCounter w'.manifest r
  unfolding attempt
  increments-ok w w' n r (t, found, parsed) h = elim (Fate-cases (env.fate w.calls)) [
    | inr fails ↦ absurd (ground (arith, fails))
    | inl asked ↦ elim (Bool-cases (ltb (n + 1) (2 ^ 64))) [
      | inr over ↦ absurd (ground (arith, asked, found, parsed, over))
      | inl fits ↦ elim (Fate-cases (env.fate (suc w.calls))) [
        | inr fails ↦ absurd (ground (arith, asked, found, parsed, fits, fails))
        | inl written ↦
            let next : r ≡ n + 1 = ground (arith, asked, found, parsed, fits, written) in
            let left : w'.manifest ≡ put_meta (codes "snapshot_counter") (to_string r) w.manifest =
              ground (arith, asked, found, parsed, fits, written) in
            (
              omega (arith, next),
              subst (λ (m : Manifest). HasCounter m r) (sym left)
                  (put_meta-HasCounter w.manifest r (ground (arith, fits, next))),
            )
      ]
    ]
  ]

  -- A call counts up by one, or fails and changes nothing in the manifest.
  counts :
      (w : World) (n : ℕ)
      → HasCounter w.manifest n
      → (((increment_snapshot_counter env w).0 ≡ ok (suc n))
          × HasCounter (increment_snapshot_counter env w).1.manifest (suc n))
        ⊎ ((e : StorageError) × ((increment_snapshot_counter env w).0 ≡ err e)
            × HasCounter (increment_snapshot_counter env w).1.manifest n)
  unfolding increment_snapshot_counter
  counts w n c =
      let run = increment_snapshot_counter env w in
      elim (Result-cases run.0) [
        | inr (e, k) ↦
            let same = settle-err w.manifest _ _ run.1 e (ap (λ r. (r, run.1)) k) in
            inr (e, k, subst (λ (m : Manifest). HasCounter m n) (sym same) c)
        | inl (r, k) ↦
            let (w₁, w₂, started, did, ended) =
              transaction-ok env (increments env) w run.1 r (ap (λ x. (x, run.1)) k) in
            let c₁ = subst (λ (m : Manifest). HasCounter m n) (sym started) c in
            let (next, c₂) = increments-ok w₁ w₂ n r c₁ did in
            let c₃ = subst (λ (m : Manifest). HasCounter m r) (sym ended) c₂ in
            inl (k ∙ ap ok next, subst (HasCounter run.1.manifest) next c₃)
      ]

  -- Where the counter of the manifest is a number, calls one after the other, of which any may fail,
  -- give numbers that increase, the first above the counter.
  pub calls-AreIncreasing :
      (k : ℕ) (w : World) (n : ℕ) → HasCounter w.manifest n → AreIncreasing n (calls_of env k w).0
  calls-AreIncreasing zero w n c = tt
  calls-AreIncreasing (suc k) w n c =
      let run = increment_snapshot_counter env w in
      elim (counts w n c) [
        | inl (fine, c') ↦ rw fine (omega arith, calls-AreIncreasing k run.1 (suc n) c')
        | inr (e, failed, c') ↦ rw failed (calls-AreIncreasing k run.1 n c')
      ]

  module _ (calm : (n : ℕ) → env.fate n ≡ done) where
    increment_done :
        (w : World) (n : ℕ)
        → HasCounter w.manifest n
        → suc n < 2 ^ 64
        → (increment_snapshot_counter env w).0 ≡ ok (suc n)
    unfolding increment_snapshot_counter attempt
    increment_done w n (t, found, parsed) fits = ground (
      arith,
      found,
      parsed,
      fits,
      calm w.calls,
      calm (suc w.calls),
      calm (suc (suc w.calls)),
      calm (suc (suc (suc w.calls))),
    )

    -- Where no call of the database fails, and the numbers stay below 2^64, each call gives the number
    -- after the counter.
    pub calls_count_up :
        (k : ℕ) (w : World) (n : ℕ)
        → HasCounter w.manifest n
        → n + k < 2 ^ 64
        → (calls_of env k w).0 ≡ count_up n k
    calls_count_up zero w n c fits = refl
    calls_count_up (suc k) w n c fits =
        let run = increment_snapshot_counter env w in
        let fine = increment_done w n c (omega arith) in
        elim (counts w n c) [
          | inl (_, c') ↦
              rw fine (ap (◌∷◌ (suc n)) (calls_count_up k run.1 (suc n) c' (omega arith)))
          | inr (e, failed, c') ↦ absurd (cc (fine, failed))
        ]
