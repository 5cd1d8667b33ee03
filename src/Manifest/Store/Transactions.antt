-- ===== src/Manifest/Store/Transactions.antt =====
-- What a transaction of sqlcipher.rs leaves: what its body leaves if it commits, else what was there.
use arx_runa.Prelude.{◌≡◌, refl, sym, ap, ◌∙◌, Result, ok, err}
use arx_runa.World.{Env, World, Exec, ◌>>=◌, pure}
use arx_runa.World.Inversion.{bind-ok}
use arx_runa.World.Files.{attempt}
use arx_runa.Storage.Error.{StorageError, database}
use arx_runa.Manifest.Types.{Manifest}
use arx_runa.Manifest.Store.{settle, transaction}

settle-ok :
    {A : Type 0} (old : Manifest) (r : Result StorageError A) (w w' : World) (a : A)
    → settle old r w ≡ (ok a, w')
    → (r ≡ ok a) × (w ≡ w')
settle-ok old (ok b) w w' a h = (cc, cc)
settle-ok old (err e) w w' a h = absurd (cc (h))

-- A call that may fail leaves the manifest.
pub attempt_manifest :
    (env : Env) (e : StorageError) (w : World) → (attempt env e w).1.manifest ≡ w.manifest
unfolding attempt
attempt_manifest env e w = refl

module _ (env : Env) {A : Type 0} (m : Exec A) where
  pub transaction-ok :
      (w w' : World) (a : A)
      → transaction env m w ≡ (ok a, w')
      → (w₁ w₂ : World) × (w₁.manifest ≡ w.manifest)
        × (m w₁ ≡ (ok a, w₂))
        × (w'.manifest ≡ w₂.manifest)
  transaction-ok w w' a h =
      let begin = attempt env database in
      let ended : A → Exec A = λ x. begin >>= λ _. pure x in
      let body : Exec A = m >>= ended in
      let whole = (begin >>= λ _. body) w in
      let (r, same) = settle-ok w.manifest whole.0 whole.1 w' a h in
      let (_, w₁, started, ran) =
        bind-ok begin (λ _. body) w {w' = whole.1} (ap (λ x. (x, whole.1)) r) in
      let (b, w₂, did, finished) = bind-ok m ended w₁ ran in
      let (_, w₃, committed, result) = bind-ok begin (λ _. pure b) w₂ finished in
      let same_value : b ≡ a = cc in
      let last : w₃ ≡ whole.1 = cc in
      let started_manifest =
        ap (λ x. x.1.manifest) (sym started) ∙ attempt_manifest env database w in
      let committed_manifest =
        ap (λ x. x.1.manifest) (sym committed) ∙ attempt_manifest env database w₂ in
      (
        w₁,
        w₂,
        started_manifest,
        did ∙ ap (λ x. (ok x, w₂)) same_value,
        ap (λ (x : World). x.manifest) (sym (last ∙ same)) ∙ committed_manifest,
      )
