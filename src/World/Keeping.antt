-- ===== src/World/Keeping.antt =====
-- Actions that leave the manifest as it was, always or when they fail.
use arx_runa.Prelude.{◌≡◌, refl, ap, sym, ◌∙◌, Result, ok, err}
use arx_runa.Storage.Error.{StorageError}
use arx_runa.World.{World, Exec, ◌>>=◌, continue, recover, on_error, pure}

module _ {A : Type 0} where
  abbrev pub Keeps : Exec A → Type 0
  Keeps m = (w : World) → (m w).1.manifest ≡ w.manifest

  -- It keeps the manifest where it fails.
  abbrev pub IsAtomic : Exec A → Type 0
  IsAtomic m = (w w' : World) (e : StorageError) → m w ≡ (err e, w') → w'.manifest ≡ w.manifest

  pub Keeps-IsAtomic : (m : Exec A) → Keeps m → IsAtomic m
  Keeps-IsAtomic m k w w' e h =
      ap (λ (x : Result StorageError A × World). x.1.manifest) (sym h) ∙ k w

  recover-Keeps :
      (r : Result StorageError A) (handler : Exec (Unit {0})) (w : World)
      → ((v : World) → (handler v).1.manifest ≡ v.manifest)
      → (recover r handler w).1.manifest ≡ w.manifest
  recover-Keeps (ok a) handler w k = refl
  recover-Keeps (err e) handler w k = k w

  pub on_error-Keeps :
      (m : Exec A) (handler : Exec (Unit {0}))
      → Keeps m
      → ((v : World) → (handler v).1.manifest ≡ v.manifest)
      → Keeps (on_error m handler)
  on_error-Keeps m handler k l w = recover-Keeps (m w).0 handler (m w).1 l ∙ k w

  recover-IsAtomic :
      (r : Result StorageError A) (handler : Exec (Unit {0})) (v w' : World) (e : StorageError)
      → ((v : World) → (handler v).1.manifest ≡ v.manifest)
      → recover r handler v ≡ (err e, w')
      → ((e' : StorageError) × (r ≡ err e')) × (w'.manifest ≡ v.manifest)
  recover-IsAtomic (ok a) handler v w' e k h = cc
  recover-IsAtomic (err e') handler v w' e k h =
      ((e', refl), ap (λ (x : Result StorageError A × World). x.1.manifest) (sym h) ∙ k v)

  pub on_error-IsAtomic :
      (m : Exec A) (handler : Exec (Unit {0}))
      → IsAtomic m
      → ((v : World) → (handler v).1.manifest ≡ v.manifest)
      → IsAtomic (on_error m handler)
  on_error-IsAtomic m handler k l w w' e h =
      let ((e', fails), kept) = recover-IsAtomic (m w).0 handler (m w).1 w' e l h in
      kept ∙ k w (m w).1 e' (ap (λ r. (r, (m w).1)) fails)

module _ {A B : Type 0} where
  continue-Keeps :
      (r : Result StorageError A) (f : A → Exec B) (w : World)
      → ((a : A) → Keeps (f a))
      → (continue r f w).1.manifest ≡ w.manifest
  continue-Keeps (ok a) f w k = k a w
  continue-Keeps (err e) f w k = refl

  pub bind-Keeps :
      (m : Exec A) (f : A → Exec B) → Keeps m → ((a : A) → Keeps (f a)) → Keeps (m >>= f)
  bind-Keeps m f k l w = continue-Keeps (m w).0 f (m w).1 l ∙ k w

  continue-IsAtomic :
      (r : Result StorageError A) (f : A → Exec B) (v w' : World) (e : StorageError)
      → ((a : A) → IsAtomic (f a))
      → continue r f v ≡ (err e, w')
      → w'.manifest ≡ v.manifest
  continue-IsAtomic (ok a) f v w' e k h = k a v w' e h
  continue-IsAtomic (err e') f v w' e k h =
      ap (λ (x : Result StorageError B × World). x.1.manifest) (sym h)

  -- What keeps the manifest, before what keeps it where it fails.
  pub bind-IsAtomic :
      (m : Exec A) (f : A → Exec B) → Keeps m → ((a : A) → IsAtomic (f a)) → IsAtomic (m >>= f)
  bind-IsAtomic m f k l w w' e h = continue-IsAtomic (m w).0 f (m w).1 w' e l h ∙ k w

  continue-pure :
      (r : Result StorageError A) (g : A → B) (v w' : World) (e : StorageError)
      → continue r (λ a. pure (g a)) v ≡ (err e, w')
      → (r ≡ err e) × (w' ≡ v)
  continue-pure (ok a) g v w' e h = cc
  continue-pure (err e') g v w' e h = (cc, cc)

  -- What keeps the manifest where it fails, before a result.
  pub pure-IsAtomic : (m : Exec A) (g : A → B) → IsAtomic m → IsAtomic (m >>= λ a. pure (g a))
  pure-IsAtomic m g k w w' e h =
      let (fails, same) = continue-pure (m w).0 g (m w).1 w' e h in
      ap (λ (x : World). x.manifest) same ∙ k w (m w).1 e (ap (λ r. (r, (m w).1)) fails)
