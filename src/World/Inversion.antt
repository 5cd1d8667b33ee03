-- ===== src/World/Inversion.antt =====
-- Inversion of actions that succeed.
use arx_runa.Prelude.{◌≡◌, refl, ap, Result, ok, err}
use arx_runa.Storage.Error.{StorageError}
use arx_runa.World.{World, Exec, ◌>>=◌, continue, lift, recover, on_error}

module _ {A B : Type 0} where
  continue-ok :
      (r : Result StorageError A) (w₁ : World) (f : A → Exec B) {b : B} {w' : World}
      → continue r f w₁ ≡ (ok b, w')
      → (a : A) × (r ≡ ok a) × (f a w₁ ≡ (ok b, w'))
  continue-ok (ok a) w₁ f h = (a, refl, h)
  continue-ok (err e) w₁ f h = cc

  pub bind-ok :
      (m : Exec A) (f : A → Exec B) (w : World) {b : B} {w' : World}
      → (m >>= f) w ≡ (ok b, w')
      → (a : A) × (w₁ : World) × (m w ≡ (ok a, w₁)) × (f a w₁ ≡ (ok b, w'))
  bind-ok m f w h =
      let (r, w₁) = m w in
      let (a, e, rest) = continue-ok (m w).0 (m w).1 f h in (a, (m w).1, cc e, rest)

module _ {A : Type 0} where
  recover-ok :
      (r : Result StorageError A) (w₁ : World) (handler : Exec (Unit {0})) {a : A} {w' : World}
      → recover r handler w₁ ≡ (ok a, w')
      → (r ≡ ok a) × (w₁ ≡ w')
  recover-ok (ok a) w₁ handler h = (cc, cc)
  recover-ok (err e) w₁ handler h = cc

  pub on_error-ok :
      (m : Exec A) (handler : Exec (Unit {0})) (w : World) {a : A} {w' : World}
      → on_error m handler w ≡ (ok a, w')
      → m w ≡ (ok a, w')
  on_error-ok m handler w h =
      let (result, world) = recover-ok (m w).0 (m w).1 handler h in cc (result, world)

  pub lift-ok :
      (r : Result StorageError A) (w : World) {a : A} {w' : World}
      → lift r w ≡ (ok a, w')
      → (r ≡ ok a) × (w ≡ w')
  lift-ok r w h = (cc, cc)

  pub on_error-done :
      (m : Exec A) (handler : Exec (Unit {0})) (w : World) {a : A} {w' : World}
      → m w ≡ (ok a, w')
      → on_error m handler w ≡ (ok a, w')
  on_error-done m handler w {a} {w'} h =
      ap (λ (x : Result StorageError A × World). recover x.0 handler x.1) h
