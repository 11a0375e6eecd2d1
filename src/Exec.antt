-- ===== src/Exec.antt =====
-- Asynchronous methods over a store: what was written before a throw stays written, so that the
-- store comes back beside the failure too.
use encryption_gateway.Prelude.{Failure, Result, ok, err, ◌≡◌, refl}

abbrev pub Exec {ℓ} : Type ℓ → Type ℓ → Type ℓ
Exec S A = S → Result A × S

module _ {ℓ} {S A : Type ℓ} where
  abbrev pub pure : A → Exec S A
  pure a s = (ok a, s)

  abbrev pub raise : Failure → Exec S A
  raise e s = (err e, s)

  -- A synchronous call.
  abbrev pub lift : Result A → Exec S A
  lift r s = (r, s)

module _ {ℓ} {S A B : Type ℓ} where
  abbrev pub continue : Result A → (A → Exec S B) → Exec S B
  continue (ok a) f s = f a s
  continue (err e) f s = (err e, s)

  infixl 5 ◌>>=◌ ◌>>◌
  abbrev pub ◌>>=◌ : Exec S A → (A → Exec S B) → Exec S B
  ◌>>=◌ m f s = let (r, s') = m s in continue r f s'

  abbrev pub ◌>>◌ : Exec S A → Exec S B → Exec S B
  m >> k = m >>= λ _. k

  -- A synchronous step leaves the store as it is.
  pub state-continue :
      (r : Result A) (f : A → Result B) (s : S) → (continue r (λ a t. (f a, t)) s).1 ≡ s
  state-continue (ok a) f s = refl
  state-continue (err e) f s = refl

  pub >>=-eq-ok :
      (m : Exec S A) (f : A → Exec S B) (s : S) {b : B}
      → ((m >>= f) s).0 ≡ ok b
      → (a : A) × ((m s).0 ≡ ok a) × ((f a (m s).1).0 ≡ ok b)
  >>=-eq-ok m f s h = continue-eq-ok (m s).0 f (m s).1 h
    where
      continue-eq-ok :
          (r : Result A) (g : A → Exec S B) (t : S) {c : B}
          → (continue r g t).0 ≡ ok c
          → (a : A) × (r ≡ ok a) × ((g a t).0 ≡ ok c)
      continue-eq-ok (ok a) g t p = (a, refl, p)
      continue-eq-ok (err e) g t p = cc
