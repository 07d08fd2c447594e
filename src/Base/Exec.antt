-- ===== src/Base/Exec.antt =====
-- Methods that change an object, may return an error and may panic. What was written before an
-- error or a panic stays written, so the state comes back beside the outcome.

pub data Outcome {ℓ κ} (E : Type ℓ) (A : Type κ) : Type (ℓ ⊔ κ) where
  done : A → Outcome E A
  failed : E → Outcome E A
  panicked : Outcome E A

abbrev pub Exec : Type 0 → Type 0 → Type 0 → Type 0
Exec E S A = S → Outcome E A × S

module _ {E S : Type 0} where
  module _ {A : Type 0} where
    abbrev pub pure : A → Exec E S A
    pure a s = (done a, s)

    abbrev pub fail : E → Exec E S A
    fail e s = (failed e, s)

    abbrev pub lift : Outcome E A → Exec E S A
    lift r s = (r, s)

    abbrev pub gets : (S → A) → Exec E S A
    gets f s = (done (f s), s)

  abbrev pub modify : (S → S) → Exec E S (Unit {0})
  modify f s = (done tt, f s)

module _ {E S A B : Type 0} where
  abbrev pub continue : Outcome E A → (A → Exec E S B) → Exec E S B
  continue (done a) f s = f a s
  continue (failed e) f s = (failed e, s)
  continue panicked f s = (panicked, s)

  infixl 5 ◌>>=◌ ◌>>◌
  abbrev pub ◌>>=◌ : Exec E S A → (A → Exec E S B) → Exec E S B
  ◌>>=◌ m f s = continue (m s).0 f (m s).1

  abbrev pub ◌>>◌ : Exec E S A → Exec E S B → Exec E S B
  m >> n = m >>= λ _. n

-- The same without a state.
module _ {E A B : Type 0} where
  infixl 5 ◌>=>◌
  abbrev pub ◌>=>◌ : Outcome E A → (A → Outcome E B) → Outcome E B
  done a >=> f = f a
  failed e >=> f = failed e
  panicked >=> f = panicked
