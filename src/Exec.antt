-- ===== src/Exec.antt =====
-- Code that acts on the outside world (files, processes, daemons) and may raise: the world is a
-- state of any type, and what was done before an exception stays done.
pub mod Laws
use lapcare.Errors.{Exc, lapcare_error, foreign}

pub data Result {ℓ} (A : Type ℓ) : Type ℓ where
  ok : A → Result A
  err : Exc → Result A

abbrev pub Exec {ℓ} : Type ℓ → Type ℓ → Type ℓ
Exec W A = W → Result A × W

module _ {ℓ} {W A : Type ℓ} where
  abbrev pub pure : A → Exec W A
  pure a w = (ok a, w)

  abbrev pub raise : Exc → Exec W A
  raise e w = (err e, w)

  abbrev pub lift : Result A → Exec W A
  lift r w = (r, w)

module _ {ℓ} {W A B : Type ℓ} where
  abbrev pub continue : Result A → (A → Exec W B) → Exec W B
  continue (ok a) f w = f a w
  continue (err e) f w = (err e, w)

  infixl 5 ◌>>=◌ ◌>>◌
  abbrev pub ◌>>=◌ : Exec W A → (A → Exec W B) → Exec W B
  ◌>>=◌ m f w = let (r, w') = m w in continue r f w'

  abbrev pub ◌>>◌ : Exec W A → Exec W B → Exec W B
  m >> k = m >>= λ _. k

module _ {ℓ} {W A : Type ℓ} where
  abbrev pub handled : Result A → (Exc → Exec W A) → Exec W A
  handled (ok a) h w = (ok a, w)
  handled (err e) h w = h e w

  -- `try: m` with the handler of its `except` clauses.
  abbrev pub try : Exec W A → (Exc → Exec W A) → Exec W A
  try m h w = let (r, w') = m w in handled r h w'

  -- `except LapcareError:` with the value that is used instead; any other exception goes on.
  abbrev pub or_else : A → Exc → Exec W A
  or_else a (lapcare_error _) w = (ok a, w)
  or_else a (foreign s) w = (err (foreign s), w)

-- An outcome that the ports allow: a value, or an exception of the hierarchy.
abbrev pub Conforms {ℓ} : {A : Type ℓ} → Result A → Type 0
Conforms (ok _) = Unit
Conforms (err (lapcare_error _)) = Unit
Conforms (err (foreign _)) = ⊥

-- An action that returns a value from every world.
abbrev pub Returns {ℓ} : {A : Type ℓ} → Result A → Type 0
Returns (ok _) = Unit
Returns (err _) = ⊥
