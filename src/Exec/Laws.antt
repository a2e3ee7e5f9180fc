-- ===== src/Exec/Laws.antt =====
-- Rules for actions that return, that conform to the ports, and for inverting a sequence.
use lapcare.Common.{◌≡◌, refl}
use lapcare.Errors.{Exc, lapcare_error, foreign}
use lapcare.Exec.{Result, ok, err, Exec, continue, handled, try, or_else, ◌>>=◌, Conforms, Returns}

module _ {W A B : Type 0} where
  continue_ok :
      (r : Result A) (w' : W) (f : A → Exec W B) (b : B)
      → (continue r f w').0 ≡ ok b
      → (a : A) × (r ≡ ok a) × ((f a w').0 ≡ ok b)
  continue_ok (ok a) w' f b h = (a, refl, h)
  continue_ok (err e) w' f b h = cc

  -- If a sequence returns, so did its first action, and the rest from the world that it left.
  pub bind_ok :
      (m : Exec W A) (f : A → Exec W B) (w : W) (b : B)
      → ((m >>= f) w).0 ≡ ok b
      → (a : A) × ((m w).0 ≡ ok a) × ((f a (m w).1).0 ≡ ok b)
  bind_ok m f w b h = continue_ok (m w).0 (m w).1 f b h

  continue_cong :
      (r : Result A) (w' : W) (f g : A → Exec W B)
      → ((a : A) (w : W) → f a w ≡ g a w)
      → continue r f w' ≡ continue r g w'
  continue_cong (ok a) w' f g h = h a w'
  continue_cong (err e) w' f g h = refl

  -- Sequences of actions that agree.
  pub bind_cong :
      (m n : Exec W A) (f g : A → Exec W B) (w : W)
      → m w ≡ n w
      → ((a : A) (w : W) → f a w ≡ g a w)
      → (m >>= f) w ≡ (n >>= g) w
  bind_cong m n f g w e h = rw e (continue_cong (n w).0 (n w).1 f g h)

  continue_Conforms :
      (r : Result A) (w' : W) (f : A → Exec W B)
      → Conforms r
      → ((a : A) → Conforms (f a w').0)
      → Conforms (continue r f w').0
  continue_Conforms (ok a) w' f hr hf = hf a
  continue_Conforms (err (lapcare_error e)) w' f hr hf = tt
  continue_Conforms (err (foreign s)) w' f hr hf = hr

  pub bind-Conforms :
      (m : Exec W A) (f : A → Exec W B)
      → ((w : W) → Conforms (m w).0)
      → ((a : A) (w : W) → Conforms (f a w).0)
      → (w : W) → Conforms ((m >>= f) w).0
  bind-Conforms m f hm hf w = continue_Conforms (m w).0 (m w).1 f (hm w) (λ a. hf a (m w).1)

  continue-Returns :
      (r : Result A) (w' : W) (f : A → Exec W B)
      → Returns r
      → ((a : A) → Returns (f a w').0)
      → Returns (continue r f w').0
  continue-Returns (ok a) w' f hr hf = hf a
  continue-Returns (err e) w' f hr hf = hr

  pub bind-Returns :
      (m : Exec W A) (f : A → Exec W B)
      → ((w : W) → Returns (m w).0)
      → ((a : A) (w : W) → Returns (f a w).0)
      → (w : W) → Returns ((m >>= f) w).0
  bind-Returns m f hm hf w = continue-Returns (m w).0 (m w).1 f (hm w) (λ a. hf a (m w).1)

pub ok-injective : {A : Type 0} (a b : A) → ok a ≡ ok b → a ≡ b
ok-injective a b h = cc

module _ {W A : Type 0} where
  handled-Returns :
      (r : Result A) (w : W) (h : Exc → Exec W A)
      → Conforms r
      → ((e : Exc) → Conforms {A = A} (err e) → Returns (h e w).0)
      → Returns (handled r h w).0
  handled-Returns (ok a) w h c hh = tt
  handled-Returns (err e) w h c hh = hh e c

  -- A handler that returns for every exception of the hierarchy makes a conforming action return.
  pub try-Returns :
      (m : Exec W A) (h : Exc → Exec W A)
      → ((w : W) → Conforms (m w).0)
      → ((e : Exc) (w : W) → Conforms {A = A} (err e) → Returns (h e w).0)
      → (w : W) → Returns (try m h w).0
  try-Returns m h hm hh w = handled-Returns (m w).0 (m w).1 h (hm w) (λ e. hh e (m w).1)

  pub or_else-Returns :
      (a : A) (e : Exc) (w : W) → Conforms {A = A} (err e) → Returns (or_else a e w).0
  or_else-Returns a (lapcare_error e) w c = tt
  or_else-Returns a (foreign s) w c = c
