-- ===== src/Providers/Thinkpad/Detection.antt =====
-- What the detection answers (providers/thinkpad_acpi.py).
use lapcare.Common.{
  String, Bool, true, Option, none, some, List, [], ◌∷◌, is_some, ◌≡◌, ◌↔◌, ◌⊎◌, refl, arith, Some,
}
use lapcare.Models.{SystemIdentity, ThinkpadInfo}
use lapcare.Exec.{ok}
use lapcare.Core.Ports.{SystemIdentityProvider}
use lapcare.Platform.Files.{FileSystem}
use lapcare.Python.{Str}
use lapcare.Providers.Thinkpad.{driver_dir, names_thinkpad, model_in, is_lenovo, info_of, detect}

module _ (py : Str) where
  -- Some text among the candidates names a ThinkPad.
  abbrev pub Names : List (Option String) → Type 0
  Names = Some (λ c. names_thinkpad py c ≡ true)

  named : (c : Option String) → names_thinkpad py c ≡ true → is_some c ≡ true
  named none e = cc
  named (some s) e = refl

  pub model_in_iff : (cs : List (Option String)) → (is_some (model_in py cs) ≡ true) ↔ Names cs
  unfolding model_in
  model_in_iff [] = (λ e. cc, absurd)
  model_in_iff (c ∷ cs) = ground (arith, named c, model_in_iff cs)

  -- The driver is loaded, or a Lenovo machine names a ThinkPad as its family or its version.
  abbrev pub IsThinkpad : Bool → SystemIdentity → Type 0
  IsThinkpad driver_loaded ident =
      (driver_loaded ≡ true)
      ⊎ ((is_lenovo py ident ≡ true) × Names (ident.product_family ∷ ident.product_version ∷ []))

  pub info_iff :
      (driver_loaded : Bool) (ident : SystemIdentity)
      → ((info_of py driver_loaded ident).is_thinkpad ≡ true) ↔ IsThinkpad driver_loaded ident
  info_iff driver_loaded ident =
      ground (arith, model_in_iff (ident.product_family ∷ ident.product_version ∷ []))

  module _ {W : Type 0} (files : W → FileSystem) (identity : SystemIdentityProvider W) where
    -- When the identity can be read, the answer says ThinkPad exactly if the driver is loaded or the
    -- vendor is Lenovo and the family or the version names one.
    pub detect_iff :
        (ident : SystemIdentity) (w w' : W)
        → identity.read_identity w ≡ (ok ident, w')
        → (answer : ThinkpadInfo) × ((detect py files (some identity) w ≡ (ok answer, w'))
            × ((answer.is_thinkpad ≡ true) ↔ IsThinkpad ((files w).is_dir driver_dir) ident))
    unfolding detect
    detect_iff ident w w' e =
        (info_of py ((files w).is_dir driver_dir) ident, (rw e, info_iff _ ident))
