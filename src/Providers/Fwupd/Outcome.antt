-- ===== src/Providers/Fwupd/Outcome.antt =====
-- What an install flashes, and what its end says (providers/fwupd.py).
use lapcare.Common.{
  String, Bool, true, false, Option, none, some, List, [], ◌∷◌, ◌≡◌, sym, ap, ◌∙◌, if◌then◌else◌,
  ◌⊎◌, inl, inr, refl, arith, Some, eq_iff,
}
use lapcare.Common.Text.{◌⧺◌}
use lapcare.Errors.{LapcareError, lapcare_error, firmware_install_failed, privileged_action_denied}
use lapcare.Exec.{Result, ok, err}
use lapcare.Providers.Fwupd.{
  ErrorCode, nothing_to_do, not_found, other_code, GError, Reply, answered, refused, Device,
  Release, auth_failed, permission_denied, install_error, translate_install_error, unavailable,
}
use lapcare.Providers.Fwupd.Queries.{Daemon, Local, State, settled, call, raise_unavailable}
use lapcare.Providers.Fwupd.Install.{outcome, has_version, offered, install_offered, install}

has_version_lem :
    (version : String) (o : Option String) → has_version version o ≡ true → o ≡ some version
has_version_lem version none e = cc
has_version_lem version (some v) e = ground (arith, eq_iff v version)

some-injective : {A : Type 0} {a b : A} → some a ≡ some b → a ≡ b
some-injective e = cc

offered-Some :
    (version : String) (rs : List Release) (r : Release)
    → offered version rs ≡ some r
    → Some (λ x. x ≡ r) rs × (r.version ≡ some version)
unfolding offered
offered-Some version [] r e = cc
offered-Some version (x ∷ rs) r e =
    either (has_version version x.version) refl (offered-Some version rs r) e
  where
    either :
        (b : Bool)
        → b ≡ has_version version x.version
        → (offered version rs ≡ some r → Some (λ x. x ≡ r) rs × (r.version ≡ some version))
        → (if b then some x else offered version rs) ≡ some r
        → Some (λ x. x ≡ r) (x ∷ rs) × (r.version ≡ some version)
    either true h k e =
        let same = some-injective e in
        (inl same, sym (ap (λ y. y.version) same) ∙ has_version_lem version x.version (sym h))
    either false h k e = let (later, v) = k e in (inr later, v)

module _ {W : Type 0} (d : Daemon W) (id version : String) where
  -- The release that is handed to `install_release`, in the world that the two queries leave, and the
  -- reply.
  pub record Flashes (w : W) (reply : Reply (Unit {0})) : Type 0 where
    pub device : Device
    pub upgrades : List Release
    pub release : Release
    pub asked : W
    pub listed : W
    pub found : d.get_device_by_id id w ≡ (answered device, asked)
    pub offers : d.get_upgrades id asked ≡ (answered upgrades, listed)
    pub offered_now : Some (λ x. x ≡ release) upgrades
    pub same_version : release.version ≡ some version
    pub replied : (d.install_release device release listed).0.0 ≡ reply

-- The ends of an install that flashes nothing.
abbrev pub IsEarly : String → String → LapcareError → Type 0
IsEarly id version e =
    (e ≡ unavailable)
    ⊎ (e ≡ firmware_install_failed id ("release " ⧺ version ⧺ " no longer offered"))

-- The end that a reply of `install_release` gives.
abbrev pub end_of : String → Reply (Unit {0}) → Result (Unit {0})
end_of id (answered x) = ok tt
end_of id (refused e) = err (lapcare_error (translate_install_error id e))

err-injective :
    {A : Type 0} {e f : LapcareError}
    → ◌≡◌ {A = Result A} (err (lapcare_error e)) (err (lapcare_error f))
    → e ≡ f
err-injective h = cc

error_denied :
    (id : String) (c : ErrorCode) (detail action : String)
    → install_error id c detail ≡ privileged_action_denied action
    → (c ≡ auth_failed) ⊎ (c ≡ permission_denied)
error_denied id auth_failed detail action e = inl refl
error_denied id permission_denied detail action e = inr refl
error_denied id nothing_to_do detail action e = cc
error_denied id not_found detail action e = cc
error_denied id other_code detail action e = cc

module _ {W : Type 0} (d : Daemon W) (id version : String) where
  -- An install ends early, or as the reply for one release that it flashes.
  abbrev Ends : W → Result (Unit {0}) → Type 0
  Ends w r =
      ((e : LapcareError) × (r ≡ err (lapcare_error e)) × IsEarly id version e)
      ⊎ ((reply : Reply (Unit {0})) × Flashes d id version w reply × (r ≡ end_of id reply))

  ok_end :
      (w : W) (r : Result (Unit {0})) → Ends w r → r ≡ ok tt → Flashes d id version w (answered tt)
  ok_end w r (inl (e, h, early)) k = cc
  ok_end w r (inr (answered x, f, h)) k = f
  ok_end w r (inr (refused x, f, h)) k = cc

  denied_end :
      (w : W) (r : Result (Unit {0})) (action : String)
      → Ends w r
      → r ≡ err (lapcare_error (privileged_action_denied action))
      → (e : GError) × Flashes d id version w (refused e)
        × ((e.code ≡ auth_failed) ⊎ (e.code ≡ permission_denied))
  unfolding translate_install_error
  denied_end w r action (inl (e, h, inl k)) g = cc
  denied_end w r action (inl (e, h, inr k)) g = cc
  denied_end w r action (inr (answered x, f, h)) g = cc
  denied_end w r action (inr (refused x, f, h)) g =
      (x, f, error_denied id x.code x.message action (err-injective (sym h ∙ g)))

module _ {P C W : Type 0} (d : Daemon W) (id version : String) where
  outcome_end :
      (reply : Reply (Unit {0})) (s : State P C W) → (outcome d id reply s).0 ≡ end_of id reply
  outcome_end (answered x) s = refl
  outcome_end (refused e) s = refl

  offered_end :
      (p : P) (device : Device) (upgrades : List Release) (o : Option Release) (l : Local P C)
      (w w1 w2 : W)
      → offered version upgrades ≡ o
      → d.get_device_by_id id w ≡ (answered device, w1)
      → d.get_upgrades id w1 ≡ (answered upgrades, w2)
      → Ends d id version w (install_offered d id version device p o (l, w2)).0
  offered_end p device upgrades none l w w1 w2 h g u = inl (_, refl, inr refl)
  offered_end p device upgrades (some release) l w w1 w2 h g u =
      let (among, v) = offered-Some version upgrades release h in
      inr (
        (d.install_release device release w2).0.0,
        record {
          device = device;
          upgrades = upgrades;
          release = release;
          asked = w1;
          listed = w2;
          found = g;
          offers = u;
          offered_now = among;
          same_version = v;
          replied = refl;
        },
        outcome_end (d.install_release device release w2).0.0 _,
      )

  upgrades_end :
      (p : P) (device : Device) (reply : Reply (List Release)) (l : Local P C) (w w1 w2 : W)
      → d.get_device_by_id id w ≡ (answered device, w1)
      → d.get_upgrades id w1 ≡ (reply, w2)
      → Ends d id version w
          (settled reply
            (λ ups. install_offered d id version device p (offered version ups))
            raise_unavailable
            (l, w2)).0
  upgrades_end p device (answered ups) l w w1 w2 g u =
      offered_end p device ups (offered version ups) l w w1 w2 refl g u
  upgrades_end p device (refused e) l w w1 w2 g u = inl (_, refl, inl refl)

  device_end :
      (p : P) (reply : Reply Device) (l : Local P C) (w w1 : W)
      → d.get_device_by_id id w ≡ (reply, w1)
      → Ends d id version w
          (settled reply
            (λ device.
              call
                (d.get_upgrades id)
                (λ ups. install_offered d id version device p (offered version ups))
                raise_unavailable)
            raise_unavailable
            (l, w1)).0
  device_end p (answered device) l w w1 g =
      upgrades_end p device (d.get_upgrades id w1).0 l w w1 (d.get_upgrades id w1).1 g refl
  device_end p (refused e) l w w1 g = inl (_, refl, inl refl)

  install-Ends :
      (p : P) (l : Local P C) (w : W) → Ends d id version w (install d id version p (l, w)).0
  unfolding install
  install-Ends p l w = device_end p (d.get_device_by_id id w).0 l w (d.get_device_by_id id w).1 refl

  -- An install that returns has flashed a release that the daemon still offers for the device at that
  -- moment and whose version is the one asked for, and the daemon has reported its success.
  pub install_ok :
      (p : P) (l : Local P C) (w : W)
      → (install d id version p (l, w)).0 ≡ ok tt
      → Flashes d id version w (answered tt)
  install_ok p l w = ok_end d id version w _ (install-Ends p l w)

  -- An install says that authorization was declined only if the daemon, handed the release, has
  -- refused it for the want of an authorization: no failure of another kind is taken for the user's
  -- choice.
  pub install_denied :
      (p : P) (l : Local P C) (w : W) (action : String)
      → (install d id version p (l, w)).0 ≡ err (lapcare_error (privileged_action_denied action))
      → (e : GError) × Flashes d id version w (refused e)
        × ((e.code ≡ auth_failed) ⊎ (e.code ≡ permission_denied))
  install_denied p l w action = denied_end d id version w _ action (install-Ends p l w)
