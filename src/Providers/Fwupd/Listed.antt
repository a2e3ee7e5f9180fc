-- ===== src/Providers/Fwupd/Listed.antt =====
-- What the lists of devices and of upgrades hold (providers/fwupd.py).
use lapcare.Common.{String, List, [], ◌∷◌, ◌≡◌, sym, ◌⊎◌, inl, inr, refl}
use lapcare.Common.Sort.{sorted, InOrder, sorted-InOrder, sorted-Permᴰ}
use lapcare.Models.{FirmwareDevice, FirmwareRelease}
use lapcare.Exec.{Result, ok, err, lift, pure, ◌>>=◌}
use lapcare.Exec.Laws.{bind_ok, ok-injective}
use lapcare.Providers.Fwupd.{
  ErrorCode, nothing_to_do, not_found, auth_failed, permission_denied, other_code, GError, Reply,
  answered, refused, Device, Release, device_to_model, release_to_model, translate_all, then_list,
  sort_key,
}
use lapcare.Providers.Fwupd.Queries.{
  Daemon, Local, State, settled, raise_unavailable, no_upgrades, list_devices, list_upgrades,
}
use mathlib.Core.List.{Permᴰ}

-- The values of two lists, one for one in order.
abbrev pub Pairwise : {A B : Type 0} → (A → B → Type 0) → List A → List B → Type 0
Pairwise R [] [] = Unit
Pairwise R [] (y ∷ ys) = ⊥
Pairwise R (x ∷ xs) [] = ⊥
Pairwise R (x ∷ xs) (y ∷ ys) = R x y × Pairwise R xs ys

module _ {A B : Type 0} (f : A → Result B) where
  then_list_ok :
      (r : Result B) (rest : Result (List B)) (ys : List B)
      → then_list r rest ≡ ok ys
      → (z : B) × (zs : List B) × (r ≡ ok z) × (rest ≡ ok zs) × (ys ≡ z ∷ zs)
  then_list_ok (ok z) (ok zs) ys e = (z, zs, refl, refl, sym (ok-injective (z ∷ zs) ys e))
  then_list_ok (ok z) (err x) ys e = cc
  then_list_ok (err x) rest ys e = cc

  pub translate_all-Pairwise :
      (xs : List A) (ys : List B) → translate_all f xs ≡ ok ys → Pairwise (λ x y. f x ≡ ok y) xs ys
  unfolding translate_all
  translate_all-Pairwise [] ys e = rw (sym (ok-injective [] ys e)) tt
  translate_all-Pairwise (x ∷ xs) ys e =
      let (z, zs, hz, hzs, e') = then_list_ok (f x) (translate_all f xs) ys e in
      rw e' (hz, translate_all-Pairwise xs zs hzs)

module _ {P C W : Type 0} (d : Daemon W) where
  devices_settled :
      (reply : Reply (List Device)) (s : State P C W) (ms : List FirmwareDevice)
      → (settled reply
          (λ devices. lift (translate_all device_to_model devices) >>= λ models.
            pure (sorted sort_key models))
          raise_unavailable
          s).0
        ≡ ok ms
      → (ds : List Device) × (models : List FirmwareDevice) × (reply ≡ answered ds)
        × (translate_all device_to_model ds ≡ ok models)
        × (ms ≡ sorted sort_key models)
  devices_settled (answered ds) s ms e =
      let (models, translated, e') = bind_ok (lift (translate_all device_to_model ds)) _ s ms e in
      (ds, models, refl, translated, sym (ok-injective (sorted sort_key models) ms e'))
  devices_settled (refused x) s ms e = cc

  -- A list of devices has each device that the daemon names exactly once, as it is translated, in the
  -- order of their names, where a device without a name stands by its id.
  pub list_devices_lem :
      (l : Local P C) (w : W) (ms : List FirmwareDevice)
      → (list_devices d (l, w)).0 ≡ ok ms
      → (ds : List Device) × (models : List FirmwareDevice) × ((d.get_devices w).0 ≡ answered ds)
        × Pairwise (λ x y. device_to_model x ≡ ok y) ds models
        × Permᴰ ms models
        × InOrder sort_key ms
  unfolding list_devices
  list_devices_lem l w ms e =
      let (ds, models, answer, translated, e') =
        devices_settled (d.get_devices w).0 (l, (d.get_devices w).1) ms e in
      (
        ds,
        models,
        answer,
        translate_all-Pairwise device_to_model ds models translated,
        rw e' (sorted-Permᴰ sort_key models),
        rw e' (sorted-InOrder sort_key models),
      )

  upgrades_settled :
      (reply : Reply (List Release)) (s : State P C W) (rs : List FirmwareRelease)
      → (settled reply
          (λ releases. lift (translate_all release_to_model releases))
          (λ e. no_upgrades e.code)
          s).0
        ≡ ok rs
      → ((found : List Release) × (reply ≡ answered found)
          × Pairwise (λ x y. release_to_model x ≡ ok y) found rs)
        ⊎ ((e : GError) × (reply ≡ refused e)
            × ((e.code ≡ nothing_to_do) ⊎ (e.code ≡ not_found))
            × (rs ≡ []))
  upgrades_settled (answered found) s rs e =
      inl (found, refl, translate_all-Pairwise release_to_model found rs e)
  upgrades_settled (refused x) s rs e =
      let (code, e') = by_code x.code s rs e in inr (x, refl, code, e')
    where
      by_code :
          (c : ErrorCode) (s : State P C W) (rs : List FirmwareRelease)
          → (no_upgrades c s).0 ≡ ok rs
          → ((c ≡ nothing_to_do) ⊎ (c ≡ not_found)) × (rs ≡ [])
      by_code nothing_to_do s rs e = (inl refl, sym (ok-injective [] rs e))
      by_code not_found s rs e = (inr refl, sym (ok-injective [] rs e))
      by_code auth_failed s rs e = cc
      by_code permission_denied s rs e = cc
      by_code other_code s rs e = cc

  -- A list of upgrades has each release that the daemon offers, translated and in its order; or it is
  -- empty, and the daemon has said that there is nothing to do or nothing found. Any other failure is
  -- none of an empty list.
  pub list_upgrades_lem :
      (id : String) (l : Local P C) (w : W) (rs : List FirmwareRelease)
      → (list_upgrades d id (l, w)).0 ≡ ok rs
      → ((found : List Release) × ((d.get_upgrades id w).0 ≡ answered found)
          × Pairwise (λ x y. release_to_model x ≡ ok y) found rs)
        ⊎ ((e : GError) × ((d.get_upgrades id w).0 ≡ refused e)
            × ((e.code ≡ nothing_to_do) ⊎ (e.code ≡ not_found))
            × (rs ≡ []))
  unfolding list_upgrades
  list_upgrades_lem id l w rs e =
      upgrades_settled (d.get_upgrades id w).0 (l, (d.get_upgrades id w).1) rs e
