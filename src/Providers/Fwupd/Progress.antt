-- ===== src/Providers/Fwupd/Progress.antt =====
-- Whom the progress of an install reaches (providers/fwupd.py).
use lapcare.Common.{String, Option, none, some, List, [], ◌∷◌, ◌++◌, ◌≡◌, sym, ap, ◌∙◌, refl, All}
use lapcare.Common.Int.{ℤ}
use lapcare.Providers.Fwupd.{Reply, answered, refused, Device, Release, Changed}
use lapcare.Providers.Fwupd.Queries.{Daemon, Local, settled, call, raise_unavailable}
use lapcare.Providers.Fwupd.Install.{
  told, called, properties_changed, heard, deliver, set_progress, outcome, offered, install_offered,
  install,
}

-- The reports of one list are those of the other, and then some that only `p` was called with.
abbrev pub OnlyFor :
    {P : Type 0} → P → List (P × Option ℤ × String) → List (P × Option ℤ × String) → Type 0
OnlyFor {P} p before after =
    (extra : List (P × Option ℤ × String)) × (after ≡ before ++ extra) × All (λ r. r.0 ≡ p) extra

module _ {A : Type 0} where
  append_nil : (xs : List A) → xs ++ [] ≡ xs
  append_nil [] = refl
  append_nil (x ∷ xs) = rw (append_nil xs)

  append_assoc : (xs ys zs : List A) → (xs ++ ys) ++ zs ≡ xs ++ (ys ++ zs)
  append_assoc [] ys zs = refl
  append_assoc (x ∷ xs) ys zs = rw (append_assoc xs ys zs)

  append-All : (P : A → Type 0) (xs ys : List A) → All P xs → All P ys → All P (xs ++ ys)
  append-All P [] ys h k = k
  append-All P (x ∷ xs) ys (h, hs) k = (h, append-All P xs ys hs k)

called-All : {P : Type 0} (p : P) (o : Option (Option ℤ × String)) → All (λ r. r.0 ≡ p) (called p o)
called-All p none = tt
called-All p (some x) = (refl, tt)

module _ {P C : Type 0} (status_nick : ℤ → String) where
  heard-All :
      (cs : List C) (p : P) (c : Changed) → All (λ r. r.0 ≡ p) (heard status_nick cs (some p) c)
  unfolding heard
  heard-All [] p c = tt
  heard-All (x ∷ cs) p c =
      append-All _ (properties_changed status_nick (some p) c) _
        (called-All p (told status_nick c.percentage c.status)) (heard-All cs p c)

  heard-none : (cs : List C) (c : Changed) → heard {P = P} status_nick cs none c ≡ []
  unfolding heard
  heard-none [] c = refl
  heard-none (x ∷ cs) c = heard-none cs c

  -- While no install is under way, signals reach no callback.
  pub deliver_quiet :
      (changes : List Changed) (l : Local P C)
      → l.on_progress ≡ none
      → (deliver status_nick changes l).reports ≡ l.reports
  unfolding deliver
  deliver_quiet [] l h = refl
  deliver_quiet (c ∷ cs) l h =
      deliver_quiet cs _ h
      ∙ ap (λ o. l.reports ++ heard status_nick l.subscribers o c) h
      ∙ ap (λ rs. l.reports ++ rs) (heard-none l.subscribers c)
      ∙ append_nil l.reports

  deliver-OnlyFor :
      (p : P) (changes : List Changed) (l : Local P C)
      → l.on_progress ≡ some p
      → OnlyFor p l.reports (deliver status_nick changes l).reports
  unfolding deliver
  deliver-OnlyFor p [] l h = ([], sym (append_nil l.reports), tt)
  deliver-OnlyFor p (c ∷ cs) l h =
      let (extra, e, each) =
        deliver-OnlyFor p cs
          (record l { reports = l.reports ++ heard status_nick l.subscribers l.on_progress c }) h in
      (
        heard status_nick l.subscribers (some p) c ++ extra,
        e
            ∙ append_assoc l.reports _ extra
            ∙ ap (λ o. l.reports ++ (heard status_nick l.subscribers o c ++ extra)) h,
        append-All _ (heard status_nick l.subscribers (some p) c) extra
            (heard-All l.subscribers p c) each,
      )

module _ {P C W : Type 0} (d : Daemon W) where
  -- The provider's attributes after an attempt to install that begins while none is under way.
  abbrev pub Rests : P → Local P C → Local P C → Type 0
  Rests p l l' = (l'.on_progress ≡ none) × OnlyFor p l.reports l'.reports

  Rests-same : (p : P) (l : Local P C) → l.on_progress ≡ none → Rests p l l
  Rests-same p l h = (h, ([], sym (append_nil l.reports), tt))

  outcome-Rests :
      (p : P) (id : String) (reply : Reply (Unit {0})) (l l' : Local P C) (w : W)
      → Rests p l l'
      → Rests p l (outcome d id reply (l', w)).1.0
  outcome-Rests p id (answered x) l l' w h = h
  outcome-Rests p id (refused e) l l' w h = h

  offered-Rests :
      (p : P) (id version : String) (device : Device) (o : Option Release) (l : Local P C) (w : W)
      → l.on_progress ≡ none
      → Rests p l (install_offered d id version device p o (l, w)).1.0
  offered-Rests p id version device none l w h = Rests-same p l h
  offered-Rests p id version device (some release) l w h =
      outcome-Rests p id (d.install_release device release w).0.0 l _ _ (
        refl,
        deliver-OnlyFor d.status_nick p (d.install_release device release w).0.1
            (set_progress (some p) l) refl,
      )

  upgrades-Rests :
      (p : P) (id version : String) (device : Device) (reply : Reply (List Release)) (l : Local P C)
      (w : W)
      → l.on_progress ≡ none
      → Rests p l
          (settled reply
            (λ ups. install_offered d id version device p (offered version ups))
            raise_unavailable
            (l, w)).1.0
  upgrades-Rests p id version device (answered ups) l w h =
      offered-Rests p id version device (offered version ups) l w h
  upgrades-Rests p id version device (refused e) l w h = Rests-same p l h

  -- However an install ends, its callback is forgotten, and the reports that were made meanwhile went
  -- to that callback and to no other.
  pub install-Rests :
      (p : P) (id version : String) (l : Local P C) (w : W)
      → l.on_progress ≡ none
      → Rests p l (install d id version p (l, w)).1.0
  unfolding install
  install-Rests p id version l w h =
      by_device (d.get_device_by_id id w).0 (d.get_device_by_id id w).1
    where
      by_device :
          (reply : Reply Device) (w' : W)
          → Rests p l
              (settled reply
                (λ device.
                  call
                    (d.get_upgrades id)
                    (λ ups. install_offered d id version device p (offered version ups))
                    raise_unavailable)
                raise_unavailable
                (l, w')).1.0
      by_device (answered device) w' =
          upgrades-Rests p id version device (d.get_upgrades id w').0 l _ h
      by_device (refused e) w' = Rests-same p l h
