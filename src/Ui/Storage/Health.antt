-- ===== src/Ui/Storage/Health.antt =====
-- Reading the health of the drives (ui/pages/storage/view_model.py), from the reads to the cards.
use lapcare.Common.{
  String, true, none, some, List, [], ◌∷◌, ◌≡◌, refl, ◌∙◌, sym, map, All, any, arith, eq_iff,
  str_eq, if◌then◌else◌,
}
use text.Mathlib.TextPositions.{eq_refl}
use lapcare.Exec.Laws.{ok-injective}
use lapcare.Models.{SmartReport}
use lapcare.Errors.{
  Exc, lapcare_error, foreign, privileged_action_denied, provider_unavailable, provider_timeout,
  provider_parse_error, firmware_install_failed,
}
use lapcare.Exec.{Result, ok, err, pure, lift, try, continue, ◌>>=◌, Conforms}
use lapcare.Core.Ports.{StorageProvider}
use lapcare.Ui.Text.{is_shown, blank}
use lapcare.Ui.Storage.{
  StorageCard, StoragePage, Health, read_one, gather_health, unread, last_of, by_name, is_false,
  summary, update_card, health_done,
}

-- The exceptions that end a whole run.
abbrev pub Aborts : Exc → Type 0
Aborts (lapcare_error (privileged_action_denied action)) = Unit
Aborts (lapcare_error (provider_unavailable source reason tool)) = Unit
Aborts _ = ⊥

-- An outcome with an entry for each of the names, in order, each with a report or a note; or an
-- exception that ends the run.
abbrev IsReported : Health → Type 0
IsReported (name, none, note) = is_shown note ≡ true
IsReported (name, some r, note) = Unit

abbrev pub Covers : List String → Result (List Health) → Type 0
Covers names (ok hs) = (map (λ h. h.0) hs ≡ names) × All IsReported hs
Covers names (err e) = Aborts e

abbrev CoversOne : String → Result Health → Type 0
CoversOne name (ok h) = (h.0 ≡ name) × IsReported h
CoversOne name (err e) = Aborts e

module _ {W : Type 0} where
  read_outcome :
      (name : String) (r : Result SmartReport) (w : W)
      → Conforms r
      → CoversOne name
          (try (lift r >>= λ report. pure (name, some report, blank)) (unread name) w).0
  read_outcome name (ok r) w c = (refl, tt)
  read_outcome name (err (foreign s)) w c = absurd c
  read_outcome name (err (lapcare_error (provider_unavailable a b t))) w c = tt
  read_outcome name (err (lapcare_error (provider_timeout a b))) w c = (refl, refl)
  read_outcome name (err (lapcare_error (provider_parse_error a b))) w c = (refl, refl)
  read_outcome name (err (lapcare_error (privileged_action_denied a))) w c = tt
  read_outcome name (err (lapcare_error (firmware_install_failed a b))) w c = (refl, refl)

  module _ (p : StorageProvider W) where
    rest_covered :
        (name : String) (names : List String) (h : Health) (r : Result (List Health)) (w : W)
        → CoversOne name (ok h)
        → Covers names r
        → Covers (name ∷ names) (continue r (λ rest. pure (h ∷ rest)) w).0
    rest_covered name names (n, none, note) (ok hs) w one all = (cc (one.0, all.0), (one.1, all.1))
    rest_covered name names (n, some r, note) (ok hs) w one all = (cc (one.0, all.0), (tt, all.1))
    rest_covered name names h (err e) w one all = all

    all_covered :
        (name : String) (names : List String) (r : Result Health) (w : W)
        → CoversOne name r
        → ((w : W) → Covers names (gather_health p names w).0)
        → Covers
            (name ∷ names)
            (continue r (λ h. gather_health p names >>= λ rest. pure (h ∷ rest)) w).0
    all_covered name names (ok h) w one ih =
        rest_covered name names h (gather_health p names w).0 (gather_health p names w).1 one (ih w)
    all_covered name names (err e) w one ih = one

    -- With a provider that keeps to its port, a health run ends with an entry for every drive, in
    -- order, each with a report or with a note; or it is ended by a denied authorization or an
    -- unavailable helper, and by nothing else.
    pub gather_health-Covers :
        ((name : String) (w : W) → Conforms (p.read_smart name w).0)
        → (names : List String) (w : W) → Covers names (gather_health p names w).0
    unfolding gather_health read_one
    gather_health-Covers port [] w = (refl, tt)
    gather_health-Covers port (name ∷ names) w =
        all_covered name names _ _
          (read_outcome name (p.read_smart name w).0 (p.read_smart name w).1 (port name w))
          (gather_health-Covers port names)

-- The reports of drives that are read without a failure, by the function that gives a drive's.
abbrev pub reported : (String → SmartReport) → List String → List Health
reported report [] = []
reported report (n ∷ ns) = (n, some (report n), blank) ∷ reported report ns

module _ (report : String → SmartReport) where
  last_of-reported :
      (name : String) (ns : List String)
      → last_of name (reported report ns)
        ≡ (if any (λ n. str_eq n name) ns then some (some (report name), blank) else none)
  unfolding last_of
  last_of-reported name [] = refl
  last_of-reported name (n ∷ ns) = ground (arith, last_of-reported name ns, eq_iff n name)

  by_name-reported :
      (name : String) (ns : List String)
      → any (λ n. str_eq n name) ns ≡ true
      → by_name name (reported report ns) ≡ (some (report name), blank)
  unfolding by_name
  by_name-reported name ns h = ground (arith, last_of-reported name ns)

  -- The card says that its drive fails exactly if the drive's report does.
  abbrev pub IsFlagged : StorageCard → Type 0
  IsFlagged c = c.health_failed ≡ is_false (report c.name).passed

  update-IsFlagged :
      (c : StorageCard) (ns : List String)
      → any (λ n. str_eq n c.name) ns ≡ true
      → IsFlagged (update_card (reported report ns) c)
  unfolding update_card summary
  update-IsFlagged c ns h = ground (arith, by_name-reported c.name ns h)

  updates-IsFlagged :
      (cs : List StorageCard) (ns : List String)
      → All (λ c. any (λ n. str_eq n c.name) ns ≡ true) cs
      → All IsFlagged (map (update_card (reported report ns)) cs)
  updates-IsFlagged [] ns h = tt
  updates-IsFlagged (c ∷ cs) ns h = (update-IsFlagged c ns h.0, updates-IsFlagged cs ns h.1)

  listed_later :
      (n : String) (ns : List String) (cs : List StorageCard)
      → All (λ c. any (λ m. str_eq m c.name) ns ≡ true) cs
      → All (λ c. any (λ m. str_eq m c.name) (n ∷ ns) ≡ true) cs
  listed_later n ns [] h = tt
  listed_later n ns (c ∷ cs) h = (ground (arith, h.0), listed_later n ns cs h.1)

  every_listed :
      (cs : List StorageCard)
      → All (λ c. any (λ m. str_eq m c.name) (map (λ c. c.name) cs) ≡ true) cs
  every_listed [] = tt
  every_listed (c ∷ cs) =
      (rw eq_refl, listed_later c.name (map (λ c. c.name) cs) cs (every_listed cs))

  gather-reported :
      {W : Type 0} (p : StorageProvider W)
      (answers : (n : String) (w : W) → (p.read_smart n w).0 ≡ ok (report n)) (ns : List String)
      (w : W)
      → (gather_health p ns w).0 ≡ ok (reported report ns)
  unfolding gather_health read_one
  gather-reported p answers [] w = refl
  gather-reported p answers (n ∷ ns) w =
      rw (answers n w) (rw (gather-reported p answers ns (p.read_smart n w).1))

  -- From the reads to the cards: if each drive's read answers with its report, then after the run
  -- the cards that are marked as failing are those whose own drive's report says so.
  pub health_flow :
      {W : Type 0} (p : StorageProvider W) (w : W) (s : StoragePage) (hs : List Health)
      → ((n : String) (w : W) → (p.read_smart n w).0 ≡ ok (report n))
      → (gather_health p (map (λ c. c.name) s.cards) w).0 ≡ ok hs
      → All IsFlagged (health_done hs s).0.cards
  unfolding health_done
  health_flow p w s hs answers h =
      rw (← ok-injective _ _ (sym (gather-reported p answers (map (λ c. c.name) s.cards) w) ∙ h))
        (updates-IsFlagged s.cards (map (λ c. c.name) s.cards) (every_listed s.cards))
