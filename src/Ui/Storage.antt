-- ===== src/Ui/Storage.antt =====
-- src/lapcare/ui/pages/storage/view_model.py
pub mod Health
pub mod Busy
use lapcare.Common.{
  ℕ, ◌^◌, String, Bool, true, false, Option, none, some, List, [], ◌∷◌, ◌++◌, ◌||◌, not,
  is_nonempty, is_some, str_eq, if◌then◌else◌, map,
}
use lapcare.Common.Int.{ℤ, pos, leb_ℤ}
use lapcare.Common.Text.{or_text, decimal_ℤ, starts_with}
use lapcare.Float.{Float}
use lapcare.Models.{StorageDevice, SmartReport}
use lapcare.Errors.{
  LapcareError, Exc, lapcare_error, foreign, privileged_action_denied, provider_unavailable,
}
use lapcare.Exec.{Exec, pure, try, raise, ◌>>=◌}
use lapcare.Core.Ports.{StorageProvider}
use lapcare.Ui.Text.{Text, plain, tr, fill, cat, join_all, join_shown, blank, is_shown}
use lapcare.Ui.Page.{Page, new_page, show_loading, show_ready, show_unavailable, handle_error}

module _ (F : Type 0) ⦃fl : Float F⦄ where
  -- `size_bytes / 1000**k`, in so many digits
  abbrev in_unit : ℕ → ℤ → ℕ → Text
  in_unit digits size k = plain (fl.format digits (fl.true_div size (pos (1000 ^ k))))

  unfoldable pub size_text : Option ℤ → Text
  size_text none = blank
  size_text (some size) =
      if leb_ℤ (pos (1000 ^ 4)) size
      then fill (tr "%.1f TB") (in_unit 1 size 4)
      else if leb_ℤ (pos (1000 ^ 3)) size
      then fill (tr "%.1f GB") (in_unit 1 size 3)
      else fill (tr "%.0f MB") (in_unit 0 size 2)

-- `value is False`, and `value` as a condition
abbrev pub is_false : Option Bool → Bool
is_false (some false) = true
is_false _ = false

abbrev pub is_true : Option Bool → Bool
is_true (some true) = true
is_true _ = false

abbrev pub medium_text : StorageDevice → Text
medium_text device =
    if starts_with device.name "nvme"
    then tr "NVMe SSD"
    else if is_false device.rotational
    then tr "SSD"
    else if is_true device.rotational
    then tr "Hard disk"
    else tr "Disk"

unfoldable pub kind_text : StorageDevice → Text
kind_text device =
    if is_true device.removable
    then fill (tr "%s (removable)") (medium_text device)
    else medium_text device

pub record StorageCard : Type 0 where
  pub name : String
  pub title : String
  pub subtitle : Text
  pub health_summary : Text
  pub health_failed : Bool
  pub health_rows : List (Text × Text)
  pub health_note : Text

pub record StoragePage : Type 0 where
  pub page : Page
  pub busy_text : Text
  pub toast_text : Text
  pub cards : List StorageCard

abbrev pub new_storage_page : StoragePage
new_storage_page = record { page = new_page; busy_text = blank; toast_text = blank; cards = [] }

-- What a handler submits: the inventory, or the health of the devices of these names.
pub data Effect : Type 0 where
  submit_list : Effect
  submit_health : List String → Effect

abbrev pub Handler : Type 0
Handler = StoragePage → StoragePage × List Effect

pub load : Handler
load s = (record s { page = show_loading s.page }, submit_list ∷ [])

pub load_failed : Exc → Handler
load_failed exc s = (record s { page = handle_error exc s.page }, [])

module _ (F : Type 0) ⦃fl : Float F⦄ where
  pub card_of : StorageDevice → StorageCard
  card_of device = record {
    name = device.name;
    title = or_text device.model device.name;
    subtitle =
        join_shown " · "
          (size_text F device.size_bytes ∷ kind_text device ∷ plain device.name ∷ []);
    health_summary = blank;
    health_failed = false;
    health_rows = [];
    health_note = blank;
  }

  pub apply : List StorageDevice → Handler
  unfolding card_of
  apply [] s = (
    record s {
      page =
          show_unavailable (tr "No storage devices found.")
            (tr "Nothing to do — no physical disk is visible to this system.") s.page;
    },
    [],
  )
  apply (d ∷ ds) s = (record s { cards = map card_of (d ∷ ds); page = show_ready s.page }, [])

pub read_health : Handler
read_health s = if is_shown s.busy_text || not (is_nonempty s.cards) then (s, []) else (
  record s { busy_text = tr "Reading storage health…" },
  submit_health (map (λ c. c.name) s.cards) ∷ [],
)

-- The outcome for one device: its name, its report and its note.
abbrev pub Health : Type 0
Health = String × Option SmartReport × Text

module _ {W : Type 0} where
  -- A denied or unavailable read would repeat for every device, and ends the run.
  abbrev pub unread : String → Exc → Exec W Health
  unread name (lapcare_error (privileged_action_denied action)) =
      raise (lapcare_error (privileged_action_denied action))
  unread name (lapcare_error (provider_unavailable source reason tool)) =
      raise (lapcare_error (provider_unavailable source reason tool))
  unread name (lapcare_error _) = pure (name, none, tr "Could not read health for this device.")
  unread name (foreign text) = raise (foreign text)

  unfoldable pub read_one : StorageProvider W → String → Exec W Health
  read_one p name =
      try (do report ← p.read_smart name; pure (name, some report, blank)) (unread name)

  unfoldable pub gather_health : StorageProvider W → List String → Exec W (List Health)
  unfolding read_one
  gather_health p [] = pure []
  gather_health p (name ∷ names) = do
    health ← read_one p name
    rest ← gather_health p names
    pure (health ∷ rest)

pub summary : SmartReport → Text × Bool
summary report = elim report.passed [
  | some false ↦ (tr "FAILING — back up your data now", true)
  | some true ↦ (tr "Healthy", false)
  | none ↦ (tr "Health not reported", false)
]

-- A row, if the field is there.
abbrev pub row : Text → (ℤ → Text) → Option ℤ → List (Text × Text)
row label show none = []
row label show (some n) = (label, show n) ∷ []

abbrev pub number : ℤ → Text
number n = plain (decimal_ℤ n)

abbrev pub percent : ℤ → Text
percent n = cat (number n) (plain "%")

abbrev pub text_row : Text → Option String → List (Text × Text)
text_row label none = []
text_row label (some s) = (label, plain s) ∷ []

unfoldable pub health_rows : SmartReport → List (Text × Text)
health_rows r =
    row (tr "Temperature") (λ n. fill (tr "%d °C") (number n)) r.temperature_c
    ++ (row (tr "Rated endurance used") percent r.percentage_used
        ++ (row (tr "Spare capacity available") percent r.available_spare_pct
            ++ (row (tr "Media errors") number r.media_errors
                ++ (row (tr "Reallocated sectors") number r.reallocated_sectors
                    ++ (row (tr "Sectors pending reallocation") number r.pending_sectors
                        ++ (row (tr "Powered on") (λ n. fill (tr "%d hours") (number n))
                              r.power_on_hours
                            ++ (row (tr "Power cycles") number r.power_cycles
                                ++ (row (tr "Unsafe shutdowns") number r.unsafe_shutdowns
                                    ++ (text_row (tr "Firmware") r.firmware_version
                                        ++ (if is_nonempty r.messages
                                            then (tr "Notes", join_all "; " (map plain r.messages))
                                              ∷ []
                                            else []))))))))))

-- The second, unless there is a first.
abbrev pub later : {A : Type 0} → Option A → Option A → Option A
later (some a) b = some a
later none b = b

-- `by_name.get(name, (None, ""))` on a dict built from the results: a later entry replaces an
-- earlier one of its name.
pub last_of : String → List Health → Option (Option SmartReport × Text)
last_of name [] = none
last_of name ((n, report, note) ∷ rest) =
    later (last_of name rest) (if str_eq n name then some (report, note) else none)

pub by_name : String → List Health → Option SmartReport × Text
unfolding last_of
by_name name results = elim (last_of name results) [ none ↦ (none, blank) | some found ↦ found ]

abbrev pub with_report : Option SmartReport → StorageCard → StorageCard
with_report none c = c
with_report (some r) c =
    let (text, failed) = summary r in
    record c { health_summary = text; health_failed = failed; health_rows = health_rows r }

pub update_card : List Health → StorageCard → StorageCard
update_card results c =
    let (report, note) = by_name c.name results in
    with_report report (record c { health_note = note })

pub health_done : List Health → Handler
unfolding update_card
health_done results s = (
  record s {
    busy_text = blank;
    cards = map (update_card results) s.cards;
    page = show_ready s.page;
  },
  [],
)

abbrev pub unavailable_toast : Option String → Text
unavailable_toast none = tr "Storage health reading is not available on this system."
unavailable_toast (some tool) =
    if str_eq tool ""
    then tr "Storage health reading is not available on this system."
    else fill (tr "Storage health needs the '%s' package.") (plain tool)

abbrev pub failure_toast : Exc → Text
failure_toast (lapcare_error (privileged_action_denied action)) =
    tr "Storage health check cancelled."
failure_toast (lapcare_error (provider_unavailable source reason tool)) = unavailable_toast tool
failure_toast _ = tr "Could not read storage health."

pub health_failed : Exc → Handler
health_failed exc s = (record s { busy_text = blank; toast_text = failure_toast exc }, [])
