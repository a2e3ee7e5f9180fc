-- ===== src/Ui/Dashboard.antt =====
-- src/lapcare/ui/pages/dashboard/view_model.py, with its two loads; logging is left out.
pub mod Loads
mod Tests
use lapcare.Common.{
  ℕ, String, Bool, true, false, Option, none, some, List, [], ◌∷◌, str_eq, if◌then◌else◌,
}
use lapcare.Common.Text.{or_text}
use lapcare.Float.{Float, lit}
use lapcare.Models.{DiagnosticsReport, SystemIdentity, OsInfo, ThinkpadInfo}
use lapcare.Errors.{Exc}
use lapcare.Exec.{Exec, pure, ◌>>=◌}
use lapcare.Core.Ports.{
  BatteryWearProvider, FirmwareProvider, ThermalProvider, DiskUsageProvider, SystemIdentityProvider,
  OsInfoProvider, ThinkpadProvider,
}
use lapcare.Core.Diagnostics.Gather as engine
use lapcare.Ui.Text.{Text, plain, cat, blank, stripped}
use lapcare.Ui.Page.{Page, new_page, show_loading, show_ready, handle_error}
use lapcare.Ui.Battery.{minutes_text}
use lapcare.Ui.Cards.{score_texts}

abbrev pub placeholder : Text
placeholder = plain "—"

-- `format_uptime`; `whole_minutes` stands for `int(seconds // 60)` of a number that is not negative.
unfoldable pub uptime_text : {F : Type 0} → ⦃fl : Float F⦄ → (F → ℕ) → Option F → Text
uptime_text whole_minutes none = placeholder
uptime_text ⦃fl⦄ whole_minutes (some seconds) =
    if fl.lt seconds (lit 0) then placeholder else minutes_text (whole_minutes seconds)

pub record DashboardPage : Type 0 where
  pub page : Page
  pub model : Text
  pub machine_type : Text
  pub vendor : Text
  pub bios : Text
  pub distro : Text
  pub kernel : Text
  pub uptime : Text
  pub is_thinkpad : Bool
  pub health_score : Text
  pub health_coverage : Text

abbrev pub new_dashboard_page : DashboardPage
new_dashboard_page = record {
  page = new_page;
  model = placeholder;
  machine_type = placeholder;
  vendor = placeholder;
  bios = placeholder;
  distro = placeholder;
  kernel = placeholder;
  uptime = placeholder;
  is_thinkpad = true;
  health_score = blank;
  health_coverage = blank;
}

pub data Effect : Type 0 where
  submit_gather submit_health : Effect

abbrev pub Handler : Type 0
Handler = DashboardPage → DashboardPage × List Effect

unfoldable pub load : Handler
load s = (record s { page = show_loading s.page }, submit_gather ∷ submit_health ∷ [])

unfoldable pub load_failed : Exc → Handler
load_failed exc s = (record s { page = handle_error exc s.page }, [])

abbrev pub scored : DiagnosticsReport → Option ℕ → Handler
scored report none s = (s, [])
scored report (some score) s = (
  record s { health_coverage = (score_texts report).1; health_score = (score_texts report).0 },
  [],
)

unfoldable pub apply_health : DiagnosticsReport → Handler
apply_health report s = scored report report.score s

unfoldable pub health_failed : Exc → Handler
health_failed exc s = (s, [])

-- The providers that the page is made with.
pub record Providers (W F : Type 0) : Type 0 where
  pub identity : SystemIdentityProvider W
  pub os_info : OsInfoProvider W F
  pub thinkpad : ThinkpadProvider W
  pub battery_wear : Option (BatteryWearProvider W)
  pub firmware : Option (FirmwareProvider W)
  pub thermal : Option (ThermalProvider W F)
  pub disk : Option (DiskUsageProvider W)

abbrev pub Gathered : Type 0 → Type 0
Gathered F = SystemIdentity × OsInfo F × ThinkpadInfo

module _ {W F : Type 0} where
  -- The arguments of `diagnostics.run`: no storage, whose health is not asked for by default.
  abbrev pub health_sources : Providers W F → engine.Sources W F
  health_sources p = record {
    battery_wear = p.battery_wear;
    storage = none;
    firmware = p.firmware;
    thermal = p.thermal;
    disk = p.disk;
    include_storage_health = false;
  }

  unfoldable pub health : ⦃fl : Float F⦄ → Providers W F → Exec W DiagnosticsReport
  health p = engine.run (health_sources p)

  unfoldable pub gather : Providers W F → Exec W (Gathered F)
  gather p = do
    identity ← p.identity.read_identity
    os_info ← p.os_info.read_os
    thinkpad ← p.thinkpad.detect
    pure (identity, os_info, thinkpad)

-- `text or PLACEHOLDER`
abbrev pub or_placeholder : Option String → Text
or_placeholder o = plain (or_text o "—")

-- ` (date)`, if there is a date
abbrev pub dated : Option String → Text
dated none = blank
dated (some date) =
    if str_eq date "" then blank else cat (plain " (") (cat (plain date) (plain ")"))

abbrev pub bios_of : Option String → Option String → Text → Text
bios_of none date old = old
bios_of (some version) date old =
    if str_eq version "" then old else cat (stripped (plain version)) (dated date)

module _ {F : Type 0} ⦃fl : Float F⦄ (whole_minutes : F → ℕ) where
  unfoldable pub apply : Gathered F → Handler
  unfolding uptime_text
  apply (identity, os_info, thinkpad) s = (
    record s {
      model = plain (or_text thinkpad.model (or_text identity.product_family "—"));
      machine_type = or_placeholder identity.product_name;
      vendor = or_placeholder identity.vendor;
      bios = bios_of identity.bios_version identity.bios_date s.bios;
      distro = or_placeholder os_info.distro_name;
      kernel = or_placeholder os_info.kernel;
      uptime = uptime_text whole_minutes os_info.uptime_seconds;
      is_thinkpad = thinkpad.is_thinkpad;
      page = show_ready s.page;
    },
    [],
  )
