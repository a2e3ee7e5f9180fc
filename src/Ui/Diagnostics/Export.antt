-- ===== src/Ui/Diagnostics/Export.antt =====
-- Writing the report (ui/pages/diagnostics/view_model.py).
use lapcare.Common.{String, Option, none, some, ◌≡◌}
use lapcare.Models.{DiagnosticsReport}
use lapcare.Exec.{Exec, pure, ◌>>=◌, Conforms, Returns}
use lapcare.Exec.Laws.{bind-Conforms, bind-Returns, try-Returns, or_else-Returns}
use lapcare.Core.Ports.{SystemIdentityProvider, OsInfoProvider, ReportWriter}
use lapcare.Ui.Diagnostics.{
  Library, Providers, DiagnosticsPage, suppressed, ask_identity, ask_os, content, asserted,
  write_report, render_and_write,
}

module _ {W : Type 0} where
  suppressed-Returns :
      {A : Type 0} (m : Exec W A)
      → ((w : W) → Conforms (m w).0)
      → (w : W) → Returns (suppressed m w).0
  suppressed-Returns m h w =
      try-Returns (m >>= λ a. pure (some a)) _ (bind-Conforms m _ h (λ a w'. tt))
        (or_else-Returns none) w

  -- The provider, if there is one, raises exceptions of the hierarchy only.
  abbrev pub IdentityPort : Option (SystemIdentityProvider W) → Type 0
  IdentityPort none = Unit
  IdentityPort (some p) = (w : W) → Conforms (p.read_identity w).0

  abbrev pub OsPort : {F : Type 0} → Option (OsInfoProvider W F) → Type 0
  OsPort none = Unit
  OsPort (some p) = (w : W) → Conforms (p.read_os w).0

  ask_identity-Returns :
      (p : Option (SystemIdentityProvider W))
      → IdentityPort p
      → (w : W) → Returns (ask_identity p w).0
  ask_identity-Returns none h w = tt
  ask_identity-Returns (some p) h w = suppressed-Returns p.read_identity h w

  ask_os-Returns :
      {F : Type 0} (p : Option (OsInfoProvider W F)) → OsPort p → (w : W) → Returns (ask_os p w).0
  ask_os-Returns none h w = tt
  ask_os-Returns (some p) h w = suppressed-Returns p.read_os h w

  asserted-Returns :
      (r : Option DiagnosticsReport) (o : Option (ReportWriter W))
      (k : DiagnosticsReport → ReportWriter W → Exec W String) (report : DiagnosticsReport)
      (writer : ReportWriter W) (w : W)
      → r ≡ some report
      → o ≡ some writer
      → Returns (k report writer w).0
      → Returns (asserted r o k w).0
  asserted-Returns r o k report writer w last given h = rw last (rw given h)

module _ {W F : Type 0} (lib : Library) (p : Providers W F) (s : DiagnosticsPage) where
  write_report-Returns :
      (report : DiagnosticsReport) (writer : ReportWriter W) (path : String)
      → IdentityPort p.identity
      → OsPort p.os_info
      → ((text : String) (w : W) → Returns (writer.write path text w).0)
      → (w : W) → Returns (write_report lib p s path report writer w).0
  unfolding write_report
  write_report-Returns report writer path identity os writes =
      bind-Returns (ask_identity p.identity) _ (ask_identity-Returns p.identity identity) (λ i.
        bind-Returns (ask_os p.os_info) _ (ask_os-Returns p.os_info os) (λ o.
          bind-Returns (writer.write path (content lib s report path i o)) (λ u. pure path)
            (writes (content lib s report path i o)) (λ u w'. tt)))

  -- A report without system context is still a report: with a report to write and a writer that
  -- can write it, an export succeeds, also if the identity and the system information cannot be
  -- read.
  pub render_and_write-Returns :
      (report : DiagnosticsReport) (writer : ReportWriter W) (path : String)
      → s.last_report ≡ some report
      → p.writer ≡ some writer
      → IdentityPort p.identity
      → OsPort p.os_info
      → ((text : String) (w : W) → Returns (writer.write path text w).0)
      → (w : W) → Returns (render_and_write lib p s path w).0
  unfolding render_and_write
  render_and_write-Returns report writer path last given identity os writes w =
      asserted-Returns s.last_report p.writer (write_report lib p s path) report writer w last given
        (write_report-Returns report writer path identity os writes w)
