-- ===== src/Core/Report/Redacted.antt =====
-- What the exported document may depend on (core/report.py).
use lapcare.Common.{String, some, ◌≡◌}
use lapcare.Models.{SystemIdentity, OsInfo, DiagnosticsReport}
use lapcare.Json.{Json}
use lapcare.Core.Report.{to_json, document, system_fields}

-- Two machines that agree in family, product name, vendor, BIOS version, distribution and kernel
-- give the same document for one diagnostics report, whatever their serial numbers, boards and host
-- names are.
pub to_json-redacts :
    {F : Type 0} (dumps : Json → String) (generated app_version : String) (i j : SystemIdentity)
    (o p : OsInfo F) (diagnostics : DiagnosticsReport)
    → i.product_family ≡ j.product_family
    → i.product_name ≡ j.product_name
    → i.vendor ≡ j.vendor
    → i.bios_version ≡ j.bios_version
    → o.distro_name ≡ p.distro_name
    → o.kernel ≡ p.kernel
    → to_json dumps generated app_version (some i) (some o) diagnostics
      ≡ to_json dumps generated app_version (some j) (some p) diagnostics
unfolding to_json document system_fields
to_json-redacts dumps generated app_version i j o p diagnostics family name vendor bios distro
      kernel =
    rw family (rw name (rw vendor (rw bios (rw distro (rw kernel)))))
