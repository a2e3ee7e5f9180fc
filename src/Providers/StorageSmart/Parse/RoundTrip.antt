-- ===== src/Providers/StorageSmart/Parse/RoundTrip.antt =====
-- smartctl's document for a report, and reading it back (providers/storage_smart.py).
use lapcare.Common.{
  ℕ, String, Bool, false, Option, none, some, List, [], ◌∷◌, ◌≡◌, refl, ap, str_eq,
}
use lapcare.Common.Int.{ℤ, pos}
use lapcare.Models.{SmartReport}
use lapcare.Json.{
  Json, Items, Fields, null, boolean, integer, text, array, object, nil, item, end, field,
}
use lapcare.Providers.StorageSmart.Parse.{
  as_int, as_bool, nonempty_text, message_texts, parse_report, nvme_log, first_some,
}

abbrev int_json : Option ℤ → Json
int_json none = null
int_json (some n) = integer n

abbrev bool_json : Option Bool → Json
bool_json none = null
bool_json (some b) = boolean b

abbrev text_json : Option String → Json
text_json none = null
text_json (some s) = text s

abbrev ata_row : ℕ → Option ℤ → Json
ata_row attr_id value = object (
    field "id" (integer (pos attr_id))
      (field "raw" (object (field "value" (int_json value) end)) end))

pub message_items : List String → Items
message_items [] = nil
message_items (s ∷ ss) = item (object (field "string" (text s) end)) (message_items ss)

-- An independent statement of the format: where smartctl puts what a report holds. A field that is
-- missing is written as null.
pub document_of : SmartReport → Fields
unfolding message_items
document_of r =
    field "smartctl" (object (field "messages" (array (message_items r.messages)) end)) (
      field "model_name" (text_json r.model) (
        field "serial_number" (text_json r.serial_number) (
          field "firmware_version" (text_json r.firmware_version) (
            field "smart_status" (object (field "passed" (bool_json r.passed) end)) (
              field nvme_log
                (object (
                  field "critical_warning" (int_json r.critical_warning) (
                    field "available_spare" (int_json r.available_spare_pct) (
                      field "percentage_used" (int_json r.percentage_used) (
                        field "media_errors" (int_json r.media_errors)
                          (field "unsafe_shutdowns" (int_json r.unsafe_shutdowns) end))))))
                (field "temperature" (object (field "current" (int_json r.temperature_c) end)) (
                  field "power_cycle_count" (int_json r.power_cycles) (
                    field "power_on_time" (object (field "hours" (int_json r.power_on_hours) end)) (
                      field "ata_smart_attributes"
                        (object (
                          field "table"
                            (array (
                              item (ata_row 5 r.reallocated_sectors)
                                (item (ata_row 197 r.pending_sectors) nil)))
                            end))
                        end)))))))))

-- Its texts are not empty, where they are there.
abbrev pub IsShown : Option String → Type 0
IsShown none = Unit
IsShown (some s) = str_eq s "" ≡ false

as_int-json : (o : Option ℤ) → as_int (some (int_json o)) ≡ o
as_int-json none = refl
as_int-json (some n) = refl

as_bool-json : (o : Option Bool) → as_bool (some (bool_json o)) ≡ o
as_bool-json none = refl
as_bool-json (some b) = refl

text-json : (o : Option String) → IsShown o → nonempty_text (some (text_json o)) ≡ o
text-json none h = refl
text-json (some s) h = rw h

first_some-none : (o : Option ℤ) → first_some o none ≡ o
first_some-none none = refl
first_some-none (some n) = refl

message_texts-items : (ss : List String) → message_texts (message_items ss) ≡ ss
unfolding message_texts message_items
message_texts-items [] = refl
message_texts-items (s ∷ ss) = ap (λ xs. s ∷ xs) (message_texts-items ss)

-- The parser reads back, field by field, the document of every report whose model, firmware version
-- and serial number are not empty where they are there.
pub parse_report-document_of :
    (r : SmartReport)
    → IsShown r.model
    → IsShown r.firmware_version
    → IsShown r.serial_number
    → parse_report r.device_name (document_of r) ≡ r
unfolding parse_report document_of
parse_report-document_of r model firmware serial = simp (
  as_bool-json r.passed,
  as_int-json r.temperature_c,
  as_int-json r.power_on_hours,
  as_int-json r.power_cycles,
  as_int-json r.percentage_used,
  as_int-json r.available_spare_pct,
  as_int-json r.media_errors,
  as_int-json r.critical_warning,
  as_int-json r.unsafe_shutdowns,
  as_int-json r.reallocated_sectors,
  as_int-json r.pending_sectors,
  first_some-none,
  text-json r.model model,
  text-json r.firmware_version firmware,
  text-json r.serial_number serial,
  message_texts-items r.messages,
)
