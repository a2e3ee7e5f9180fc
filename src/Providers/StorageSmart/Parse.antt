-- ===== src/Providers/StorageSmart/Parse.antt =====
-- Reading `smartctl --json` (src/lapcare/providers/storage_smart.py).
pub mod RoundTrip
use lapcare.Common.{
  ℕ, String, Bool, true, false, ◌&&◌, Option, none, some, List, [], ◌∷◌, str_eq, if◌then◌else◌,
}
use lapcare.Common.Int.{ℤ, pos, eqb_ℤ}
use lapcare.Models.{SmartReport}
use lapcare.Json.{
  Json, Items, Fields, null, boolean, integer, real, text, array, object, nil, item, get,
}

-- `isinstance(node, int) and not isinstance(node, bool)`
abbrev pub as_int : Option Json → Option ℤ
as_int (some (integer n)) = some n
as_int _ = none

abbrev pub as_bool : Option Json → Option Bool
as_bool (some (boolean b)) = some b
as_bool _ = none

-- `node.get(key)`, if the node is a dict
abbrev pub child : String → Option Json → Option Json
child key (some (object fields)) = get key fields
child key _ = none

-- A path that leaves the dicts gives nothing.
abbrev pub follow : List String → Option Json → Option Json
follow [] node = node
follow (key ∷ path) node = follow path (child key node)

abbrev pub get_int : Fields → List String → Option ℤ
get_int fields path = as_int (follow path (some (object fields)))

abbrev pub nonempty_text : Option Json → Option String
nonempty_text (some (text s)) = if str_eq s "" then none else some s
nonempty_text _ = none

abbrev pub get_str : Fields → String → Option String
get_str fields key = nonempty_text (get key fields)

-- `value == n` for an int: a bool and a float may be equal to one.
abbrev pub equals_int : ℤ → Option Json → Bool
equals_int n (some (integer m)) = eqb_ℤ m n
equals_int n (some (real (some m))) = eqb_ℤ m n
equals_int n (some (boolean true)) = eqb_ℤ (pos 1) n
equals_int n (some (boolean false)) = eqb_ℤ (pos 0) n
equals_int n _ = false

-- `row["raw"]["value"]` of the first row of this id that has one.
abbrev pub first_some : Option ℤ → Option ℤ → Option ℤ
first_some (some n) later = some n
first_some none later = later

pub raw_value_in : ℤ → Items → Option ℤ
raw_value_in attr_id nil = none
raw_value_in attr_id (item row rows) =
    let later = raw_value_in attr_id rows in
    if equals_int attr_id (child "id" (some row))
    then first_some (as_int (child "value" (child "raw" (some row)))) later
    else later

abbrev pub in_rows : ℤ → Option Json → Option ℤ
in_rows attr_id (some (array rows)) = raw_value_in attr_id rows
in_rows attr_id _ = none

pub ata_raw_value : Fields → ℤ → Option ℤ
unfolding raw_value_in
ata_raw_value fields attr_id =
    in_rows attr_id (child "table" (child "ata_smart_attributes" (some (object fields))))

abbrev pub cons_text : Option Json → List String → List String
cons_text (some (text s)) rest = s ∷ rest
cons_text _ rest = rest

pub message_texts : Items → List String
message_texts nil = []
message_texts (item entry entries) = cons_text (child "string" (some entry)) (message_texts entries)

abbrev pub in_entries : Option Json → List String
in_entries (some (array entries)) = message_texts entries
in_entries _ = []

pub messages : Fields → List String
unfolding message_texts
messages fields = in_entries (child "messages" (child "smartctl" (some (object fields))))

abbrev pub nvme_log : String
nvme_log = "nvme_smart_health_information_log"

unfoldable pub parse_report : String → Fields → SmartReport
unfolding ata_raw_value messages
parse_report device_name fields = record {
  device_name = device_name;
  passed = as_bool (child "passed" (get "smart_status" fields));
  temperature_c = get_int fields ("temperature" ∷ "current" ∷ []);
  power_on_hours = get_int fields ("power_on_time" ∷ "hours" ∷ []);
  power_cycles = get_int fields ("power_cycle_count" ∷ []);
  percentage_used = get_int fields (nvme_log ∷ "percentage_used" ∷ []);
  available_spare_pct = get_int fields (nvme_log ∷ "available_spare" ∷ []);
  media_errors = get_int fields (nvme_log ∷ "media_errors" ∷ []);
  critical_warning = get_int fields (nvme_log ∷ "critical_warning" ∷ []);
  unsafe_shutdowns = get_int fields (nvme_log ∷ "unsafe_shutdowns" ∷ []);
  reallocated_sectors = ata_raw_value fields (pos 5);
  pending_sectors = ata_raw_value fields (pos 197);
  model = get_str fields "model_name";
  firmware_version = get_str fields "firmware_version";
  serial_number = get_str fields "serial_number";
  messages = messages fields;
}
