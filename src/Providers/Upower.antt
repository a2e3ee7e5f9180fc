-- ===== src/Providers/Upower.antt =====
-- src/lapcare/providers/upower.py
pub mod Status
pub mod Subscribe
pub mod Port
use lapcare.Common.{
  ℕ, String, Bool, true, false, not, ◌&&◌, ◌||◌, Option, none, some, List, [], ◌∷◌, ◌++◌, str_eq,
  if◌then◌else◌,
}
use lapcare.Common.Int.{ℤ, pos, eqb_ℤ}
use lapcare.Common.Text.{◌⧺◌}
use lapcare.Common.Sort.{sorted}
use lapcare.Float.{Float, lit}
use lapcare.Models.{
  Availability, available, tool_missing, BatteryState, charging, discharging, not_charging, full,
  empty, unknown, BatteryStatus,
}
use lapcare.Errors.{
  LapcareError, Exc, lapcare_error, provider_unavailable, provider_timeout, provider_parse_error,
}
use lapcare.Exec.{Exec, Result, ok, err, pure, raise, lift, try, ◌>>=◌}
use lapcare.Python.{Str}

abbrev pub source : String
source = "upower"

-- `Type` of a battery
abbrev pub battery_type : ℕ
battery_type = 2

-- A property's value after `unpack()`; a container is only asked whether it is empty.
pub data Value (F : Type 0) : Type 0 where
  number : ℤ → Value F
  double : F → Value F
  text : String → Value F
  boolean : Bool → Value F
  container : Bool → Value F

-- A result, and what is done with it.
infixl 5 ◌|>◌
abbrev pub ◌|>◌ : {A B : Type 0} → Result A → (A → Result B) → Result B
ok a |> f = f a
err e |> f = err e

-- A dict from names to values.
abbrev pub Props : Type 0 → Type 0
Props F = List (String × Value F)

-- A call on the bus: what it gives, or the message of a `GLib.Error`.
pub data Reply (A : Type 0) : Type 0 where
  answered : A → Reply A
  refused : String → Reply A

-- The bus and the daemon: `bus_factory()`, `NameHasOwner`, `EnumerateDevices` and `GetAll`.
pub record Bus (W F : Type 0) : Type 0 where
  pub connect : W → Reply (Unit {0}) × W
  pub name_has_owner : W → Reply Bool × W
  pub enumerate_devices : W → Reply (List String) × W
  pub get_all : String → W → Reply (Props F) × W

-- Python's conversions of a value: `int` of a finite number and of a text, `float` of a text, `str`
-- of what is no text, and the text of the exception of a conversion; `path.rsplit("/", 1)[-1]`.
pub record Library (F : Type 0) : Type 0 where
  pub trunc : F → ℤ
  pub parse_int : String → Option ℤ
  pub parse_float : String → Option F
  pub shown : Value F → String
  pub not_a_number : Value F → String
  pub last_part : String → String

abbrev pub get : {F : Type 0} → String → Props F → Option (Value F)
get key [] = none
get key ((k, v) ∷ rest) = if str_eq k key then some v else get key rest

-- `_STATE_MAP.get(state, BatteryState.UNKNOWN)`
unfoldable pub state_of : ℤ → BatteryState
state_of n =
    if eqb_ℤ n (pos 1)
    then charging
    else if eqb_ℤ n (pos 2)
    then discharging
    else if eqb_ℤ n (pos 3)
    then empty
    else if eqb_ℤ n (pos 4)
    then full
    else if eqb_ℤ n (pos 5) || eqb_ℤ n (pos 6)
    then not_charging
    else unknown

-- `int(value) or None`
abbrev pub nonzero : ℤ → Option ℤ
nonzero n = if eqb_ℤ n (pos 0) then none else some n

abbrev pub bit : Bool → ℤ
bit b = if b then pos 1 else pos 0

module _ {F : Type 0} ⦃fl : Float F⦄ where
  -- `x == n` for finite values
  abbrev pub is_literal : ℕ → F → Bool
  is_literal n x = not (fl.lt x (lit n)) && not (fl.lt (lit n) x)

  -- `props.get("Type") != 2`, negated
  abbrev pub is_type : Option (Value F) → Bool
  is_type (some (number n)) = eqb_ℤ n (pos battery_type)
  is_type (some (double x)) = is_literal battery_type x
  is_type _ = false

  abbrev pub truth : Value F → Bool
  truth (number n) = not (eqb_ℤ n (pos 0))
  truth (double x) = not (is_literal 0 x)
  truth (text s) = not (str_eq s "")
  truth (boolean b) = b
  truth (container filled) = filled

  -- `props.get("PowerSupply", False)` as a condition
  abbrev pub is_true : Option (Value F) → Bool
  is_true none = false
  is_true (some v) = truth v

  abbrev pub str : Library F → Value F → String
  str lib (text s) = s
  str lib v = lib.shown v

  -- `props.get("NativePath") or path.rsplit("/", 1)[-1]`, as a text
  abbrev pub native_name : Library F → String → Option (Value F) → String
  native_name lib path none = lib.last_part path
  native_name lib path (some v) = if truth v then str lib v else lib.last_part path

  module _ (lib : Library F) (path : String) where
    -- A conversion; its exception is that of the `except` clause.
    abbrev pub converted : {A : Type 0} → Value F → Option A → Result A
    converted v none =
        err (
          lapcare_error
            (provider_parse_error source ("device " ⧺ path ⧺ ": " ⧺ lib.not_a_number v)))
    converted v (some a) = ok a

    abbrev pub to_int : Value F → Result ℤ
    to_int (number n) = ok n
    to_int (double x) = ok (lib.trunc x)
    to_int (text s) = converted (text s) (lib.parse_int s)
    to_int (boolean b) = ok (bit b)
    to_int (container filled) = converted (container filled) none

    abbrev pub to_float : Value F → Result F
    to_float (number n) = ok (fl.of_int n)
    to_float (double x) = ok x
    to_float (text s) = converted (text s) (lib.parse_float s)
    to_float (boolean b) = ok (fl.of_int (bit b))
    to_float (container filled) = converted (container filled) none

    -- `int(props.get(key, 0))`
    abbrev pub int_or_0 : Option (Value F) → Result ℤ
    int_or_0 none = ok (pos 0)
    int_or_0 (some v) = to_int v

    -- `float(props[key]) if key in props else None`
    abbrev pub float_or_none : Option (Value F) → Result (Option F)
    float_or_none none = ok none
    float_or_none (some v) = to_float v |> λ x. ok (some x)

    unfoldable pub battery_of : Props F → Result (BatteryStatus F)
    unfolding state_of
    battery_of props = int_or_0 (get "TimeToEmpty" props) |> λ to_empty.
        int_or_0 (get "TimeToFull" props) |> λ to_full. int_or_0 (get "State" props) |> λ state.
        float_or_none (get "Percentage" props) |> λ percentage.
        float_or_none (get "EnergyRate" props) |> λ rate. ok (record {
          name = native_name lib path (get "NativePath" props);
          state = state_of state;
          percentage = percentage;
          time_to_empty_s = nonzero to_empty;
          time_to_full_s = nonzero to_full;
          energy_rate_w = rate;
        })

  abbrev pub is_battery : Props F → Bool
  is_battery props = is_type (get "Type" props) && is_true (get "PowerSupply" props)

-- `ProviderUnavailable(SOURCE, Availability.TOOL_MISSING, tool="upower")`
abbrev pub unavailable : LapcareError
unavailable = provider_unavailable source tool_missing (some "upower")

-- Whether the provider's `_bus` is set, and the world.
abbrev pub State : Type 0 → Type 0
State W = Bool × W

module _ {W : Type 0} where
  abbrev pub settled :
      {A B : Type 0}
      → Reply A
      → (A → Exec (State W) B)
      → (String → Exec (State W) B)
      → Exec (State W) B
  settled (answered a) f h = f a
  settled (refused detail) f h = h detail

  -- `try: a = m` with `except GLib.Error as exc: h`, then `f a`.
  abbrev pub attempt :
      {A B : Type 0}
      → (W → Reply A × W)
      → (A → Exec (State W) B)
      → (String → Exec (State W) B)
      → Exec (State W) B
  attempt m f h (connected, w) = let (r, w') = m w in settled r f h (connected, w')

  abbrev pub raise_unavailable : {A : Type 0} → String → Exec (State W) A
  raise_unavailable detail = raise (lapcare_error unavailable)

  abbrev pub set_connected : Exec (State W) (Unit {0})
  set_connected (connected, w) = (ok tt, (true, w))

  -- `except ProviderUnavailable`, in `availability`
  abbrev pub or_missing : Exc → Exec (State W) Availability
  or_missing (lapcare_error (provider_unavailable s r t)) = pure tool_missing
  or_missing e = raise e

  abbrev pub raise_failed : {A : Type 0} → Str → String → Exec (State W) A
  raise_failed py detail = raise (
      lapcare_error
        (if py.contains "Timeout" detail then provider_timeout source detail else unavailable))

module _ {W F : Type 0} (bus : Bus W F) where
  abbrev pub connect_first : Bool → Exec (State W) (Unit {0})
  connect_first true = pure tt
  connect_first false = attempt bus.connect (λ _. set_connected) raise_unavailable

  unfoldable pub connection : Exec (State W) (Unit {0})
  connection (connected, w) = (connect_first connected) (connected, w)

  -- `_call`, with the arguments of the call in `m`
  unfoldable pub call : Str → {A : Type 0} → (W → Reply A × W) → Exec (State W) A
  unfolding connection
  call py m = connection >>= λ _. attempt m pure (raise_failed py)

  unfoldable pub availability : Exec (State W) Availability
  unfolding connection
  availability =
      try
        (connection >>= λ _.
          attempt bus.name_has_owner
            (λ has_owner. pure (if has_owner then available else tool_missing))
            (λ detail. pure tool_missing))
        or_missing

  module _ ⦃fl : Float F⦄ (py : Str) (lib : Library F) where
    -- One device: nothing, unless it is the machine's own battery.
    abbrev pub status_at : String → Props F → Exec (State W) (List (BatteryStatus F))
    status_at path props =
        if is_battery props
        then (lift (battery_of lib path props) >>= λ b. pure (b ∷ []))
        else pure []

    unfoldable pub statuses_at : List String → Exec (State W) (List (BatteryStatus F))
    unfolding call battery_of
    statuses_at [] = pure []
    statuses_at (path ∷ paths) = do
      props ← call py (bus.get_all path)
      found ← status_at path props
      rest ← statuses_at paths
      pure (found ++ rest)

    unfoldable pub read_status : Exec (State W) (List (BatteryStatus F))
    unfolding call statuses_at sorted
    read_status = do
      paths ← call py bus.enumerate_devices
      batteries ← statuses_at paths
      pure (sorted (λ b. b.name) batteries)
