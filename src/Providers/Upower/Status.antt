-- ===== src/Providers/Upower/Status.antt =====
-- What a read of the batteries' status gives (providers/upower.py).
use lapcare.Common.{
  String, Bool, true, false, Option, none, some, List, [], ◌∷◌, ◌++◌, ◌≡◌, refl, sym, arith, All,
  if◌then◌else◌,
}
use lapcare.Common.Int.{ℤ, pos, eqb_ℤ}
use lapcare.Common.Sort.{sorted, InOrder, sorted-InOrder, sorted-All}
use lapcare.Float.{Float}
use lapcare.Models.{BatteryStatus}
use lapcare.Errors.{lapcare_error, foreign}
use lapcare.Exec.{Exec, Result, ok, err, pure, lift, ◌>>=◌, Conforms}
use lapcare.Exec.Laws.{bind-Conforms, bind_ok, ok-injective}
use lapcare.Python.{Str}
use lapcare.Providers.Upower.{
  Value, number, double, text, boolean, container, Props, Reply, answered, refused, Bus, Library,
  ◌|>◌, converted, to_int, to_float, int_or_0, float_or_none, battery_of, is_battery, get, nonzero,
  State, settled, raise_unavailable, raise_failed, set_connected, connect_first, connection, call,
  status_at, statuses_at, read_status,
}

then-Conforms :
    {A B : Type 0} (r : Result A) (f : A → Result B)
    → Conforms r
    → ((a : A) → Conforms (f a))
    → Conforms (r |> f)
then-Conforms (ok a) f h k = k a
then-Conforms (err (lapcare_error e)) f h k = tt
then-Conforms (err (foreign s)) f h k = h

module _ {F : Type 0} ⦃fl : Float F⦄ (lib : Library F) (path : String) where
  converted-Conforms : {A : Type 0} (v : Value F) (o : Option A) → Conforms (converted lib path v o)
  converted-Conforms v none = tt
  converted-Conforms v (some a) = tt

  to_int-Conforms : (v : Value F) → Conforms (to_int lib path v)
  to_int-Conforms (number n) = tt
  to_int-Conforms (double x) = tt
  to_int-Conforms (text s) = converted-Conforms (text s) (lib.parse_int s)
  to_int-Conforms (boolean b) = tt
  to_int-Conforms (container b) = tt

  to_float-Conforms : (v : Value F) → Conforms (to_float lib path v)
  to_float-Conforms (number n) = tt
  to_float-Conforms (double x) = tt
  to_float-Conforms (text s) = converted-Conforms (text s) (lib.parse_float s)
  to_float-Conforms (boolean b) = tt
  to_float-Conforms (container b) = tt

  int-Conforms : (o : Option (Value F)) → Conforms (int_or_0 lib path o)
  int-Conforms none = tt
  int-Conforms (some v) = to_int-Conforms v

  float-Conforms : (o : Option (Value F)) → Conforms (float_or_none lib path o)
  float-Conforms none = tt
  float-Conforms (some v) = then-Conforms (to_float lib path v) _ (to_float-Conforms v) (λ x. tt)

  battery_of-Conforms : (props : Props F) → Conforms (battery_of lib path props)
  unfolding battery_of
  battery_of-Conforms props =
      then-Conforms (int_or_0 lib path (get "TimeToEmpty" props)) _
        (int-Conforms (get "TimeToEmpty" props))
        (λ a.
          then-Conforms (int_or_0 lib path (get "TimeToFull" props)) _
            (int-Conforms (get "TimeToFull" props))
            (λ b.
              then-Conforms (int_or_0 lib path (get "State" props)) _
                (int-Conforms (get "State" props))
                (λ c.
                  then-Conforms (float_or_none lib path (get "Percentage" props)) _
                    (float-Conforms (get "Percentage" props))
                    (λ d.
                      then-Conforms (float_or_none lib path (get "EnergyRate" props)) _
                        (float-Conforms (get "EnergyRate" props)) (λ e. tt)))))

module _ {W F : Type 0} (bus : Bus W F) where
  settled-Conforms :
      {A B : Type 0} (reply : Reply A) (f : A → Exec (State W) B) (h : String → Exec (State W) B)
      (s : State W)
      → ((a : A) → Conforms (f a s).0)
      → ((detail : String) → Conforms (h detail s).0)
      → Conforms (settled reply f h s).0
  settled-Conforms (answered a) f h s hf hh = hf a
  settled-Conforms (refused e) f h s hf hh = hh e

  first-Conforms : (connected : Bool) (s : State W) → Conforms (connect_first bus connected s).0
  first-Conforms true s = tt
  first-Conforms false (c, w) =
      settled-Conforms (bus.connect w).0 (λ _. set_connected) raise_unavailable
        (c, (bus.connect w).1) (λ a. tt) (λ e. tt)

  failed-Conforms :
      (py : Str) (A : Type 0) (detail : String) (s : State W)
      → Conforms {A = A} (raise_failed py detail s).0
  failed-Conforms py A detail s = ground arith

  call-Conforms :
      (py : Str) {A : Type 0} (m : W → Reply A × W) (s : State W) → Conforms (call bus py m s).0
  unfolding call connection
  call-Conforms py {A} m =
      bind-Conforms (connection bus) _ (λ (c, w). first-Conforms c (c, w))
        (λ u (c, w).
          settled-Conforms (m w).0 pure (raise_failed py) (c, (m w).1) (λ a. tt)
            (λ detail. failed-Conforms py A detail (c, (m w).1)))

  module _ ⦃fl : Float F⦄ (py : Str) (lib : Library F) where
    kept-Conforms :
        (b : Bool) (m : Exec (State W) (List (BatteryStatus F))) (s : State W)
        → Conforms (m s).0
        → Conforms ((if b then m else pure []) s).0
    kept-Conforms true m s h = h
    kept-Conforms false m s h = tt

    status_at-Conforms :
        (path : String) (props : Props F) (s : State W)
        → Conforms (status_at bus py lib path props s).0
    status_at-Conforms path props s = kept-Conforms (is_battery props) _ s (
        bind-Conforms (lift (battery_of lib path props)) _ (λ s. battery_of-Conforms lib path props)
          (λ b s. tt) s)

    statuses_at-Conforms :
        (paths : List String) (s : State W) → Conforms (statuses_at bus py lib paths s).0
    unfolding statuses_at
    statuses_at-Conforms [] s = tt
    statuses_at-Conforms (path ∷ paths) s =
        bind-Conforms (call bus py (bus.get_all path)) _ (call-Conforms py (bus.get_all path))
          (λ props.
            bind-Conforms (status_at bus py lib path props) _ (status_at-Conforms path props)
              (λ found.
                bind-Conforms (statuses_at bus py lib paths) _ (statuses_at-Conforms paths)
                  (λ rest s. tt)))
          s

    -- Whatever the bus answers and whatever a device's properties are, a read of the status ends with
    -- batteries or with an exception of the hierarchy.
    pub read_status-Conforms : (s : State W) → Conforms (read_status bus py lib s).0
    unfolding read_status
    read_status-Conforms =
        bind-Conforms (call bus py bus.enumerate_devices) _ (call-Conforms py bus.enumerate_devices)
          (λ paths.
            bind-Conforms (statuses_at bus py lib paths) _ (statuses_at-Conforms paths)
              (λ bs s. tt))

-- A time that is known is not 0.
abbrev pub IsKnown : Option ℤ → Type 0
IsKnown none = Unit
IsKnown (some n) = eqb_ℤ n (pos 0) ≡ false

abbrev pub HasTimes : {F : Type 0} → BatteryStatus F → Type 0
HasTimes b = IsKnown b.time_to_empty_s × IsKnown b.time_to_full_s

nonzero-IsKnown : (n : ℤ) → IsKnown (nonzero n)
nonzero-IsKnown n = ground arith

then_ok :
    {A B : Type 0} (r : Result A) (f : A → Result B) (b : B)
    → (r |> f) ≡ ok b
    → (a : A) × (r ≡ ok a) × (f a ≡ ok b)
then_ok (ok a) f b h = (a, refl, h)
then_ok (err e) f b h = cc

module _ {W F : Type 0} (bus : Bus W F) ⦃fl : Float F⦄ (py : Str) (lib : Library F) where
  battery_of-HasTimes :
      (path : String) (props : Props F) (b : BatteryStatus F)
      → battery_of lib path props ≡ ok b
      → HasTimes b
  unfolding battery_of
  battery_of-HasTimes path props b h =
      let (to_empty, _, h₁) = then_ok (int_or_0 lib path (get "TimeToEmpty" props)) _ b h in
      let (to_full, _, h₂) = then_ok (int_or_0 lib path (get "TimeToFull" props)) _ b h₁ in
      let (state, _, h₃) = then_ok (int_or_0 lib path (get "State" props)) _ b h₂ in
      let (percentage, _, h₄) = then_ok (float_or_none lib path (get "Percentage" props)) _ b h₃ in
      let (rate, _, h₅) = then_ok (float_or_none lib path (get "EnergyRate" props)) _ b h₄ in
      rw (sym (ok-injective _ b h₅)) (nonzero-IsKnown to_empty, nonzero-IsKnown to_full)

  status_at-HasTimes :
      (k : Bool) (path : String) (props : Props F) (s : State W) (bs : List (BatteryStatus F))
      → ((if k then (lift (battery_of lib path props) >>= λ b. pure (b ∷ [])) else pure []) s).0
        ≡ ok bs
      → All HasTimes bs
  status_at-HasTimes true path props s bs h =
      let (b, e, h') = bind_ok (lift (battery_of lib path props)) _ s bs h in
      rw (sym (ok-injective (b ∷ []) bs h')) (battery_of-HasTimes path props b e, tt)
  status_at-HasTimes false path props s bs h = rw (sym (ok-injective [] bs h)) tt

  append-All :
      (xs ys : List (BatteryStatus F)) → All HasTimes xs → All HasTimes ys → All HasTimes (xs ++ ys)
  append-All [] ys h k = k
  append-All (x ∷ xs) ys h k = (h.0, append-All xs ys h.1 k)

  statuses_at-HasTimes :
      (paths : List String) (s : State W) (bs : List (BatteryStatus F))
      → (statuses_at bus py lib paths s).0 ≡ ok bs
      → All HasTimes bs
  unfolding statuses_at
  statuses_at-HasTimes [] s bs h = rw (sym (ok-injective [] bs h)) tt
  statuses_at-HasTimes (path ∷ paths) s bs h =
      let (props, _, h₁) = bind_ok (call bus py (bus.get_all path)) _ s bs h in
      let s₁ = (call bus py (bus.get_all path) s).1 in
      let (found, e, h₂) = bind_ok (status_at bus py lib path props) _ s₁ bs h₁ in
      let s₂ = (status_at bus py lib path props s₁).1 in
      let (rest, e', h₃) = bind_ok (statuses_at bus py lib paths) _ s₂ bs h₂ in
      rw (sym (ok-injective (found ++ rest) bs h₃)) (
        append-All found rest (status_at-HasTimes (is_battery props) path props s₁ found e)
          (statuses_at-HasTimes paths s₂ rest e'))

  -- The batteries of a read are in the order of their names, and a time of 0, which UPower gives for
  -- an unknown one, is never among them.
  pub read_status_lem :
      (s : State W) (bs : List (BatteryStatus F))
      → (read_status bus py lib s).0 ≡ ok bs
      → InOrder (λ b. b.name) bs × All HasTimes bs
  unfolding read_status
  read_status_lem s bs h =
      let (paths, _, h₁) = bind_ok (call bus py bus.enumerate_devices) _ s bs h in
      let s₁ = (call bus py bus.enumerate_devices s).1 in
      let (found, e, h₂) = bind_ok (statuses_at bus py lib paths) _ s₁ bs h₁ in
      rw (sym (ok-injective (sorted (λ b. b.name) found) bs h₂)) (
        sorted-InOrder (λ b. b.name) found,
        sorted-All (λ b. b.name) HasTimes found (statuses_at-HasTimes paths s₁ found e),
      )
