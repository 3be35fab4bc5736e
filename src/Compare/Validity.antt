-- ===== src/Compare/Validity.antt =====
-- src/upgrade_guard/compare/validity.py: why a measurement block is discarded. Floats enter through
-- their comparison.
use tensorrt_upgrade_guard.Prelude.{
  ℕ, String, string_eq, eq_iff, ◌=?◌, ◌≡◌, ◌↔◌, ◌≤◌, refl, arith, Bool, true, false, not, Option,
  none, some, List, [], ◌∷◌, ltb, if◌then◌else◌,
}

pub record ValidityObservation (F : Type 0) : Type 0 where
  pub gpu_uuid : String
  pub expected_gpu_uuid : String
  pub temperature_celsius : Option F
  pub maximum_temperature_celsius : F
  pub utilization_percent_before : Option F
  pub maximum_idle_utilization_percent : F
  pub competing_compute_processes : List String
  pub graphics_clock_mhz : Option ℕ
  pub minimum_graphics_clock_mhz : Option ℕ

is_nonempty : List String → Bool
is_nonempty [] = false
is_nonempty (p ∷ processes) = true

below : Option ℕ → Option ℕ → Bool
below (some a) (some b) = ltb a b
below _ _ = false

module _ {F : Type 0} (above : F → F → Bool) where
  exceeds : Option F → F → Bool
  exceeds none bound = false
  exceeds (some x) bound = above x bound

  -- `if test: reasons.append(reason)`
  abbrev reason : Bool → String → List String → List String
  reason test text rest = if test then text ∷ rest else rest

  pub rejection_reasons : ValidityObservation F → List String
  rejection_reasons o = reason (not (o.gpu_uuid =? o.expected_gpu_uuid)) "gpu_uuid_changed" (
      reason (exceeds o.temperature_celsius o.maximum_temperature_celsius)
        "temperature_limit_exceeded"
        (reason (exceeds o.utilization_percent_before o.maximum_idle_utilization_percent)
          "gpu_not_idle_before_block"
          (reason (is_nonempty o.competing_compute_processes) "competing_compute_process" (
            reason (below o.graphics_clock_mhz o.minimum_graphics_clock_mhz)
              "graphics_clock_below_policy" []))))

  -- An observed value is not above the bound.
  abbrev pub Within : Option F → F → Type 0
  Within none bound = Unit
  Within (some x) bound = above x bound ≡ false

  abbrev pub AtLeast : Option ℕ → Option ℕ → Type 0
  AtLeast (some a) (some b) = b ≤ a
  AtLeast _ _ = Unit

  -- A block on the expected device, whose observed values keep the policy, alone on the device.
  pub record IsUsable (o : ValidityObservation F) : Type 0 where
    pub same_gpu : o.gpu_uuid ≡ o.expected_gpu_uuid
    pub cool : Within o.temperature_celsius o.maximum_temperature_celsius
    pub idle : Within o.utilization_percent_before o.maximum_idle_utilization_percent
    pub alone : o.competing_compute_processes ≡ []
    pub fast : AtLeast o.graphics_clock_mhz o.minimum_graphics_clock_mhz

  exceeds-Within : (x : Option F) (bound : F) → (exceeds x bound ≡ false) ↔ Within x bound
  unfolding exceeds
  exceeds-Within none bound = (λ h. tt, λ h. refl)
  exceeds-Within (some x) bound = (λ h. h, λ h. h)

  below-AtLeast : (a b : Option ℕ) → (below a b ≡ false) ↔ AtLeast a b
  unfolding below
  below-AtLeast none b = (λ h. tt, λ h. refl)
  below-AtLeast (some a) none = (λ h. tt, λ h. refl)
  below-AtLeast (some a) (some b) = (λ h. ground arith, λ h. ground arith)

  is_nonempty_iff : (l : List String) → (is_nonempty l ≡ false) ↔ (l ≡ [])
  unfolding is_nonempty
  is_nonempty_iff [] = (λ h. refl, λ h. refl)
  is_nonempty_iff (p ∷ l) = (λ h. cc, λ h. cc)

  reason_iff :
      (test : Bool) (text : String) (rest : List String)
      → (reason test text rest ≡ []) ↔ ((test ≡ false) × (rest ≡ []))
  reason_iff true text rest = (λ h. cc, λ h. cc (h.0))
  reason_iff false text rest = (λ h. (refl, h), λ h. h.1)

  -- A measurement block has no reason to be discarded exactly when it ran on the expected device,
  -- alone, and its observed temperature, utilization and clock keep the policy.
  pub rejection_reasons_iff : (o : ValidityObservation F) → (rejection_reasons o ≡ []) ↔ IsUsable o
  unfolding rejection_reasons
  rejection_reasons_iff o =
      let same = eq_iff o.gpu_uuid o.expected_gpu_uuid in
      let cool = exceeds-Within o.temperature_celsius o.maximum_temperature_celsius in
      let idle = exceeds-Within o.utilization_percent_before o.maximum_idle_utilization_percent in
      let alone = is_nonempty_iff o.competing_compute_processes in
      let fast = below-AtLeast o.graphics_clock_mhz o.minimum_graphics_clock_mhz in
      (
        λ h.
            let (a, h1) = (reason_iff (not (o.gpu_uuid =? o.expected_gpu_uuid)) _ _).0 h in
            let (b, h2) = (reason_iff _ _ _).0 h1 in
            let (c, h3) = (reason_iff _ _ _).0 h2 in
            let (d, h4) = (reason_iff _ _ _).0 h3 in
            record {
              same_gpu = same.0 (ground arith);
              cool = cool.0 b;
              idle = idle.0 c;
              alone = alone.0 d;
              fast = fast.0 ((reason_iff _ _ _).0 h4).0;
            },
        λ u.
            let equal = same.1 u.same_gpu in
            (reason_iff (not (o.gpu_uuid =? o.expected_gpu_uuid)) _ _).1 (
              ground arith,
              (reason_iff _ _ _).1 (
                cool.1 u.cool,
                (reason_iff _ _ _).1 (
                  idle.1 u.idle,
                  (reason_iff _ _ _).1
                      (alone.1 u.alone, (reason_iff _ _ _).1 (fast.1 u.fast, refl)),
                ),
              ),
            ),
      )
