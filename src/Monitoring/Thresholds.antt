-- ===== src/Monitoring/Thresholds.antt =====
-- The thresholds of server/src/monitoring.c, which are checked with alert_mutex held.
use chatweb.Base.{
  ℕ, ◌≡◌, refl, ap, Bool, true, false, ◌||◌, List, [], ◌∷◌, Option, none, some, if◌then◌else◌,
  Option-cases, inl, inr,
}
use chatweb.Monitoring.{
  Level, AlertStore, Comparisons, Added, added, cooling, deadlocks, alert_level, refresh_alert,
  check_metric_thresholds, monitoring_add_alert,
}

-- A value that was measured: when, of which metric, and the metric's thresholds.
pub record Sample (Value : Type 0) : Type 0 where
  pub time : ℕ
  pub metric_type : ℕ
  pub warning_threshold : Value
  pub error_threshold : Value
  pub value : Value

module _ {Value : Type 0} where
  abbrev pub check : Comparisons Value → ℕ → AlertStore Value → Sample Value → Added Value
  check c cooldown store s =
      check_metric_thresholds c store cooldown s.time s.metric_type s.warning_threshold
        s.error_threshold s.value

  abbrev next_check : (AlertStore Value → Added Value) → Added Value → Added Value
  next_check k (added store) = k store
  next_check k cooling = cooling
  next_check k deadlocks = deadlocks

  -- Samples one after another, as long as the checks return.
  abbrev pub check_all :
      Comparisons Value → ℕ → AlertStore Value → List (Sample Value) → Added Value
  check_all c cooldown store [] = added store
  check_all c cooldown store (s ∷ samples) =
      next_check (λ store'. check_all c cooldown store' samples) (check c cooldown store s)

  abbrev pub asks : Option (Level × Value) → Bool
  asks none = false
  asks (some level) = true

  -- Whether one of the samples asks for an alert.
  abbrev pub raises : Comparisons Value → List (Sample Value) → Bool
  raises c [] = false
  raises c (s ∷ samples) =
      asks (alert_level c s.metric_type s.warning_threshold s.error_threshold s.value)
      || raises c samples

  -- A store without alerts stays so: whatever samples are checked, the thread locks alert_mutex twice
  -- at the first of them that asks for an alert, and otherwise the store is as it was.
  check_metric_thresholds-deadlocks :
      (c : Comparisons Value) (cooldown : ℕ) (store : AlertStore Value)
      (samples : List (Sample Value))
      → store.alerts ≡ []
      → check_all c cooldown store samples ≡ (if raises c samples then deadlocks else added store)
  unfolding check_metric_thresholds refresh_alert monitoring_add_alert
  check_metric_thresholds-deadlocks c cooldown store [] e = refl
  check_metric_thresholds-deadlocks c cooldown store (s ∷ samples) e =
      elim (Option-cases
        (alert_level c s.metric_type s.warning_threshold s.error_threshold s.value)) [
          | inl t ↦
              rw (t, check_metric_thresholds)
                (check_metric_thresholds-deadlocks c cooldown store samples e)
          | inr ((level, threshold), t) ↦
              let r : refresh_alert s.metric_type level s.value s.time store.alerts ≡ none =
                ap (refresh_alert s.metric_type level s.value s.time) e in
              rw (t, r, check_metric_thresholds) refl
        ]
