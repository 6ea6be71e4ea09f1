-- ===== src/Tests/Monitoring.antt =====
-- The theorems on server/src/monitoring.c at concrete inputs.
use chatweb.Base.{ℕ, ◌≡◌, ◌++◌, refl, false, leb, [], ◌∷◌, if◌then◌else◌, length, drop, arith}
use chatweb.Monitoring.{Alert, AlertStore, Level, active, added, new_alert, monitoring_add_alert}
use chatweb.Monitoring.Store
use chatweb.Monitoring.Store.{has, changed, monitoring_add_alert-IsValid}

abbrev alert_on : ℕ → Alert ℕ
alert_on alert_id = record {
  alert_id = alert_id;
  level = Level.warning;
  status = active;
  metric_type = 3;
  threshold = 70;
  actual_value = 81;
  trigger_time = 5000;
  acknowledge_time = 0;
  resolve_time = 0;
}

-- A store that is full.
abbrev full : AlertStore ℕ
full = record {
  alerts = alert_on 4 ∷ alert_on 5 ∷ [];
  capacity = 2;
  next_alert_id = 6;
  last_alert_time = λ t. 0;
  total_alerts_triggered = 5;
}

full-IsValid : Store.IsValid full
full-IsValid = record {
  room = omega arith;
  fits = omega arith;
  sorted = (omega arith, (omega arith, omega arith));
}

monitoring_add_alert-IsValid_example :
    (store' : AlertStore ℕ) × (monitoring_add_alert false full 300 9000 Level.error 3 90 95
      ≡ added store')
    × Store.IsValid store'
    × (store'.alerts
        ≡ (if leb full.capacity (length full.alerts) then drop 1 full.alerts else full.alerts)
          ++ new_alert full 9000 Level.error 3 90 95 ∷ [])
    × (store'.next_alert_id ≡ 7)
    × (store'.last_alert_time 3 ≡ 9000)
monitoring_add_alert-IsValid_example =
    monitoring_add_alert-IsValid full 300 9000 Level.error 3 90 95 full-IsValid (omega arith) refl
