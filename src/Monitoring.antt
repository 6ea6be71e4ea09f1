-- ===== src/Monitoring.antt =====
-- The alerts of server/src/monitoring.c: their store, and the thresholds of metrics that raise them.
-- The type of measured values (double) and its comparisons are arguments; the texts of an alert are
-- left out, and so are the callbacks.
pub mod Store
pub mod Thresholds
use chatweb.Base.{
  ℕ, suc, ◌+◌, ◌-◌, ◌*◌, ◌%◌, ◌^◌, Bool, true, false, not, ◌&&◌, ◌||◌, List, [], ◌∷◌, ◌++◌, Option,
  none, some, ltb, leb, ◌==◌, if◌then◌else◌, length, drop,
}
use chatweb.Base.Memory.{add_size, sub_size}

-- alert_level_t
pub data Level : Type 0 where
  info warning error critical emergency : Level

-- alert_status_t
pub data Status : Type 0 where
  active acknowledged resolved silenced : Status

abbrev pub is_active : Status → Bool
is_active active = true
is_active status = false

abbrev pub same_level : Level → Level → Bool
same_level info info = true
same_level warning warning = true
same_level error error = true
same_level critical critical = true
same_level emergency emergency = true
same_level level other = false

abbrev pub same_status : Status → Status → Bool
same_status active active = true
same_status acknowledged acknowledged = true
same_status resolved resolved = true
same_status silenced silenced = true
same_status status other = false

-- alert_t
pub record Alert (Value : Type 0) : Type 0 where
  pub alert_id : ℕ
  pub level : Level
  pub status : Status
  pub metric_type : ℕ
  pub threshold : Value
  pub actual_value : Value
  pub trigger_time : ℕ
  pub acknowledge_time : ℕ
  pub resolve_time : ℕ

-- alert_store_t, with what monitoring_add_alert keeps beside it. The count is the length of the
-- alerts; `last_alert_time` is the time of the last alert of each metric, 0 for none. The array has
-- 128 entries and its index is not tested; the types of metrics in monitoring_protocol.h are below that.
pub record AlertStore (Value : Type 0) : Type 0 where
  pub alerts : List (Alert Value)
  pub capacity : ℕ
  pub next_alert_id : ℕ
  pub last_alert_time : ℕ → ℕ
  pub total_alerts_triggered : ℕ

-- The comparisons that are made of values: `>=`, `> 0` and `<= 0`.
pub record Comparisons (Value : Type 0) : Type 0 where
  pub at_least : Value → Value → Bool
  pub above_zero : Value → Bool
  pub at_most_zero : Value → Bool

-- 0 and -2, or alert_mutex is locked by the thread that holds it.
pub data Added (Value : Type 0) : Type 0 where
  added : AlertStore Value → Added Value
  cooling : Added Value
  deadlocks : Added Value

-- The product wraps as an unsigned int does.
abbrev pub is_cooling : ℕ → ℕ → ℕ → Bool
is_cooling cooldown_seconds last now =
    ltb 0 last && ltb (sub_size now last) (cooldown_seconds * 1000 % 2 ^ 32)

module _ {Value : Type 0} where
  -- The oldest alert makes room.
  abbrev pub make_room : AlertStore Value → List (Alert Value)
  make_room store =
      if leb store.capacity (length store.alerts) then drop 1 store.alerts else store.alerts

  abbrev pub new_alert : AlertStore Value → ℕ → Level → ℕ → Value → Value → Alert Value
  new_alert store now level metric_type threshold actual_value = record {
    alert_id = store.next_alert_id;
    level = level;
    status = active;
    metric_type = metric_type;
    threshold = threshold;
    actual_value = actual_value;
    trigger_time = now;
    acknowledge_time = 0;
    resolve_time = 0;
  }

  -- The first flag says whether the caller holds alert_mutex.
  unfoldable pub monitoring_add_alert :
      Bool → AlertStore Value → ℕ → ℕ → Level → ℕ → Value → Value → Added Value
  monitoring_add_alert true store cooldown_seconds now level metric_type threshold actual_value =
      deadlocks
  monitoring_add_alert false store cooldown_seconds now level metric_type threshold actual_value =
      if is_cooling cooldown_seconds (store.last_alert_time metric_type) now
      then cooling
      else added (record store {
        alerts =
            make_room store ++ new_alert store now level metric_type threshold actual_value ∷ [];
        next_alert_id = add_size store.next_alert_id 1;
        last_alert_time = λ t. if t == metric_type then now else store.last_alert_time t;
        total_alerts_triggered = add_size store.total_alerts_triggered 1;
      })

  -- The first alert with the identifier is changed; `none` where there is none, which is -1.
  unfoldable pub change_alert :
      (Alert Value → Alert Value) → ℕ → List (Alert Value) → Option (List (Alert Value))
  change_alert change alert_id [] = none
  change_alert change alert_id (alert ∷ alerts) =
      let rest = change_alert change alert_id alerts in
      if alert.alert_id == alert_id
      then some (change alert ∷ alerts)
      else elim rest [ none ↦ none | some alerts' ↦ some (alert ∷ alerts') ]

  abbrev pub change_store :
      (Alert Value → Alert Value) → ℕ → AlertStore Value → Option (AlertStore Value)
  change_store change alert_id store = elim (change_alert change alert_id store.alerts) [
    | none ↦ none
    | some alerts ↦ some (record store { alerts = alerts })
  ]

  unfoldable pub monitoring_acknowledge_alert : AlertStore Value → ℕ → ℕ → Option (AlertStore Value)
  monitoring_acknowledge_alert store now alert_id =
      change_store (λ alert. record alert { status = acknowledged; acknowledge_time = now })
        alert_id store

  unfoldable pub monitoring_resolve_alert : AlertStore Value → ℕ → ℕ → Option (AlertStore Value)
  monitoring_resolve_alert store now alert_id =
      change_store (λ alert. record alert { status = resolved; resolve_time = now }) alert_id store

  unfoldable pub monitoring_silence_alert : AlertStore Value → ℕ → Option (AlertStore Value)
  monitoring_silence_alert store alert_id =
      change_store (λ alert. record alert { status = silenced }) alert_id store

  abbrev pub passes : Option Status → Alert Value → Bool
  passes none alert = true
  passes (some status) alert = same_status alert.status status

  -- `none` is the filter -1.
  unfoldable pub filter_alerts : Option Status → List (Alert Value) → List (Alert Value)
  filter_alerts status_filter [] = []
  filter_alerts status_filter (alert ∷ alerts) =
      let rest = filter_alerts status_filter alerts in
      if passes status_filter alert then alert ∷ rest else rest

  -- Where memory can be had.
  unfoldable pub monitoring_get_alerts : AlertStore Value → Option Status → List (Alert Value)
  monitoring_get_alerts store status_filter = filter_alerts status_filter store.alerts

  abbrev pub matches : ℕ → Level → Alert Value → Bool
  matches metric_type level alert =
      alert.metric_type == metric_type && is_active alert.status && same_level alert.level level

  -- The first active alert of the metric and level takes the new value.
  unfoldable pub refresh_alert :
      ℕ → Level → Value → ℕ → List (Alert Value) → Option (List (Alert Value))
  refresh_alert metric_type level value now [] = none
  refresh_alert metric_type level value now (alert ∷ alerts) =
      let rest = refresh_alert metric_type level value now alerts in
      if matches metric_type level alert
      then some (record alert { actual_value = value; trigger_time = now } ∷ alerts)
      else elim rest [ none ↦ none | some alerts' ↦ some (alert ∷ alerts') ]

  -- The level that a value asks for, and the threshold that goes with it. METRIC_ERROR_RATE is 10.
  unfoldable pub alert_level :
      Comparisons Value → ℕ → Value → Value → Value → Option (Level × Value)
  alert_level c metric_type warning_threshold error_threshold value =
      if c.above_zero error_threshold && c.at_least value error_threshold
      then some (error, error_threshold)
      else if c.above_zero warning_threshold && c.at_least value warning_threshold
      then some (warning, warning_threshold)
      else if c.at_most_zero value && not (metric_type == 10)
      then some (warning, warning_threshold)
      else none

  -- Where alerting is enabled. An alert is added while alert_mutex is held.
  unfoldable pub check_metric_thresholds :
      Comparisons Value → AlertStore Value → ℕ → ℕ → ℕ → Value → Value → Value → Added Value
  check_metric_thresholds c store cooldown now metric_type warning_threshold error_threshold value =
      elim (alert_level c metric_type warning_threshold error_threshold value) [
        | none ↦ added store
        | some (level, threshold) ↦ elim (refresh_alert metric_type level value now store.alerts) [
          | some alerts ↦ added (record store { alerts = alerts })
          | none ↦ monitoring_add_alert true store cooldown now level metric_type threshold value
        ]
      ]
