-- ===== src/Monitoring/Store.antt =====
-- The store of alerts of server/src/monitoring.c, whatever is done with it.
use chatweb.Base.{
  ℕ, suc, ◌+◌, ◌^◌, ◌≤◌, ◌<◌, ◌≡◌, refl, sym, ap, subst, Bool, true, false, List, [], ◌∷◌, ◌++◌,
  none, some, arith, leb, ◌==◌, if◌then◌else◌, length, drop, length-append, length-drop, Bool-cases,
  inl, inr,
}
use chatweb.Base.Memory.{add_size}
use chatweb.Monitoring.{
  Level, Status, acknowledged, resolved, Alert, AlertStore, added, is_cooling, make_room, new_alert,
  monitoring_add_alert, change_alert, monitoring_acknowledge_alert, monitoring_resolve_alert,
  monitoring_silence_alert, change_store,
}

module _ {Value : Type 0} where
  -- The identifiers go up from a bound on, and stay below another.
  abbrev pub IsSorted : ℕ → ℕ → List (Alert Value) → Type 0
  IsSorted low high [] = low ≤ high
  IsSorted low high (alert ∷ alerts) =
      (low ≤ alert.alert_id) × IsSorted (suc alert.alert_id) high alerts

  -- At most as many alerts as there is room for, each with an identifier of its own, given in order.
  pub record IsValid (store : AlertStore Value) : Type 0 where
    pub room : 0 < store.capacity
    pub fits : length store.alerts ≤ store.capacity
    pub sorted : IsSorted 0 store.next_alert_id store.alerts

  IsSorted-append :
      (low high : ℕ) (alerts : List (Alert Value)) (alert : Alert Value)
      → IsSorted low high alerts
      → alert.alert_id ≡ high
      → IsSorted low (suc high) (alerts ++ alert ∷ [])
  IsSorted-append low high [] alert h e = (omega arith, omega arith)
  IsSorted-append low high (a ∷ alerts) alert h e =
      (h.0, IsSorted-append (suc a.alert_id) high alerts alert h.1 e)

  IsSorted-weaken :
      (low low' high : ℕ) (alerts : List (Alert Value))
      → low ≤ low'
      → IsSorted low' high alerts
      → IsSorted low high alerts
  IsSorted-weaken low low' high [] l h = omega arith
  IsSorted-weaken low low' high (a ∷ alerts) l h = (omega (arith, h.0), h.1)

  make_room-lem :
      (store : AlertStore Value)
      → IsValid store
      → (length (make_room store) < store.capacity)
        × IsSorted 0 store.next_alert_id (make_room store)
  make_room-lem store v = elim (Bool-cases (leb store.capacity (length store.alerts))) [
    | inl t ↦
        rw t
          (omega (arith, length-drop 1 store.alerts, v.room, v.fits), dropped store.alerts v.sorted)
    | inr t ↦ rw t (ground arith, v.sorted)
  ]
    where
      dropped :
          (alerts : List (Alert Value))
          → IsSorted 0 store.next_alert_id alerts
          → IsSorted 0 store.next_alert_id (drop 1 alerts)
      dropped [] h = h
      dropped (a ∷ alerts) h =
          IsSorted-weaken 0 (suc a.alert_id) store.next_alert_id alerts (omega arith) h.1

  -- An alert that is added while the metric is not cooling down leaves a valid store valid. It stands
  -- last, with the next identifier, behind the others, of which only the oldest is dropped, and only
  -- when the store is full.
  pub monitoring_add_alert-IsValid :
      (store : AlertStore Value) (cooldown now : ℕ) (level : Level) (metric_type : ℕ)
      (threshold value : Value)
      → IsValid store
      → store.next_alert_id + 1 < 2 ^ 64
      → is_cooling cooldown (store.last_alert_time metric_type) now ≡ false
      → (store' : AlertStore Value) × (monitoring_add_alert false store cooldown now level
            metric_type threshold value
          ≡ added store')
        × IsValid store'
        × (store'.alerts
            ≡ (if leb store.capacity (length store.alerts)
                then drop 1 store.alerts
                else store.alerts)
              ++ new_alert store now level metric_type threshold value ∷ [])
        × (store'.next_alert_id ≡ suc store.next_alert_id)
        × (store'.last_alert_time metric_type ≡ now)
  unfolding monitoring_add_alert
  monitoring_add_alert-IsValid store cooldown now level metric_type threshold value v b c =
      let (l, k) = make_room-lem store v in
      let alert = new_alert store now level metric_type threshold value in
      let n : add_size store.next_alert_id 1 ≡ suc store.next_alert_id = omega arith in
      let t : (metric_type == metric_type) ≡ true = ground arith in
      let s : IsSorted 0 (add_size store.next_alert_id 1) (make_room store ++ alert ∷ []) =
        subst (λ h. IsSorted 0 h (make_room store ++ alert ∷ [])) (sym n)
          (IsSorted-append 0 store.next_alert_id (make_room store) alert k refl) in
      let store' : AlertStore Value = record store {
        alerts = make_room store ++ alert ∷ [];
        next_alert_id = add_size store.next_alert_id 1;
        last_alert_time = λ t. if t == metric_type then now else store.last_alert_time t;
        total_alerts_triggered = add_size store.total_alerts_triggered 1;
      } in
      (
        store',
        rw (c, monitoring_add_alert) refl,
        record {
          room = v.room;
          fits = omega (arith, length-append (make_room store) (alert ∷ []));
          sorted = s;
        },
        refl,
        n,
        rw t refl,
      )

  abbrev pub has : ℕ → List (Alert Value) → Bool
  has alert_id [] = false
  has alert_id (alert ∷ alerts) =
      let rest = has alert_id alerts in if alert.alert_id == alert_id then true else rest

  -- The alerts with one of them changed.
  abbrev pub changed : (Alert Value → Alert Value) → ℕ → List (Alert Value) → List (Alert Value)
  changed change alert_id [] = []
  changed change alert_id (alert ∷ alerts) =
      (if alert.alert_id == alert_id then change alert else alert) ∷ changed change alert_id alerts

  changed-above :
      (change : Alert Value → Alert Value) (alert_id low high : ℕ) (alerts : List (Alert Value))
      → alert_id < low
      → IsSorted low high alerts
      → changed change alert_id alerts ≡ alerts
  changed-above change alert_id low high [] l h = refl
  changed-above change alert_id low high (a ∷ alerts) l h =
      let t : (a.alert_id == alert_id) ≡ false = ground (arith, h.0) in
      rw t (
        ap (λ xs. a ∷ xs)
          (changed-above change alert_id (suc a.alert_id) high alerts (omega (arith, h.0)) h.1))

  change_alert-changed :
      (change : Alert Value → Alert Value) (alert_id low high : ℕ) (alerts : List (Alert Value))
      → IsSorted low high alerts
      → change_alert change alert_id alerts
        ≡ (if has alert_id alerts then some (changed change alert_id alerts) else none)
  unfolding change_alert
  change_alert-changed change alert_id low high [] h = refl
  change_alert-changed change alert_id low high (a ∷ alerts) h =
      elim (Bool-cases (a.alert_id == alert_id)) [
        | inl t ↦
            rw (t, change_alert)
              (ap (λ xs. some (change a ∷ xs))
                (sym
                  (changed-above change alert_id (suc a.alert_id) high alerts (ground arith) h.1)))
        | inr t ↦
            let ih = change_alert-changed change alert_id (suc a.alert_id) high alerts h.1 in
            elim (Bool-cases (has alert_id alerts)) [
              | inl u ↦ rw (t, ih, u, change_alert) refl
              | inr u ↦ rw (t, ih, u, change_alert) refl
            ]
      ]

  changed-IsSorted :
      (change : Alert Value → Alert Value) (alert_id low high : ℕ) (alerts : List (Alert Value))
      → ((a : Alert Value) → (change a).alert_id ≡ a.alert_id)
      → IsSorted low high alerts
      → IsSorted low high (changed change alert_id alerts)
        × (length (changed change alert_id alerts) ≡ length alerts)
  changed-IsSorted change alert_id low high [] k h = (h, refl)
  changed-IsSorted change alert_id low high (a ∷ alerts) k h =
      let (ih, l) = changed-IsSorted change alert_id (suc a.alert_id) high alerts k h.1 in
      elim (Bool-cases (a.alert_id == alert_id)) [
        | inl t ↦ rw t ((rw (k a) h.0, rw (k a) ih), ap suc l)
        | inr t ↦ rw t ((h.0, ih), ap suc l)
      ]

  abbrev with_alerts : AlertStore Value → List (Alert Value) → AlertStore Value
  with_alerts store alerts = record store { alerts = alerts }

  change_store-changed :
      (change : Alert Value → Alert Value) (alert_id : ℕ) (store : AlertStore Value)
      → ((a : Alert Value) → (change a).alert_id ≡ a.alert_id)
      → IsValid store
      → (change_store change alert_id store ≡ (
          if has alert_id store.alerts
          then some (record store { alerts = changed change alert_id store.alerts })
          else none))
        × IsValid (record store { alerts = changed change alert_id store.alerts })
  change_store-changed change alert_id store k v =
      let e = change_alert-changed change alert_id 0 store.next_alert_id store.alerts v.sorted in
      let (i, l) = changed-IsSorted change alert_id 0 store.next_alert_id store.alerts k v.sorted in
      let w : IsValid (record store { alerts = changed change alert_id store.alerts }) = record {
        room = v.room;
        fits = omega (arith, v.fits);
        sorted = i;
      } in
      elim (Bool-cases (has alert_id store.alerts)) [
        | inl t ↦ (rw (e, t, change_store) refl, w)
        | inr t ↦ (rw (e, t, change_store) refl, w)
      ]

  -- In a valid store an alert that is acknowledged, resolved or silenced by its identifier is the one
  -- alert that changes, and the store is valid again; without an alert of that identifier the three
  -- return -1.
  monitoring_acknowledge_alert-changed :
      (store : AlertStore Value) (now alert_id : ℕ)
      → IsValid store
      → let acknowledge =
          λ (a : Alert Value). record a { status = acknowledged; acknowledge_time = now } in
        let resolve = λ (a : Alert Value). record a { status = resolved; resolve_time = now } in
        let silence = λ (a : Alert Value). record a { status = Status.silenced } in
        let result = λ (change : Alert Value → Alert Value).
          (if has alert_id store.alerts
            then some (record store { alerts = changed change alert_id store.alerts })
            else none) in
        (monitoring_acknowledge_alert store now alert_id ≡ result acknowledge)
        × (monitoring_resolve_alert store now alert_id ≡ result resolve)
        × (monitoring_silence_alert store alert_id ≡ result silence)
        × IsValid (record store { alerts = changed acknowledge alert_id store.alerts })
        × IsValid (record store { alerts = changed resolve alert_id store.alerts })
        × IsValid (record store { alerts = changed silence alert_id store.alerts })
  unfolding monitoring_acknowledge_alert monitoring_resolve_alert monitoring_silence_alert
  monitoring_acknowledge_alert-changed store now alert_id v =
      let (a, a') =
        change_store-changed (λ a. record a { status = acknowledged; acknowledge_time = now })
          alert_id store (λ a. refl) v in
      let (r, r') =
        change_store-changed (λ a. record a { status = resolved; resolve_time = now }) alert_id
          store (λ a. refl) v in
      let (s, s') =
        change_store-changed (λ a. record a { status = Status.silenced }) alert_id store (λ a. refl)
          v in
      (a, r, s, a', r', s')
