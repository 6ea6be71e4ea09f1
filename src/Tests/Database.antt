-- ===== src/Tests/Database.antt =====
-- The theorems on server/src/database.c at concrete inputs.
use chatweb.Base.{ℕ, ◌≡◌, ◌≢◌, ◌≤◌, refl, true, false, Option, some, none, [], ◌∷◌, ◌⊎◌, arith}
use chatweb.Database.{DbPool, success, connection, owns, db_get_connection, db_release_connection}
use chatweb.Database.Counts
use chatweb.Database.Counts.{count, one_if, holds}
use chatweb.Database.Pool.{Answers, db_get_connection-Answers}
use chatweb.Database.Release.{db_release_connection-IsValid}

-- Three slots: a connection in use, one that is idle, and an empty slot.
abbrev three_slots : DbPool
three_slots = record {
  slots =
      record { connection = some 70; in_use = true }
      ∷ record { connection = some 71; in_use = false }
      ∷ record { connection = none; in_use = false }
      ∷ [];
  active_count = 2;
}

three_slots-IsValid : Counts.IsValid three_slots
three_slots-IsValid = record {
  unique = λ h. at h;
  present = refl;
  counted = refl;
  bounded = omega arith;
}
  where
    at : (h : ℕ) → count (owns h) three_slots.slots ≤ 1
    at h = ground arith

abbrev no_wait : DbPool → Option DbPool
no_wait pool = none

db_get_connection-Answers_example :
    (q : DbPool) × ((q ≡ three_slots) ⊎ (no_wait three_slots ≡ some q))
    × Answers (some 72) no_wait q (db_get_connection (some 72) no_wait three_slots)
db_get_connection-Answers_example =
    db_get_connection-Answers (some 72) no_wait three_slots three_slots-IsValid
      (λ h e. ground (arith, e)) (λ p e. absurd (ground (arith, e)))

db_release_connection-IsValid_example :
    ((count (owns 70) three_slots.slots ≡ 0)
      × (db_release_connection 70 three_slots ≡ (connection, three_slots)))
    ⊎ ((pool' : DbPool) × (db_release_connection 70 three_slots ≡ (success, pool'))
        × Counts.IsValid pool'
        × (pool'.active_count ≡ three_slots.active_count)
        × (count (holds 70) pool'.slots ≡ 0)
        × ((k : ℕ) → k ≢ 70 → count (holds k) pool'.slots ≡ count (holds k) three_slots.slots))
db_release_connection-IsValid_example =
    db_release_connection-IsValid 70 three_slots three_slots-IsValid
