-- ===== src/Fleet/World.antt =====
-- The state that the fleet, trip and tracking services share: the database, Redis, and the
-- notifications that were handed to the notification services and not awaited.
use school_van_tracking_saa.Prelude.{ℕ, List, [], ◌∷◌, ◌++◌, Action, modify}
use school_van_tracking_saa.Schema.{Database, TripDirection}
use school_van_tracking_saa.Redis.{Redis, Value}

pub data Notice : Type 0 where
  trip_started trip_completed : ℕ → ℕ → TripDirection → Notice
  student_picked student_dropped : ℕ → ℕ → ℕ → Notice
  sos_triggered : ℕ → ℕ → Notice

pub record World (redis : Redis Value) : Type 0 where
  pub db : Database
  pub cache : redis.Store
  pub notices : List Notice

module _ {redis : Redis Value} where
  abbrev pub on_db : {A : Type 0} → Action Database A → Action (World redis) A
  on_db m w = let (r, d) = m w.db in (r, record w { db = d })

  abbrev pub on_cache : (redis.Store → redis.Store) → Action (World redis) (Unit {0})
  on_cache f w = modify (λ (w : World redis). record w { cache = f w.cache }) w

  abbrev pub notify : Notice → Action (World redis) (Unit {0})
  notify n = modify (λ w. record w { notices = w.notices ++ n ∷ [] })
