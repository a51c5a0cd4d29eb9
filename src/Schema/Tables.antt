-- ===== src/Schema/Tables.antt =====
-- The tables that the fleet, trip and tracking services share, and where a state keeps each.
use school_van_tracking_saa.Prelude.{ℕ, Option, List, [], ◌∷◌, ◌++◌, Table, Action, modify}
use school_van_tracking_saa.Schema.Rows.{
  Trip, TripStudent, Route, RouteStop, Van, Driver, Student, Parent,
}

-- `AuditAction`
pub data AuditAction : Type 0 where
  create update delete login logout start_trip stop_trip : AuditAction

pub data EntityType : Type 0 where
  trip user device_session route student van driver parent : EntityType

pub record AuditEntry : Type 0 where
  pub school_id : Option ℕ
  pub actor_user_id : ℕ
  pub action : AuditAction
  pub entity_type : EntityType
  pub entity_id : Option ℕ

pub record EmergencyAlert : Type 0 where
  pub school_id : ℕ
  pub trip_id : ℕ
  pub triggered_by_id : ℕ

pub record Database : Type 0 where
  pub trips : List Trip
  pub trip_students : List TripStudent
  pub routes : List Route
  pub stops : List RouteStop
  pub vans : List Van
  pub drivers : List Driver
  pub students : List Student
  pub parents : List Parent
  pub audit_log : List AuditEntry
  pub emergency_alerts : List EmergencyAlert

abbrev pub trips_table : Table Database Trip
trips_table = record { rows = λ d. d.trips; with_rows = λ r d. record d { trips = r } }

abbrev pub trip_students_table : Table Database TripStudent
trip_students_table = record {
  rows = λ d. d.trip_students;
  with_rows = λ r d. record d { trip_students = r };
}

abbrev pub routes_table : Table Database Route
routes_table = record { rows = λ d. d.routes; with_rows = λ r d. record d { routes = r } }

abbrev pub stops_table : Table Database RouteStop
stops_table = record { rows = λ d. d.stops; with_rows = λ r d. record d { stops = r } }

abbrev pub vans_table : Table Database Van
vans_table = record { rows = λ d. d.vans; with_rows = λ r d. record d { vans = r } }

abbrev pub drivers_table : Table Database Driver
drivers_table = record { rows = λ d. d.drivers; with_rows = λ r d. record d { drivers = r } }

abbrev pub students_table : Table Database Student
students_table = record { rows = λ d. d.students; with_rows = λ r d. record d { students = r } }

abbrev pub parents_table : Table Database Parent
parents_table = record { rows = λ d. d.parents; with_rows = λ r d. record d { parents = r } }

-- `AuditLogService.log`
abbrev pub log : AuditEntry → Action Database (Unit {0})
log e = modify (λ d. record d { audit_log = d.audit_log ++ e ∷ [] })
