-- ===== src/Trips/Lifecycle.antt =====
-- services/api/src/common/trips/trip-state-machine.ts and trip-lifecycle.validator.ts
use school_van_tracking_saa.Prelude.{
  Bool, true, List, [], ◌∷◌, any, not, Result, ok, err, bad_request, invalid_transition,
  not_schedulable, if◌then◌else◌, ◌≡◌, arith, In, refl,
}
use school_van_tracking_saa.Schema.{TripStatus, scheduled, in_progress, completed, status_eq}

-- `TRIP_STATUS_TRANSITIONS`
abbrev pub transitions : TripStatus → List TripStatus
transitions scheduled = in_progress ∷ TripStatus.cancelled ∷ []
transitions in_progress = completed ∷ TripStatus.cancelled ∷ []
transitions completed = []
transitions TripStatus.cancelled = []

-- `includes` on statuses
abbrev pub includes : List TripStatus → TripStatus → Bool
includes xs s = any (λ x. status_eq x s) xs

abbrev pub can_transition : TripStatus → TripStatus → Bool
can_transition from to = includes (transitions from) to

abbrev pub terminal_trip_statuses : List TripStatus
terminal_trip_statuses = completed ∷ TripStatus.cancelled ∷ []

abbrev pub assert_transition : TripStatus → TripStatus → Result (Unit {0})
assert_transition current next =
    if not (can_transition current next) then err (bad_request invalid_transition) else ok tt

abbrev pub assert_schedulable : TripStatus → Result (Unit {0})
assert_schedulable status =
    if not (status_eq status scheduled) then err (bad_request not_schedulable) else ok tt

-- The diagram of a trip's life, drawn independently of the table.
infix 40 ◌⟶◌ ◌⟶*◌
pub data ◌⟶◌ : TripStatus → TripStatus → Type 0 where
  start : scheduled ⟶ in_progress
  finish : in_progress ⟶ completed
  call_off : scheduled ⟶ TripStatus.cancelled
  abort : in_progress ⟶ TripStatus.cancelled

pub data ◌⟶*◌ : TripStatus → TripStatus → Type 0 where
  here : {s : TripStatus} → s ⟶* s
  next : {s t u : TripStatus} → s ⟶ t → t ⟶* u → s ⟶* u

pub ⟶*_trans : {s t u : TripStatus} → s ⟶* t → t ⟶* u → s ⟶* u
⟶*_trans here r = r
⟶*_trans (next e p) r = next e (⟶*_trans p r)

pub can_transition-⟶ : (s t : TripStatus) → can_transition s t ≡ true → s ⟶ t
can_transition-⟶ scheduled in_progress h = start
can_transition-⟶ scheduled TripStatus.cancelled h = call_off
can_transition-⟶ in_progress completed h = finish
can_transition-⟶ in_progress TripStatus.cancelled h = abort
can_transition-⟶ _ _ h = absurd (cc)

-- Nothing leads out of a terminal status.
pub terminal-⟶* : {s t : TripStatus} → In s terminal_trip_statuses → s ⟶* t → t ≡ s
terminal-⟶* i here = refl
terminal-⟶* i (next start r) = absurd (ground arith)
terminal-⟶* i (next finish r) = absurd (ground arith)
terminal-⟶* i (next call_off r) = absurd (ground arith)
terminal-⟶* i (next abort r) = absurd (ground arith)
