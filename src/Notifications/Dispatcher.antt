-- ===== src/Notifications/Dispatcher.antt =====
-- services/api/src/notifications/services/notification-dispatcher.service.ts. Titles, bodies, links,
-- locales and metadata, which decide nothing, are left out. The push queue is a list of jobs.
use school_van_tracking_saa.Prelude.{
  ℕ, Bool, true, false, none, some, Option, ok, List, [], ◌∷◌, ◌++◌, any, Action, pure, modify,
  Prisma, Table, find, create, get_or, ◌>>=◌, ◌>>◌, ◌==◌,
}
use school_van_tracking_saa.Schema.{NotificationType}
use school_van_tracking_saa.Redis.{Redis, Value}
use school_van_tracking_saa.Redis.Counters.{Counters}
use school_van_tracking_saa.Notifications.Throttle.{allow, should_send}

pub data NotificationStatus : Type 0 where
  queued processing sent delivered failed dead_letter : NotificationStatus

pub record NotificationPreference : Type 0 where
  pub user_id : ℕ
  pub enabled : Bool
  pub enabled_types : Option (List NotificationType)

pub record Notification : Type 0 where
  pub id : ℕ
  pub school_id : ℕ
  pub user_id : ℕ
  pub parent_id : Option ℕ
  pub trip_id : Option ℕ
  pub type : NotificationType
  pub status : NotificationStatus

pub record DispatchNotificationInput : Type 0 where
  pub school_id : ℕ
  pub user_id : ℕ
  pub type : NotificationType
  pub parent_id : Option ℕ
  pub trip_id : Option ℕ
  pub dedup_scope : Option ℕ
  pub dedup_cooldown_seconds : Option ℕ

pub record NotifyWorld (redis : Redis Value) : Type 0 where
  pub preferences : List NotificationPreference
  pub notifications : List Notification
  pub push_queue : List ℕ
  pub cache : redis.Store

unfoldable pub NotificationType-discrete : Discrete NotificationType
NotificationType-discrete = hlevel

abbrev decided : {P : Type 0} → Dec P → Bool
decided (yes _) = true
decided (no _) = false

-- `prefs && !prefs.enabled`, and `!enabled.includes(input.type)`
abbrev pub wants : NotificationType → Option NotificationPreference → Bool
wants type none = true
wants type (some p) = elim p.enabled [
  | false ↦ false
  | true ↦ elim p.enabled_types [
    | none ↦ true
    | some types ↦ any (λ t. decided (NotificationType-discrete t type)) types
  ]
]

abbrev pub queued_row : ℕ → DispatchNotificationInput → Notification
queued_row new_id input = record {
  id = new_id;
  school_id = input.school_id;
  user_id = input.user_id;
  parent_id = input.parent_id;
  trip_id = input.trip_id;
  type = input.type;
  status = queued;
}

module _ {redis : Redis Value} where
  abbrev pub on_store : {A : Type 0} → Action redis.Store A → Action (NotifyWorld redis) A
  on_store m w = let (r, c) = m w.cache in (r, record w { cache = c })

  abbrev notifications_table : Table (NotifyWorld redis) Notification
  notifications_table = record {
    rows = λ w. w.notifications;
    with_rows = λ r w. record w { notifications = r };
  }

  abbrev preferences_table : Table (NotifyWorld redis) NotificationPreference
  preferences_table = record {
    rows = λ w. w.preferences;
    with_rows = λ r w. record w { preferences = r };
  }

  -- `if (!allowed) return null`
  abbrev or_null :
      Bool → Action (NotifyWorld redis) (Option ℕ) → Action (NotifyWorld redis) (Option ℕ)
  or_null false m w = (ok none, w)
  or_null true m w = m w

  -- `if (input.dedupScope) …`
  abbrev pub check_dedup :
      ℕ → DispatchNotificationInput → Option ℕ → Action (NotifyWorld redis) Bool
  check_dedup now input none = pure true
  check_dedup now input (some scope) = on_store (
      should_send redis now input.school_id input.user_id input.type scope
        (get_or input.dedup_cooldown_seconds 300))

  abbrev queue_push : ℕ → DispatchNotificationInput → Action (NotifyWorld redis) (Option ℕ)
  queue_push new_id input = do
    create notifications_table (queued_row new_id input)
    modify (λ (w : NotifyWorld redis). record w { push_queue = w.push_queue ++ new_id ∷ [] })
    pure (some new_id)

  unfoldable pub dispatch :
      Prisma
      → Counters redis
      → ℕ
      → ℕ
      → DispatchNotificationInput
      → Action (NotifyWorld redis) (Option ℕ)
  dispatch prisma counters now new_id input = do
    within_limit ← on_store (allow redis counters now input.school_id input.user_id input.type)
    or_null within_limit (do
      allowed ← check_dedup now input input.dedup_scope
      or_null allowed (do
        prefs ← find preferences_table prisma (λ p. p.user_id == input.user_id)
        or_null (wants input.type prefs) (queue_push new_id input)))
