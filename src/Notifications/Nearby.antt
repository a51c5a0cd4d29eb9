-- ===== src/Notifications/Nearby.antt =====
-- How often the engine of Notifications/Geofence alerts a parent.
use school_van_tracking_saa.Prelude.{
  ℕ, ◌≡◌, ◌≢◌, ◌⊎◌, ◌∙◌, Option, ok, inl, inr, arith, Prisma, Result-cases, Bool-cases,
  Option-cases, ◌==◌, get_or,
}
use school_van_tracking_saa.Schema.{NotificationType}
use school_van_tracking_saa.Redis.{Redis, Value, flag, dedup, cooldown}
use school_van_tracking_saa.Redis.Counters.{Counters}
use school_van_tracking_saa.Notifications.Throttle.{should_send, allow}
use school_van_tracking_saa.Notifications.Dispatcher.{
  DispatchNotificationInput, NotifyWorld, NotificationType-discrete, dispatch,
}
use school_van_tracking_saa.Notifications.Once.{allow-get_ne, allow-ok}

pub same_key_or_other :
    (school trip s s' : ℕ) (t t' : NotificationType)
    → (cooldown school trip s t ≡ cooldown school trip s' t')
      ⊎ (cooldown school trip s t ≢ cooldown school trip s' t')
same_key_or_other school trip s s' t t' = elim (Bool-cases (s == s')) [
  | inr n ↦ inr (λ e. absurd (ground arith))
  | inl y ↦ elim (NotificationType-discrete t t') [
    | yes e ↦ inl (ground arith)
    | no n ↦ inr (λ e. n (cc))
  ]
]

module _ (prisma : Prisma) {redis : Redis Value} (counters : Counters redis) where
  -- What a dispatch does to Redis: the rate limit's count, and perhaps the mark of the scope.
  dispatch-cache :
      (now new_id : ℕ) (input : DispatchNotificationInput) (w : NotifyWorld redis)
      → let c = (allow redis counters now input.school_id input.user_id input.type w.cache).1 in
        let c' = (dispatch prisma counters now new_id input w).1.cache in
        (c' ≡ c)
        ⊎ ((scope : ℕ) × (c'
              ≡ redis.setex c now
                  (dedup input.school_id input.user_id input.type scope)
                  (get_or input.dedup_cooldown_seconds 300)
                  flag))
  unfolding dispatch should_send
  dispatch-cache now new_id input w =
      let a = allow redis counters now input.school_id input.user_id input.type w.cache in
      let (b, answered) =
        allow-ok prisma counters now input.school_id input.user_id input.type w.cache in
      elim (Bool-cases b) [
        | inr n ↦ inl (ground arith)
        | inl y ↦ elim (Option-cases input.dedup_scope) [
          | inl e ↦ inl (ground arith)
          | inr (scope, e) ↦
              elim (Option-cases
                (redis.get a.1 now (dedup input.school_id input.user_id input.type scope))) [
                  | inl m ↦ inr (scope, ground arith)
                  | inr (v, m) ↦ inl (ground arith)
                ]
        ]
      ]

  -- A dispatch leaves the cooldowns of geofences.
  pub dispatch-get :
      (now new_id t school trip student : ℕ) (type : NotificationType)
      (input : DispatchNotificationInput) (w : NotifyWorld redis)
      → redis.get
          (dispatch prisma counters now new_id input w).1.cache
          t
          (cooldown school trip student type)
        ≡ redis.get w.cache t (cooldown school trip student type)
  dispatch-get now new_id t school trip student type input w =
      let key = cooldown school trip student type in
      let same =
        allow-get_ne prisma counters now t input.school_id input.user_id input.type w.cache key
          (λ e. cc) in
      elim (dispatch-cache now new_id input w) [
        | inl e ↦ rw e same
        | inr (scope, e) ↦ rw e (
            redis.get-setex_ne _ now t _ (dedup input.school_id input.user_id input.type scope) key
              flag (λ q. cc)
            ∙ same)
      ]

  pub dispatch-ok :
      (now new_id : ℕ) (input : DispatchNotificationInput) (w : NotifyWorld redis)
      → (o : Option ℕ) × ((dispatch prisma counters now new_id input w).0 ≡ ok o)
  unfolding dispatch should_send
  dispatch-ok now new_id input w =
      let a = allow redis counters now input.school_id input.user_id input.type w.cache in
      let (b, answered) =
        allow-ok prisma counters now input.school_id input.user_id input.type w.cache in
      elim (Result-cases (dispatch prisma counters now new_id input w).0) [
        | inl (o, e) ↦ (o, e)
        | inr (e, thrown) ↦ absurd (elim (Option-cases input.dedup_scope) [
          | inl n ↦ ground arith
          | inr (scope, y) ↦ ground arith
        ])
      ]
