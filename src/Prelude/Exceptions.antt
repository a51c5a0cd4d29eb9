-- ===== src/Prelude/Exceptions.antt =====
-- The exceptions of the services: the HTTP class of `@nestjs/common` and the reason, one for each
-- message that the code throws.
pub data Reason : Type 0 where
  -- trips
  trip_not_found trip_exists invalid_transition not_schedulable : Reason
  cannot_cancel stop_before_cancelling van_required driver_required : Reason
  only_drivers_start only_drivers_stop driver_profile_not_found trip_in_progress : Reason
  trip_not_active trip_not_assigned : Reason
  -- fleet
  route_not_found van_not_found driver_not_found student_not_found parent_not_found : Reason
  driver_has_active_trip van_has_active_trip van_inactive route_inactive : Reason
  over_capacity capacity_exceeded admission_exists : Reason
  route_code_exists stop_order_exists stop_not_found route_has_active_trips : Reason
  registration_exists capacity_below_students : Reason
  email_registered license_exists parent_has_students : Reason
  requires_both latitude_out_of_range longitude_out_of_range : Reason
  -- tenants and roles
  school_id_required tenant_required cross_tenant super_admin_required : Reason
  trip_access_denied driver_not_assigned parent_profile_not_found no_student_on_trip : Reason
  insufficient_role missing_permissions : Reason
  -- authentication
  invalid_refresh_token refresh_token_reuse refresh_token_required user_inactive : Reason
  too_many_attempts invalid_credentials account_locked : Reason
  school_not_found school_inactive subscription_inactive : Reason
  current_password_incorrect invalid_reset_token only_super_admin target_not_found : Reason
  no_user token_revoked session_invalid user_not_found : Reason
  -- subscriptions
  plan_not_found no_subscription subscription_cancelled subscription_expired : Reason
  trial_ended in_grace status_inactive van_limit driver_limit student_limit analytics_unavailable :
      Reason
  -- tracking
  gps_rejected : Reason

pub data Exception : Type 0 where
  bad_request unauthorized forbidden not_found conflict too_many_requests : Reason → Exception
  -- Prisma's P2025, of an `update` that finds no row
  record_not_found : Exception
  -- Prisma's P2002, of a `create` that breaks a unique key
  unique_violation : Exception
  -- Prisma's P2003, of a `create` with a relation to no row
  foreign_key_violation : Exception
