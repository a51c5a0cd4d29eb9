-- ===== src/Subscription/Status.antt =====
-- The status that `getSubscriptionStatus` works out of the rows of a school, its subscription and
-- its plan at an instant.
use school_van_tracking_saa.Prelude.{
  ℕ, ◌≡◌, ◌≢◌, ◌↔◌, ◌⊎◌, Bool, true, false, Option, none, some, Reason, ltb, not, ◌&&◌, ◌||◌,
  if◌then◌else◌, arith, school_inactive, subscription_cancelled, subscription_expired, in_grace,
  trial_ended,
}
use school_van_tracking_saa.Schema.{
  BillingStatus, SchoolOperationalStatus, billing_eq, operational_eq, suspended,
}
use school_van_tracking_saa.Redis.{SubscriptionStatusView, Usage}
use school_van_tracking_saa.Subscription.Store.{School, SchoolSubscription, PlanCatalog}

-- `Boolean(date && date < now)` and `Boolean(date && date > now)`
abbrev pub is_past : Option ℕ → ℕ → Bool
is_past none now = false
is_past (some date) now = ltb date now

abbrev pub is_ahead : Option ℕ → ℕ → Bool
is_ahead none now = false
is_ahead (some date) now = ltb now date

abbrev pub is_school_inactive : School → Bool
is_school_inactive school =
    not school.is_active
    || operational_eq school.status suspended
    || operational_eq school.status SchoolOperationalStatus.pending

-- `canAccessPlatform` and `message`, in the order of the branches.
abbrev decide : Bool → Bool → Bool → Bool → Bool → Bool × Option Reason
decide inactive cancelled expired grace trial_over =
    if inactive
    then (false, some school_inactive)
    else if cancelled
    then (false, some subscription_cancelled)
    else if expired && not grace
    then (false, some subscription_expired)
    else if grace
    then (true, some in_grace)
    else if trial_over
    then (false, some trial_ended)
    else (true, none)

unfoldable pub status_of :
    ℕ → School → SchoolSubscription → PlanCatalog → Usage → SubscriptionStatusView
status_of now school sub plan usage =
    let in_trial = billing_eq sub.billing_status BillingStatus.trial in
    let is_expired = is_past sub.ends_at now in
    let in_grace_period = is_expired && is_ahead sub.grace_ends_at now in
    let cancelled = billing_eq sub.billing_status BillingStatus.cancelled in
    let trial_over = in_trial && is_past sub.trial_ends_at now in
    let (access, message) =
      decide (is_school_inactive school) cancelled is_expired in_grace_period trial_over in
    record {
      school_id = school.id;
      plan_tier = plan.tier;
      billing_status = sub.billing_status;
      can_access_platform = access;
      in_trial = in_trial;
      in_grace_period = in_grace_period;
      is_expired = is_expired;
      trial_ends_at = sub.trial_ends_at;
      ends_at = sub.ends_at;
      grace_ends_at = sub.grace_ends_at;
      message = message;
      features = plan.features;
      usage = usage;
    }

-- A school may use the platform exactly when it is active, its subscription is not cancelled, and
-- either the subscription has ended and its period of grace has not, or it has not ended and, if it
-- is a trial, the trial has not ended.
pub status_of-access_iff :
    (now : ℕ) (school : School) (sub : SchoolSubscription) (plan : PlanCatalog) (usage : Usage)
    → ((status_of now school sub plan usage).can_access_platform ≡ true) ↔ (
        (is_school_inactive school ≡ false)
        × (sub.billing_status ≢ BillingStatus.cancelled)
        × (((is_past sub.ends_at now ≡ true) × (is_ahead sub.grace_ends_at now ≡ true))
            ⊎ ((is_past sub.ends_at now ≡ false)
                × ((sub.billing_status ≢ BillingStatus.trial)
                    ⊎ (is_past sub.trial_ends_at now ≡ false)))))
unfolding status_of
status_of-access_iff now school sub plan usage = (λ h. ground arith, λ h. ground arith)
