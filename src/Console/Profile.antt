-- ===== src/Console/Profile.antt =====
-- The profile of a user of the web console: auth/frontend/src/api-types.ts, and the helpers of
-- auth/frontend/src/contexts/AuthContext.tsx that make it of what the auth service sends.
use vectron.Prelude.{String, Option, none, some, ℤ, pos, str_eq, if◌then◌else◌}

-- A field that should be a number of an enumeration: services send a number or its name.
pub data Raw : Type 0 where
  number : ℤ → Raw
  text : String → Raw
  unknown : Raw

pub record RawProfile : Type 0 where
  pub id : String
  pub email : String
  pub created_at : ℤ
  pub plan : Raw
  pub subscription_status : Raw

pub record UserProfile : Type 0 where
  pub id : String
  pub email : String
  pub created_at : ℤ
  pub plan : ℤ
  pub subscription_status : ℤ

pub data Plan : Type 0 where
  plan_unspecified : Plan
  free : Plan
  paid : Plan

pub data SubscriptionStatus : Type 0 where
  subscription_status_unspecified : SubscriptionStatus
  active : SubscriptionStatus
  canceled : SubscriptionStatus
  past_due : SubscriptionStatus

abbrev pub plan_number : Plan → ℤ
plan_number plan_unspecified = pos 0
plan_number free = pos 1
plan_number paid = pos 2

abbrev pub plan_name : Plan → String
plan_name plan_unspecified = "PLAN_UNSPECIFIED"
plan_name free = "FREE"
plan_name paid = "PAID"

abbrev pub status_number : SubscriptionStatus → ℤ
status_number subscription_status_unspecified = pos 0
status_number active = pos 1
status_number canceled = pos 2
status_number past_due = pos 3

abbrev pub status_name : SubscriptionStatus → String
status_name subscription_status_unspecified = "SUBSCRIPTION_STATUS_UNSPECIFIED"
status_name active = "ACTIVE"
status_name canceled = "CANCELED"
status_name past_due = "PAST_DUE"

-- `Plan[name]`, if it is a number: the keys that are numbers hold names.
unfoldable pub plan_named : String → Option ℤ
plan_named name =
    if str_eq name (plan_name plan_unspecified)
    then some (plan_number plan_unspecified)
    else if str_eq name (plan_name free)
    then some (plan_number free)
    else if str_eq name (plan_name paid)
    then some (plan_number paid)
    else none

unfoldable pub status_named : String → Option ℤ
status_named name =
    if str_eq name (status_name subscription_status_unspecified)
    then some (status_number subscription_status_unspecified)
    else if str_eq name (status_name active)
    then some (status_number active)
    else if str_eq name (status_name canceled)
    then some (status_number canceled)
    else if str_eq name (status_name past_due)
    then some (status_number past_due)
    else none

abbrev pub number_or : Option ℤ → ℤ → ℤ
number_or none d = d
number_or (some n) d = n

unfoldable pub normalize_plan : Raw → ℤ
unfolding plan_named
normalize_plan (number n) = n
normalize_plan (text name) = number_or (plan_named name) (plan_number free)
normalize_plan unknown = plan_number free

unfoldable pub normalize_subscription_status : Raw → ℤ
unfolding status_named
normalize_subscription_status (number n) = n
normalize_subscription_status (text name) =
    number_or (status_named name) (status_number subscription_status_unspecified)
normalize_subscription_status unknown = status_number subscription_status_unspecified

unfoldable pub normalize_user_profile : RawProfile → UserProfile
normalize_user_profile user = record {
  id = user.id;
  email = user.email;
  created_at = user.created_at;
  plan = normalize_plan user.plan;
  subscription_status = normalize_subscription_status user.subscription_status;
}
