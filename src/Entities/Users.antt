-- ===== src/Entities/Users.antt =====
-- frontend/src/entities/user/types.ts
use vpnshiki.Prelude.{ℕ, String, Bool, Option, List}

pub data UserRole : Type 0 where
  admin user : UserRole

pub data AccountStatus : Type 0 where
  active paused blocked : AccountStatus

pub data AccountBlockSource : Type 0 where
  billing admin : AccountBlockSource

pub data VpnProfileStatus : Type 0 where
  online offline : VpnProfileStatus

pub data StatusChangeSource : Type 0 where
  bootstrap admin billing top_up user : StatusChangeSource

pub data DailyChargeKind : Type 0 where
  tarification additional_profiles : DailyChargeKind

pub record User : Type 0 where
  pub id : String
  pub name : String
  pub balance : String
  pub negative_balance_limit : String
  pub role : UserRole
  pub account_status : AccountStatus
  pub block_source : Option AccountBlockSource
  pub created_at : String
  pub updated_at : String

pub record VpnProfile : Type 0 where
  pub enabled : Bool
  pub label : String
  pub status : VpnProfileStatus

pub record AdminUser : Type 0 where
  pub account : User
  pub open account use *
  pub tg_user_id : Option String
  pub total_charged : String
  pub total_top_ups : String
  pub vpn_profiles : Option (List VpnProfile)

pub record UserCharge : Type 0 where
  pub id : String
  pub amount : String
  pub tariff_plan_id : String
  pub tariff_plan_name : String
  pub kind : DailyChargeKind
  pub additional_profiles_count : Option ℕ
  pub created_at : String

pub record UserTopUp : Type 0 where
  pub id : String
  pub amount : String
  pub created_at : String

pub record UserStatusHistory : Type 0 where
  pub id : String
  pub previous_status : Option AccountStatus
  pub new_status : AccountStatus
  pub changed_by_user_id : Option String
  pub changed_by_name : Option String
  pub source : StatusChangeSource
  pub effective_at : String
