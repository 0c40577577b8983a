-- ===== src/Entities/TariffPlans.antt =====
-- frontend/src/entities/tariffPlan/types.ts. A calendar date is a text `YYYY-MM-DD`.
use vpnshiki.Prelude.{ℕ, String, Bool, Option}
use vpnshiki.Text.{Text}

pub data TariffPlanStatus : Type 0 where
  active scheduled completed : TariffPlanStatus

pub record TariffPlan : Type 0 where
  pub id : String
  pub name : String
  pub monthly_amount : String
  pub start_date : Text
  pub end_date : Option Text
  pub status : TariffPlanStatus
  pub is_editable : Bool
  pub created_at : String
  pub updated_at : String

pub record TariffPlanPayload : Type 0 where
  pub monthly_amount : String
  pub start_date : Text

pub record TariffPlanBillingRun : Type 0 where
  pub id : String
  pub billing_date : String
  pub daily_charge : String
  pub active_users_count : ℕ
  pub tarification_total : String
  pub additional_profiles_total : String
  pub total_charged : String
