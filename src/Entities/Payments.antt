-- ===== src/Entities/Payments.antt =====
-- frontend/src/entities/payment/types.ts
use vpnshiki.Prelude.{String, Option, List}

pub data YooMoneyPaymentStatus : Type 0 where
  pending succeeded : YooMoneyPaymentStatus

-- 'POST'
pub data CheckoutMethod : Type 0 where
  post : CheckoutMethod

pub record YooMoneyCheckout : Type 0 where
  pub action : String
  pub method : CheckoutMethod
  pub fields : List (String × String)

pub record YooMoneyPayment : Type 0 where
  pub id : String
  pub status : YooMoneyPaymentStatus
  pub requested_amount : String
  pub received_amount : Option String
  pub created_at : String
  pub paid_at : Option String
  pub checkout : Option YooMoneyCheckout

-- 'PC' and 'AC'
pub data YooMoneyPaymentType : Type 0 where
  pc ac : YooMoneyPaymentType

pub record AdminYooMoneyPayment : Type 0 where
  pub id : String
  pub user_id : String
  pub user_name : String
  pub label : String
  pub requested_amount : String
  pub withdrawn_amount : Option String
  pub received_amount : Option String
  pub payment_type : Option YooMoneyPaymentType
  pub operation_id : Option String
  pub status : YooMoneyPaymentStatus
  pub last_reconciliation_check_at : Option String
  pub created_at : String
  pub paid_at : Option String
