-- ===== src/Entities/VpnAccess.antt =====
-- frontend/src/entities/vpnAccess/types.ts
use vpnshiki.Prelude.{String, Option, List}
use vpnshiki.Text.{Text}

pub record VpnConnection : Type 0 where
  pub name : Text
  pub protocol : Text
  pub transport : Option Text
  pub security : Option Text
  pub url : String

pub record VpnClientProfile : Type 0 where
  pub email : String
  pub label : Text
  pub subscription_url : String
  pub connections : List VpnConnection

pub record VpnAccess : Type 0 where
  pub profiles : List VpnClientProfile
