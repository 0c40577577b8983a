-- ===== src/Locale.antt =====
-- What the pages take from the browser's internationalisation: `Intl` formatters, `localeCompare`
-- and letter case. Dates go in as the texts that the server sends.
use Prim.Native.Nat.{Ordering}
use vpnshiki.Prelude.{ℕ, String}
use vpnshiki.Text.{Text}
use vpnshiki.Money.{Decimal}

-- The parts of a date in Moscow, of `formatToParts`.
pub record DateParts : Type 0 where
  pub year : String
  pub month : String
  pub day : String

pub record Locale : Type 0 where
  pub currency : Decimal → Text
  pub moscow_parts : String → DateParts
  pub month_year : String → Text
  pub day_month : String → Text
  pub to_upper : ℕ → Text
  pub to_lower : Text → Text
  pub compare : String → String → Ordering
