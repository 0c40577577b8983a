-- ===== src/History/Labels.antt =====
-- The count labels of the pages against the one rule of Plural.
use vpnshiki.Vpn.Connections.{connection_count_label, connection_variant_label}
use vpnshiki.Vpn.Panel
use vpnshiki.Prelude.{ℕ, ◌≡◌, arith, ◌++◌, ap, if◌then◌else◌, leb, ◌%◌, ◌&&◌, ◌==◌, ◌∷◌}
use vpnshiki.Text.{Text, codes, decimal}
use vpnshiki.Plural.{counted, noun, plural_form}
use vpnshiki.History.BillingRuns.{pluralize}
use vpnshiki.History.Charges.{format_charge_count}
use vpnshiki.History.TopUps.{format_top_up_count}
use vpnshiki.Users.VpnProfiles.{profile_count_label}

-- The tests of the list of connections choose the noun that the rule asks for.
tested_noun :
    (n : ℕ) (one few many : Text)
    → (if leb 11 (n % 100) && leb (n % 100) 14
        then many
        else if n % 10 == 1
        then one
        else if leb 2 (n % 10) && leb (n % 10) 4
        then few
        else many)
      ≡ noun (plural_form n) one few many
tested_noun n one few many = ground arith

-- The count labels of the three history windows, of the VPN profiles of a user and of those of the own account, and of
-- connections are the number, a space and the noun in the form that the rule of the language asks for, the last with words after it.
pub count_labels-eq-counted :
    (n : ℕ) (one few many : Text)
    → (pluralize n one few many ≡ counted n one few many)
      × (format_charge_count n ≡ counted n (codes "списание") (codes "списания") (codes "списаний"))
      × (format_top_up_count n
          ≡ counted n (codes "пополнение") (codes "пополнения") (codes "пополнений"))
      × (profile_count_label n
          ≡ counted n (codes "VPN-профиль") (codes "VPN-профиля") (codes "VPN-профилей"))
      × (Panel.profile_count_label n
          ≡ counted n (codes "профиль") (codes "профиля") (codes "профилей"))
      × (connection_count_label n
          ≡ counted n (codes "подключение") (codes "подключения") (codes "подключений")
            ++ codes " для ручной настройки")
      × (connection_variant_label n
          ≡ counted n (codes "вариант") (codes "варианта") (codes "вариантов")
            ++ codes " для приложений без подписки.")
unfolding pluralize format_charge_count format_top_up_count profile_count_label
    Panel.profile_count_label connection_count_label connection_variant_label
count_labels-eq-counted n one few many = (
  ground arith,
  ground arith,
  ground arith,
  ground arith,
  ground arith,
  ap (λ t. (decimal n ++ b' ' ∷ t) ++ codes " для ручной настройки") (tested_noun n _ _ _),
  ap (λ t. (decimal n ++ b' ' ∷ t) ++ codes " для приложений без подписки.") (tested_noun n _ _ _),
)
