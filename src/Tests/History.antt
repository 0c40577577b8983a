-- ===== src/Tests/History.antt =====
-- The history windows.
use vpnshiki.Vpn.Panel
use vpnshiki.Prelude.Int.{◌+ℤ◌, pos, negsuc}
use vpnshiki.Money.{cents, to_fixed}
use vpnshiki.Money.Printed.{cents-to_fixed}
use vpnshiki.Prelude.{some, [], ◌∷◌, refl, All, map, ◌≡◌, Perm, ◌++◌}
use vpnshiki.Prelude.Dict.{HasDistinctKeys}
use vpnshiki.History.Charges.{
  charge_months, fetched_charges, compare_charges, format_charge_count, get_month_key,
}
use vpnshiki.History.Grouping.{grand_total, entries_of, all_rows}
use vpnshiki.History.BillingRuns.{
  pluralize, run_months, take_chars, total_charge_in_cents, runs_total,
}
use vpnshiki.Prelude.Sorting.{sort}
use vpnshiki.Tests.Fixtures.{charges, locale, runs, locale-IsConsistent}
use vpnshiki.Text.{codes}
use vpnshiki.History.TopUps.{format_top_up_count}
use vpnshiki.History.Conservation.{
  Pairwise, Precedes, charge_months-Precedes, charge_months-exact, run_months-exact,
}
use vpnshiki.Plural.{counted}
use vpnshiki.History.Labels.{count_labels-eq-counted}
use vpnshiki.Users.VpnProfiles.{profile_count_label}
use vpnshiki.Vpn.Connections.{connection_count_label, connection_variant_label}

charges_total : fetched_charges charges ≡ some (pos 1475)
unfolding fetched_charges ◌+ℤ◌
charges_total = refl

charge_keys : map (λ m. m.0) (charge_months locale charges) ≡ "2026-06" ∷ "2026-05" ∷ []
unfolding charge_months
charge_keys = refl

twenty_one : pluralize 21 (codes "расчёт") (codes "расчёта") (codes "расчётов") ≡ codes "21 расчёт"
unfolding pluralize
twenty_one = refl

charge_months-exact_example :
    HasDistinctKeys (charge_months locale charges)
    × All
        (λ m.
          m.1
          ≡ entries_of
              (λ c. get_month_key locale c.created_at)
              m.0
              (sort (compare_charges locale) charges))
        (charge_months locale charges)
    × Perm (all_rows (charge_months locale charges)) charges
charge_months-exact_example = charge_months-exact locale charges

charge_months-Precedes_example :
    All (λ m. Pairwise (Precedes locale) m.1) (charge_months locale charges)
charge_months-Precedes_example = charge_months-Precedes locale charges locale-IsConsistent

run_months-exact_example :
    HasDistinctKeys (run_months runs)
    × All (λ m. m.1 ≡ entries_of (λ r. take_chars 7 r.billing_date) m.0 runs) (run_months runs)
    × Perm (all_rows (run_months runs)) runs
    × (grand_total total_charge_in_cents (run_months runs) ≡ runs_total runs)
run_months-exact_example = run_months-exact runs

count_labels-eq-counted_example :
    (pluralize 112 (codes "день") (codes "дня") (codes "дней")
      ≡ counted 112 (codes "день") (codes "дня") (codes "дней"))
    × (format_charge_count 112
        ≡ counted 112 (codes "списание") (codes "списания") (codes "списаний"))
    × (format_top_up_count 112
        ≡ counted 112 (codes "пополнение") (codes "пополнения") (codes "пополнений"))
    × (profile_count_label 112
        ≡ counted 112 (codes "VPN-профиль") (codes "VPN-профиля") (codes "VPN-профилей"))
    × (Panel.profile_count_label 112
        ≡ counted 112 (codes "профиль") (codes "профиля") (codes "профилей"))
    × (connection_count_label 112
        ≡ counted 112 (codes "подключение") (codes "подключения") (codes "подключений")
          ++ codes " для ручной настройки")
    × (connection_variant_label 112
        ≡ counted 112 (codes "вариант") (codes "варианта") (codes "вариантов")
          ++ codes " для приложений без подписки.")
count_labels-eq-counted_example =
    count_labels-eq-counted 112 (codes "день") (codes "дня") (codes "дней")

-- A refund of 3.05 roubles.
cents-to_fixed_example : cents (to_fixed (some (negsuc 304))) ≡ some (negsuc 304)
cents-to_fixed_example = cents-to_fixed (negsuc 304)
