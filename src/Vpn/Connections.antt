-- ===== src/Vpn/Connections.antt =====
-- frontend/src/pages/OverviewPage/components/VpnAccessPanel/components/ProfileList/ProfileList.tsx: the
-- list of the connections of a profile. `collate` is `localeCompare` of base letters in English, `upper`
-- and `lower` are those of the browser.
use mathlib.Core.Option
use vpnshiki.Prelude.Sorting.{
  sort-perm, sort-IsSorted, on-IsConsistent, filter-sort, sort, IsConsistent, IsSorted,
}
use vpnshiki.Prelude.{
  ℕ, none, some, [], ◌∷◌, true, List, Option, Bool, ◌%◌, String, if◌then◌else◌, leb, map, ◌&&◌, ◌≡◌,
  Perm, ◌==◌, ◌++◌, filter, arith,
}
use vpnshiki.Text.{Text, decimal, text_eq, codes}
use Prim.Native.Nat.{Ordering}
use vpnshiki.Entities.VpnAccess.{VpnConnection}

unfoldable pub connection_count_label : ℕ → Text
unfolding decimal
connection_count_label count =
    let last_two_digits = count % 100 in
    let last_digit = count % 10 in
    let noun =
      if leb 11 last_two_digits && leb last_two_digits 14
      then codes "подключений"
      else if last_digit == 1
      then codes "подключение"
      else if leb 2 last_digit && leb last_digit 4
      then codes "подключения"
      else codes "подключений" in
    (decimal count ++ b' ' ∷ noun) ++ codes " для ручной настройки"

unfoldable pub connection_variant_label : ℕ → Text
unfolding decimal
connection_variant_label count =
    let last_two_digits = count % 100 in
    let last_digit = count % 10 in
    let noun =
      if leb 11 last_two_digits && leb last_two_digits 14
      then codes "вариантов"
      else if last_digit == 1
      then codes "вариант"
      else if leb 2 last_digit && leb last_digit 4
      then codes "варианта"
      else codes "вариантов" in
    (decimal count ++ b' ' ∷ noun) ++ codes " для приложений без подписки."

-- A line of the list: its tags, its name and its address.
pub record ConnectionLine : Type 0 where
  pub protocol_tag : Text
  pub is_hysteria : Bool
  pub transport_tag : Option Text
  pub security_tag : Option (Text × Bool)
  pub name : Text
  pub url : String

-- `value && …`: neither `null` nor the empty text is shown.
abbrev shown_text : Option Text → Option Text
shown_text none = none
shown_text (some []) = none
shown_text (some (c ∷ s)) = some (c ∷ s)

pub data ListBody : Type 0 where
  no_connections : ListBody
  lines : List ConnectionLine → ListBody

module _ (upper lower : Text → Text) where
  unfoldable pub protocol_label : Text → Text
  unfolding text_eq
  protocol_label protocol =
      if text_eq (lower protocol) (codes "hysteria2") then codes "Hysteria2" else upper protocol

  unfoldable pub connection_line : VpnConnection → ConnectionLine
  unfolding protocol_label text_eq
  connection_line c = record {
    protocol_tag = protocol_label c.protocol;
    is_hysteria = text_eq c.protocol (codes "hysteria2");
    transport_tag = Option.map upper (shown_text c.transport);
    security_tag = Option.map (λ s. (upper s, text_eq s (codes "tls"))) (shown_text c.security);
    name = c.name;
    url = c.url;
  }

module _ (collate : Text → Text → Ordering) where
  unfoldable pub by_protocol : VpnConnection → VpnConnection → Ordering
  by_protocol first second = collate second.protocol first.protocol

  unfoldable pub sorted_connections : List VpnConnection → List VpnConnection
  unfolding by_protocol sort
  sorted_connections connections = sort by_protocol connections

  -- Under a collation that orders texts, the connections of a profile are listed once each, with the
  -- protocol that sorts last at the top; those whose protocols are tied stay in the order given.
  pub sorted_connections-IsSorted :
      (connections : List VpnConnection) (p : VpnConnection → Bool)
      → IsConsistent collate
      → ((x y : VpnConnection)
          → p x ≡ true
          → p y ≡ true
          → collate y.protocol x.protocol ≡ Ordering.eq)
      → Perm (sorted_connections connections) connections
        × IsSorted (λ x y. collate y.protocol x.protocol) (sorted_connections connections)
        × (filter p (sorted_connections connections) ≡ filter p connections)
  unfolding sorted_connections by_protocol
  sorted_connections-IsSorted connections p c ties = (
    sort-perm by_protocol connections,
    sort-IsSorted by_protocol (on-IsConsistent (λ x. x.protocol) collate c) connections,
    filter-sort by_protocol p (λ x y h k. ground (arith, ties x y h k)) connections,
  )

module _ (upper lower : Text → Text) (collate : Text → Text → Ordering) where
  unfoldable pub connection_list : List VpnConnection → ListBody
  unfolding connection_line sorted_connections
  connection_list [] = no_connections
  connection_list (c ∷ cs) =
      lines (map (connection_line upper lower) (sorted_connections collate (c ∷ cs)))
