-- ===== src/Overview/Clients/Links.antt =====
-- frontend/src/pages/OverviewPage/components/RecommendedVpnClients/RecommendedVpnClients.tsx: the list of links. A list that
-- came before an error stays below the message.
use vpnshiki.Prelude.{[], Bool, Option, if◌then◌else◌, List, String, some, none, ℕ, ◌∷◌, ◌+◌}
use vpnshiki.Text.{Text, pad_two, decimal}

pub record VpnClient : Type 0 where
  pub name : Text
  pub url : Text

pub record ClientLink : Type 0 where
  pub index : Text
  pub name : Text
  pub url : Text

-- `clientsQuery`
pub record ClientsQuery : Type 0 where
  pub is_pending : Bool
  pub is_error : Bool
  pub clients : Option (List VpnClient)

unfoldable pub client_links : (index : ℕ) → List VpnClient → List ClientLink
unfolding pad_two decimal
client_links index [] = []
client_links index (client ∷ clients) =
    record { index = pad_two (decimal (index + 1)); name = client.name; url = client.url }
    ∷ client_links (index + 1) clients

pub record ClientsView : Type 0 where
  pub loading_label : Option String
  pub error : Option String
  pub links : Option (List ClientLink)

unfoldable pub clients_view : ClientsQuery → ClientsView
unfolding client_links
clients_view q = record {
  loading_label = if q.is_pending then some "Загрузка рекомендуемых VPN-клиентов" else none;
  error = if q.is_error then some "Список временно недоступен" else none;
  links = elim q.clients [ none ↦ none | some clients ↦ some (client_links 0 clients) ];
}
