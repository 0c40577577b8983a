-- ===== src/Overview/Clients.antt =====
-- frontend/src/pages/OverviewPage/components/RecommendedVpnClients: the list of clients from a file, whose format
-- is checked.
pub mod Links
use vpnshiki.Prelude.{
  none, some, true, false, refl, Bool, Option, String, if◌then◌else◌, ◌≡◌, arith, str_eq, ◌&&◌, ◌↔◌,
  ap, subst,
}
use vpnshiki.Text.{Text}

-- A value of JSON; a number is of no use here. An object has each of its names once.
mutual
  pub data Json : Type 0 where
    json_null : Json
    json_bool : Bool → Json
    json_number : Text → Json
    json_string : String → Json
    json_array : JsonItems → Json
    json_object : JsonFields → Json

  pub data JsonItems : Type 0 where
    no_items : JsonItems
    item : Json → JsonItems → JsonItems

  pub data JsonFields : Type 0 where
    no_fields : JsonFields
    field : String → Json → JsonFields → JsonFields

unfoldable pub get_field : String → JsonFields → Option Json
get_field name no_fields = none
get_field name (field n value rest) =
    let found = get_field name rest in if str_eq n name then some value else found

abbrev is_text : Option Json → Bool
is_text (some (json_string s)) = true
is_text _ = false

-- The condition on an element, negated: an array has neither a `name` nor a `url`.
unfoldable pub is_client : Json → Bool
unfolding get_field
is_client (json_object fields) =
    is_text (get_field "name" fields) && is_text (get_field "url" fields)
is_client _ = false

unfoldable pub all_clients : JsonItems → Bool
unfolding is_client
all_clients no_items = true
all_clients (item j js) = is_client j && all_clients js

pub data ClientsFault : Type 0 where
  not_loaded unreadable wrong_format : ClientsFault

pub data ClientsResult : Type 0 where
  clients : JsonItems → ClientsResult
  rejected : ClientsFault → ClientsResult

checked : Json → ClientsResult
unfolding all_clients
checked (json_array js) = if all_clients js then clients js else rejected wrong_format
checked _ = rejected wrong_format

-- `body` is `none` if it is no JSON.
unfoldable pub get_recommended_vpn_clients :
    (response_ok : Bool) → (body : Option Json) → ClientsResult
unfolding checked
get_recommended_vpn_clients false body = rejected not_loaded
get_recommended_vpn_clients true none = rejected unreadable
get_recommended_vpn_clients true (some j) = checked j

-- The independent description: an object with the two texts.
pub record IsClient (j : Json) : Type 0 where
  pub fields : JsonFields
  pub is_object : j ≡ json_object fields
  pub name : String
  pub has_name : get_field "name" fields ≡ some (json_string name)
  pub url : String
  pub has_url : get_field "url" fields ≡ some (json_string url)

abbrev pub AllClients : JsonItems → Type 0
AllClients no_items = Unit
AllClients (item j js) = IsClient j × AllClients js

text_of : (o : Option Json) → is_text o ≡ true → (s : String) × (o ≡ some (json_string s))
text_of (some (json_string s)) h = (s, refl)
text_of none h = cc
text_of (some json_null) h = cc
text_of (some (json_bool b)) h = cc
text_of (some (json_number n)) h = cc
text_of (some (json_array js)) h = cc
text_of (some (json_object fs)) h = cc

is_client-IsClient : (j : Json) → is_client j ≡ true → IsClient j
unfolding is_client
is_client-IsClient (json_object fields) h =
    let (p, q) : (is_text (get_field "name" fields) ≡ true)
        × (is_text (get_field "url" fields) ≡ true) =
      ground (arith, h) in
    let (name, has_name) = text_of (get_field "name" fields) p in
    let (url, has_url) = text_of (get_field "url" fields) q in
    record {
      fields = fields;
      is_object = refl;
      name = name;
      has_name = has_name;
      url = url;
      has_url = has_url;
    }
is_client-IsClient json_null h = cc
is_client-IsClient (json_bool b) h = cc
is_client-IsClient (json_number n) h = cc
is_client-IsClient (json_string s) h = cc
is_client-IsClient (json_array js) h = cc

IsClient-is_client : (j : Json) → IsClient j → is_client j ≡ true
unfolding is_client
IsClient-is_client j w = rw (w.is_object, w.has_name, w.has_url) refl

all_clients-AllClients : (js : JsonItems) → all_clients js ≡ true → AllClients js
unfolding all_clients
all_clients-AllClients no_items h = tt
all_clients-AllClients (item j js) h =
    let (p, q) : (is_client j ≡ true) × (all_clients js ≡ true) = ground (arith, h) in
    (is_client-IsClient j p, all_clients-AllClients js q)

AllClients-all_clients : (js : JsonItems) → AllClients js → all_clients js ≡ true
unfolding all_clients
AllClients-all_clients no_items w = refl
AllClients-all_clients (item j js) (w, ws) =
    rw (IsClient-is_client j w, AllClients-all_clients js ws) refl

same_items :
    (b : Bool) (ks js : JsonItems)
    → (if b then clients ks else rejected wrong_format) ≡ clients js
    → (b ≡ true) × (ks ≡ js)
same_items true ks js h = (refl, cc)
same_items false ks js h = cc

checked_iff :
    (j : Json) (js : JsonItems)
    → (checked j ≡ clients js)
      ↔ ((◌≡◌ {A = Bool} true true) × (some j ≡ some (json_array js)) × AllClients js)
unfolding checked
checked_iff (json_array ks) js = (
  λ h.
      let (all, same) = same_items (all_clients ks) ks js h in
      (
        refl,
        ap (λ k. some (json_array k)) same,
        subst AllClients same (all_clients-AllClients ks all),
      ),
  λ (_, h, w).
      let same : js ≡ ks = cc in
      rw (AllClients-all_clients ks (subst AllClients same w), same) refl,
)
checked_iff json_null js = (λ h. cc, λ (_, h, _). cc)
checked_iff (json_bool b) js = (λ h. cc, λ (_, h, _). cc)
checked_iff (json_number n) js = (λ h. cc, λ (_, h, _). cc)
checked_iff (json_string s) js = (λ h. cc, λ (_, h, _). cc)
checked_iff (json_object fs) js = (λ h. cc, λ (_, h, _). cc)

-- A list of clients is shown exactly if the response is `ok` and its body is an array each of whose elements is an
-- object with a text under `name` and one under `url`; the list is then that array.
pub get_recommended_vpn_clients_iff :
    (response_ok : Bool) (body : Option Json) (js : JsonItems)
    → (get_recommended_vpn_clients response_ok body ≡ clients js)
      ↔ ((response_ok ≡ true) × (body ≡ some (json_array js)) × AllClients js)
unfolding get_recommended_vpn_clients
get_recommended_vpn_clients_iff false body js = (λ h. cc, λ (h, _, _). cc)
get_recommended_vpn_clients_iff true none js = (λ h. cc, λ (_, h, _). cc)
get_recommended_vpn_clients_iff true (some j) js = checked_iff j js
