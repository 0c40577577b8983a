-- ===== src/Tests/Requests.antt =====
-- The client of the server, the session, and the addresses.
use vpnshiki.Session
use vpnshiki.Prelude.{ℕ, none, some, [], ◌∷◌, true, refl, List, Option, ◌≡◌}
use vpnshiki.Api.{
  many, payload, failure, api, ok, err, ApiError, ApiErrorPayload, api_request, Response, api_error,
  json_string, unexpected,
}
use vpnshiki.Session.{
  IsCoherent, authenticated, logout, SessionEvent, session_run, signed_in, initialized, logged_in,
  signed_out, logged_out, logout-signed_out, session_run-initial-IsCoherent,
}
use vpnshiki.Entities.Users.{User, UserRole, AccountStatus}
use vpnshiki.Routes.{
  element, settle, admin_top_ups, admin_users, destination, is_admin, page, element-IsAdminPage,
  settle-eq-destination, users,
}
use vpnshiki.Endpoints.Keys.{user_charges, key-injective}

abbrev taken : ApiErrorPayload
taken = record {
  code = some "name_taken";
  message = none;
  field_errors = some (("name", many ("taken" ∷ "short" ∷ [])) ∷ []);
}

abbrev answer : Option (Response ℕ)
answer = some (failure 409 (payload taken))

abbrev taken_error : ApiError
taken_error = api_error 409 taken

answer_refused : api_request 0 answer ≡ err (api taken_error)
unfolding api_request
answer_refused = refl

answer_refused_by_text :
    api_request {A = ℕ} 0 (some (failure 502 json_string))
    ≡ err (api (api_error 502 (record { code = none; message = none; field_errors = none })))
unfolding api_request
answer_refused_by_text = refl

abbrev client : User
client = record {
  id = "u1";
  name = "client";
  balance = "0.00";
  negative_balance_limit = "300.00";
  role = UserRole.user;
  account_status = AccountStatus.active;
  block_source = none;
  created_at = "2026-05-31T09:00:00Z";
  updated_at = "2026-05-31T09:00:00Z";
}

abbrev events : List SessionEvent
events = initialized (err unexpected) ∷ logged_in (ok client) ∷ logged_out (err unexpected) ∷ []

session_run-initial-IsCoherent_example : IsCoherent (session_run Session.initial events)
session_run-initial-IsCoherent_example = session_run-initial-IsCoherent events

settle-eq-destination_example :
    settle 3 authenticated (some client) admin_top_ups
    ≡ some (destination authenticated (some client) admin_top_ups)
settle-eq-destination_example = settle-eq-destination 0 authenticated (some client) admin_top_ups

abbrev owner : User
owner = record client { role = UserRole.admin }

shows_users : element authenticated (some owner) admin_users ≡ page users
unfolding element
shows_users = refl

element-IsAdminPage_example : (authenticated ≡ authenticated) × (is_admin (some owner) ≡ true)
element-IsAdminPage_example =
    element-IsAdminPage authenticated (some owner) admin_users users shows_users tt

key-injective_example : user_charges "u1" ≡ user_charges "u1"
key-injective_example = key-injective (user_charges "u1") (user_charges "u1") refl refl refl
