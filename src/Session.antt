-- ===== src/Session.antt =====
-- frontend/src/entities/user/userStore.ts: who is signed in. The requests are over when an event
-- comes, in any order; `err` is a rejected promise.
use vpnshiki.Prelude.{none, some, [], ◌∷◌, List, Option, ◌≡◌, ◌≢◌, refl}
use vpnshiki.Api.{ok, err, Result, Fault}
use vpnshiki.Entities.Users.{User}

pub data AuthStatus : Type 0 where
  checking authenticated unauthenticated : AuthStatus

pub record UserState : Type 0 where
  pub user : Option User
  pub status : AuthStatus

abbrev pub initial : UserState
initial = record { user = none; status = checking }

abbrev pub signed_in : User → UserState
signed_in user = record { user = some user; status = authenticated }

abbrev pub signed_out : UserState
signed_out = record { user = none; status = unauthenticated }

-- The handlers give the new state and what they reject with, if anything.
unfoldable pub initialize : UserState → Result User → UserState × Option Fault
initialize s (ok user) = (signed_in user, none)
initialize s (err e) = (signed_out, none)

unfoldable pub login : UserState → Result User → UserState × Option Fault
login s (ok user) = (signed_in user, none)
login s (err e) = (s, some e)

unfoldable pub logout : UserState → Result (Unit {0}) → UserState × Option Fault
logout s (ok _) = (signed_out, none)
logout s (err e) = (signed_out, some e)

unfoldable pub set_user : UserState → User → UserState
set_user s user = signed_in user

pub data SessionEvent : Type 0 where
  initialized logged_in : Result User → SessionEvent
  logged_out : Result (Unit {0}) → SessionEvent
  user_set : User → SessionEvent

unfoldable pub session_step : UserState → SessionEvent → UserState
unfolding initialize login logout set_user
session_step s (initialized r) = (initialize s r).0
session_step s (logged_in r) = (login s r).0
session_step s (logged_out r) = (logout s r).0
session_step s (user_set u) = set_user s u

unfoldable pub session_run : UserState → List SessionEvent → UserState
unfolding session_step
session_run s [] = s
session_run s (e ∷ es) = session_run (session_step s e) es

-- A user is known exactly while the session is authenticated.
abbrev pub IsCoherent : UserState → Type 0
IsCoherent s =
    (s.status ≡ authenticated → (u : User) × (s.user ≡ some u))
    × (s.status ≢ authenticated → s.user ≡ none)

session_step-IsCoherent :
    (s : UserState) (e : SessionEvent) → IsCoherent s → IsCoherent (session_step s e)
unfolding session_step
session_step-IsCoherent s (initialized (ok u)) h = ((λ _. (u, refl)), λ n. absurd (n refl))
session_step-IsCoherent s (initialized (err e)) h = ((λ p. cc), λ n. refl)
session_step-IsCoherent s (logged_in (ok u)) h = ((λ _. (u, refl)), λ n. absurd (n refl))
session_step-IsCoherent s (logged_in (err e)) h = h
session_step-IsCoherent s (logged_out (ok _)) h = ((λ p. cc), λ n. refl)
session_step-IsCoherent s (logged_out (err e)) h = ((λ p. cc), λ n. refl)
session_step-IsCoherent s (user_set u) h = ((λ _. (u, refl)), λ n. absurd (n refl))

session_run-IsCoherent :
    (s : UserState) (es : List SessionEvent) → IsCoherent s → IsCoherent (session_run s es)
unfolding session_run
session_run-IsCoherent s [] h = h
session_run-IsCoherent s (e ∷ es) h =
    session_run-IsCoherent (session_step s e) es (session_step-IsCoherent s e h)

-- However the requests of a session end, and in whatever order, a user is known exactly while the
-- session is authenticated.
pub session_run-initial-IsCoherent : (es : List SessionEvent) → IsCoherent (session_run initial es)
session_run-initial-IsCoherent es = session_run-IsCoherent initial es ((λ p. cc), λ n. refl)

-- A logout ends the session whether or not the request failed, and a failed login leaves it as it was.
pub logout-signed_out :
    (s : UserState) (r : Result (Unit {0})) (e : Fault)
    → ((logout s r).0 ≡ signed_out) × (login s (err e) ≡ (s, some e))
unfolding logout login
logout-signed_out s (ok _) e = (refl, refl)
logout-signed_out s (err _) e = (refl, refl)
