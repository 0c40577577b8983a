-- ===== src/Payment.antt =====
-- frontend/src/pages/PaymentResultPage/PaymentResultPage.tsx: the page that waits for a payment. Times
-- are milliseconds of `Date.now()`; the state is the three references that the component keeps, with
-- the requests for the account that are under way.
pub mod Result
use vpnshiki.Entities.Payments.{YooMoneyPaymentStatus, YooMoneyPayment, pending, succeeded}
use vpnshiki.Prelude.{
  ℕ, none, some, [], ◌∷◌, true, false, inl, inr, refl, Bool, List, Option, String, if◌then◌else◌,
  All, ltb, str_eq, ◌==◌, ◌≡◌, ◌-◌, ◌+◌, Bool-cases, arith, eq_iff, ap, ◌↔◌, ◌<◌, ◌≤◌,
}

abbrev payment_poll_interval : ℕ
payment_poll_interval = 10000

abbrev pub targeted_reconciliation_window : ℕ
targeted_reconciliation_window = 60000

-- The two requests that ask for a payment.
pub data PaymentRequest : Type 0 where
  reconcile get : PaymentRequest

-- `fetching` counts the requests of `getCurrentUser` that are not over, `fetched` those that gave the user.
pub record PaymentPage : Type 0 where
  pub reconciliation_started_at : Option ℕ
  pub refreshed_payment_id : Option String
  pub fetching : ℕ
  pub fetched : ℕ

abbrev pub initial : PaymentPage
initial = record {
  reconciliation_started_at = none;
  refreshed_payment_id = none;
  fetching = 0;
  fetched = 0;
}

abbrev started : Option ℕ → ℕ → ℕ
started none now = now
started (some t) now = t

abbrev pub request_for : ℕ → ℕ → PaymentRequest
request_for start now = if ltb (now - start) targeted_reconciliation_window then reconcile else get

-- `queryFn`. A time before that at which the page began gives 0 here and a negative difference there, both
-- within the window.
unfoldable pub query : PaymentPage → ℕ → PaymentPage × PaymentRequest
query p now =
    let start = started p.reconciliation_started_at now in
    (record p { reconciliation_started_at = some start }, request_for start now)

-- `refetchInterval`; `none` is `false`.
unfoldable pub refetch_interval : Option YooMoneyPayment → Option ℕ
refetch_interval none = none
refetch_interval (some payment) = elim payment.status [
  | YooMoneyPaymentStatus.pending ↦ some payment_poll_interval
  | YooMoneyPaymentStatus.succeeded ↦ none
]

abbrev is_refreshed : Option String → String → Bool
is_refreshed none id = false
is_refreshed (some done) id = str_eq done id

abbrev marked : PaymentPage → Option String → String → PaymentPage
marked p done id =
    if is_refreshed done id
    then p
    else record p { refreshed_payment_id = some id; fetching = p.fetching + 1 }

abbrev shown : PaymentPage → String → YooMoneyPaymentStatus → PaymentPage
shown p id YooMoneyPaymentStatus.pending = p
shown p id YooMoneyPaymentStatus.succeeded = marked p p.refreshed_payment_id id

-- The effect that runs when the query has new data.
unfoldable pub show_payment : PaymentPage → YooMoneyPayment → PaymentPage
show_payment p payment = shown p payment.id payment.status

-- A request for the account is over, with the user or without. There is none to end without one under way.
unfoldable pub end_fetch : PaymentPage → Bool → PaymentPage
end_fetch p given =
    if p.fetching == 0
    then p
    else if given
    then record p { fetching = p.fetching - 1; fetched = p.fetched + 1 }
    else record p { refreshed_payment_id = none; fetching = p.fetching - 1 }

pub data PaymentEvent : Type 0 where
  queried : ℕ → PaymentEvent
  answered : YooMoneyPayment → PaymentEvent
  fetch_ended : Bool → PaymentEvent

unfoldable pub payment_step : PaymentPage → PaymentEvent → PaymentPage
unfolding query show_payment end_fetch
payment_step p (queried now) = (query p now).0
payment_step p (answered payment) = show_payment p payment
payment_step p (fetch_ended given) = end_fetch p given

unfoldable pub payment_run : PaymentPage → List PaymentEvent → PaymentPage
unfolding payment_step
payment_run p [] = p
payment_run p (e ∷ es) = payment_run (payment_step p e) es

-- The events of a page about one payment.
abbrev pub IsAbout : String → PaymentEvent → Type 0
IsAbout id (queried now) = Unit
IsAbout id (answered payment) = payment.id ≡ id
IsAbout id (fetch_ended given) = Unit

-- Of the mark, the requests under way and those that gave the user.
abbrev pub Once : String → Option String → ℕ → ℕ → Type 0
Once id none fetching fetched = (fetching ≡ 0) × (fetched ≡ 0)
Once id (some done) fetching fetched = (done ≡ id) × (fetching + fetched ≡ 1)

-- Without the mark the account was not fetched; with it, it was or is being fetched, once.
abbrev pub IsOnce : String → PaymentPage → Type 0
IsOnce id p = Once id p.refreshed_payment_id p.fetching p.fetched

mark-IsOnce :
    (id : String) (p : PaymentPage) (done : Option String)
    → p.refreshed_payment_id ≡ done
    → Once id done p.fetching p.fetched
    → IsOnce id (marked p done id)
mark-IsOnce id p none e h = (refl, omega (arith, h.0, h.1))
mark-IsOnce id p (some done) e h = elim (Bool-cases (str_eq done id)) [
  | inl same ↦ simp same (simp e h)
  | inr other ↦ absurd (ground (arith, eq_iff done id, h.0))
]

shown-IsOnce :
    (id : String) (p : PaymentPage) (payment : YooMoneyPayment) (status : YooMoneyPaymentStatus)
    → payment.id ≡ id
    → IsOnce id p
    → IsOnce id (shown p payment.id status)
shown-IsOnce id p payment pending a h = h
shown-IsOnce id p payment succeeded a h = rw a (mark-IsOnce id p p.refreshed_payment_id refl h)

ended-IsOnce :
    (id : String) (p : PaymentPage) (given : Bool) (done : Option String)
    → p.refreshed_payment_id ≡ done
    → Once id done p.fetching p.fetched
    → IsOnce id (end_fetch p given)
unfolding end_fetch
ended-IsOnce id p given none e h = simp h.0 (simp e (refl, h.1))
ended-IsOnce id p true (some done) e h = elim (Bool-cases (p.fetching == 0)) [
  | inl idle ↦ simp idle (simp e h)
  | inr busy ↦ simp busy (simp e (h.0, ground (arith, h.1)))
]
ended-IsOnce id p false (some done) e h = elim (Bool-cases (p.fetching == 0)) [
  | inl idle ↦ simp idle (simp e h)
  | inr busy ↦ simp busy (ground (arith, h.1), ground (arith, h.1))
]

payment_step-IsOnce :
    (id : String) (p : PaymentPage) (e : PaymentEvent)
    → IsAbout id e
    → IsOnce id p
    → IsOnce id (payment_step p e)
unfolding payment_step query show_payment
payment_step-IsOnce id p (queried now) a h = h
payment_step-IsOnce id p (answered payment) a h = shown-IsOnce id p payment payment.status a h
payment_step-IsOnce id p (fetch_ended given) a h =
    ended-IsOnce id p given p.refreshed_payment_id refl h

payment_run-IsOnce :
    (id : String) (p : PaymentPage) (es : List PaymentEvent)
    → All (IsAbout id) es
    → IsOnce id p
    → IsOnce id (payment_run p es)
unfolding payment_run
payment_run-IsOnce id p [] a h = h
payment_run-IsOnce id p (e ∷ es) a h =
    payment_run-IsOnce id (payment_step p e) es a.1 (payment_step-IsOnce id p e a.0 h)

-- However often the payment is polled and however the requests interleave, the account is fetched at
-- most once for it, and again only after a fetch that failed.
pub payment_run-initial-IsOnce :
    (id : String) (es : List PaymentEvent)
    → All (IsAbout id) es
    → IsOnce id (payment_run initial es)
payment_run-initial-IsOnce id es a = payment_run-IsOnce id initial es a (refl, refl)

-- The requests for the payment at the times at which the page asks.
unfoldable pub queries : PaymentPage → List ℕ → List PaymentRequest
unfolding query
queries p [] = []
queries p (now ∷ times) = let (q, request) = query p now in request ∷ queries q times

-- What a page that began at a time asks for at later calls.
abbrev pub Asks : ℕ → List ℕ → List PaymentRequest → Type 0
Asks start [] [] = Unit
Asks start (now ∷ times) (request ∷ requests) =
    ((request ≡ reconcile) ↔ (now < start + 60000))
    × ((request ≡ get) ↔ (start + 60000 ≤ now))
    × Asks start times requests
Asks start _ _ = ⊥

request_for_iff :
    (start now : ℕ)
    → ((request_for start now ≡ reconcile) ↔ (now < start + 60000))
      × ((request_for start now ≡ get) ↔ (start + 60000 ≤ now))
request_for_iff start now = ground arith

queries_of_started :
    (p : PaymentPage) (start : ℕ) (times : List ℕ)
    → p.reconciliation_started_at ≡ some start
    → Asks start times (queries p times)
unfolding queries query
queries_of_started p start [] e = tt
queries_of_started p start (now ∷ times) e =
    let same : started p.reconciliation_started_at now ≡ start = rw e refl in
    let asked = request_for_iff start now in
    rw same (
      asked.0,
      asked.1,
      queries_of_started (record p { reconciliation_started_at = some start }) start times refl,
    )

-- Whenever the page asks, it asks for the reconciliation of the payment if less than 60 seconds have passed
-- since it asked for the first time, which is itself such a time, and else only reads the payment.
pub queries-initial :
    (start : ℕ) (times : List ℕ) → Asks start (start ∷ times) (queries initial (start ∷ times))
unfolding queries query
queries-initial start times =
    let asked = request_for_iff start start in
    (asked.0, asked.1, queries_of_started (query initial start).0 start times refl)
