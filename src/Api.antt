-- ===== src/Api.antt =====
-- frontend/src/shared/api/client.ts: one request, from what the network gives to what a caller gets.
-- The HTTP client is a parameter by its result: no response, or a response with its body.
use vpnshiki.Prelude.{
  ℕ, none, some, [], ◌∷◌, Option, String, ◌≢◌, List, if◌then◌else◌, ◌≡◌, arith, map, ◌==◌, ◌↔◌, ◌⊎◌,
}

-- A value of `field_errors`: `string | string[]`.
pub data FieldMessage : Type 0 where
  one : String → FieldMessage
  many : List String → FieldMessage

pub record ApiErrorPayload : Type 0 where
  pub code : Option String
  pub message : Option String
  pub field_errors : Option (List (String × FieldMessage))

pub record ApiError : Type 0 where
  pub code : String
  pub message : String
  pub status : ℕ
  pub field_errors : Option (List (String × String))

-- The body of a response that is not `ok`: no JSON, or a JSON value. Of an object the fields that the
-- payload declares are told, at their declared types.
pub data ErrorBody : Type 0 where
  unreadable json_null : ErrorBody
  json_boolean json_number json_string json_array : ErrorBody
  payload : ApiErrorPayload → ErrorBody

-- `none` for a body that is no JSON.
pub data Response (A : Type 0) : Type 0 where
  success : (status : ℕ) → Option A → Response A
  failure : (status : ℕ) → ErrorBody → Response A

-- What a promise is rejected with: an `ApiError`, or an error of the language.
pub data Fault : Type 0 where
  api : ApiError → Fault
  unexpected : Fault

pub data Result {ℓ} (A : Type ℓ) : Type ℓ where
  ok : A → Result A
  err : Fault → Result A

abbrev network_error : ApiError
network_error = record {
  code = "network_error";
  message = "Не удалось связаться с сервером. Проверьте подключение.";
  status = 0;
  field_errors = none;
}

abbrev pub or_text : Option String → String → String
or_text none default = default
or_text (some s) default = s

-- `Array.isArray(value) ? value[0] ?? 'Некорректное значение' : value`
abbrev pub first_message : FieldMessage → String
first_message (one s) = s
first_message (many []) = "Некорректное значение"
first_message (many (s ∷ _)) = s

abbrev pub field_messages : Option (List (String × FieldMessage)) → Option (List (String × String))
field_messages none = none
field_messages (some entries) = some (map (λ e. (e.0, first_message e.1)) entries)

abbrev empty_payload : ApiErrorPayload
empty_payload = record { code = none; message = none; field_errors = none }

unfoldable pub api_error : ℕ → ApiErrorPayload → ApiError
api_error status p = record {
  code = or_text p.code "request_failed";
  message = or_text p.message "Не удалось выполнить запрос";
  status = status;
  field_errors = field_messages p.field_errors;
}

-- Reading a field of `null` throws; a boolean, a number, a text and an array have none of the fields.
refused : {A : Type 0} → ℕ → ErrorBody → Result A
unfolding api_error
refused status json_null = err unexpected
refused status (payload p) = err (api (api_error status p))
refused status _ = err (api (api_error status empty_payload))

-- `response.json()`
abbrev json : {A : Type 0} → Option A → Result A
json none = err unexpected
json (some a) = ok a

-- `absent` is `undefined as T`, the result for the status 204.
unfoldable pub api_request : {A : Type 0} → A → Option (Response A) → Result A
unfolding refused
api_request absent none = err (api network_error)
api_request absent (some (failure status body)) = refused status body
api_request absent (some (success status body)) = if status == 204 then ok absent else json body

-- The bodies that have none of the fields of the payload: no JSON, and JSON but `null` and objects.
pub data IsBare : ErrorBody → Type 0 where
  no_json : IsBare unreadable
  boolean : IsBare json_boolean
  number : IsBare json_number
  string : IsBare json_string
  array : IsBare json_array

-- The three ways to an `ApiError`, and what the error then holds.
pub data Refusal {A : Type 0} (r : Option (Response A)) (e : ApiError) : Type 0 where
  no_response :
      r ≡ none
      → e.code ≡ "network_error"
      → e.message ≡ "Не удалось связаться с сервером. Проверьте подключение."
      → e.status ≡ 0
      → e.field_errors ≡ none
      → Refusal r e
  no_payload :
      (status : ℕ) (body : ErrorBody)
      → r ≡ some (failure status body)
      → IsBare body
      → e.code ≡ "request_failed"
      → e.message ≡ "Не удалось выполнить запрос"
      → e.status ≡ status
      → e.field_errors ≡ none
      → Refusal r e
  refusal :
      (status : ℕ) (p : ApiErrorPayload)
      → r ≡ some (failure status (payload p))
      → e.code ≡ or_text p.code "request_failed"
      → e.message ≡ or_text p.message "Не удалось выполнить запрос"
      → e.status ≡ status
      → e.field_errors ≡ field_messages p.field_errors
      → Refusal r e

-- A response that is `ok` fulfils a request exactly if it has the status 204, which gives no value,
-- or has the value as its body.
pub api_request-eq-ok_iff :
    {A : Type 0} (absent a : A) (status : ℕ) (body : Option A)
    → (api_request absent (some (success status body)) ≡ ok a)
      ↔ (((status ≡ 204) × (absent ≡ a)) ⊎ ((status ≢ 204) × (body ≡ some a)))
unfolding api_request
api_request-eq-ok_iff absent a status none = grind arith
api_request-eq-ok_iff absent a status (some b) = grind arith

-- A response that is not `ok` never fulfils a request.
pub api_request_of_failure :
    {A : Type 0} (absent a : A) (status : ℕ) (body : ErrorBody)
    → api_request absent (some (failure status body)) ≢ ok a
unfolding api_request
api_request_of_failure absent a status unreadable h = cc
api_request_of_failure absent a status _ h = cc
