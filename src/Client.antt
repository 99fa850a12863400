-- ===== src/Client.antt =====
-- frontend/src/api/client.ts: the API client. What the browser supplies to one call (`Date.now()`,
-- `Math.random()` and `fetch`) is a `Net`; the fetch of a cancelled signal ends in `aborted`.
pub mod Outcomes
pub mod Endpoints
pub mod FailClosed
use Prim.Native.Nat.{◌/◌, zero, suc}
use arka.Prelude.{
  ℕ, ◌+◌, ◌*◌, Bool, true, false, ◌&&◌, ◌||◌, not, Option, none, some, List, [], ◌∷◌, ◌++◌, Text,
  codes, Value, leb, ltb, if◌then◌else◌, to_string, or_else, drop, head?,
}
use arka.Types.Api.{
  ApiResponse, ApiResponseMeta, ApiErrorEnvelope, ApiErrorEnvelopeCode, UserSession, lead_operator,
}

-- The fields of `ArkaApiClient`
pub record Client : Type 0 where
  pub base_url : Text
  pub session : Option UserSession
  pub is_development_mode : Bool
  pub is_backend_connected : Bool
  pub allow_mock_mutations : Bool

unfoldable pub new_client : ℕ → Text → Client
new_client date_now base_url = record {
  base_url = base_url;
  session = some (record {
    operator_id = codes "opr_01J9Y6Z8A7B6C5D4E3F2G1H0J";
    role = lead_operator;
    token = codes "sec_tok_01J9Y78A1B2C3D4E5F6G7H8J9K";
    hardware_token_bound = true;
    token_expires_at_unix = date_now / 1000 + 28800;
  });
  is_development_mode = true;
  is_backend_connected = false;
  allow_mock_mutations = false;
}

unfoldable pub set_allow_mock_mutations : Bool → Client → Client
set_allow_mock_mutations allow c = record c { allow_mock_mutations = allow }

unfoldable pub get_allow_mock_mutations : Client → Bool
get_allow_mock_mutations c = c.allow_mock_mutations

unfoldable pub set_session : Option UserSession → Client → Client
set_session session c = record c { session = session }

unfoldable pub get_session : Client → Option UserSession
get_session c = c.session

unfoldable pub get_is_development_mode : Client → Bool
get_is_development_mode c = c.is_development_mode

unfoldable pub get_is_backend_connected : Client → Bool
get_is_backend_connected c = c.is_backend_connected

pub data Method : Type 0 where
  get post put delete : Method

pub record HttpRequest : Type 0 where
  pub url : Text
  pub method : Method
  pub headers : List (Text × Text)
  -- the value given to `JSON.stringify`
  pub body : Option Value

-- What `await res.json()` yields on a reply whose status is no success; `unreadable` is a
-- rejected promise, or JSON `null`, whose `error` cannot be read.
pub data ErrorJson : Type 0 where
  envelope : ApiErrorEnvelope → ErrorJson
  no_envelope unreadable : ErrorJson

-- What it yields on a successful reply; JSON `null` is `json none`.
pub data Json (T : Type 0) : Type 0 where
  json : Option T → Json T
  unparsable : Json T
  body_aborted : Json T

-- How `fetch` ends: it rejects, by cancellation or otherwise, or there is a reply.
pub data Fetched (T : Type 0) : Type 0 where
  unreachable : Fetched T
  aborted : Fetched T
  refused : (status : ℕ) (status_text : Text) → ErrorJson → Fetched T
  answered : Json T → Fetched T

pub record Net (T : Type 0) : Type 0 where
  -- `Date.now()`
  pub date_now : ℕ
  -- `Math.floor(Math.random() * 32)` at the i-th round
  pub random : ℕ → ℕ
  pub fetch : HttpRequest → Fetched T

-- How the promise of a request ends; `thrown` is the rethrown `AbortError`.
pub data Outcome (T : Type 0) : Type 0 where
  returned : ApiResponse T → Outcome T
  thrown : Outcome T

abbrev pub crockford : Text
crockford = codes "0123456789ABCDEFGHJKMNPQRSTVWXYZ"

-- `chars.charAt(i)`, as a text
char_at : Text → ℕ → Text
char_at s i = elim (head? (drop i s)) [ none ↦ [] | some c ↦ c ∷ [] ]

random_chars : ℕ → (ℕ → ℕ) → Text
unfolding char_at
random_chars zero random = []
random_chars (suc rounds) random = random_chars rounds random ++ char_at crockford (random rounds)

unfoldable pub generate_request_id : (ℕ → ℕ) → Text
unfolding random_chars
generate_request_id random = codes "req_" ++ random_chars 26 random

-- `this.session && timestampUnix > this.session.token_expires_at_unix`
unfoldable pub session_expired : ℕ → Option UserSession → Bool
session_expired timestamp none = false
session_expired timestamp (some s) = ltb s.token_expires_at_unix timestamp

authorization : Option UserSession → List (Text × Text)
authorization none = []
authorization (some s) = (codes "Authorization", codes "Bearer " ++ s.token) ∷ []

unfoldable pub http_request : Client → Text → Text → Method → Option Value → HttpRequest
unfolding authorization
http_request c request_id path method body = record {
  url = c.base_url ++ path;
  method = method;
  headers =
      (codes "Content-Type", codes "application/json")
      ∷ ((codes "X-Request-Id", request_id) ∷ authorization c.session);
  body = body;
}

abbrev pub failure : {T : Type 0} → ApiResponseMeta → ApiErrorEnvelope → ApiResponse T
failure meta e = record { success = false; payload = none; error = some e; meta = meta }

abbrev pub session_expired_error : ApiErrorEnvelope
session_expired_error = record {
  code = ApiErrorEnvelopeCode.authentication_required;
  message = codes "Operator session token has expired. Re-authentication required.";
  safe_details = none;
  retryable = false;
}

abbrev pub unavailable_error : ApiErrorEnvelope
unavailable_error = record {
  code = ApiErrorEnvelopeCode.unavailable_dependency;
  message = codes "Operator API gateway is currently unreachable. System failing closed.";
  safe_details = none;
  retryable = true;
}

internal_error : ℕ → Text → ApiErrorEnvelope
internal_error status message = record {
  code = ApiErrorEnvelopeCode.internal_error;
  message = message;
  safe_details = none;
  retryable = leb 500 status;
}

refusal : ℕ → Text → ErrorJson → ApiErrorEnvelope
unfolding internal_error
refusal status status_text (envelope e) = e
refusal status status_text no_envelope =
    internal_error status (codes "Backend returned HTTP " ++ to_string status)
refusal status status_text unreadable =
    internal_error status (codes "HTTP error " ++ (to_string status ++ (codes ": " ++ status_text)))

abbrev pub is_mutation : Method → Bool
is_mutation get = false
is_mutation _ = true

module _ {T : Type 0} where
  -- The end of the outer `catch`
  offline_response : Method → Option T → ApiResponseMeta → Client → ApiResponse T
  offline_response method none meta c = failure meta unavailable_error
  offline_response method (some data') meta c =
      if c.is_development_mode && (not (is_mutation method) || c.allow_mock_mutations)
      then record {
        success = true;
        payload = some data';
        error = none;
        meta = record meta { kernel_version = some (codes "dev-mode-sample-fixture") };
      }
      else failure meta unavailable_error

  -- The `try` block and its `catch`, once the fetch has ended
  settle : Method → Option T → ApiResponseMeta → Fetched T → Client → Outcome T × Client
  unfolding refusal offline_response
  settle method fallback meta (refused status status_text body) c =
      (returned (failure meta (refusal status status_text body)), c)
  settle method fallback meta (answered (json v)) c = (
    returned (record { success = true; payload = v; error = none; meta = meta }),
    record c { is_backend_connected = true },
  )
  settle method fallback meta (answered unparsable) c = (
    returned (offline_response method fallback meta c),
    record c { is_backend_connected = false },
  )
  settle method fallback meta (answered body_aborted) c =
      (thrown, record c { is_backend_connected = false })
  settle method fallback meta unreachable c = (
    returned (offline_response method fallback meta c),
    record c { is_backend_connected = false },
  )
  settle method fallback meta aborted c = (thrown, record c { is_backend_connected = false })

  abbrev pub request_meta : Net T → ApiResponseMeta
  request_meta net = record {
    request_id = generate_request_id net.random;
    timestamp_unix = net.date_now / 1000;
    kernel_version = none;
  }

  unfoldable pub request :
      Net T → Text → Method → Option Value → Option T → Client → Outcome T × Client
  unfolding session_expired settle
  request net path method body fallback c =
      if session_expired (net.date_now / 1000) c.session
      then (returned (failure (request_meta net) session_expired_error), c)
      else settle method fallback (request_meta net)
          (net.fetch (http_request c (generate_request_id net.random) path method body)) c
