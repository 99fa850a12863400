-- ===== src/Client/Outcomes.antt =====
-- What a request can return, and what it does to the client.
use Prim.Native.Nat.{◌/◌}
use arka.Prelude.{
  ◌≡◌, refl, ◌⊎◌, inl, inr, Bool, true, false, Option, none, some, arith, Text, Value, Bool-cases,
  is_some, ◌<◌, lt→ltb, if◌then◌else◌, ap, codes,
}
use arka.Types.Api.{ApiResponse, ApiResponseMeta, ApiErrorEnvelope, UserSession}
use arka.Client.{
  Client, Method, get, HttpRequest, Fetched, unreachable, aborted, refused, answered, json,
  unparsable, body_aborted, Net, Outcome, returned, thrown, failure, session_expired_error,
  unavailable_error, is_mutation, offline_response, settle, request, session_expired, http_request,
  generate_request_id, request_meta,
}

module _ {T : Type 0} where
  -- A response is a success with no error, or a failure with an error and no payload.
  abbrev pub IsConsistent : ApiResponse T → Type 0
  IsConsistent r =
      ((r.success ≡ true) × (r.error ≡ none))
      ⊎ ((r.success ≡ false) × (r.payload ≡ none) × (is_some r.error ≡ true))

  abbrev pub Returns : (ApiResponse T → Type 0) → Outcome T → Type 0
  Returns P (returned r) = P r
  Returns P thrown = Unit

  offline_response-IsConsistent :
      (m : Method) (fallback : Option T) (meta : ApiResponseMeta) (c : Client)
      → IsConsistent (offline_response m fallback meta c)
  unfolding offline_response
  offline_response-IsConsistent m none meta c = inr (refl, refl, refl)
  offline_response-IsConsistent m (some x) meta c = ground arith

  settle-IsConsistent :
      (m : Method) (fallback : Option T) (meta : ApiResponseMeta) (f : Fetched T) (c : Client)
      → Returns IsConsistent (settle m fallback meta f c).0
  unfolding settle
  settle-IsConsistent m fallback meta (refused status text body) c = inr (refl, refl, refl)
  settle-IsConsistent m fallback meta (answered (json v)) c = inl (refl, refl)
  settle-IsConsistent m fallback meta (answered unparsable) c =
      offline_response-IsConsistent m fallback meta c
  settle-IsConsistent m fallback meta (answered body_aborted) c = tt
  settle-IsConsistent m fallback meta unreachable c =
      offline_response-IsConsistent m fallback meta c
  settle-IsConsistent m fallback meta aborted c = tt

  -- Whatever the browser answers, a returned response is consistent.
  pub request-IsConsistent :
      (net : Net T) (path : Text) (m : Method) (body : Option Value) (fallback : Option T)
      (c : Client)
      → Returns IsConsistent (request net path m body fallback c).0
  unfolding request
  request-IsConsistent net path m body fallback c =
      elim (Bool-cases (session_expired (net.date_now / 1000) c.session)) [
        | inl old ↦ rw old (inr (refl, refl, refl))
        | inr live ↦ rw live (settle-IsConsistent m fallback (request_meta net) _ c)
      ]

  -- The request that a call sends.
  abbrev pub sent : Net T → Text → Method → Option Value → Client → HttpRequest
  sent net path m body c = http_request c (generate_request_id net.random) path m body

  -- The backend answered this call with that payload.
  abbrev pub Answered : Net T → Text → Method → Option Value → Client → Option T → Type 0
  Answered net path m body c v = net.fetch (sent net path m body c) ≡ answered (json v)

  -- A success of a mutation comes from the backend, or mock mutations are allowed.
  abbrev pub Genuine : Fetched T → ApiResponse T → Type 0
  Genuine f r = r.success ≡ true → f ≡ answered (json r.payload)

  offline_response-mutation :
      (m : Method) (fallback : Option T) (meta : ApiResponseMeta) (c : Client)
      → is_mutation m ≡ true
      → c.allow_mock_mutations ≡ false
      → offline_response m fallback meta c ≡ failure meta unavailable_error
  unfolding offline_response
  offline_response-mutation m none meta c h k = refl
  offline_response-mutation m (some x) meta c h k = ground arith

  settle-Genuine :
      (m : Method) (fallback : Option T) (meta : ApiResponseMeta) (f : Fetched T) (c : Client)
      → is_mutation m ≡ true
      → c.allow_mock_mutations ≡ false
      → Returns (Genuine f) (settle m fallback meta f c).0
  unfolding settle
  settle-Genuine m fallback meta (refused status text body) c h k = λ e. cc
  settle-Genuine m fallback meta (answered (json v)) c h k = λ e. refl
  settle-Genuine m fallback meta (answered unparsable) c h k =
      rw (offline_response-mutation m fallback meta c h k) (λ e. cc)
  settle-Genuine m fallback meta (answered body_aborted) c h k = tt
  settle-Genuine m fallback meta unreachable c h k =
      rw (offline_response-mutation m fallback meta c h k) (λ e. cc)
  settle-Genuine m fallback meta aborted c h k = tt

  -- Without mock mutations, a mutation succeeds only if the backend answered it with that payload,
  -- whatever the fallback is.
  pub request-mutation-Genuine :
      (net : Net T) (path : Text) (m : Method) (body : Option Value) (fallback : Option T)
      (c : Client)
      → is_mutation m ≡ true
      → c.allow_mock_mutations ≡ false
      → Returns
          (Genuine (net.fetch (sent net path m body c)))
          (request net path m body fallback c).0
  unfolding request
  request-mutation-Genuine net path m body fallback c h k =
      elim (Bool-cases (session_expired (net.date_now / 1000) c.session)) [
        | inl old ↦ rw old (λ e. cc)
        | inr live ↦ rw live (settle-Genuine m fallback (request_meta net) _ c h k)
      ]

  -- A success with no kernel version comes from the backend, for any method.
  abbrev pub Flagged : Fetched T → ApiResponse T → Type 0
  Flagged f r = r.success ≡ true → r.meta.kernel_version ≡ none → f ≡ answered (json r.payload)

  offline_response-Flagged :
      (m : Method) (fallback : Option T) (meta : ApiResponseMeta) (c : Client) (f : Fetched T)
      → Flagged f (offline_response m fallback meta c)
  unfolding offline_response
  offline_response-Flagged m none meta c f e k = cc
  offline_response-Flagged m (some x) meta c f e k = ground arith

  settle-Flagged :
      (m : Method) (fallback : Option T) (meta : ApiResponseMeta) (f : Fetched T) (c : Client)
      → Returns (Flagged f) (settle m fallback meta f c).0
  unfolding settle
  settle-Flagged m fallback meta (refused status text body) c = λ e k. cc
  settle-Flagged m fallback meta (answered (json v)) c = λ e k. refl
  settle-Flagged m fallback meta (answered unparsable) c =
      offline_response-Flagged m fallback meta c (answered unparsable)
  settle-Flagged m fallback meta (answered body_aborted) c = tt
  settle-Flagged m fallback meta unreachable c =
      offline_response-Flagged m fallback meta c unreachable
  settle-Flagged m fallback meta aborted c = tt

  -- Sample data is flagged: a success whose meta data names no kernel version has the payload
  -- with which the backend answered.
  pub request-Flagged :
      (net : Net T) (path : Text) (m : Method) (body : Option Value) (fallback : Option T)
      (c : Client)
      → Returns
          (Flagged (net.fetch (sent net path m body c)))
          (request net path m body fallback c).0
  unfolding request
  request-Flagged net path m body fallback c =
      elim (Bool-cases (session_expired (net.date_now / 1000) c.session)) [
        | inl old ↦ rw old (λ e k. cc)
        | inr live ↦ rw live (settle-Flagged m fallback (request_meta net) _ c)
      ]

  -- With an expired session the request is refused before any fetch, and the client is unchanged.
  pub request-expired :
      (net : Net T) (path : Text) (m : Method) (body : Option Value) (fallback : Option T)
      (c : Client) (s : UserSession)
      → c.session ≡ some s
      → s.token_expires_at_unix < net.date_now / 1000
      → request net path m body fallback c
        ≡ (returned (failure (request_meta net) session_expired_error), c)
  unfolding request session_expired
  request-expired net path m body fallback c s live old = rw live (rw (lt→ltb _ _ old))

  -- What a fetch says about the connection, where the flag was `before`.
  abbrev pub connection_after : Bool → Fetched T → Bool
  connection_after before (refused status text body) = before
  connection_after before (answered (json v)) = true
  connection_after before _ = false

  settle-client :
      (m : Method) (fallback : Option T) (meta : ApiResponseMeta) (f : Fetched T) (c : Client)
      → (settle m fallback meta f c).1
        ≡ record c { is_backend_connected = connection_after c.is_backend_connected f }
  unfolding settle
  settle-client m fallback meta (refused status text body) c = refl
  settle-client m fallback meta (answered (json v)) c = refl
  settle-client m fallback meta (answered unparsable) c = refl
  settle-client m fallback meta (answered body_aborted) c = refl
  settle-client m fallback meta unreachable c = refl
  settle-client m fallback meta aborted c = refl

  -- A request that is not refused for its session changes only the connection flag: it is set by
  -- a readable success, kept on a refusal and cleared by everything else.
  pub request-client :
      (net : Net T) (path : Text) (m : Method) (body : Option Value) (fallback : Option T)
      (c : Client)
      → session_expired (net.date_now / 1000) c.session ≡ false
      → (request net path m body fallback c).1 ≡ record c {
        is_backend_connected =
            connection_after c.is_backend_connected (net.fetch (sent net path m body c));
      }
  unfolding request
  request-client net path m body fallback c live =
      rw live (settle-client m fallback (request_meta net) _ c)

  -- No request is answered.
  abbrev pub Offline : Net T → Type 0
  Offline net = (r : HttpRequest) → net.fetch r ≡ unreachable

  -- The error with which a call fails when no backend answers.
  abbrev pub closed_error : Net T → Client → ApiErrorEnvelope
  closed_error net c =
      if session_expired (net.date_now / 1000) c.session
      then session_expired_error
      else unavailable_error

  pub request-mutation-offline :
      (net : Net T) (path : Text) (m : Method) (body : Option Value) (fallback : Option T)
      (c : Client)
      → Offline net
      → is_mutation m ≡ true
      → c.allow_mock_mutations ≡ false
      → (request net path m body fallback c).0
        ≡ returned (failure (request_meta net) (closed_error net c))
  unfolding request settle
  request-mutation-offline net path m body fallback c off h k =
      elim (Bool-cases (session_expired (net.date_now / 1000) c.session)) [
        | inl old ↦ rw old
        | inr live ↦ rw live (
            rw (off (sent net path m body c))
              (ap returned (offline_response-mutation m fallback (request_meta net) c h k)))
      ]

  -- The meta data of sample data.
  abbrev pub sample_meta : Net T → ApiResponseMeta
  sample_meta net = record (request_meta net) {
    kernel_version = some (codes "dev-mode-sample-fixture");
  }

  pub request-get-offline :
      (net : Net T) (path : Text) (body : Option Value) (sample : T) (c : Client)
      → Offline net
      → session_expired (net.date_now / 1000) c.session ≡ false
      → c.is_development_mode ≡ true
      → (request net path get body (some sample) c).0
        ≡ returned
            (record { success = true; payload = some sample; error = none; meta = sample_meta net })
  unfolding request settle offline_response
  request-get-offline net path body sample c off live dev =
      rw live (rw (off (sent net path get body c)) (rw dev))
