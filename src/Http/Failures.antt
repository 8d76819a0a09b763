-- ===== src/Http/Failures.antt =====
-- The classification of failures in src/camouflare/http_transport.py: `classify_transport_error`,
-- `_proxy_phase_error` and `_proxy_error`; the error codes of src/camouflare/errors.py.
use Prim.Native.Char.{code}
use camouflare.Prelude.{
  ◌==◌, leb, ltb, if◌then◌else◌, ℕ, ◌+◌, ◌-◌, ◌*◌, String, Bool, true, false, not, ◌&&◌, ◌||◌, [],
  ◌∷◌, Option, none, some,
}
use camouflare.Http.Urls.{Text, lower}

-- `V1ErrorCode`
pub data ErrorCode : Type 0 where
  invalid_request session_not_found resource_limit_exceeded pool_unavailable : ErrorCode
  request_timeout navigation_timeout browser_transport_closed challenge_failed : ErrorCode
  target_blocked target_unreachable proxy_connection_error response_decode_error : ErrorCode
  internal_error : ErrorCode

-- `CamouflareError`, without its message.
pub record PublicError : Type 0 where
  pub error_code : ErrorCode
  pub retryable : Bool

abbrev pub public : ErrorCode → Bool → PublicError
public c again = record { error_code = c; retryable = again }

-- The classes of exceptions that are told apart: `httpcore.ProxyError`, `LocalProtocolError`,
-- `SOCKSError` of socksio, the timeouts of Python and of httpcore, `ConnectError`, the other
-- `NetworkError`s, `RemoteProtocolError`, and all others.
pub data FailureKind : Type 0 where
  proxy_refusal local_protocol socks_protocol timeout connect network remote_protocol unknown :
      FailureKind

-- An exception, with its text or, where that is empty, the name of its class.
pub record Failure : Type 0 where
  pub kind : FailureKind
  pub message : Text

-- The code points of a text: `String` has its own `[]` and `∷`.
abbrev pub codes : String → Text
codes String.[] = []
codes (String.◌∷◌ c s) = code c ∷ codes s

unfoldable pub begins_with : Text → Text → Bool
begins_with [] t = true
begins_with (p ∷ ps) [] = false
begins_with (p ∷ ps) (c ∷ cs) = let rest = begins_with ps cs in (p == c) && rest

-- `part in text`
unfoldable pub contains_text : Text → Text → Bool
unfolding begins_with
contains_text part [] = begins_with part []
contains_text part (c ∷ cs) = let rest = contains_text part cs in begins_with part (c ∷ cs) || rest

-- "CERTIFICATE_VERIFY_FAILED" in message
unfoldable pub is_certificate_failure : Text → Bool
unfolding contains_text
is_certificate_failure message = contains_text (codes "CERTIFICATE_VERIFY_FAILED") message

-- `_SOCKS_TARGET_FAILURES`, and the statuses of a gateway.
unfoldable pub is_target_failure : Text → Bool
unfolding contains_text begins_with
is_target_failure message =
    (contains_text (codes "Network unreachable") message
      || (contains_text (codes "Host unreachable") message
          || (contains_text (codes "Connection refused") message
              || contains_text (codes "TTL expired") message)))
    || (begins_with (codes "502 ") message || begins_with (codes "504 ") message)

abbrev pub is_digit : ℕ → Bool
is_digit c = leb 48 c && leb c 57

-- The status at the head of the message of a refused CONNECT.
unfoldable pub connect_status : Text → Option ℕ
connect_status (a ∷ b ∷ c ∷ d ∷ rest) =
    if (is_digit a && (is_digit b && is_digit c)) && (d == 32)
    then some ((a - 48) * 100 + (b - 48) * 10 + (c - 48))
    else none
connect_status _ = none

abbrev pub is_client_error : Option ℕ → Bool
is_client_error none = false
is_client_error (some status) = leb 400 status && ltb status 500

unfoldable pub is_refusal : Text → Bool
unfolding contains_text lower connect_status
is_refusal message =
    contains_text (codes "username/password") (lower message)
    || is_client_error (connect_status message)

-- `_proxy_error`
unfoldable pub proxy_error : Text → PublicError
unfolding is_target_failure is_refusal
proxy_error message =
    if is_target_failure message
    then public target_unreachable true
    else if is_refusal message
    then public proxy_connection_error false
    else public proxy_connection_error true

-- `_NETWORK_FAILURES`
abbrev pub is_network_failure : FailureKind → Bool
is_network_failure timeout = true
is_network_failure connect = true
is_network_failure network = true
is_network_failure remote_protocol = true
is_network_failure _ = false

abbrev pub is_socks : FailureKind → Bool
is_socks socks_protocol = true
is_socks _ = false

-- `_proxy_phase_error`
unfoldable pub proxy_phase_error : FailureKind → Text → PublicError
unfolding is_certificate_failure
proxy_phase_error timeout message = public proxy_connection_error true
proxy_phase_error _ message = public proxy_connection_error (not (is_certificate_failure message))

unfoldable pub connect_error : Text → PublicError
unfolding is_certificate_failure contains_text
connect_error message =
    if is_certificate_failure message
    then public target_unreachable false
    else if contains_text (codes "SSL") message || contains_text (codes "TLS") message
    then public target_unreachable true
    else public target_unreachable true

-- What is left of `classify_transport_error` when the proxy is not to blame.
unfoldable pub target_error : FailureKind → Text → Option PublicError
unfolding connect_error
target_error timeout message = some (public navigation_timeout true)
target_error connect message = some (connect_error message)
target_error network message = some (public target_unreachable true)
target_error remote_protocol message = some (public target_unreachable true)
target_error _ message = none

abbrev pub is_proxy_refusal : FailureKind → Bool
is_proxy_refusal proxy_refusal = true
is_proxy_refusal _ = false

abbrev pub is_local_protocol : FailureKind → Bool
is_local_protocol local_protocol = true
is_local_protocol _ = false

unfoldable pub classify_transport_error : Failure → Bool → Bool → Option PublicError
unfolding proxy_error proxy_phase_error target_error
classify_transport_error f proxied proxy_tunnel_open =
    if is_proxy_refusal f.kind
    then some (proxy_error f.message)
    else if is_local_protocol f.kind
    then some (public invalid_request false)
    else if is_socks f.kind || ((proxied && not proxy_tunnel_open) && is_network_failure f.kind)
    then some (proxy_phase_error f.kind f.message)
    else target_error f.kind f.message
