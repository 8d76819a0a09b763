-- ===== src/Http/Blame.antt =====
-- Whom `classify_transport_error` of src/camouflare/http_transport.py blames for a failure.
use camouflare.Prelude.{
  if-holds, refl, inr, inl, ◌⊎◌, Bool, true, false, not, ◌&&◌, Option, none, some, ◌≡◌, arith,
}
use camouflare.Http.Urls.{Text}
use camouflare.Http.Failures.{
  invalid_request, target_unreachable, proxy_connection_error, navigation_timeout, PublicError,
  FailureKind, proxy_refusal, local_protocol, socks_protocol, timeout, connect, network,
  remote_protocol, unknown, Failure, is_certificate_failure, is_target_failure, is_refusal,
  connect_error, proxy_error, proxy_phase_error, target_error, classify_transport_error, public,
}

-- The connection failed, other than by its time.
abbrev pub IsBroken : FailureKind → Type 0
IsBroken kind = (kind ≡ connect) ⊎ ((kind ≡ network) ⊎ (kind ≡ remote_protocol))

-- The proxy reports that it cannot reach the target, or the connection failed at the target;
-- `before` says that a proxy had not connected the target.
abbrev pub BlamesTarget : FailureKind → Text → Bool → Type 0
BlamesTarget kind message before =
    ((kind ≡ proxy_refusal) × (is_target_failure message ≡ true))
    ⊎ ((before ≡ false) × IsBroken kind)

-- The proxy refuses for a reason of its own, or breaks the protocol of SOCKS, or the connection
-- failed or took too long before it had connected the target.
abbrev pub BlamesProxy : FailureKind → Text → Bool → Type 0
BlamesProxy kind message before =
    ((kind ≡ proxy_refusal) × (is_target_failure message ≡ false))
    ⊎ ((kind ≡ socks_protocol) ⊎ ((before ≡ true) × ((kind ≡ timeout) ⊎ IsBroken kind)))

-- The request broke the protocol, the proxy refused it by its status or for its credentials, or a
-- certificate did not verify: where the connection is opened, in SOCKS, or before the target.
abbrev pub IsFinal : FailureKind → Text → Bool → Type 0
IsFinal kind message before =
    (kind ≡ local_protocol)
    ⊎ (((kind ≡ proxy_refusal) × (is_target_failure message ≡ false) × (is_refusal message ≡ true))
        ⊎ ((is_certificate_failure message ≡ true)
            × ((kind ≡ connect)
                ⊎ ((kind ≡ socks_protocol)
                    ⊎ ((before ≡ true) × ((kind ≡ network) ⊎ (kind ≡ remote_protocol)))))))

-- Each code, and that there is to be no other try, exactly in its cases.
pub record IsFair (kind : FailureKind) (message : Text) (before : Bool) (e : PublicError)
    : Type 0 where
  pub target : e.error_code ≡ target_unreachable → BlamesTarget kind message before
  pub target_only : BlamesTarget kind message before → e.error_code ≡ target_unreachable
  pub proxy : e.error_code ≡ proxy_connection_error → BlamesProxy kind message before
  pub proxy_only : BlamesProxy kind message before → e.error_code ≡ proxy_connection_error
  pub request : e.error_code ≡ invalid_request → kind ≡ local_protocol
  pub request_only : kind ≡ local_protocol → e.error_code ≡ invalid_request
  pub late : e.error_code ≡ navigation_timeout → (kind ≡ timeout) × (before ≡ false)
  pub late_only : kind ≡ timeout → before ≡ false → e.error_code ≡ navigation_timeout
  pub final : e.retryable ≡ false → IsFinal kind message before
  pub final_only : IsFinal kind message before → e.retryable ≡ false

-- The error, if there is one, is fair; there is none exactly for an exception of an unknown class.
abbrev pub FairFor : FailureKind → Text → Bool → Option PublicError → Type 0
FairFor kind message before none = kind ≡ unknown
FairFor kind message before (some e) = (IsFair kind message before e) × (kind ≡ unknown → ⊥)

target_failure-IsFair :
    (m : Text) (b : Bool)
    → is_target_failure m ≡ true
    → IsFair proxy_refusal m b (public target_unreachable true)
target_failure-IsFair m b h = ground (arith, h)

refusal-IsFair :
    (m : Text) (b c : Bool)
    → is_target_failure m ≡ false
    → is_refusal m ≡ not c
    → IsFair proxy_refusal m b (public proxy_connection_error c)
refusal-IsFair m b true h k = ground (arith, h, k)
refusal-IsFair m b false h k = ground (arith, h, k)

proxy_error-IsFair : (m : Text) (b : Bool) → IsFair proxy_refusal m b (proxy_error m)
unfolding proxy_error
proxy_error-IsFair m b =
    if-holds (IsFair proxy_refusal m b) (is_target_failure m) _ _ (target_failure-IsFair m b)
      (λ own.
        if-holds (IsFair proxy_refusal m b) (is_refusal m) _ _ (refusal-IsFair m b false own)
          (refusal-IsFair m b true own))

certificate-IsFair :
    (m : Text)
    → is_certificate_failure m ≡ true
    → IsFair connect m false (public target_unreachable false)
certificate-IsFair m h = ground (arith, h)

unreachable-IsFair :
    (m : Text)
    → is_certificate_failure m ≡ false
    → IsFair connect m false (public target_unreachable true)
unreachable-IsFair m h = ground (arith, h)

connect_error-IsFair : (m : Text) → IsFair connect m false (connect_error m)
unfolding connect_error
connect_error-IsFair m =
    if-holds (IsFair connect m false) (is_certificate_failure m) _ _ (certificate-IsFair m) (λ h.
      if-holds (IsFair connect m false) _ _ _ (λ _. unreachable-IsFair m h)
        (λ _. unreachable-IsFair m h))

-- Before the target is connected, and in SOCKS.
phase-IsFair :
    (kind : FailureKind) (m : Text) (b c : Bool)
    → is_certificate_failure m ≡ c
    → (kind ≡ socks_protocol) ⊎ ((b ≡ true) × IsBroken kind)
    → IsFair kind m b (public proxy_connection_error (not c))
phase-IsFair kind m b true h k = ground (arith, h, k)
phase-IsFair kind m b false h k = ground (arith, h, k)

-- Once the target was connected, or without a proxy.
later-IsFair :
    (kind : FailureKind) (m : Text)
    → (kind ≡ network) ⊎ (kind ≡ remote_protocol)
    → IsFair kind m false (public target_unreachable true)
later-IsFair kind m k = ground (arith, k)

early_timeout-IsFair : (m : Text) → IsFair timeout m true (public proxy_connection_error true)
early_timeout-IsFair m = ground arith

late_timeout-IsFair : (m : Text) → IsFair timeout m false (public navigation_timeout true)
late_timeout-IsFair m = ground arith

broken_request-IsFair :
    (m : Text) (b : Bool) → IsFair local_protocol m b (public invalid_request false)
broken_request-IsFair m b = ground arith

at_kind :
    (kind : FailureKind) (m : Text) (proxied open_ b : Bool)
    → proxied && not open_ ≡ b
    → FairFor kind m b
        (classify_transport_error (record { kind = kind; message = m }) proxied open_)
unfolding classify_transport_error proxy_phase_error target_error
at_kind proxy_refusal m p o b e = (proxy_error-IsFair m b, λ h. ground (arith, h))
at_kind local_protocol m p o b e = (broken_request-IsFair m b, λ h. ground (arith, h))
at_kind socks_protocol m p o b e =
    (phase-IsFair socks_protocol m b _ refl (inl refl), λ h. ground (arith, h))
at_kind timeout m p o true e = rw e (early_timeout-IsFair m, λ h. ground (arith, h))
at_kind timeout m p o false e = rw e (late_timeout-IsFair m, λ h. ground (arith, h))
at_kind connect m p o true e =
    rw e (phase-IsFair connect m true _ refl (inr (refl, inl refl)), λ h. ground (arith, h))
at_kind connect m p o false e = rw e (connect_error-IsFair m, λ h. ground (arith, h))
at_kind network m p o true e =
    rw e (phase-IsFair network m true _ refl (inr (refl, inr (inl refl))), λ h. ground (arith, h))
at_kind network m p o false e = rw e (later-IsFair network m (inl refl), λ h. ground (arith, h))
at_kind remote_protocol m p o true e = rw e (
  phase-IsFair remote_protocol m true _ refl (inr (refl, inr (inr refl))),
  λ h. ground (arith, h),
)
at_kind remote_protocol m p o false e =
    rw e (later-IsFair remote_protocol m (inr refl), λ h. ground (arith, h))
at_kind unknown m p o true e = rw e refl
at_kind unknown m p o false e = rw e refl

-- Every failure of a known class becomes an error, and no other does. The target is blamed exactly if
-- the proxy reports that it cannot reach it, or if its connection failed, other than by its time,
-- without a proxy or once the proxy had connected it. The proxy is blamed exactly for its other
-- refusals, for a failure of SOCKS, and for a failure or a timeout before it had connected the target.
-- The request is blamed exactly where it broke the protocol; the rest are timeouts of the navigation.
-- The error is not to be tried again exactly for a broken request, for a refusal of the proxy by a
-- client error or for its credentials, and for a certificate that does not verify where the connection
-- is opened, in SOCKS, or where it breaks before the proxy has connected the target.
pub classify_transport_error-IsFair :
    (f : Failure) (proxied open_ : Bool)
    → FairFor f.kind f.message (proxied && not open_) (classify_transport_error f proxied open_)
classify_transport_error-IsFair f proxied open_ = at_kind f.kind f.message proxied open_ _ refl
