-- ===== src/Http/Witnesses.antt =====
-- Concrete requests of the HTTP transport, and the theorems at them.
use camouflare.Http.Settled.{fetch_result-IsSettled, IsSettled}
use camouflare.Http.Delivery.{fetch_result}
use camouflare.Http.Blame.{classify_transport_error-IsFair, FairFor}
use camouflare.Http.Failures.{
  proxy_connection_error, public, classify_transport_error, connect, codes, proxy_refusal, Failure,
}
use camouflare.Prelude.{
  Bool, ℕ, ◌==◌, contains, remove, ◌≤◌, length, true, false, List, [], ◌∷◌, ◌++◌, none, some, ◌≡◌,
  refl, arith,
}
use camouflare.Http.Slots.{
  admit, acquire, locked, resume, give_up, release, release_semaphore, quiesce, Action, arrives,
  resumes, gives_up, ends, quiesces, step, run, new_service,
}
use camouflare.Http.Admission.{Inv}
use camouflare.Http.Capacity.{run-new_service-Inv}
use camouflare.Http.Quiescing.{IsDraining, run-IsDraining}
use camouflare.Http.Bodies.{
  limited_chunks, Decoder, decoded_chunks, decoded_layers, ok, decode_body, read_chunks, gzip, full,
  get, Response, Decoders, make_decoders, content_decoders, read_decoded, read_response_body,
}
use camouflare.Http.Limits.{read_response_body-le}
use camouflare.Http.Chunking.{allowed, decode_body-read_chunks}
use camouflare.Http.Addresses.{IpAddress, ipv6, ipv4, IpTables, is_public_address, connect_tcp}
use camouflare.Http.Targets.{
  mapped, behind_nat64, in_sixtofour, is_public_address-embedded, IsGuardedDial,
  connect_tcp-IsGuardedDial,
}
use camouflare.Http.Urls.{https_scheme, UrlLibrary, clean_url}
use camouflare.Http.Fetch.{FetchRequest, Surroundings}
use camouflare.Http.Redirects.{fetch}
use camouflare.Http.Bounded.{IsBounded, fetch-IsBounded}
use camouflare.Http.Guarded.{IsGuarded, fetch-IsGuarded}
use camouflare.Http.Responses.{IsAnswer, fetch-IsAnswer}

-- One slot: the second request waits and is handed the slot, the third one gives up.
abbrev three_requests : List Action
three_requests =
    arrives 1 true true
    ∷ arrives 2 true true
    ∷ arrives 3 true true
    ∷ ends 1
    ∷ gives_up 3
    ∷ resumes 2
    ∷ []

run-new_service-Inv_example : Inv (run three_requests (new_service 1))
run-new_service-Inv_example = run-new_service-Inv 1 three_requests

abbrev shutdown : List Action
shutdown = arrives 4 true true ∷ ends 2 ∷ []

run-IsDraining_example :
    IsDraining
      (run (three_requests ++ (quiesces ∷ [])) (new_service 1))
      (run shutdown (run (three_requests ++ (quiesces ∷ [])) (new_service 1)))
unfolding contains remove admit acquire locked resume give_up release release_semaphore quiesce step
    run
run-IsDraining_example =
    run-IsDraining shutdown (run (three_requests ++ (quiesces ∷ [])) (new_service 1)) refl

decode_body-read_chunks_example :
    decode_body true 3 [] (read_chunks 3 0 ((7 ∷ 8 ∷ []) ∷ [] ∷ (9 ∷ 10 ∷ []) ∷ []))
    ≡ allowed true 3 (7 ∷ 8 ∷ 9 ∷ 10 ∷ [])
decode_body-read_chunks_example =
    decode_body-read_chunks true 3 ((7 ∷ 8 ∷ []) ∷ [] ∷ (9 ∷ 10 ∷ []) ∷ [])

-- A decoder that yields every chunk twice.
abbrev doubling : Decoder
doubling = record {
  State = Unit {0};
  start = tt;
  feed = λ s chunk. some (chunk ∷ chunk ∷ [], s);
  is_complete = λ s. true;
}

abbrev doubled : Response
doubled = record {
  status = 200;
  content_length = none;
  codings = gzip ∷ [];
  chunks = (5 ∷ []) ∷ (6 ∷ []) ∷ [];
  is_broken = false;
}

abbrev decoders : Decoders
decoders = record { gzip_decoder = doubling; deflate_decoder = doubling }

doubled_body : read_response_body decoders get full 4 doubled ≡ ok (5 ∷ 5 ∷ 6 ∷ 6 ∷ [], true)
unfolding limited_chunks decoded_chunks decoded_layers decode_body read_chunks make_decoders
    content_decoders read_decoded read_response_body
doubled_body = refl

read_response_body-le_example : length {A = ℕ} (5 ∷ 5 ∷ 6 ∷ 6 ∷ []) ≤ 4
read_response_body-le_example =
    read_response_body-le decoders get full 4 doubled (5 ∷ 5 ∷ 6 ∷ 6 ∷ []) true doubled_body

-- Tables in which exactly the address 8 is global.
abbrev tables : IpTables
tables = record {
  is_global = λ a. elim a [ ipv4 n ↦ n == 8 | ipv6 n ↦ true ];
  is_multicast = λ a. false;
}

is_public_address-embedded_example :
    (is_public_address tables (mapped 8) ≡ is_public_address tables (ipv4 8))
    × (is_public_address tables (behind_nat64 8) ≡ is_public_address tables (ipv4 8))
    × (is_public_address tables (ipv4 8) ≡ false
        → is_public_address tables (in_sixtofour 8 1) ≡ false)
is_public_address-embedded_example =
    is_public_address-embedded tables 8 1 (omega arith) (omega arith)

-- The first address does not answer.
abbrev answers : IpAddress → Bool
answers a = elim a [ ipv4 n ↦ false | ipv6 n ↦ true ]

connect_tcp-IsGuardedDial_example :
    IsGuardedDial tables answers
      (some (ipv4 8 ∷ ipv6 9 ∷ []))
      (connect_tcp tables answers (some (ipv4 8 ∷ ipv6 9 ∷ [])))
connect_tcp-IsGuardedDial_example =
    connect_tcp-IsGuardedDial tables answers (some (ipv4 8 ∷ ipv6 9 ∷ []))

-- Every URL is one character, the name of its host.
abbrev one_letter : UrlLibrary
one_letter = record {
  urlsplit = λ url. some (record { scheme = https_scheme; hostname = some url; port = none });
  urljoin = λ base location. some location;
}

abbrev no_route : Failure
no_route = record { kind = proxy_refusal; message = codes "Host unreachable" }

-- The host "a" redirects to "b", which answers.
abbrev surroundings : Surroundings
surroundings = record {
  library = one_letter;
  tables = tables;
  ip_literal = λ host. none;
  str = λ n. n ∷ [];
  jar_cookie = λ hops url. some (120 ∷ []);
  in_time = λ hops. true;
  answer = λ hops hop. elim hops [
    | [] ↦ some (record { location = some (98 ∷ []); response = record doubled { status = 302 } })
    | _ ↦ some (record { location = none; response = doubled })
  ];
  failure = λ hops. no_route;
  proxy_tunnel_open = λ hops. false;
}

-- A header "k" that is bound to the origin "a", and one that is not.
abbrev request : FetchRequest
request = record {
  url = 97 ∷ [];
  method = get;
  headers = (75 ∷ [], 49 ∷ []) ∷ (108 ∷ [], 50 ∷ []) ∷ [];
  origin_bound_header_names = (107 ∷ []) ∷ [];
  proxy = none;
  max_redirects = 3;
  max_body_bytes = 4;
  body = full;
  require_https = true;
  block_private_targets = true;
}

fetch-IsBounded_example : IsBounded request (fetch surroundings request)
fetch-IsBounded_example = fetch-IsBounded surroundings request

fetch-IsGuarded_example :
    IsGuarded surroundings request true
      (clean_url one_letter (97 ∷ []))
      (fetch surroundings request).1
fetch-IsGuarded_example = fetch-IsGuarded surroundings request

fetch-IsAnswer_example :
    IsAnswer surroundings request (clean_url one_letter (97 ∷ [])) (fetch surroundings request)
fetch-IsAnswer_example = fetch-IsAnswer surroundings request

-- A fetch through a proxy that cannot reach the target.
abbrev unreachable : Surroundings
unreachable = record surroundings { answer = λ hops hop. none }

abbrev proxied_request : FetchRequest
proxied_request = record request { proxy = some https_scheme }

fetch_result-IsSettled_example :
    IsSettled unreachable proxied_request decoders
      (fetch unreachable proxied_request)
      (fetch_result unreachable proxied_request decoders)
fetch_result-IsSettled_example = fetch_result-IsSettled unreachable proxied_request decoders

-- The proxy's certificate does not verify: the failure is the proxy's, and final.
abbrev bad_certificate : Failure
bad_certificate = record { kind = connect; message = codes "CERTIFICATE_VERIFY_FAILED" }

blames_proxy :
    classify_transport_error bad_certificate true false ≡ some (public proxy_connection_error false)
unfolding classify_transport_error
blames_proxy = refl

classify_transport_error-IsFair_example :
    FairFor connect bad_certificate.message true
      (classify_transport_error bad_certificate true false)
classify_transport_error-IsFair_example = classify_transport_error-IsFair bad_certificate true false
