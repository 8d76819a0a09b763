-- ===== src/Lib.antt =====
-- Camouflare: a service that fetches pages through pooled browsers.
--
-- Parts
-- `Pool` (camouflare/pool.py) keeps the browsers: it launches them, lends their contexts to requests
-- and sessions, retires those that are old, used up, broken or disconnected, closes them, retries
-- the closes that failed, and shuts down. `Sessions` (camouflare/sessions.py) keeps the registry of
-- named sessions, each over a persistent context of the pool, with the tombstones of the sessions
-- that are being cleaned up and the builds that are in flight. `Cleanup` (camouflare/cleanup.py) owns
-- the tasks that close pages, contexts, browsers and sessions beyond the request that began them: each
-- has a deadline and belongs to ownership groups, which others wait for. `Config` (camouflare/config.py)
-- tests the settings that the pool is built from. `Proxy` (camouflare/proxy.py) is the bridge that a
-- browser uses as an unauthenticated SOCKS5 proxy, and that authenticates to the upstream proxy.
-- `Http` (camouflare/http_transport.py) fetches pages without a browser: it bounds the requests that
-- run at once, follows redirects to targets that are allowed, and limits what it reads. `Cookies` are
-- the rules for the cookies of responses (camouflare/http_transport.py), of requests
-- (camouflare/models.py) and of solutions (camouflare/solution.py).
--
-- Files
-- - Prelude.antt and its children: the shared names, the Boolean tests on numbers, the lists of
--   identities, and `Dict`, Python's dictionary with string keys.
-- - Pool/State.antt: `BrowserSlot`, `BrowserPool.__init__` and the type `M` of the critical sections:
--   an action returns a result or a `PoolError`, and what it wrote before it raised stays written.
-- - Pool/Recycle.antt: `_recycle_reason`, `_mark_retiring_unlocked`, `_schedule_close_unlocked`,
--   `_refresh_recycling_unlocked` and the retries of failed closes.
-- - Pool/Create.antt: `_start_create_task_unlocked`, `_replenish_unlocked`, the supervisors of the
--   launches and the ends of the close tasks.
-- - Pool/Acquire.antt, Pool/Release.antt: `_acquire_slot`, cut at its waits, `_release_slot`, and the
--   persistent reservations.
-- - Pool/Lifecycle.antt, Pool/Snapshot.antt: start, refresh, maintain, quiesce, close, snapshots.
-- - Pool/Tasks.antt, Pool/World.antt: the events beside the requests; a schedule is any list of
--   actions. One action is one stretch of code under the pool's lock, so all interleavings of the
--   tasks are schedules.
-- - Pool/Keeps.antt, Pool/Stable.antt: `Stable P` asks for the five writes that every background
--   event is made of; an event then keeps `P`.
-- - Pool/Contexts.antt, Soundness.antt, Accounting.antt, Releasing.antt, Leases.antt, Closed.antt,
--   Invariant.antt, Housed.antt, Published.antt, Counts.antt, Doomed.antt, Connected.antt,
--   Retired.antt, Readiness.antt, Ceiling/*: the proofs.
-- - Sessions/State.antt, Sessions/Removal.antt, Sessions/Creation.antt: the operations of
--   `SessionManager`; Sessions/Schedules.antt: schedules of them.
-- - Sessions/Registry.antt, Closing.antt, Untouched.antt, Invariant.antt, Pruning.antt,
--   Departures.antt, Stages.antt, Moves.antt: the proofs. Sessions/Builders.antt: schedules in which
--   builders leave what they entered; Settling.antt, Counting.antt, Waking.antt, Awaiting.antt,
--   Waiting.antt: the wait for them.
-- - Cleanup/State.antt, Groups.antt, Ownership.antt, Supervise.antt: `CleanupSupervisor`;
--   Cleanup/World.antt: schedules of it with those who wait for a group;
--   Cleanup/Events.antt, Renewal.antt, Idling.antt, Tracking.antt, Operations.antt, Wakeups.antt, Deadlines.antt: the proofs.
-- - Config/Settings.antt: the numeric settings of camouflare/config.py, `_validate_settings` on them, and
--   the arguments of `BrowserPool` in camouflare/app.py; Config/Numbers.antt: Python's integers;
--   Config/Validation.antt: the proof.
--
-- - Proxy/Wire.antt: a stream reader and writer, exceptions; Proxy/Addresses.antt:
--   `_read_socks_address` and `_encode_socks_address`; Proxy/Handshake.antt: `_read_client_request`,
--   `_authenticate_upstream` and the rest of `_connect_upstream`; Proxy/Connection.antt:
--   `_connect_upstream`, `_pipe_bidirectional` and `_handle_client`; Proxy/Bridge.antt:
--   `_accept_client`, `_handler_done` and `close`, and schedules of them.
--   Proxy/{Outcomes,Silence}.antt: the rules for actions on a stream; Proxy/{Verbatim,Requests,
--   Upstream,Dialling,Tunnels,Relays,Replies,Refusals,Credentials,Clients}.antt: the proofs.
--
-- - Http/Slots.antt: `_acquire`, `_release`, `quiesce` and the semaphore, and schedules of them;
--   Http/Bodies.antt: `_read_response_body` and what it calls, over abstract decoders;
--   Http/Urls.antt: `clean_url`, `_url_origin`, `_headers_for_origin`; Http/Addresses.antt:
--   `is_public_address` and `connect_tcp`; Http/Fetch.antt and Http/Redirects.antt: one hop of
--   `_fetch`, and its loop; Http/Failures.antt: `classify_transport_error`; Http/Delivery.antt:
--   `HttpTransport.fetch` between `_acquire` and `_release`. Http/{Admission,Capacity,Quiescing,
--   Limits,Chunking,Targets,Bounded,Origins,Guarded,Responses,Blame,Settled}.antt: the proofs.
-- - Cookies/Jar.antt: `_extract_response_cookies`; Cookies/Fields.antt and Cookies/Requests.antt: the
--   checks of one field and `_validate_cookie`; Cookies/Merge.antt: `_solution_cookie` and
--   `_merge_solution_cookies`; Cookies/{Policy,Soundness,Validation,Latest}.antt: the proofs.
--
-- Choices
-- A slot, the task that launches it and its browser share one identity, a number. Slots are shared
-- mutable objects, so they live in a heap that the lists of the pool point into. The clock is a
-- number of milliseconds that a section reads once, and a round of an acquisition again before its
-- wait. The browser's liveness is read through
-- `Env`, so any pattern of disconnections is a schedule. The loops of the source go over lists, or are
-- cut into rounds; only the redirect loop runs on fuel, one round more than the redirects that the
-- request allows, and `Http.Bounded.fetch-IsBounded` proves that this is enough.
--
-- A stream holds all that its peer will send, and a number of writes after which the connection is
-- lost. The text of an address stands as the bytes that `ipaddress` reads and prints, the server of a
-- proxy as what `urlsplit` reads from it, the credentials as their UTF-8 bytes.
--
-- A URL or a header is a list of ASCII characters. `urlsplit`, `urljoin`, the tables of `ipaddress`,
-- the cookie header of the jar, the clock and the servers are arguments of a fetch, so its theorems
-- hold for all of them, and so are the exception of a hop that fails and whether a proxy had connected
-- it; a hop holds its URL before percent-encoding. The semaphore is written out as CPython has it, with
-- the waiters that have been handed a slot and have not run yet. `extract_cookies` of the jar, the
-- public suffix list, and Python's tests of JSON values are arguments in the same way.
--
-- The snapshot that is taken for the metrics may raise: `release_and_publish` takes it at the end of a
-- release, as `_release_slot` does, and `counted` of Pool/Published.antt shows that its test passes in
-- every state that a schedule reaches, so the other sections leave it out.
--
-- Not modelled: metrics and log lines, the launch of a browser and of a context, which third-party
-- code does (their outcomes are events), the timers, the gzip and deflate decoders and IDNA, which
-- rest on libraries, the conversions between the jar's cookies and the browser's, and the modules of
-- the service that call the pool and the sessions (commands, navigation, solver, runtime, app).
pub mod Prelude
pub mod Pool
pub mod Sessions
pub mod Cleanup
pub mod Config
pub mod Proxy
pub mod Http
pub mod Cookies
