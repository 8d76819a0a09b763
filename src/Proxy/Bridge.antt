-- ===== src/Proxy/Bridge.antt =====
-- The clients of a bridge of src/camouflare/proxy.py: `_accept_client`, `_handler_done`, `close`,
-- and the lease that opens a bridge only for a proxy that needs one.
use camouflare.Prelude.{
  contains, remove, if◌then◌else◌, ℕ, suc, Bool, true, false, not, ◌&&◌, List, [], ◌∷◌, ◌++◌,
}

-- A client is known by the number of its connection, and so are its writer and its handler's task.
-- `shut` are the writers that were closed, `cancelled` the tasks that were; a handler has `started`
-- when its task has run, and `finished` when it never runs again.
pub record Bridge : Type 0 where
  pub closed : Bool
  pub listening : Bool
  pub client_writers : List ℕ
  pub handler_tasks : List ℕ
  pub shut : List ℕ
  pub cancelled : List ℕ
  pub started : List ℕ
  pub finished : List ℕ
  pub next_client : ℕ

abbrev pub new_bridge : Bridge
new_bridge = record {
  closed = false;
  listening = true;
  client_writers = [];
  handler_tasks = [];
  shut = [];
  cancelled = [];
  started = [];
  finished = [];
  next_client = 0;
}

-- `_accept_client`, for the next connection.
unfoldable pub accept_client : Bridge → Bridge
accept_client b =
    let client = b.next_client in
    if b.closed then record b { shut = client ∷ b.shut; next_client = suc client } else record b {
      client_writers = client ∷ b.client_writers;
      handler_tasks = client ∷ b.handler_tasks;
      next_client = suc client;
    }

-- `_handler_done`
unfoldable pub handler_done : ℕ → Bridge → Bridge
handler_done client b = record b { handler_tasks = remove client b.handler_tasks }

-- The end of `_handle_client`: its `finally` clause.
unfoldable pub leave_handler : ℕ → Bridge → Bridge
leave_handler client b = record b {
  shut = client ∷ b.shut;
  client_writers = remove client b.client_writers;
  finished = client ∷ b.finished;
}

-- `close` up to its first wait, with `_close_tracked_clients`.
unfoldable pub begin_close : Bridge → Bridge
begin_close b = record b {
  closed = true;
  listening = false;
  shut = b.client_writers ++ b.shut;
  cancelled = b.handler_tasks ++ b.cancelled;
}

-- What happens to a bridge. A task that is cancelled before it has run ends without its `finally`
-- clause; the callback of a task runs after its end.
pub data Event : Type 0 where
  connects closes : Event
  starts leaves drops reports : ℕ → Event

unfoldable pub perform : Event → Bridge → Bridge
unfolding contains accept_client handler_done leave_handler begin_close
perform connects b = accept_client b
perform closes b = begin_close b
perform (starts i) b =
    if contains b.handler_tasks i && not (contains b.finished i)
    then record b { started = i ∷ b.started }
    else b
perform (leaves i) b =
    if contains b.started i && not (contains b.finished i) then leave_handler i b else b
perform (drops i) b =
    if contains b.cancelled i && not (contains b.started i)
    then record b { finished = i ∷ b.finished }
    else b
perform (reports i) b = if contains b.finished i then handler_done i b else b

unfoldable pub run : List Event → Bridge → Bridge
unfolding perform
run [] b = b
run (e ∷ es) b = run es (perform e b)
