-- ===== src/Pool/State.antt =====
-- camouflare/pool.py: the objects of the browser pool, its errors, and the actions on it.
use camouflare.Prelude.{
  ℕ, suc, ◌+◌, ◌*◌, ◌-◌, max, Bool, true, false, List, [], ◌∷◌, Option, none, length, ◌==◌,
  if◌then◌else◌,
}

pub data SlotState : Type 0 where
  ready retiring closing : SlotState

-- The texts that `retire_reason` takes: `other` stands for the fallback of `_recycle_reason`.
pub data Reason : Type 0 where
  max_uses max_age disconnected error shutdown other : Reason

pub data Kind : Type 0 where
  transient persistent : Kind

-- Every `raise` of the pool, by the condition that leads to it.
pub data PoolError : Type 0 where
  pool_closed acquire_timeout startup_quarantine persistent_capacity : PoolError
  launch_failed : ℕ → PoolError
  reserve_closing reserve_full close_active : PoolError
  slot_underflow transient_underflow persistent_underflow waiter_underflow : PoolError
  transient_exceeds_active : PoolError

pub data Result {ℓ} (A : Type ℓ) : Type ℓ where
  ok : A → Result A
  err : PoolError → Result A

pub record Slot : Type 0 where
  pub created_at : ℕ
  pub active_contexts : ℕ
  pub uses : ℕ
  pub state : SlotState
  pub retire_reason : Option Reason
  pub recycle_recorded : Bool
  pub close_failures : ℕ
  pub next_close_retry_at : ℕ

pub record SlotReservation : Type 0 where
  pub slot : ℕ
  pub kind : Kind
  pub released : Bool

pub record PersistentReservation : Type 0 where
  pub released : Bool

pub record Settings : Type 0 where
  pub min_browsers : ℕ
  pub max_browsers : ℕ
  pub max_contexts_per_browser : ℕ
  pub browser_max_uses : ℕ
  pub browser_max_age : ℕ
  pub reserved_transient_contexts : ℕ

-- What one critical section reads of the world: the clock in milliseconds, and once more where it
-- reads it again, the slots whose browser
-- answers the `is_connected` probe with False, and those whose browser has its `closed` or `_closed`
-- attribute set.
pub record Env : Type 0 where
  pub now : ℕ
  pub later : ℕ
  pub dead : ℕ → Bool
  pub gone : ℕ → Bool

-- Slots are shared mutable objects: they live in `heap`, and every list holds identities. The
-- tasks of a dictionary or a set are identities too.
pub record Pool : Type 0 where
  pub settings : Settings
  pub open settings use *
  pub heap : ℕ → Slot
  pub next_task : ℕ
  pub slots : List ℕ
  pub create_tasks : List ℕ
  pub create_supervisors : List ℕ
  pub create_watchers : List ℕ
  pub create_failure_generation : ℕ
  pub last_create_failure : Option ℕ
  pub close_tasks : List (ℕ × ℕ)
  pub failed_close_slots : List ℕ
  pub physically_closed_slots : List ℕ
  pub transient_contexts : ℕ
  pub persistent_contexts : ℕ
  pub waiting_requests : ℕ
  pub started : Bool
  pub starting : Bool
  pub closed : Bool

abbrev pub max_abandoned_creations : Settings → ℕ
max_abandoned_creations c = max 1 (c.max_browsers * 2)

abbrev pub max_physical_generations : Settings → ℕ
max_physical_generations c = max 1 (c.max_browsers * 2)

-- `max(0, …)` is the subtraction of ℕ, which stops at 0.
abbrev pub max_persistent_contexts : Settings → ℕ
max_persistent_contexts c =
    c.max_browsers * c.max_contexts_per_browser - c.reserved_transient_contexts

-- The defaults of the fields of `BrowserSlot`.
abbrev pub new_slot : Slot
new_slot = record {
  created_at = 0;
  active_contexts = 0;
  uses = 0;
  state = ready;
  retire_reason = none;
  recycle_recorded = false;
  close_failures = 0;
  next_close_retry_at = 0;
}

-- `BrowserPool.__init__`. A slot is identified with the launch that yields it, and with its browser;
-- until that launch has succeeded nothing reads its place of the heap.
abbrev pub new_pool : Settings → Pool
new_pool c = record {
  settings = c;
  heap = λ i. new_slot;
  next_task = 0;
  slots = [];
  create_tasks = [];
  create_supervisors = [];
  create_watchers = [];
  create_failure_generation = 0;
  last_create_failure = none;
  close_tasks = [];
  failed_close_slots = [];
  physically_closed_slots = [];
  transient_contexts = 0;
  persistent_contexts = 0;
  waiting_requests = 0;
  started = false;
  starting = false;
  closed = false;
}

-- What a critical section wrote before it raised stays written.
abbrev pub M : Type 0 → Type 0
M A = Pool → Result A × Pool

pub pure : {A : Type 0} → A → M A
pure a p = (ok a, p)

pub raise : {A : Type 0} → PoolError → M A
raise e p = (err e, p)

pub modify : (Pool → Pool) → M (Unit {0})
modify f p = (ok tt, f p)

pub get : M Pool
get p = (ok p, p)

-- `if b: raise e`
pub raise_if : Bool → PoolError → M (Unit {0})
raise_if true e p = (err e, p)
raise_if false e p = (ok tt, p)

abbrev pub continue : {A B : Type 0} → Result A → (A → M B) → M B
continue (ok a) f p = f a p
continue (err e) f p = (err e, p)

infixl 5 ◌>>=◌ ◌>>◌
unfoldable pub ◌>>=◌ : {A B : Type 0} → M A → (A → M B) → M B
unfolding pure raise modify get raise_if
◌>>=◌ m f p = let (r, q) = m p in continue r f q

abbrev pub ◌>>◌ : {B : Type 0} → M (Unit {0}) → M B → M B
m >> n = m >>= λ _. n

-- `for x in list(xs): body(x)`
unfoldable pub for_each : (ℕ → M (Unit {0})) → List ℕ → M (Unit {0})
for_each body [] = pure tt
for_each body (x ∷ xs) = do body x; for_each body xs

-- Assignments to the fields of one slot.
abbrev pub write_slot : ℕ → (Slot → Slot) → Pool → Pool
write_slot i f p = record p { heap = λ j. if i == j then f (p.heap j) else p.heap j }

unfoldable pub physical_generations : Pool → ℕ
physical_generations p =
    length p.slots
    + length p.create_tasks
    + length p.create_watchers
    + length p.close_tasks
    + length p.failed_close_slots

unfoldable pub count_ready : (ℕ → Slot) → List ℕ → ℕ
count_ready h [] = 0
count_ready h (i ∷ is) = elim (h i).state [ ready ↦ suc (count_ready h is) | _ ↦ count_ready h is ]

unfoldable pub usable_generations : Pool → ℕ
unfolding count_ready
usable_generations p = count_ready p.heap p.slots + length p.create_tasks
