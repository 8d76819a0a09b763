-- ===== src/Pool/Contexts.antt =====
-- What no background event changes: the leases of every slot, and the soundness of every slot.
use camouflare.Prelude.{ℕ, Bool, ◌≡◌, refl, ap, ◌∙◌, arith}
use camouflare.Pool.State.{Reason, Slot, Env, Pool, modify, ◌>>=◌}
use camouflare.Pool.Recycle.{mark_retiring, start_close_task, schedule_close, leave_pool}
use camouflare.Pool.Create.{create_slot, settle_close}
use camouflare.Pool.Tasks.{Event, perform}
use camouflare.Pool.Keeps.{Keeps, keeps}
use camouflare.Pool.Stable.{Stable, perform-Keeps}

-- `q` has the leases, the counters and the settings of `p`.
pub record SameLeases (p q : Pool) : Type 0 where
  pub settings : q.settings ≡ p.settings
  pub active : (i : ℕ) → (q.heap i).active_contexts ≡ (p.heap i).active_contexts
  pub transient : q.transient_contexts ≡ p.transient_contexts
  pub persistent : q.persistent_contexts ≡ p.persistent_contexts
  pub waiting : q.waiting_requests ≡ p.waiting_requests

pub SameLeases-refl : (p : Pool) → SameLeases p p
SameLeases-refl p = record {
  settings = refl;
  active = λ i. refl;
  transient = refl;
  persistent = refl;
  waiting = refl;
}

module _ (p : Pool) where
  -- A write to one slot that leaves its `active_contexts` alone.
  write_slot-SameLeases :
      (q r : Pool)
      → SameLeases p q
      → r.settings ≡ q.settings
      → ((i : ℕ) → (r.heap i).active_contexts ≡ (q.heap i).active_contexts)
      → r.transient_contexts ≡ q.transient_contexts
      → r.persistent_contexts ≡ q.persistent_contexts
      → r.waiting_requests ≡ q.waiting_requests
      → SameLeases p r
  write_slot-SameLeases q r h s a t u w = record {
    settings = s ∙ h.settings;
    active = λ i. a i ∙ h.active i;
    transient = t ∙ h.transient;
    persistent = u ∙ h.persistent;
    waiting = w ∙ h.waiting;
  }

  mark_retiring-SameLeases : (i : ℕ) (r : Reason) → Keeps (SameLeases p) (mark_retiring i r)
  unfolding mark_retiring ◌>>=◌
  mark_retiring-SameLeases i r = record {
    after = λ q h. write_slot-SameLeases q _ h refl (λ j. ground arith) refl refl refl;
  }

  leave_pool-SameLeases : (i : ℕ) → Keeps (SameLeases p) (modify (leave_pool i))
  unfolding ◌>>=◌
  leave_pool-SameLeases i = record {
    after = λ q h. write_slot-SameLeases q _ h refl (λ j. ground arith) refl refl refl;
  }

  start_close_task-SameLeases : (i : ℕ) → Keeps (SameLeases p) (start_close_task i)
  unfolding start_close_task ◌>>=◌
  start_close_task-SameLeases i = record {
    after = λ q h. write_slot-SameLeases q _ h refl (λ j. refl) refl refl refl;
  }

  schedule_close-SameLeases : (i : ℕ) (r : Reason) → Keeps (SameLeases p) (schedule_close i r)
  unfolding schedule_close
  schedule_close-SameLeases i r =
      search (keeps, mark_retiring-SameLeases, leave_pool-SameLeases, start_close_task-SameLeases)
        depth 12

  settle_close-SameLeases :
      (e : Env) (i : ℕ) (b : Bool) → Keeps (SameLeases p) (modify (settle_close e i b))
  unfolding settle_close ◌>>=◌
  settle_close-SameLeases e i b = record {
    after = λ q h.
        write_slot-SameLeases q _ h (ground arith) (λ j. ground arith) (ground arith) (ground arith)
          (ground arith);
  }

  pub SameLeases-Stable : Stable (SameLeases p)
  unfolding create_slot ◌>>=◌
  SameLeases-Stable = record {
    same = λ q r h k.
        write_slot-SameLeases q r k h.settings
          (λ i. ap (λ (f : ℕ → Slot). (f i).active_contexts) h.heap) h.transient h.persistent
          h.waiting;
    retires = mark_retiring-SameLeases;
    schedules = schedule_close-SameLeases;
    creates = λ i now. record {
      after = λ q h. write_slot-SameLeases q _ h refl (λ j. ground arith) refl refl refl;
    };
    settles = settle_close-SameLeases;
  }

-- No background event takes a context from a lease or gives one, and none touches the counters.
pub perform-SameLeases : (e : Env) (v : Event) (p : Pool) → SameLeases p (perform e v p).1
perform-SameLeases e v p = (perform-Keeps (SameLeases-Stable p) e v).after p (SameLeases-refl p)
