-- ===== src/Pool/Soundness.antt =====
-- Every slot stays within its capacity and closes only when it is idle.
use camouflare.Prelude.{
  ℕ, ◌≤◌, Bool, true, false, ◌≡◌, ◌≢◌, subst, sym, arith, none, if◌then◌else◌, ◌==◌,
}
use camouflare.Pool.State.{Reason, Slot, Settings, Env, Pool, modify, new_pool, ◌>>=◌}
use camouflare.Pool.Recycle.{
  is_ready, is_closing, retire, mark_retiring, start_close_task, schedule_close,
}
use camouflare.Pool.Create.{create_slot, settle_close}
use camouflare.Pool.Tasks.{Event, perform}
use camouflare.Pool.Keeps.{Keeps}
use camouflare.Pool.Stable.{Stable, perform-Keeps}

-- A slot stays within its capacity, closes only when it is idle, and once it has left the ready
-- state it carries a reason and has been counted as recycled.
pub record IsSound (c : Settings) (s : Slot) : Type 0 where
  pub fits : s.active_contexts ≤ c.max_contexts_per_browser
  pub idle : is_closing s.state ≡ true → s.active_contexts ≡ 0
  pub reasoned : is_ready s.state ≡ false → s.retire_reason ≢ none
  pub recorded : is_ready s.state ≡ false → s.recycle_recorded ≡ true

pub record AllSound (p : Pool) : Type 0 where
  pub at : (i : ℕ) → IsSound p.settings (p.heap i)

retire-IsSound : (c : Settings) (r : Reason) (s : Slot) → IsSound c s → IsSound c (retire r s)
unfolding retire
retire-IsSound c r s h = ground arith

if-IsSound :
    (c : Settings) (b : Bool) (s t : Slot)
    → IsSound c s
    → IsSound c t
    → IsSound c (if b then s else t)
if-IsSound c true s t h k = h
if-IsSound c false s t h k = k

mark_retiring-AllSound : (i : ℕ) (r : Reason) → Keeps AllSound (mark_retiring i r)
unfolding mark_retiring ◌>>=◌
mark_retiring-AllSound i r = record {
  after = λ p h. record {
    at = λ j. if-IsSound p.settings (i == j) _ _ (retire-IsSound p.settings r _ (h.at j)) (h.at j);
  };
}

schedule_close-AllSound : (i : ℕ) (r : Reason) → Keeps AllSound (schedule_close i r)
unfolding schedule_close mark_retiring retire start_close_task ◌>>=◌
schedule_close-AllSound i r = record {
  after = λ p h. record { at = λ j. ground (arith, h.at j, h.at i) };
}

settle_close-AllSound : (e : Env) (i : ℕ) (b : Bool) → Keeps AllSound (modify (settle_close e i b))
unfolding settle_close ◌>>=◌
settle_close-AllSound e i b = record { after = λ p h. record { at = λ j. ground (arith, h.at j) } }

create_slot-AllSound : (i now : ℕ) → Keeps AllSound (create_slot i now)
unfolding create_slot ◌>>=◌
create_slot-AllSound i now = record { after = λ p h. record { at = λ j. ground (arith, h.at j) } }

pub AllSound-Stable : Stable AllSound
AllSound-Stable = record {
  same = λ p q h k. record {
    at = λ i.
        subst (λ (c : Settings). IsSound c (q.heap i)) (sym h.settings)
          (subst (λ (f : ℕ → Slot). IsSound p.settings (f i)) (sym h.heap) (k.at i));
  };
  retires = mark_retiring-AllSound;
  schedules = schedule_close-AllSound;
  creates = create_slot-AllSound;
  settles = settle_close-AllSound;
}

-- Every background event keeps every slot sound.
pub perform-AllSound : (e : Env) (v : Event) (p : Pool) → AllSound p → AllSound (perform e v p).1
perform-AllSound e v p h = (perform-Keeps AllSound-Stable e v).after p h

pub new_pool-AllSound : (c : Settings) → AllSound (new_pool c)
new_pool-AllSound c = record { at = λ i. ground arith }
