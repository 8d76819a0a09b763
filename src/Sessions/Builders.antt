-- ===== src/Sessions/Builders.antt =====
-- camouflare/sessions.py: schedules in which every builder that has entered `creating` leaves it once.
use camouflare.Prelude.{
  ℕ, ℕ, suc, ◌==◌, ◌&&◌, ◌||◌, String, Bool, false, List, [], ◌∷◌, if◌then◌else◌,
}
use text.Mathlib.Text.{◌==◌ as str_eq}
use camouflare.Sessions.State.{Manager, new_manager}
use camouflare.Sessions.Creation.{enter_creating, exit_creating}
use camouflare.Sessions.Schedules.{Action, enters, exits, step}

-- `inside` are the builders that have not left: the id of each, and the pending creation that it
-- holds.
pub record Site : Type 0 where
  pub manager : Manager
  pub inside : List (String × ℕ)

abbrev pub new_site : ℕ → ℕ → Site
new_site max_sessions ttl = record { manager = new_manager max_sessions ttl; inside = [] }

unfoldable pub count_inside : ℕ → List (String × ℕ) → ℕ
count_inside i [] = 0
count_inside i ((id, j) ∷ rest) =
    let more = count_inside i rest in if j == i then suc more else more

unfoldable pub is_inside : String → ℕ → List (String × ℕ) → Bool
is_inside id i [] = false
is_inside id i ((key, j) ∷ rest) =
    let more = is_inside id i rest in (str_eq key id && j == i) || more

unfoldable pub leave : String → ℕ → List (String × ℕ) → List (String × ℕ)
leave id i [] = []
leave id i ((key, j) ∷ rest) =
    let others = leave id i rest in if str_eq key id && j == i then rest else (key, j) ∷ others

abbrev pub admit_builder : String → ℕ × Manager → List (String × ℕ) → Site
admit_builder id (i, m) inside = record { manager = m; inside = (id, i) ∷ inside }

unfoldable pub follow : Action → Site → Site
unfolding enter_creating exit_creating step is_inside leave
follow (enters id) w = admit_builder id (enter_creating id w.manager) w.inside
follow (exits id i) w =
    if is_inside id i w.inside
    then record { manager = exit_creating id i w.manager; inside = leave id i w.inside }
    else w
follow a w = record w { manager = step a w.manager }

unfoldable pub follow_all : List Action → Site → Site
unfolding follow
follow_all [] w = w
follow_all (a ∷ later) w = follow_all later (follow a w)
