-- ===== src/Scheduler/Tests.antt =====
-- Runs of the scheduler, and its theorems at concrete inputs.
use realm_cpp.Prelude.{ℕ, ◌≡◌, refl, List, [], ◌∷◌, true, false, some}
use realm_cpp.Scheduler.{
  Scheduler, Event, invokes, destroys, wakes, calls, make_uv, run, posted, step,
}
use realm_cpp.Scheduler.Order.{accepted, accepted-run, drain, drain-run}

abbrev new : Scheduler ℕ
new = record {
  m_functions = [];
  close_requested = false;
  owned = true;
  pending = false;
  closed = false;
  functions = [];
  invoked = [];
  deleted = [];
}

new-make_uv : make_uv false ≡ some new
unfolding make_uv
new-make_uv = refl

-- Function 3 is called, 5 is about to be, and 7 waits.
abbrev busy : List (Event ℕ)
busy = invokes 3 ∷ invokes 5 ∷ wakes ∷ calls ∷ invokes 7 ∷ []

-- Function 7 still waits when the scheduler is destroyed, and is deleted.
abbrev closing : List (Event ℕ)
closing = invokes 3 ∷ wakes ∷ invokes 7 ∷ calls ∷ destroys ∷ invokes 9 ∷ wakes ∷ []

closing-invoked : (run new closing).invoked ≡ 3 ∷ []
unfolding run step
closing-invoked = refl

closing-deleted : (run new closing).deleted ≡ 7 ∷ []
unfolding run step
closing-deleted = refl

accepted-run_example : accepted (run new closing) ≡ 3 ∷ 7 ∷ []
unfolding posted step
accepted-run_example = (accepted-run false new new-make_uv closing).0

drain-run_example : (run (run new busy) (drain (run new busy))).invoked ≡ 3 ∷ 5 ∷ 7 ∷ []
unfolding run posted step
drain-run_example = (drain-run false new new-make_uv busy refl).0
