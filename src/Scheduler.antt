-- ===== src/Scheduler.antt =====
-- src/cpprealm/schedulers/default_scheduler.cpp: the invocation queue and the libuv scheduler.
--
-- A state holds the queue of the handle's data, the flag `close_requested`, whether `m_handle`
-- is still owned, the local vector of the `invoke_all` that is running, and the history of the
-- functions that were called and of those that were deleted with the queue. libuv is outside the
-- repository. What is used of it is a flag: `uv_async_send` sets it from any thread, and the loop
-- clears it before it calls the callback.
-- Several threads are interleavings of events. An event that is not enabled changes nothing; a
-- function that posts while it runs is a `calls` event followed by an `invokes` event.
pub mod Order
mod Tests
use realm_cpp.Prelude.{
  List, [], ◌∷◌, ◌++◌, Bool, true, false, not, ◌&&◌, Option, none, some, if◌then◌else◌,
}

pub record Scheduler {ℓ} (Task : Type ℓ) : Type ℓ where
  pub m_functions : List Task
  pub close_requested : Bool
  pub owned : Bool
  pub pending : Bool
  pub closed : Bool
  pub functions : List Task
  pub invoked : List Task
  pub deleted : List Task

pub data Event {ℓ} (Task : Type ℓ) : Type ℓ where
  invokes : Task → Event Task
  destroys wakes calls : Event Task

module _ {ℓ} {Task : Type ℓ} where
  -- invocation_queue::push
  pub push : Task → List Task → List Task
  push fn m_functions = m_functions ++ fn ∷ []

  -- The constructor; `init_failed` is `err < 0` of `uv_async_init`, where it throws.
  pub make_uv : Bool → Option (Scheduler Task)
  make_uv init_failed =
      if init_failed
      then none
      else some (record {
        m_functions = [];
        close_requested = false;
        owned = true;
        pending = false;
        closed = false;
        functions = [];
        invoked = [];
        deleted = [];
      })

  -- uv_scheduler::invoke
  pub invoke : Task → Scheduler Task → Scheduler Task
  unfolding push
  invoke fn s = record s { m_functions = push fn s.m_functions; pending = true }

  -- ~uv_scheduler; `m_handle.release()` gives the handle up.
  pub destroy : Scheduler Task → Scheduler Task
  destroy s =
      if s.owned then record s { close_requested = true; pending = true; owned = false } else s

  -- The first half of invoke_all: the swap with the empty local vector.
  pub swap_queue : Scheduler Task → Scheduler Task
  swap_queue s = record s { functions = s.m_functions; m_functions = [] }

  -- The callback given to `uv_close`, which deletes the data with its queue, and the handle.
  pub on_close : Scheduler Task → Scheduler Task
  on_close s = record s { closed = true; m_functions = []; deleted = s.deleted ++ s.m_functions }

  -- The callback given to `uv_async_init`. A close is asked for when the scheduler is destroyed, so
  -- that nothing is posted between `uv_close` and its callback.
  pub on_async : Scheduler Task → Scheduler Task
  unfolding swap_queue on_close
  on_async s = if s.close_requested then on_close s else swap_queue s

  pub is_empty : List Task → Bool
  is_empty [] = true
  is_empty (fn ∷ rest) = false

  -- One turn of the loop, which runs one callback at a time.
  pub wake : Scheduler Task → Scheduler Task
  unfolding on_async is_empty
  wake s =
      if s.pending && (not s.closed && is_empty s.functions)
      then on_async (record s { pending = false })
      else s

  -- One round of the loop `for (auto&& fn : functions) fn();` of invoke_all.
  pub call_next : Scheduler Task → List Task → Scheduler Task
  call_next s [] = s
  call_next s (fn ∷ rest) = record s { functions = rest; invoked = s.invoked ++ fn ∷ [] }

  pub step : Scheduler Task → Event Task → Scheduler Task
  unfolding invoke destroy wake call_next
  step s (invokes fn) = if s.owned then invoke fn s else s
  step s destroys = destroy s
  step s wakes = wake s
  step s calls = call_next s s.functions

  pub run : Scheduler Task → List (Event Task) → Scheduler Task
  run s [] = s
  run s (e ∷ es) = run (step s e) es

  -- What an event posts: `invoke` is a call on a scheduler that still exists.
  abbrev pub posted_by : Scheduler Task → Event Task → List Task
  posted_by s (invokes fn) = if s.owned then fn ∷ [] else []
  posted_by s e = []

  pub posted : Scheduler Task → List (Event Task) → List Task
  posted s [] = []
  posted s (e ∷ es) = posted_by s e ++ posted (step s e) es
