-- ===== src/Platform/Scheduler.antt =====
-- src/lapcare/platform/scheduler.py: the two schedulers, with the jobs that were submitted. What
-- asyncio and GLib do of themselves (a coroutine ends, a done callback or an idle source is called)
-- are steps in Steps; the methods and the closures of the source are the functions here.
pub mod Steps
pub mod Once
pub mod Contract
mod Tests
use lapcare.Common.{
  ℕ, ◌+◌, ◌==◌, Bool, true, false, Option, none, some, List, [], ◌∷◌, ◌++◌, if◌then◌else◌, ◌⊎◌, inl,
  inr,
}
use lapcare.Errors.{Exc, foreign}
use lapcare.Exec.{Result, ok, err, Exec, raise}

-- Where code runs: on the main thread of GTK, or on the thread of the fallback's loop.
pub data Thread : Type 0 where
  main_thread loop_thread : Thread

-- A job by the number of its submission: its coroutine runs, has ended (its task's done callback is
-- due), has its delivery queued in the main loop, or one of its callbacks was called.
pub data Phase (R : Type 0) : Type 0 where
  absent running : Phase R
  ended queued called : Result R → Phase R

-- A callback that was called, with its argument.
pub data Callback (R : Type 0) : Type 0 where
  on_success : R → Callback R
  on_error : Exc → Callback R

pub record Call (R : Type 0) : Type 0 where
  pub thread : Thread
  pub job : ℕ
  pub callback : Callback R

pub record Jobs (R : Type 0) : Type 0 where
  pub next : ℕ
  pub phase : ℕ → Phase R
  pub calls : List (Call R)

abbrev pub update : {A : Type 0} → (ℕ → A) → ℕ → A → ℕ → A
update f i x j = if i == j then x else f j

abbrev pub not_started : Exc
not_started = foreign "scheduler not started"

module _ {R : Type 0} where
  abbrev pub no_jobs : Jobs R
  no_jobs = record { next = 0; phase = λ i. absent; calls = [] }

  -- A coroutine is handed to the loop.
  abbrev pub create_task : Jobs R → Jobs R
  create_task j = record j { next = j.next + 1; phase = update j.phase j.next running }

  abbrev pub set_phase : ℕ → Phase R → Jobs R → Jobs R
  set_phase i p j = record j { phase = update j.phase i p }

  -- The choice between `on_error(exc)` and `on_success(result)`.
  abbrev pub callback_for : Result R → Callback R
  callback_for (ok result) = on_success result
  callback_for (err exc) = on_error exc

  abbrev pub call_back : Thread → ℕ → Result R → Jobs R → Jobs R
  call_back thread i r j = record j {
    phase = update j.phase i (called r);
    calls = j.calls ++ (record { thread = thread; job = i; callback = callback_for r } ∷ []);
  }

-- asyncio's policy of event loops, which is global to the process.
pub data Policy : Type 0 where
  default_policy glib_policy : Policy

-- `GLibEventLoopScheduler`: whether `_loop` is set, `_previous_policy`, the process's policy, the jobs.
pub record Native (R : Type 0) : Type 0 where
  pub has_loop : Bool
  pub previous_policy : Option Policy
  pub policy : Policy
  pub jobs : Jobs R

module _ {R : Type 0} where
  unfoldable pub native_start : Native R → Native R
  native_start s = record s {
    previous_policy = some s.policy;
    policy = glib_policy;
    has_loop = true;
  }

  abbrev pub restored : Option Policy → Native R → Native R
  restored none s = s
  restored (some p) s = record s { policy = p; previous_policy = none }

  unfoldable pub native_stop : Native R → Native R
  native_stop s = record (restored s.previous_policy s) { has_loop = false }

  unfoldable pub native_submit : Exec (Native R) (Unit {0})
  native_submit s =
      if s.has_loop then (ok tt, record s { jobs = create_task s.jobs }) else (err not_started, s)

  -- `_done`, which the loop calls on the main thread.
  unfoldable pub native_done : ℕ → Result R → Native R → Native R
  native_done i r s = record s { jobs = call_back main_thread i r s.jobs }

-- `ThreadLoopScheduler`: whether `_loop` and `_thread` are set, and the jobs.
pub record ThreadLoop (R : Type 0) : Type 0 where
  pub has_loop : Bool
  pub has_thread : Bool
  pub jobs : Jobs R

module _ {R : Type 0} where
  -- `_run`, on the new thread, before its loop runs.
  abbrev pub thread_run : ThreadLoop R → ThreadLoop R
  thread_run s = record s { has_loop = true }

  abbrev pub wait_ready : Bool → Exec (ThreadLoop R) (Unit {0})
  wait_ready true s = (ok tt, thread_run s)
  wait_ready false s = (err (foreign "async loop thread failed to start"), s)

  -- `ready` is what `self._ready.wait(timeout=5)` gives: whether the thread has got to run in time.
  unfoldable pub thread_start : Bool → Exec (ThreadLoop R) (Unit {0})
  thread_start ready s =
      if s.has_thread then (ok tt, s) else wait_ready ready (record s { has_thread = true })

  unfoldable pub thread_stop : ThreadLoop R → ThreadLoop R
  thread_stop s = record s { has_loop = false; has_thread = false }

  unfoldable pub thread_submit : Exec (ThreadLoop R) (Unit {0})
  thread_submit s =
      if s.has_loop then (ok tt, record s { jobs = create_task s.jobs }) else (err not_started, s)

  -- `_dispatch`, on the loop's thread: `GLib.idle_add(_deliver)`.
  unfoldable pub thread_dispatch : ℕ → Result R → ThreadLoop R → ThreadLoop R
  thread_dispatch i r s = record s { jobs = set_phase i (queued r) s.jobs }

  -- `_deliver`, which the main loop calls; `False` removes the source.
  unfoldable pub thread_deliver : ℕ → Result R → ThreadLoop R → ThreadLoop R
  thread_deliver i r s = record s { jobs = call_back main_thread i r s.jobs }

module _ {R : Type 0} where
  -- The constructors; the policy is what the process has.
  abbrev pub new_native : Policy → Native R
  new_native p = record { has_loop = false; previous_policy = none; policy = p; jobs = no_jobs }

  abbrev pub new_thread_loop : ThreadLoop R
  new_thread_loop = record { has_loop = false; has_thread = false; jobs = no_jobs }

  -- The choice, by whether `gi.events` can be imported.
  unfoldable pub create_scheduler : Bool → Policy → Native R ⊎ ThreadLoop R
  create_scheduler has_native_integration p =
      if has_native_integration then inl (new_native p) else inr new_thread_loop
