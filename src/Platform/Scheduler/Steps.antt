-- ===== src/Platform/Scheduler/Steps.antt =====
-- The steps of the schedulers (platform/scheduler.py): calls by the application, and what asyncio and
-- GLib do with a job. The tasks of one scheduler end in any order, and callbacks are called in any
-- order that the phases allow. While the fallback is stopped its thread runs nothing; what the main
-- loop has queued is still called. (A job of an earlier loop may end when a new one runs, which is more
-- than happens.)
use lapcare.Common.{ℕ, Bool, true, ◌≡◌}
use lapcare.Exec.{Result}
use lapcare.Platform.Scheduler.{
  Native, native_start, native_stop, native_submit, native_done, ThreadLoop, thread_start,
  thread_run, thread_stop, thread_submit, thread_dispatch, thread_deliver, running, ended, queued,
  set_phase, new_native, new_thread_loop, Policy,
}

module _ {R : Type 0} where
  pub data NativeStep (s : Native R) : Native R → Type 0 where
    start : NativeStep s (native_start s)
    stop : NativeStep s (native_stop s)
    submit : NativeStep s (native_submit s).1
    finish :
        (i : ℕ) (r : Result R)
        → s.jobs.phase i ≡ running
        → NativeStep s (record s { jobs = set_phase i (ended r) s.jobs })
    done : (i : ℕ) (r : Result R) → s.jobs.phase i ≡ ended r → NativeStep s (native_done i r s)

  pub data ThreadStep (s : ThreadLoop R) : ThreadLoop R → Type 0 where
    start : (ready : Bool) → ThreadStep s (thread_start ready s).1
    run : s.has_thread ≡ true → ThreadStep s (thread_run s)
    stop : ThreadStep s (thread_stop s)
    submit : ThreadStep s (thread_submit s).1
    finish :
        (i : ℕ) (r : Result R)
        → s.has_loop ≡ true
        → s.jobs.phase i ≡ running
        → ThreadStep s (record s { jobs = set_phase i (ended r) s.jobs })
    dispatch :
        (i : ℕ) (r : Result R)
        → s.has_loop ≡ true
        → s.jobs.phase i ≡ ended r
        → ThreadStep s (thread_dispatch i r s)
    deliver :
        (i : ℕ) (r : Result R) → s.jobs.phase i ≡ queued r → ThreadStep s (thread_deliver i r s)

  pub data NativeReach (p : Policy) : Native R → Type 0 where
    begin : NativeReach p (new_native p)
    later : {s t : Native R} → NativeReach p s → NativeStep s t → NativeReach p t

  pub data ThreadReach : ThreadLoop R → Type 0 where
    begin : ThreadReach new_thread_loop
    later : {s t : ThreadLoop R} → ThreadReach s → ThreadStep s t → ThreadReach t
