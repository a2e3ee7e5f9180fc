-- ===== src/Platform/Scheduler/Tests.antt =====
-- Examples of the schedulers: one job on the fallback, from its submission to the main thread, and a
-- submission before the start.
use lapcare.Common.{String, true, false, [], ◌∷◌, ◌≡◌, refl, inl, inr}
use lapcare.Exec.{ok, err}
use lapcare.Platform.Scheduler.{
  native_start, native_stop, native_submit, native_done, ThreadLoop, thread_start, thread_stop,
  thread_submit, thread_dispatch, thread_deliver, ended, running, set_phase, not_started,
  new_native, new_thread_loop, create_scheduler, default_policy, main_thread, on_success,
}
use lapcare.Platform.Scheduler.Steps.{ThreadReach, ThreadStep}
use lapcare.Platform.Scheduler.Once.{IsOnce, thread-IsOnce, callbacks}
use lapcare.Platform.Scheduler.Contract.{Keeps, thread-Keeps, thread_delivers}

abbrev submitted : ThreadLoop String
submitted = (thread_submit (thread_start true new_thread_loop).1).1

abbrev finished : ThreadLoop String
finished = record submitted { jobs = set_phase 0 (ended (ok "report")) submitted.jobs }

submitted_once : ThreadReach submitted
submitted_once =
    ThreadReach.later (ThreadReach.later ThreadReach.begin (ThreadStep.start true))
      ThreadStep.submit

runs : (submitted.has_loop ≡ true) × (submitted.jobs.phase 0 ≡ running)
unfolding thread_submit thread_start
runs = (refl, refl)

finished_once : ThreadReach finished
finished_once = ThreadReach.later submitted_once (ThreadStep.finish 0 (ok "report") runs.0 runs.1)

thread-IsOnce_example : IsOnce finished.jobs
thread-IsOnce_example = thread-IsOnce finished_once

thread-Keeps_example : Keeps submitted.jobs finished.jobs
thread-Keeps_example =
    thread-Keeps {s = submitted} {t = finished} (ThreadStep.finish 0 (ok "report") runs.0 runs.1)

thread_delivers_example :
    let t = thread_deliver 0 (ok "report") (thread_dispatch 0 (ok "report") finished) in
    ThreadReach t × (callbacks 0 t.jobs.calls ≡ on_success "report" ∷ [])
thread_delivers_example = thread_delivers 0 (ok "report") finished_once runs.0 refl

called_on_main :
    (thread_deliver 0 (ok "report") (thread_dispatch 0 (ok "report") finished)).jobs.calls
    ≡ record { thread = main_thread; job = 0; callback = on_success "report" } ∷ []
unfolding thread_deliver thread_dispatch thread_submit thread_start
called_on_main = refl

too_early : (thread_submit {R = String} new_thread_loop).0 ≡ err not_started
unfolding thread_submit
too_early = refl

stopped_thread : (thread_stop submitted).has_loop ≡ false
unfolding thread_stop
stopped_thread = refl

-- A stop gives the process its policy back.
policy_restored :
    (native_stop (native_start (new_native {R = String} default_policy))).policy ≡ default_policy
unfolding native_stop native_start
policy_restored = refl

native_too_early : (native_submit (new_native {R = String} default_policy)).0 ≡ err not_started
unfolding native_submit
native_too_early = refl

native_called :
    (native_done 0 (ok "report") (native_start (new_native {R = String} default_policy))).jobs.calls
    ≡ record { thread = main_thread; job = 0; callback = on_success "report" } ∷ []
unfolding native_done native_start
native_called = refl

chosen :
    (create_scheduler {R = String} true default_policy ≡ inl (new_native default_policy))
    × (create_scheduler {R = String} false default_policy ≡ inr new_thread_loop)
unfolding create_scheduler
chosen = (refl, refl)
