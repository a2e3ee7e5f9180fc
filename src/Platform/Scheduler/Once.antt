-- ===== src/Platform/Scheduler/Once.antt =====
-- How often a job's callbacks are called, where, and with what (platform/scheduler.py).
use lapcare.Common.{
  ℕ, ◌<◌, ◌≤◌, ◌==◌, leb, Bool, true, false, Option, none, some, List, [], ◌∷◌, ◌++◌, ◌≡◌, ◌⊎◌, inl,
  inr, refl, sym, ap, ◌∙◌, arith, All, if◌then◌else◌,
}
use lapcare.Exec.{Result, ok, err}
use lapcare.Platform.Scheduler.{
  main_thread, Phase, absent, running, ended, queued, called, Callback, on_success, on_error,
  callback_for, Call, Jobs, no_jobs, create_task, set_phase, call_back, Native, native_start,
  native_stop, native_submit, native_done, restored, ThreadLoop, thread_start, wait_ready,
  thread_stop, thread_submit, thread_dispatch, thread_deliver, Policy,
}
use lapcare.Platform.Scheduler.Steps.{
  NativeStep, start, stop, submit, finish, done, ThreadStep, NativeReach, begin, later, ThreadReach,
  run, dispatch, deliver,
}

module _ {R : Type 0} where
  -- What a step of either scheduler does to the jobs.
  pub data JobStep (j : Jobs R) : Jobs R → Type 0 where
    rest : JobStep j j
    create : JobStep j (create_task j)
    end : (i : ℕ) (r : Result R) → j.phase i ≡ running → JobStep j (set_phase i (ended r) j)
    queue : (i : ℕ) (r : Result R) → j.phase i ≡ ended r → JobStep j (set_phase i (queued r) j)
    call :
        (i : ℕ) (r : Result R)
        → (j.phase i ≡ ended r) ⊎ (j.phase i ≡ queued r)
        → JobStep j (call_back main_thread i r j)

  created :
      {S : Type 0} (b : Bool) (s t : S) (jobs : S → Jobs R)
      → jobs t ≡ create_task (jobs s)
      → JobStep (jobs s) (jobs (if b then t else s))
  created true s t jobs h = rw h create
  created false s t jobs h = rest

  by_policy : (o : Option Policy) (s : Native R) → JobStep s.jobs (restored o s).jobs
  by_policy none s = rest
  by_policy (some p) s = rest

  pub native-JobStep : {s t : Native R} → NativeStep s t → JobStep s.jobs t.jobs
  unfolding native_start native_stop native_submit native_done
  native-JobStep start = rest
  native-JobStep {s} stop = by_policy s.previous_policy s
  native-JobStep {s} submit =
      created {S = Result (Unit {0}) × Native R} s.has_loop _
        (ok tt, record s { jobs = create_task s.jobs }) (λ p. p.1.jobs) refl
  native-JobStep (finish i r h) = end i r h
  native-JobStep (done i r h) = call i r (inl h)

  started :
      (has_thread ready : Bool) (s : ThreadLoop R)
      → JobStep s.jobs
          (if has_thread
            then (ok tt, s)
            else wait_ready ready (record s { has_thread = true })).1.jobs
  started true ready s = rest
  started false true s = rest
  started false false s = rest

  pub thread-JobStep : {s t : ThreadLoop R} → ThreadStep s t → JobStep s.jobs t.jobs
  unfolding thread_start thread_stop thread_submit thread_dispatch thread_deliver
  thread-JobStep {s} (ThreadStep.start ready) = started s.has_thread ready s
  thread-JobStep (run h) = rest
  thread-JobStep ThreadStep.stop = rest
  thread-JobStep {s} ThreadStep.submit =
      created {S = Result (Unit {0}) × ThreadLoop R} s.has_loop _
        (ok tt, record s { jobs = create_task s.jobs }) (λ p. p.1.jobs) refl
  thread-JobStep (ThreadStep.finish i r l h) = end i r h
  thread-JobStep (dispatch i r l h) = queue i r h
  thread-JobStep (deliver i r h) = call i r (inr h)

  -- The callbacks of one job that were called, in order.
  abbrev pub callbacks : ℕ → List (Call R) → List (Callback R)
  callbacks i [] = []
  callbacks i (c ∷ cs) = let rest = callbacks i cs in if c.job == i then c.callback ∷ rest else rest

  -- Those that have been called by a phase: `on_success` with a value, or `on_error` with an
  -- exception.
  abbrev pub due : Phase R → List (Callback R)
  due (called (ok result)) = on_success result ∷ []
  due (called (err exc)) = on_error exc ∷ []
  due _ = []

  due-called : (r : Result R) → due (called r) ≡ callback_for r ∷ []
  due-called (ok result) = refl
  due-called (err exc) = refl

  callbacks-append :
      (i : ℕ) (cs : List (Call R)) (c : Call R)
      → callbacks i (cs ++ (c ∷ []))
        ≡ callbacks i cs ++ (if c.job == i then c.callback ∷ [] else [])
  callbacks-append i [] c = ground arith
  callbacks-append i (x ∷ cs) c = ground (arith, callbacks-append i cs c)

  -- A job has been called back with what its phase says, and on the main thread.
  pub record IsOnce (j : Jobs R) : Type 0 where
    pub fresh : (i : ℕ) → j.next ≤ i → j.phase i ≡ absent
    pub made : (i : ℕ) → callbacks i j.calls ≡ due (j.phase i)
    pub on_main : All (λ c. c.thread ≡ main_thread) j.calls

  append_main :
      (cs : List (Call R)) (i : ℕ) (r : Result R)
      → All (λ c. c.thread ≡ main_thread) cs
      → All
          (λ c. c.thread ≡ main_thread)
          (cs ++ (record { thread = main_thread; job = i; callback = callback_for r } ∷ []))
  append_main [] i r h = (refl, tt)
  append_main (c ∷ cs) i r h = (h.0, append_main cs i r h.1)

  -- A job that moves between phases in which nothing has been called.
  moved-IsOnce :
      (j : Jobs R) (i : ℕ) (p : Phase R)
      → IsOnce j
      → i < j.next
      → due (j.phase i) ≡ []
      → due p ≡ []
      → IsOnce (set_phase i p j)
  moved-IsOnce j i p h lt before after = record {
    fresh = λ k le. ground (arith, h.fresh k le, le, lt);
    made = λ k. ground (arith, h.made k, before, after);
    on_main = h.on_main;
  }

  abbrev is_absent : Phase R → Bool
  is_absent absent = true
  is_absent _ = false

  submitted :
      (j : Jobs R) (i : ℕ) (p : Phase R)
      → IsOnce j
      → j.phase i ≡ p
      → is_absent p ≡ false
      → i < j.next
  submitted j i p h e k = by_test (leb j.next i) refl
    where
      by_test : (b : Bool) → b ≡ leb j.next i → i < j.next
      by_test true q = ground (arith, ap is_absent (sym (h.fresh i (ground (arith, q))) ∙ e) ∙ k)
      by_test false q = ground (arith, q)

  created-IsOnce : (j : Jobs R) → IsOnce j → IsOnce (create_task j)
  created-IsOnce j h = record {
    fresh = λ k le. ground (arith, h.fresh k, le);
    made = λ k. ground (arith, h.made k, h.fresh k);
    on_main = h.on_main;
  }

  called-IsOnce :
      (j : Jobs R) (i : ℕ) (r : Result R)
      → IsOnce j
      → i < j.next
      → due (j.phase i) ≡ []
      → IsOnce (call_back main_thread i r j)
  called-IsOnce j i r h lt before = record {
    fresh = λ k le. ground (arith, h.fresh k, le, lt);
    made = λ k. ground (
      arith,
      callbacks-append k j.calls
          (record { thread = main_thread; job = i; callback = callback_for r }),
      h.made k,
      h.made i,
      before,
      due-called r,
    );
    on_main = append_main j.calls i r h.on_main;
  }

  nothing_due : (p : Phase R) (r : Result R) → (p ≡ ended r) ⊎ (p ≡ queued r) → due p ≡ []
  nothing_due p r (inl h) = ap due h
  nothing_due p r (inr h) = ap due h

  callable :
      (j : Jobs R) (i : ℕ) (r : Result R)
      → IsOnce j
      → (j.phase i ≡ ended r) ⊎ (j.phase i ≡ queued r)
      → i < j.next
  callable j i r h (inl e) = submitted j i (ended r) h e refl
  callable j i r h (inr e) = submitted j i (queued r) h e refl

  step-IsOnce : {j k : Jobs R} → JobStep j k → IsOnce j → IsOnce k
  step-IsOnce rest h = h
  step-IsOnce {j} create h = created-IsOnce j h
  step-IsOnce {j} (end i r e) h =
      moved-IsOnce j i (ended r) h (submitted j i running h e refl) (ap due e) refl
  step-IsOnce {j} (queue i r e) h =
      moved-IsOnce j i (queued r) h (submitted j i (ended r) h e refl) (ap due e) refl
  step-IsOnce {j} (call i r e) h =
      called-IsOnce j i r h (callable j i r h e) (nothing_due (j.phase i) r e)

  no_jobs-IsOnce : IsOnce no_jobs
  no_jobs-IsOnce = record { fresh = λ i le. refl; made = λ i. refl; on_main = tt }

  -- With the native scheduler, in any order of submissions, endings, starts and stops, a job's
  -- callbacks are called once at most, on the main thread: `on_success` with the value or `on_error`
  -- with the exception that the job's phase records.
  pub native-IsOnce : {p : Policy} {s : Native R} → NativeReach p s → IsOnce s.jobs
  native-IsOnce begin = no_jobs-IsOnce
  native-IsOnce (later reach step) = step-IsOnce (native-JobStep step) (native-IsOnce reach)

  -- With the fallback, whose loop has a thread of its own, in any interleaving of the two threads, a
  -- job's callbacks are called once at most, on the main thread: `on_success` with the value or
  -- `on_error` with the exception that the job's phase records.
  pub thread-IsOnce : {s : ThreadLoop R} → ThreadReach s → IsOnce s.jobs
  thread-IsOnce ThreadReach.begin = no_jobs-IsOnce
  thread-IsOnce (ThreadReach.later reach step) =
      step-IsOnce (thread-JobStep step) (thread-IsOnce reach)
