-- ===== src/Platform/Scheduler/Contract.antt =====
-- What a view-model is promised by a scheduler (core/ports.py, Scheduler), and that both keep it
-- (platform/scheduler.py).
use lapcare.Common.{
  ℕ, ◌+◌, ◌==◌, Bool, true, false, List, [], ◌∷◌, ◌++◌, ◌≡◌, ◌⊎◌, inl, inr, refl, sym, ap, fun_ext,
  ◌∙◌, arith, if◌then◌else◌,
}
use lapcare.Exec.{Result, ok, err}
use lapcare.Platform.Scheduler.{
  Phase, absent, running, ended, queued, called, Jobs, Call, on_success, on_error, callback_for,
  main_thread, update, Native, ThreadLoop, thread_dispatch, thread_deliver,
}
use lapcare.Platform.Scheduler.Steps.{NativeStep, ThreadStep, dispatch, deliver, ThreadReach}
use lapcare.Platform.Scheduler.Once.{
  JobStep, rest, create, end, queue, call, native-JobStep, thread-JobStep, callbacks, due,
  thread-IsOnce,
}

update_same : {A : Type 0} (f : ℕ → A) (i : ℕ) (x : A) → update f i x i ≡ x
update_same f i x = ground arith

-- A job as its submitter sees it: accepted, with an outcome, and told of it.
pub data Progress (R : Type 0) : Type 0 where
  nothing accepted : Progress R
  with_outcome told : Result R → Progress R

-- What submitters see: how many jobs there were, what each has come to, and the calls of their
-- callbacks, with the threads.
abbrev pub View : Type 0 → Type 0
View R = ℕ × (ℕ → Progress R) × List (Call R)

module _ {R : Type 0} where
  -- The call of a callback that an outcome entitles to.
  abbrev pub due_call : ℕ → Result R → Call R
  due_call i (ok result) = record { thread = main_thread; job = i; callback = on_success result }
  due_call i (err exc) = record { thread = main_thread; job = i; callback = on_error exc }

  -- One move of the contract: a job is accepted under the next number, a coroutine ends with an
  -- outcome, or a submitter is told the outcome, by one call of one callback on the main thread. No
  -- other move calls anything.
  pub data Move : View R → View R → Type 0 where
    accept :
        (n : ℕ) (f : ℕ → Progress R) (calls : List (Call R))
        → Move (n, f, calls) (n + 1, update f n accepted, calls)
    conclude :
        (n : ℕ) (f : ℕ → Progress R) (calls : List (Call R)) (i : ℕ) (r : Result R)
        → f i ≡ accepted
        → Move (n, f, calls) (n, update f i (with_outcome r), calls)
    tell :
        (n : ℕ) (f : ℕ → Progress R) (calls : List (Call R)) (i : ℕ) (r : Result R)
        → f i ≡ with_outcome r
        → Move (n, f, calls) (n, update f i (told r), calls ++ (due_call i r ∷ []))

  abbrev pub seen : Phase R → Progress R
  seen absent = nothing
  seen running = accepted
  seen (ended r) = with_outcome r
  seen (queued r) = with_outcome r
  seen (called r) = told r

  -- The view of the jobs that the contract has.
  abbrev pub view : Jobs R → View R
  view j = (j.next, λ i. seen (j.phase i), j.calls)

  -- A step that keeps the contract: it changes nothing of the view, or is a move of it.
  abbrev pub Keeps : Jobs R → Jobs R → Type 0
  Keeps j k = (view k ≡ view j) ⊎ Move (view j) (view k)

  due_call_lem :
      (i : ℕ) (r : Result R)
      → due_call i r ≡ record { thread = main_thread; job = i; callback = callback_for r }
  due_call_lem i (ok result) = refl
  due_call_lem i (err exc) = refl

  seen-update :
      (f : ℕ → Phase R) (i : ℕ) (p : Phase R) (k : ℕ)
      → seen (update f i p k) ≡ update (λ n. seen (f n)) i (seen p) k
  seen-update f i p k = by_test (i == k)
    where
      by_test : (b : Bool) → seen (if b then p else f k) ≡ (if b then seen p else seen (f k))
      by_test true = refl
      by_test false = refl

  view-update :
      (j : Jobs R) (i : ℕ) (p : Phase R)
      → (λ k. seen (update j.phase i p k)) ≡ update (λ n. seen (j.phase n)) i (seen p)
  view-update j i p = fun_ext (seen-update j.phase i p)

  queued-view :
      (j : Jobs R) (i : ℕ) (r : Result R) (k : ℕ)
      → j.phase i ≡ ended r
      → seen (update j.phase i (queued r) k) ≡ seen (j.phase k)
  queued-view j i r k e = by_test (i == k) refl
    where
      by_test :
          (b : Bool) → b ≡ (i == k) → seen (if b then queued r else j.phase k) ≡ seen (j.phase k)
      by_test true q = sym (ap seen e) ∙ ap (λ n. seen (j.phase n)) (ground (arith, q))
      by_test false q = refl

  outcome-seen :
      (p : Phase R) (r : Result R) → (p ≡ ended r) ⊎ (p ≡ queued r) → seen p ≡ with_outcome r
  outcome-seen p r (inl e) = ap seen e
  outcome-seen p r (inr e) = ap seen e

  step-Keeps : {j k : Jobs R} → JobStep j k → Keeps j k
  step-Keeps rest = inl refl
  step-Keeps {j} create =
      inr (rw (view-update j j.next running) (accept j.next (λ i. seen (j.phase i)) j.calls))
  step-Keeps {j} (end i r e) = inr (
      rw (view-update j i (ended r))
        (conclude j.next (λ k. seen (j.phase k)) j.calls i r (ap seen e)))
  step-Keeps {j} (queue i r e) =
      inl (ap (λ f. (j.next, f, j.calls)) (fun_ext (λ k. queued-view j i r k e)))
  step-Keeps {j} (call i r e) = inr (
      rw (view-update j i (called r), sym (due_call_lem i r))
        (tell j.next (λ k. seen (j.phase k)) j.calls i r (outcome-seen (j.phase i) r e)))

  -- Every step of the native scheduler is a move of the contract, or none: what it does besides, its
  -- start and stop and the policy of the process, a submitter does not see.
  pub native-Keeps : {s t : Native R} → NativeStep s t → Keeps s.jobs t.jobs
  native-Keeps step = step-Keeps (native-JobStep step)

  -- Every step of the fallback changes nothing that submitters see, or is one move of the contract: a
  -- job is accepted under the next number, an accepted job comes to an outcome, or the submitter of a
  -- job with an outcome is told it, by one call on the main thread, of `on_success` with the value or
  -- of `on_error` with the exception. No step calls a callback but by the last of these moves, and so
  -- the hop of an outcome from the loop's thread to the main thread is not seen.
  pub thread-Keeps : {s t : ThreadLoop R} → ThreadStep s t → Keeps s.jobs t.jobs
  thread-Keeps step = step-Keeps (thread-JobStep step)

  -- When a coroutine of the fallback has ended and the loop runs, the two hops to the main thread are
  -- free, and after them the submitter has been told the outcome, by one call of the callback that is due.
  pub thread_delivers :
      {s : ThreadLoop R} (i : ℕ) (r : Result R)
      → ThreadReach s
      → s.has_loop ≡ true
      → s.jobs.phase i ≡ ended r
      → let t = thread_deliver i r (thread_dispatch i r s) in
        ThreadReach t × (callbacks i t.jobs.calls ≡ due (called r))
  unfolding thread_dispatch thread_deliver
  thread_delivers {s} i r reach on e =
      let first : ThreadReach (thread_dispatch i r s) =
        ThreadReach.later reach (dispatch i r on e) in
      let second : ThreadReach (thread_deliver i r (thread_dispatch i r s)) =
        ThreadReach.later first (deliver i r (update_same s.jobs.phase i (queued r))) in
      (
        second,
        (thread-IsOnce second).made i
            ∙ ap due (update_same (update s.jobs.phase i (queued r)) i (called r)),
      )
