-- ===== src/Providers/Fwupd/Refresh.antt =====
-- When a refresh of the metadata fails, and whom it asks (providers/fwupd.py).
use lapcare.Common.{
  suc, ◌≤◌, String, true, List, [], ◌∷◌, ◌++◌, ◌≡◌, sym, ◌↔◌, refl, arith, keep, length,
  is_nonempty, map,
}
use lapcare.Common.Text.{or_text}
use lapcare.Errors.{Exc, lapcare_error, provider_timeout}
use lapcare.Exec.{Result, ok, err}
use lapcare.Common.Text.{◌⧺◌}
use lapcare.Providers.Fwupd.{Reply, answered, refused, Remote, source}
use lapcare.Providers.Fwupd.Queries.{
  Daemon, Local, State, is_target, failure_of, joined, refresh_all, judge, refresh_targets,
  refresh_metadata,
}

abbrev IsRefused : {A : Type 0} → Reply A → Type 0
IsRefused (answered a) = ⊥
IsRefused (refused e) = Unit

abbrev pub name_of : Remote → String
name_of r = or_text r.id "?"

abbrev pub Fails : {A : Type 0} → Result A → Type 0
Fails (ok a) = ⊥
Fails (err e) = Unit

-- The exception of a refresh that reaches no remote.
abbrev pub unreachable : List Remote → Result (Unit {0})
unreachable targets = err (
    lapcare_error
      (provider_timeout source ("all remotes unreachable: " ⧺ joined (map name_of targets))))

module _ {W : Type 0} (d : Daemon W) where
  -- Each remote in turn refuses, in the world that the one before it has left.
  abbrev pub AllRefuse : List Remote → W → Type 0
  AllRefuse [] w = Unit
  AllRefuse (r ∷ rs) w = IsRefused (d.refresh_remote r w).0 × AllRefuse rs (d.refresh_remote r w).1

  -- The world after one refresh of each remote, in order.
  abbrev pub after : List Remote → W → W
  after [] w = w
  after (r ∷ rs) w = after rs (d.refresh_remote r w).1

  refresh_all-after : (rs : List Remote) (w : W) → (refresh_all d rs w).1 ≡ after rs w
  unfolding refresh_all
  refresh_all-after [] w = refl
  refresh_all-after (r ∷ rs) w = refresh_all-after rs (d.refresh_remote r w).1

  failure_length : (r : Remote) (reply : Reply (Unit {0})) → length (failure_of r reply) ≤ 1
  failure_length r (answered x) = omega arith
  failure_length r (refused e) = omega arith

  length-refresh_all : (rs : List Remote) (w : W) → length (refresh_all d rs w).0 ≤ length rs
  unfolding refresh_all
  length-refresh_all [] w = omega arith
  length-refresh_all (r ∷ rs) w = by_reply (d.refresh_remote r w).0 _ (length-refresh_all rs _)
    where
      by_reply :
          (reply : Reply (Unit {0})) (fs : List String)
          → length fs ≤ length rs
          → length (failure_of r reply ++ fs) ≤ suc (length rs)
      by_reply (answered x) fs h = omega (arith, h)
      by_reply (refused e) fs h = omega (arith, h)

  refuse_all : (rs : List Remote) (w : W) → AllRefuse rs w → (refresh_all d rs w).0 ≡ map name_of rs
  unfolding refresh_all
  refuse_all [] w h = refl
  refuse_all (r ∷ rs) w (h, k) = by_reply (d.refresh_remote r w).0 _ h (refuse_all rs _ k)
    where
      by_reply :
          (reply : Reply (Unit {0})) (fs : List String)
          → IsRefused reply
          → fs ≡ map name_of rs
          → failure_of r reply ++ fs ≡ name_of r ∷ map name_of rs
      by_reply (answered x) fs h k = absurd h
      by_reply (refused e) fs h k = rw k

  all_refused :
      (rs : List Remote) (w : W) → length (refresh_all d rs w).0 ≡ length rs → AllRefuse rs w
  unfolding refresh_all
  all_refused [] w h = tt
  all_refused (r ∷ rs) w h =
      let (refused_now, same) =
        by_reply (d.refresh_remote r w).0 (refresh_all d rs _).0 (length-refresh_all rs _) h in
      (refused_now, all_refused rs _ same)
    where
      by_reply :
          (reply : Reply (Unit {0})) (fs : List String)
          → length fs ≤ length rs
          → length (failure_of r reply ++ fs) ≡ suc (length rs)
          → IsRefused reply × (length fs ≡ length rs)
      by_reply (answered x) fs h k = omega (arith, h, k)
      by_reply (refused e) fs h k = (tt, omega (arith, k))

  length-map : (rs : List Remote) → length (map name_of rs) ≡ length rs
  length-map [] = refl
  length-map (r ∷ rs) = omega (arith, length-map rs)

  module _ {P C : Type 0} where
    judge_raises :
        (targets : List Remote) (failures : List String) (s : State P C W) (x : Exc)
        → (judge targets failures s).0 ≡ err x
        → (is_nonempty targets ≡ true) × (length failures ≡ length targets)
    judge_raises targets failures s x e = ground arith

    judge_same :
        (targets : List Remote) (failures : List String) (s : State P C W)
        → is_nonempty targets ≡ true
        → length failures ≡ length targets
        → (judge targets failures s).0
          ≡ err (
              lapcare_error
                (provider_timeout source ("all remotes unreachable: " ⧺ joined failures)))
    judge_same targets failures s h k = ground arith

    judge_state :
        (targets : List Remote) (failures : List String) (s : State P C W)
        → (judge targets failures s).1 ≡ s
    judge_state targets failures s = ground arith

    judge-Fails :
        (targets : List Remote) (failures : List String) (s : State P C W)
        → Fails (judge targets failures s).0
        → (is_nonempty targets ≡ true) × (length failures ≡ length targets)
    judge-Fails targets failures s h = by_result (judge targets failures s).0 refl h
      where
        by_result :
            (r : Result (Unit {0}))
            → (judge targets failures s).0 ≡ r
            → Fails r
            → (is_nonempty targets ≡ true) × (length failures ≡ length targets)
        by_result (ok x) e h = absurd h
        by_result (err x) e h = judge_raises targets failures s x e

    targets_lem :
        (targets : List Remote) (l : Local P C) (w : W)
        → (Fails (refresh_targets d targets (l, w)).0
            ↔ ((is_nonempty targets ≡ true) × AllRefuse targets w))
          × (((refresh_targets d targets (l, w)).0 ≡ unreachable targets)
              ↔ ((is_nonempty targets ≡ true) × AllRefuse targets w))
          × ((refresh_targets d targets (l, w)).1 ≡ (l, after targets w))
    targets_lem targets l w = (
      (
        (λ h.
            let (some_target, same) = judge-Fails targets (refresh_all d targets w).0 _ h in
            (some_target, all_refused targets w same)),
        (λ (some_target, refusals).
            rw
              (judge_same targets (refresh_all d targets w).0 (l, (refresh_all d targets w).1)
                some_target (rw (refuse_all targets w refusals) (length-map targets)))
              tt),
      ),
      (
        (λ e.
            let (some_target, same) = judge_raises targets (refresh_all d targets w).0 _ _ e in
            (some_target, all_refused targets w same)),
        (λ (some_target, refusals). rw (sym (refuse_all targets w refusals)) (
            judge_same targets (refresh_all d targets w).0 _ some_target
              (rw (refuse_all targets w refusals) (length-map targets)))),
      ),
      rw (sym (refresh_all-after targets w)) (judge_state targets (refresh_all d targets w).0 _),
    )

    -- With the remotes that the daemon names, a refresh raises an exception, of whatever kind, exactly
    -- if there is a remote to refresh and every one of them refuses, and exactly then it is the timeout
    -- that names them all. Whatever they answer, each
    -- remote of the kind that is downloaded and is enabled is asked once, in order, and no other.
    pub refresh_metadata_lem :
        (l : Local P C) (w w' : W) (remotes : List Remote)
        → d.get_remotes w ≡ (answered remotes, w')
        → let targets = keep is_target remotes in
          (Fails (refresh_metadata d (l, w)).0
            ↔ ((is_nonempty targets ≡ true) × AllRefuse targets w'))
          × (((refresh_metadata d (l, w)).0 ≡ unreachable targets)
              ↔ ((is_nonempty targets ≡ true) × AllRefuse targets w'))
          × ((refresh_metadata d (l, w)).1 ≡ (l, after targets w'))
    unfolding refresh_metadata
    refresh_metadata_lem l w w' remotes e = rw e (targets_lem (keep is_target remotes) l w')
