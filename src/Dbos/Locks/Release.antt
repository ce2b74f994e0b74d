-- ===== src/Dbos/Locks/Release.antt =====
-- When the lock workflows release what they took.
use cleat_ports.Base.{String, ◌++◌, true, false, List, [], ◌∷◌, ◌≡◌, ◌⊎◌, inl, inr, refl, arith}
use cleat_ports.Base.Int.{ℤ}
use cleat_ports.Base.Format.{Unicode}
use cleat_ports.Host.Calls.{Result, ok, err, Error}
use cleat_ports.Host.Run.{Host, Event, Outcome, run, returned}
use cleat_ports.Host.Logic.{
  Ensures, Ensures-ret, Ensures-call, Ensures-if, Ensures-check, run-Ensures,
}
use cleat_ports.Host.History.{locks_taken, releases}
use cleat_ports.Dbos.Locks.{handle_lock_holder, handle_lock_try}

-- At most the lock of `key`, once.
abbrev pub AtMostOwn : String → List String → Type 0
AtMostOwn key taken = (taken ≡ []) ⊎ (taken ≡ ("lock-" ++ key) ∷ [])

module _ ⦃u : Unicode⦄ where
  TryReleases : String → List Event → Outcome (Result String) → Type 0
  TryReleases key tr o =
      (r : Result String)
      → o ≡ returned r
      → (releases tr ≡ locks_taken tr) × AtMostOwn key (locks_taken tr)

  handle_lock_try-TryReleases :
      (key : String) (ttl_ms : ℤ) → Ensures (TryReleases key) (handle_lock_try key ttl_ms)
  unfolding handle_lock_try TryReleases
  handle_lock_try-TryReleases key ttl_ms =
      Ensures-call _ _ (λ r x. cc)
        λ tried.
          Ensures-check _ _ _ (λ e f. Ensures-ret _ λ r x. rw (f) (refl, inl refl))
            λ got g.
              Ensures-if _ _ _
                (λ taken.
                  Ensures-call _ _ (λ r x. cc)
                    λ freed.
                      Ensures-check _ _ _
                        (λ e f. Ensures-ret _ λ r x. rw (g, taken) (refl, inr refl))
                        λ a q. Ensures-ret _ λ r x. rw (g, taken) (refl, inr refl))
                λ refused. Ensures-ret _ λ r x. rw (g, refused) (refl, inl refl)

  -- Whatever the host does, a run of HandleLockTry that comes to its end, with a result or an error, has
  -- asked to release exactly the locks that it was given, in order; and it was given none, or the lock
  -- "lock-" followed by its key, once.
  pub try_releases :
      (h : Host) (s : h.State) (key : String) (ttl_ms : ℤ) (r : Result String)
      → (run h (handle_lock_try key ttl_ms) s).outcome ≡ returned r
      → (releases (run h (handle_lock_try key ttl_ms) s).trace
          ≡ locks_taken (run h (handle_lock_try key ttl_ms) s).trace)
        × AtMostOwn key (locks_taken (run h (handle_lock_try key ttl_ms) s).trace)
  unfolding TryReleases
  try_releases h s key ttl_ms r e = run-Ensures h s (handle_lock_try-TryReleases key ttl_ms) r e

  -- What a run that ended so leaves of the locks that it was given.
  abbrev pub Leaves : String → Result String → List String → List String → Type 0
  Leaves key (ok text) taken released = (released ≡ taken) × AtMostOwn key taken
  Leaves key (err e) taken released = (taken ≡ ("lock-" ++ key) ∷ []) × (released ≡ [])

  HolderLeaves : String → List Event → Outcome (Result String) → Type 0
  HolderLeaves key tr o =
      (r : Result String) → o ≡ returned r → Leaves key r (locks_taken tr) (releases tr)

  ok-Leaves :
      (key text : String) (taken released : List String) (r : Result String)
      → returned (ok text) ≡ returned r
      → Leaves key (ok text) taken released
      → Leaves key r taken released
  ok-Leaves key text taken released (ok t) e fact = fact
  ok-Leaves key text taken released (err f) e fact = cc

  err-Leaves :
      (key : String) (error : Error) (taken released : List String) (r : Result String)
      → returned (err error) ≡ returned r
      → Leaves key (err error) taken released
      → Leaves key r taken released
  err-Leaves key error taken released (ok t) e fact = cc
  err-Leaves key error taken released (err f) e fact = fact

  handle_lock_holder-HolderLeaves :
      (key : String) (hold_ms : ℤ) → Ensures (HolderLeaves key) (handle_lock_holder key hold_ms)
  unfolding handle_lock_holder HolderLeaves
  handle_lock_holder-HolderLeaves key hold_ms =
      Ensures-call _ _ (λ r x. cc)
        λ tried.
          Ensures-check _ _ _
            (λ e f. Ensures-ret _ λ r x. rw (f) (ok-Leaves key _ _ _ r x (refl, inl refl)))
            λ got g.
              Ensures-if _ _ _
                (λ refused. Ensures-ret _ λ r x.
                  let no : got ≡ false = ground arith in
                  rw (g, no) (ok-Leaves key _ _ _ r x (refl, inl refl)))
                λ held.
                  let yes : got ≡ true = ground arith in
                  Ensures-call _ _ (λ r x. cc)
                    λ called.
                      Ensures-check _ _ _
                        (λ e f.
                          Ensures-ret _ λ r x. rw (g, yes) (err-Leaves key _ _ _ r x (refl, refl)))
                        λ resp q.
                          Ensures-call _ _ (λ r x. cc)
                            λ slept.
                              Ensures-call _ _ (λ r x. cc)
                                λ freed.
                                  Ensures-check _ _ _
                                    (λ e f.
                                      Ensures-ret _ λ r x.
                                        rw (g, yes) (ok-Leaves key _ _ _ r x (refl, inr refl)))
                                    λ a p.
                                      Ensures-ret _ λ r x.
                                        rw (g, yes) (ok-Leaves key _ _ _ r x (refl, inr refl))

  -- Whatever the host does: a run of HandleLockHolder that returns a result has asked to release exactly
  -- the locks that it was given, in order, and was given none, or the lock "lock-" followed by its key,
  -- once; and a run that returns an error was given that lock, once, and has asked to release none.
  pub holder-Leaves :
      (h : Host) (s : h.State) (key : String) (hold_ms : ℤ) (r : Result String)
      → (run h (handle_lock_holder key hold_ms) s).outcome ≡ returned r
      → Leaves key r
          (locks_taken (run h (handle_lock_holder key hold_ms) s).trace)
          (releases (run h (handle_lock_holder key hold_ms) s).trace)
  unfolding HolderLeaves
  holder-Leaves h s key hold_ms r e =
      run-Ensures h s (handle_lock_holder-HolderLeaves key hold_ms) r e
