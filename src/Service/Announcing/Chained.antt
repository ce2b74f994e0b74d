-- ===== src/Service/Announcing/Chained.antt =====
-- ports/dbos-transact-py/workflows/continueasnew/main.go against scripts/fixture-service.py.
use cleat_ports.Base.{
  ℕ, zero, suc, ◌+◌, ◌-◌, ◌≤◌, String, true, false, Option, some, ◌≡◌, ◌≢◌, refl, ap, ◌∙◌, arith,
  Bool-cases, inl, inr,
}
use cleat_ports.Base.Int.{ℤ, pos, pos_part, max_int, ltb_ℤ, ◌-ℤ◌, wrap64}
use cleat_ports.Base.Json.{codes}
use cleat_ports.Base.Format.{Unicode}
use cleat_ports.Base.Format.Escapes.{json_safe}
use cleat_ports.Host.Calls.{Result, ok, continue_as_new, workflow_id}
use cleat_ports.Host.Program.{branching}
use cleat_ports.Host.Run.{Host, Run, resume, stop, returned, run}
use cleat_ports.Host.Completion.{
  Completes, Completes-ret, Completes-answered, Stops, Stops-here, Stops-answered,
}
use cleat_ports.Host.Chain.{follow, links, one_less, links-one_less}
use cleat_ports.Host.Binding.{BindsArguments}
use cleat_ports.Dbos.Chain.{chain_input, handle_continue_as_new, finished_report}
use cleat_ports.Dbos.Chain.Bound.{chain_input_bound}
use cleat_ports.Service.{Python}
use cleat_ports.Service.State.{Tables, named}
use cleat_ports.Service.Lookup.{ReadsJson}
use cleat_ports.Service.Forwarding.{Forwarding}
use cleat_ports.Service.Announcing.{announced}

-- The host ends a run at its continue-as-new, and knows the run's id; neither reaches the service.
pub record Continuing (py : Python) (h : Host) (to : Forwarding py h) : Type 0 where
  pub ends_run :
      (s : h.State) (input : String)
      → (s' : h.State) × (h.react s (continue_as_new input) ≡ stop s')
        × (to.tables s' ≡ to.tables s)
  pub names_run :
      (s : h.State)
      → (id : String) × (s' : h.State) × (h.react s workflow_id ≡ resume id s')
        × (to.tables s' ≡ to.tables s)

module _ ⦃u : Unicode⦄ (py : Python) (reads : ReadsJson py) (h : Host) (to : Forwarding py h)
    (goes : Continuing py h to) (key : String) (safe : json_safe key ≡ true)
    (some_key : key ≢ "") where
  abbrev calls_at : h.State → ℕ
  calls_at s = (to.tables s).counts (named (codes key))

  abbrev calls_in : Tables → ℕ
  calls_in t = t.counts (named (codes key))

  link_last :
      (n : ℤ) (s : h.State)
      → ltb_ℤ (pos 1) n ≡ false
      → Completes h
          (λ result s'.
            ((id : String) × (result ≡ ok (finished_report id))) × (calls_at s' ≡ suc (calls_at s)))
          (handle_continue_as_new key n)
          s
  unfolding handle_continue_as_new branching
  link_last n s last =
      let (text', s₁, answered, count) = announced py reads h to key safe some_key s in
      let (id, s₂, answered', kept) = goes.names_run s₁ in
      Completes-answered _ s₁ answered (
        rw (last) (
          Completes-answered id s₂ answered'
            (Completes-ret _ ((id, refl), ap calls_in kept ∙ count))))

  link_more :
      (n : ℤ) (s : h.State)
      → ltb_ℤ (pos 1) n ≡ true
      → Stops h
          (continue_as_new (chain_input key (wrap64 (n -ℤ pos 1))))
          (λ s'. calls_at s' ≡ suc (calls_at s))
          (handle_continue_as_new key n)
          s
  unfolding handle_continue_as_new branching
  link_more n s more =
      let (text', s₁, answered, count) = announced py reads h to key safe some_key s in
      let (s₂, ended, kept) = goes.ends_run s₁ (chain_input key (wrap64 (n -ℤ pos 1))) in
      Stops-answered _ s₁ answered (rw (more) (Stops-here s₂ ended (ap calls_in kept ∙ count)))

  module _ (bind : String → Option (String × ℤ))
      (binds : BindsArguments "key" "remaining" bind) where
    abbrev Finishes : Run h.State (Result String) → ℕ → Type 0
    Finishes r total =
        ((id : String) × (r.outcome ≡ returned (ok (finished_report id))))
        × (calls_at r.final ≡ total)

    chain_Finishes :
        (fuel : ℕ) (n : ℤ) (s : h.State)
        → links n ≤ fuel
        → pos_part n ≤ max_int
        → Finishes (follow h handle_continue_as_new bind fuel key n s) (calls_at s + links n)
    unfolding follow
    chain_Finishes zero n s fits small = absurd (ground arith)
    chain_Finishes (suc fuel) n s fits small = elim (Bool-cases (ltb_ℤ (pos 1) n)) [
      | inl more ↦
          let link = link_more n s more in
          let next : bind (chain_input key (wrap64 (n -ℤ pos 1)))
              ≡ some (key, pos (pos_part n - 1)) =
            rw (one_less n more small)
              (chain_input_bound bind binds key (pos_part n - 1) safe (omega (arith, small))) in
          let s₁ = (run h (handle_continue_as_new key n) s).final in
          let ((id, finished), count) =
            chain_Finishes fuel (pos (pos_part n - 1)) s₁ (omega (arith, links-one_less n more))
              (omega arith) in
          rw (link.stops, next)
            ((id, finished), omega (arith, count, link.leaves, links-one_less n more))
      | inr last ↦
          let link = link_last n s last in
          let ((id, report), count) = link.leaves in
          let once : links n ≡ 1 = ground arith in
          rw (link.returns) ((id, ap (λ r. returned r) report), omega (arith, count, once))
    ]

module _ ⦃u : Unicode⦄ where
  -- With a worker that forwards the calls to the fixture service, ends a run at its continue-as-new and
  -- binds the next run's key and number from its input as JSON, and a key that is not empty and that %q
  -- writes as JSON: a chain of HandleContinueAsNew from `n`, an int, comes to its end within its links,
  -- `n` runs or one if `n` is not above one; its result is the report of a finished chain, and the
  -- service has been called once by each run.
  pub chain_finishes :
      (py : Python) (reads : ReadsJson py) (h : Host) (to : Forwarding py h)
      (goes : Continuing py h to) (bind : String → Option (String × ℤ))
      (binds : BindsArguments "key" "remaining" bind) (key : String) (n : ℤ) (s : h.State)
      → json_safe key ≡ true
      → key ≢ ""
      → pos_part n ≤ max_int
      → ((id : String) × ((follow h handle_continue_as_new bind (links n) key n s).outcome
            ≡ returned (ok (finished_report id))))
        × ((to.tables (follow h handle_continue_as_new bind (links n) key n s).final).counts
              (named (codes key))
            ≡ (to.tables s).counts (named (codes key)) + links n)
  chain_finishes py reads h to goes bind binds key n s safe some_key small =
      chain_Finishes py reads h to goes key safe some_key bind binds (links n) n s (omega arith)
        small
