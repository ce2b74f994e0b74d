-- ===== src/Sdk/Updates/Order.antt =====
-- Which updates HandleUpdates applies, and in which order.
use mathlib.Core.List as L
use mathlib.Core.List.{append-nil, append_assoc}
use cleat_ports.Base.{
  sym, ap, ◌∙◌, Bool-cases, inl, inr, eq_iff, ℕ, zero, suc, String, Bool, not, ◌&&◌, ◌||◌, List, [],
  ◌∷◌, ◌==◌, ◌≡◌, refl, append, append-append, if◌then◌else◌, arith,
}
use cleat_ports.Base.Int.{ℤ, pos_part}
use cleat_ports.Base.Text.{contains_text}
use cleat_ports.Base.Format.{Unicode}
use cleat_ports.Host.Calls.{Result, ok, Update}
use cleat_ports.Host.Run.{Host, run, Outcome, returned, Event}
use cleat_ports.Host.Logic.{Ensures, Ensures-mono, Ensures-ret, Ensures-call, run-Ensures}
use cleat_ports.Host.History.{updates}
use cleat_ports.Sdk.Updates.{
  registered, handled_by, serve, update_loop, updates_report, handle_updates,
}

-- Whether an update is applied: it is one of the five, and not a guarded one that asks for its refusal.
abbrev pub accepts : String → String → Bool
accepts name payload =
    name == "apply_one"
    || name == "apply_two"
    || name == "echo"
    || (name == "guarded" && not (contains_text payload "\"reject\":true"))
    || name == "boom"

abbrev pub accepted : Update → Bool
accepted up = accepts up.name up.payload

-- The names of the applied updates, in order.
abbrev pub accepted_names : List Update → List String
accepted_names [] = []
accepted_names (up ∷ us) = if accepted up then up.name ∷ accepted_names us else accepted_names us

module _ ⦃u : Unicode⦄ where
  handled_by-accepts :
      (name payload : String) (applied : List String)
      → handled_by (registered name) payload applied
        ≡ (if accepts name payload then append applied name else applied)
  unfolding registered
  handled_by-accepts name payload applied = elim (Bool-cases (name == "apply_one")) [
    | inl e ↦ rw ((eq_iff _ _).0 e) refl
    | inr e₁ ↦ elim (Bool-cases (name == "apply_two")) [
      | inl e ↦ rw ((eq_iff _ _).0 e) refl
      | inr e₂ ↦ elim (Bool-cases (name == "echo")) [
        | inl e ↦ rw ((eq_iff _ _).0 e) refl
        | inr e₃ ↦ elim (Bool-cases (name == "boom")) [
          | inl e ↦ rw ((eq_iff _ _).0 e) refl
          | inr e₄ ↦ elim (Bool-cases (name == "guarded")) [
            | inl e ↦ elim (Bool-cases (contains_text payload "\"reject\":true")) [
              | inl r ↦ rw ((eq_iff _ _).0 e, r) refl
              | inr r ↦ rw ((eq_iff _ _).0 e, r) refl
            ]
            | inr e₅ ↦ rw (e₁, e₂, e₃, e₄, e₅) refl
          ]
        ]
      ]
    ]
  ]

  serve-accepted_names :
      (us : List Update) (applied : List String)
      → serve us applied ≡ L.◌++◌ applied (accepted_names us)
  unfolding serve
  serve-accepted_names [] applied = sym (append-nil applied)
  serve-accepted_names (up ∷ us) applied =
      rw (handled_by-accepts up.name up.payload applied) (elim (Bool-cases (accepted up)) [
        | inl e ↦
            rw
              (
                e,
                serve-accepted_names us (append applied up.name),
                append-append applied (accepted_names us) up.name,
              )
              refl
        | inr e ↦ rw (e) (serve-accepted_names us applied)
      ])

  accepted_names-append :
      (us vs : List Update)
      → accepted_names (L.◌++◌ us vs) ≡ L.◌++◌ (accepted_names us) (accepted_names vs)
  accepted_names-append [] vs = refl
  accepted_names-append (up ∷ us) vs = elim (Bool-cases (accepted up)) [
    | inl e ↦ rw (e, accepted_names-append us vs) refl
    | inr e ↦ rw (e) (accepted_names-append us vs)
  ]

  Applies : String → List String → List Event → Outcome (Result String) → Type 0
  Applies marker applied tr o =
      (text : String)
      → o ≡ returned (ok text)
      → text ≡ updates_report marker (L.◌++◌ applied (accepted_names (updates tr)))

  update_loop-Applies :
      (marker : String) (left : ℕ) (applied : List String)
      → Ensures (Applies marker applied) (update_loop marker left applied)
  unfolding update_loop Applies
  update_loop-Applies marker zero applied =
      Ensures-ret _ λ text x. rw (append-nil applied) (ground arith)
  update_loop-Applies marker (suc left) applied =
      Ensures-call _ _ (λ text x. cc)
        λ r.
          Ensures-call _ _ (λ text x. cc)
            λ us.
              Ensures-mono (update_loop-Applies marker left (serve us applied)) λ tr o ih text x.
                (ih text x
                  ∙ ap (updates_report marker) (
                      ap (λ front. L.◌++◌ front (accepted_names (updates tr)))
                        (serve-accepted_names us applied)
                      ∙ rw (accepted_names-append us (updates tr))
                          (append_assoc applied (accepted_names us) (accepted_names (updates tr)))))

  -- Whatever the host does, a result of HandleUpdates lists, after what had been applied before, the
  -- names of the accepted updates among those that the host dispatched, in the order of their dispatch
  -- across all awaits: all "apply_one", "apply_two", "echo" and "boom", the "guarded" that do not carry
  -- "reject":true, and no others.
  pub updates_in_order :
      (h : Host) (s : h.State) (applied : List String) (marker : String) (slices : ℤ)
      (text : String)
      → (run h (handle_updates applied marker slices) s).outcome ≡ returned (ok text)
      → text
        ≡ updates_report marker (
            L.◌++◌ applied
              (accepted_names (updates (run h (handle_updates applied marker slices) s).trace)))
  unfolding handle_updates Applies
  updates_in_order h s applied marker slices = run-Ensures h {P = Applies marker applied} s (
      Ensures-call _ _ (λ text x. cc)
        λ a.
          Ensures-call _ _ (λ text x. cc)
            λ b.
              Ensures-call _ _ (λ text x. cc)
                λ c.
                  Ensures-call _ _ (λ text x. cc)
                    λ d.
                      Ensures-call _ _ (λ text x. cc)
                        λ e. update_loop-Applies marker (pos_part slices) applied)
