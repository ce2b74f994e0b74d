-- ===== src/Dbos/Children/Leaf.antt =====
-- ports/dbos-transact-py/workflows/awaitonechild/main.go with the child of childleaf/main.go.
use cleat_ports.Base.{
  String, ◌++◌, Bool, true, false, List, [], ◌∷◌, none, some, ◌≡◌, refl, sym, ◌∙◌, ◌==◌,
  if◌then◌else◌, Bool-cases, inl, inr, eq_refl,
}
use cleat_ports.Base.Int.{ℤ}
use cleat_ports.Base.Json.{Fields, codes, text, number, read_object}
use cleat_ports.Base.Format.{Unicode, quote}
use cleat_ports.Base.Format.Escapes.{json_safe, codes-injective}
use cleat_ports.Base.Format.Json.{quote-read, json}
use cleat_ports.Host.Calls.{Result, ok, err, child_workflow, await_child}
use cleat_ports.Host.Run.{Host, Event, event, Outcome, returned, run}
use cleat_ports.Host.Logic.{Ensures, Ensures-ret, Ensures-call, Ensures-check, run-Ensures}
use cleat_ports.Host.Binding.{member}
use cleat_ports.Host.History.Spawns.{spawned}
use cleat_ports.Host.Returns.{Returns, Returns-Ensures, AreHonest}
use cleat_ports.Dbos.Children.{leaf_input, handle_leaf, child_report, handle_await_one_child}

module _ ⦃u : Unicode⦄ where
  pub leaf_input-read :
      (ms : ℤ) (tag : String)
      → read_object (leaf_input ms tag) ≡ (
          if json_safe tag
          then some ((codes "ms", number ms) ∷ (codes "tag", text (codes tag)) ∷ [])
          else none)
  unfolding leaf_input read_object
  leaf_input-read ms tag = elim (Bool-cases (json_safe tag)) [
    | inl e ↦ simp (json, quote-read, e)
    | inr e ↦ simp (json, quote-read, e)
  ]

  abbrev pub leaf_result : String → String
  leaf_result tag = "{\"tag\":" ++ quote tag ++ "}"

  handle_leaf-Ensures :
      (ms : ℤ) (tag : String)
      → Ensures
          (λ tr o. (x : String) → o ≡ returned (ok x) → x ≡ leaf_result tag)
          (handle_leaf ms tag)
  unfolding handle_leaf
  handle_leaf-Ensures ms tag =
      Ensures-call _ _ (λ x e. cc) λ a. Ensures-call _ _ (λ x e. cc) λ b. Ensures-ret _ λ x e. cc

  -- A run of the definition "child_leaf" with this input may return the text: the input is a JSON
  -- object with its two arguments.
  abbrev IsLeafResult : Bool → String → String → Type 0
  IsLeafResult true input result =
      (ms : ℤ) × (tag : String) × (fs : Fields) × (read_object input ≡ some fs)
      × (member (codes "ms") fs ≡ some (number ms))
      × (member (codes "tag") fs ≡ some (text (codes tag)))
      × Returns (ok result) (handle_leaf ms tag)
  IsLeafResult false input result = Unit

  abbrev pub LeafChild : String → String → String → Type 0
  LeafChild def input result = IsLeafResult (def == "child_leaf") input result

  leaf_of_input :
      (ms : ℤ) (tag result : String)
      → LeafChild "child_leaf" (leaf_input ms tag) result
      → (result ≡ leaf_result tag) × (json_safe tag ≡ true)
  leaf_of_input ms tag result (ms', tag', fs, read, at_ms, at_tag, returns) =
      elim (Bool-cases (json_safe tag)) [
        | inl e ↦
            let whole : some fs
                ≡ some ((codes "ms", number ms) ∷ (codes "tag", text (codes tag)) ∷ []) =
              sym read ∙ rw (leaf_input-read ms tag, e) refl in
            let same_fs : fs ≡ (codes "ms", number ms) ∷ (codes "tag", text (codes tag)) ∷ [] =
              cc in
            let tag-read = (rw (same_fs) at at_tag) in
            let same_tag : tag ≡ tag' = codes-injective tag tag' (cc) in
            let (tr, report) =
              Returns-Ensures _ (ok result) (handle_leaf ms' tag') (handle_leaf-Ensures ms' tag')
                returns in
            (rw (same_tag) (report result refl), e)
        | inr e ↦
            let never : none ≡ some fs = sym (rw (leaf_input-read ms tag, e) refl) ∙ read in
            absurd (cc)
      ]

  -- What the host handed over for the one child of a trace.
  awaited_result :
      (input id result : String) (r r' : Result String)
      → r ≡ ok id
      → r' ≡ ok result
      → AreHonest LeafChild
          (event (child_workflow "child_leaf" input) r ∷ event (await_child id) r' ∷ [])
      → LeafChild "child_leaf" input result
  awaited_result input id result (ok i) (ok x) e f honest =
      let same_id : i ≡ id = cc in
      let same_result : x ≡ result = cc in
      let found = (rw (same_id, same_result, eq_refl id) at honest.1.0) in found
  awaited_result input id result (err e') r' e f honest = cc
  awaited_result input id result (ok i) (err e') e f honest = cc

  Reported : String → List Event → Outcome (Result String) → Type 0
  Reported tag tr o =
      AreHonest LeafChild tr
      → (x : String) → o ≡ returned (ok x)
      → (id : String) × (spawned tr ≡ id ∷ [])
        × (x ≡ "{\"runID\":" ++ quote id ++ ",\"child\":" ++ leaf_result tag ++ "}")
        × (json_safe tag ≡ true)

  handle-Reported : (ms : ℤ) (tag : String) → Ensures (Reported tag) (handle_await_one_child ms tag)
  unfolding handle_await_one_child child_report Reported
  handle-Reported ms tag =
      Ensures-call _ _ (λ honest x e. cc)
        λ r.
          Ensures-check _ _ _ (λ e f. Ensures-ret _ λ honest x q. cc)
            λ id f.
              Ensures-call _ _ (λ honest x e. cc)
                λ r'.
                  Ensures-check _ _ _ (λ e g. Ensures-ret _ λ honest x q. cc)
                    λ result g. Ensures-ret _ λ honest x q.
                      let (same, safe) =
                        leaf_of_input ms tag result (awaited_result _ id result r r' f g honest) in
                      (id, rw (f) refl, rw (sym same) (cc), safe)

  -- HandleAwaitOneChild with HandleLeaf as its child: against any host that hands over, for a child
  -- of the definition "child_leaf", only what HandleLeaf may return for the arguments that the
  -- child's input has as JSON, a result of the parent is
  -- `{"runID": ..., "child": {"tag": ...}}` with the run id that the host gave the one child that was
  -- started, and the very tag that the parent was given; and the tag has only characters that
  -- %q writes as JSON does.
  pub child_result_carried :
      (h : Host) (s : h.State) (ms : ℤ) (tag result : String)
      → AreHonest LeafChild (run h (handle_await_one_child ms tag) s).trace
      → (run h (handle_await_one_child ms tag) s).outcome ≡ returned (ok result)
      → (id : String) × (spawned (run h (handle_await_one_child ms tag) s).trace ≡ id ∷ [])
        × (result ≡ "{\"runID\":" ++ quote id ++ ",\"child\":" ++ leaf_result tag ++ "}")
        × (json_safe tag ≡ true)
  unfolding Reported
  child_result_carried h s ms tag result honest e =
      run-Ensures h s (handle-Reported ms tag) honest result e
