-- ===== src/Dbos/Promises/Settler.antt =====
-- ports/dbos-transact-py/workflows/promisesettler/main.go as the child that settles its parent's promise.
use cleat_ports.Base.{
  String, ◌++◌, Bool, true, false, [], ◌∷◌, none, some, ◌≡◌, refl, sym, ap, ◌∙◌, ◌==◌,
  if◌then◌else◌, Bool-cases, inl, inr,
}
use cleat_ports.Base.Int.{ℤ}
use cleat_ports.Base.Json.{Fields, codes, text, read_object}
use cleat_ports.Base.Format.{Unicode, quote}
use cleat_ports.Base.Format.Escapes.{json_safe, codes-injective}
use cleat_ports.Base.Format.Json.{quote-read, json}
use cleat_ports.Host.Calls.{
  Result, ok, err, resolve_promise, child_workflow, create_promise, await_promise_ms,
}
use cleat_ports.Host.Run.{event, stopped_at}
use cleat_ports.Host.Logic.{Ensures, Ensures-ret, Ensures-call, Ensures-check, Ensures-if}
use cleat_ports.Host.Binding.{member}
use cleat_ports.Host.Settling.{Makes, Makes-Ensures, SettledByChildren}
use cleat_ports.Dbos.Promises.{handle_settle}

abbrev pub settled_value : String
settled_value = "{\"value\":\"settled\"}"

module _ ⦃u : Unicode⦄ where
  handle_settle-Ensures :
      (promise_id mode : String)
      → Ensures
          (λ tr o.
            (id value : String)
            → o ≡ stopped_at (resolve_promise id value)
            → (value ≡ settled_value) × ((mode == "reject") ≡ false))
          (handle_settle promise_id mode)
  unfolding handle_settle
  handle_settle-Ensures promise_id mode =
      Ensures-if _ _ _
        (λ rejects.
          Ensures-call _ _ (λ id value e. cc)
            λ r.
              Ensures-check _ _ _ (λ e f. Ensures-ret _ λ id value q. cc)
                λ a f. Ensures-ret _ λ id value q. cc)
        λ resolves.
          Ensures-call _ _ (λ id value e. (cc, resolves))
            λ r.
              Ensures-check _ _ _ (λ e f. Ensures-ret _ λ id value q. cc)
                λ a f. Ensures-ret _ λ id value q. cc

  -- A run of the definition "promise_settler" with this input may resolve the promise: the input is a
  -- JSON object with its two arguments.
  abbrev MayResolve : Bool → String → String → String → Type 0
  MayResolve true input id value =
      (promise_id : String) × (mode : String) × (fs : Fields) × (read_object input ≡ some fs)
      × (member (codes "promiseId") fs ≡ some (text (codes promise_id)))
      × (member (codes "mode") fs ≡ some (text (codes mode)))
      × Makes (resolve_promise id value) (handle_settle promise_id mode)
  MayResolve false input id value = Unit

  abbrev pub SettlerChild : String → String → String → String → Type 0
  SettlerChild def input id value = MayResolve (def == "promise_settler") input id value

  abbrev pub settler_input : String → String → String
  settler_input id mode = "{\"promiseId\":" ++ quote id ++ ",\"mode\":" ++ quote mode ++ "}"

  settler_input-read :
      (id mode : String)
      → read_object (settler_input id mode) ≡ (
          if json_safe id
          then (if json_safe mode
              then some
                  ((codes "promiseId", text (codes id)) ∷ (codes "mode", text (codes mode)) ∷ [])
              else none)
          else none)
  unfolding read_object
  settler_input-read id mode = elim (Bool-cases (json_safe id)) [
    | inl e ↦ elim (Bool-cases (json_safe mode)) [
      | inl f ↦ simp (json, quote-read, e, f)
      | inr f ↦ simp (json, quote-read, e, f)
    ]
    | inr e ↦ simp (json, quote-read, e)
  ]

  settled_with :
      (id mode id' value : String)
      → SettlerChild "promise_settler" (settler_input id mode) id' value
      → (value ≡ settled_value) × ((mode == "reject") ≡ false) × (json_safe mode ≡ true)
  settled_with id mode id' value (pid, mode', fs, read, at_id, at_mode, makes) =
      elim (Bool-cases (json_safe id)) [
        | inl e ↦ elim (Bool-cases (json_safe mode)) [
          | inl f ↦
              let whole : some fs
                  ≡ some (
                      (codes "promiseId", text (codes id))
                      ∷ (codes "mode", text (codes mode))
                      ∷ []) =
                sym read ∙ rw (settler_input-read id mode, e, f) refl in
              let same_fs : fs
                  ≡ (codes "promiseId", text (codes id)) ∷ (codes "mode", text (codes mode)) ∷ [] =
                cc in
              let mode-read = (rw (same_fs) at at_mode) in
              let same_mode : mode ≡ mode' = codes-injective mode mode' (cc) in
              let (tr, report) =
                Makes-Ensures _ (resolve_promise id' value) (handle_settle pid mode')
                  (handle_settle-Ensures pid mode') makes in
              let (same_value, resolves) = report id' value refl in
              (same_value, rw (same_mode) resolves, f)
          | inr f ↦
              let never : none ≡ some fs =
                sym (rw (settler_input-read id mode, e, f) refl) ∙ read in
              absurd (cc)
        ]
        | inr e ↦
            let never : none ≡ some fs = sym (rw (settler_input-read id mode, e) refl) ∙ read in
            absurd (cc)
      ]

  -- What the host handed over as settled, in a run that has started no child, or the settler.
  pub none_settled :
      (name id : String) (ms : ℤ) (r : Result String) (r'' : Result (String × Bool))
      (answer : String × Bool)
      → SettledByChildren SettlerChild
          (event (create_promise name) r ∷ event (await_promise_ms id ms) r'' ∷ [])
      → r'' ≡ ok answer
      → answer.1 ≡ false
      → ⊥
  none_settled name id ms r (ok (value, true)) answer fair e f =
      let same : (value, true) ≡ answer = cc in
      let late : true ≡ false = ap (λ p. p.1) same ∙ f in cc
  none_settled name id ms r (ok (value, false)) answer fair e f = fair.1.0
  none_settled name id ms r (err e') answer fair e f = cc

  pub child_settled :
      (name id mode : String) (ms : ℤ) (r r' : Result String) (r'' : Result (String × Bool))
      (answer : String × Bool)
      → SettledByChildren SettlerChild (
          event (create_promise name) r
          ∷ event (child_workflow "promise_settler" (settler_input id mode)) r'
          ∷ event (await_promise_ms id ms) r''
          ∷ [])
      → r'' ≡ ok answer
      → answer.1 ≡ false
      → (answer.0 ≡ settled_value) × ((mode == "reject") ≡ false) × (json_safe mode ≡ true)
  child_settled name id mode ms r (ok run_id) (ok (value, false)) answer fair e f =
      elim fair.1.1.0 [
        | inl settles ↦
            let (same_value, resolves, safe) = settled_with id mode id value settles in
            let same : (value, false) ≡ answer = cc in
            (sym (ap (λ p. p.0) same) ∙ same_value, resolves, safe)
        | inr nobody ↦ absurd nobody
      ]
  child_settled name id mode ms r (err e') (ok (value, false)) answer fair e f = absurd fair.1.1.0
  child_settled name id mode ms r r' (ok (value, true)) answer fair e f =
      let same : (value, true) ≡ answer = cc in
      let late : true ≡ false = ap (λ p. p.1) same ∙ f in cc
  child_settled name id mode ms r r' (err e') answer fair e f = cc
