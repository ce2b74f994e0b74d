-- ===== src/Samples/Quorum/Listed.antt =====
-- What the report of HandleQuorum lists.
use mathlib.Core.List as L
use cleat_ports.Base.{
  String, List, [], ◌∷◌, Option, none, some, append, append-append, length, ◌≡◌, ◌⊎◌, refl, sym,
  ◌∙◌, if◌then◌else◌, Bool-cases, inl, inr,
}
use cleat_ports.Base.Int.{ℤ, pos}
use cleat_ports.Base.Text.{join}
use cleat_ports.Base.Json.{codes, text, number, Fields, read_object}
use cleat_ports.Base.Format.{Unicode}
use cleat_ports.Base.Format.Escapes.{json_safe}
use cleat_ports.Base.Format.Json.{quote-read, json}
use cleat_ports.Host.Calls.{Call, Answer, Error, Result, ok, SignalResult, await_quorum}
use cleat_ports.Host.Run.{Host, Event, Outcome, returned, stopped_at, run}
use cleat_ports.Host.Logic.{Ensures, Ensures-ret, Ensures-call, run-Ensures}
use cleat_ports.Samples.Quorum.{names_from, collected, outcome_report, handle_quorum}

-- What the awaits of a quorum came back with.
abbrev quorum_of :
    (c : Call)
    → Answer c
    → List (List SignalResult × Option Error)
    → List (List SignalResult × Option Error)
quorum_of (await_quorum _ _ _ _) answer rest = answer ∷ rest
quorum_of _ _ rest = rest

abbrev pub quorums : List Event → List (List SignalResult × Option Error)
quorums [] = []
quorums (e ∷ es) = quorum_of e.request e.answer (quorums es)

abbrev pub names_of : List SignalResult → List String
names_of [] = []
names_of (r ∷ res) = r.name ∷ names_of res

abbrev pub outcome_of : Option Error → String
outcome_of none = "quorum"
outcome_of (some e) = "timedOut"

names_from-names_of :
    (got : List String) (res : List SignalResult) → names_from got res ≡ L.◌++◌ got (names_of res)
unfolding names_from
names_from-names_of got [] = sym (L.append-nil got)
names_from-names_of got (r ∷ res) =
    names_from-names_of (append got r.name) res ∙ append-append got (names_of res) r.name

module _ ⦃u : Unicode⦄ where
  -- The members of the report.
  abbrev pub quorum_members : Option Error → List String → Fields
  quorum_members failure got =
      (codes "outcome", text (codes (outcome_of failure)))
      ∷ (codes "got", number (pos (length got)))
      ∷ (codes "names", text (codes (join got ",")))
      ∷ []

  outcome_report-read :
      (failure : Option Error) (got : List String)
      → read_object (outcome_report (outcome_of failure) got)
        ≡ (if json_safe (join got ",") then some (quorum_members failure got) else none)
  unfolding outcome_report read_object
  outcome_report-read none got = elim (Bool-cases (json_safe (join got ","))) [
    | inl e ↦ simp (json, quote-read, e)
    | inr e ↦ simp (json, quote-read, e)
  ]
  outcome_report-read (some f) got = elim (Bool-cases (json_safe (join got ","))) [
    | inl e ↦ simp (json, quote-read, e)
    | inr e ↦ simp (json, quote-read, e)
  ]

  -- A run that the host has ended at a call, or the report of what its one quorum came back with.
  abbrev pub Lists : List Event → Outcome (Result String) → Type 0
  Lists tr o =
      ((c : Call) × (o ≡ stopped_at c))
      ⊎ ((res : List SignalResult) × (failure : Option Error) × (result : String) × (quorums tr
            ≡ (res, failure) ∷ [])
          × (o ≡ returned (ok result))
          × (read_object result ≡ (
              if json_safe (join (names_of res) ",")
              then some (quorum_members failure (names_of res))
              else none)))

  Ensures-collected :
      (P : List Event → Outcome (Result String) → Type 0) (res : List SignalResult)
      (failure : Option Error)
      → P [] (returned (ok (outcome_report (outcome_of failure) (names_from [] res))))
      → Ensures P (collected (res, failure))
  Ensures-collected P res none q = Ensures-ret _ q
  Ensures-collected P res (some e) q = Ensures-ret _ q

  handle-Lists :
      (key names : String) (need timeout_ms : ℤ)
      → Ensures Lists (handle_quorum key names need timeout_ms)
  unfolding handle_quorum
  handle-Lists key names need timeout_ms = Ensures-call _ _ (inl (_, refl)) λ a.
      Ensures-call _ _ (inl (_, refl)) λ answer. Ensures-collected _ answer.0 answer.1 (
        inr (
          answer.0,
          answer.1,
          _,
          refl,
          refl,
          rw (names_from-names_of [] answer.0) (outcome_report-read answer.1 (names_of answer.0)),
        ))

  -- Whatever the host answers, and unless it ends the run at a call, HandleQuorum returns a report, also
  -- when the announcing call or the quorum failed: `outcome` says whether the quorum failed, `names`
  -- has the names of the signals that the await came back with, in its order, and `got` says how many
  -- these are. The report reads as JSON with exactly these members if each character of the names is
  -- one that %q writes as JSON does, and as no JSON object otherwise.
  pub quorum_report-Lists :
      (h : Host) (s : h.State) (key names : String) (need timeout_ms : ℤ)
      → Lists
          (run h (handle_quorum key names need timeout_ms) s).trace
          (run h (handle_quorum key names need timeout_ms) s).outcome
  quorum_report-Lists h s key names need timeout_ms =
      run-Ensures h s (handle-Lists key names need timeout_ms)
