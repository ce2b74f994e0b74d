-- ===== src/Dbos/Chain/Input.antt =====
-- The inputs that continueasnew/main.go and cansignal/main.go write for the next run, as JSON.
use cleat_ports.Base.{String, [], ◌∷◌, none, some, ◌≡◌, if◌then◌else◌, Bool-cases, inl, inr}
use cleat_ports.Base.Int.{ℤ, pos}
use cleat_ports.Base.Json.{codes, text, number, read_object}
use cleat_ports.Base.Format.{Unicode}
use cleat_ports.Base.Format.Escapes.{json_safe}
use cleat_ports.Base.Format.Json.{quote-read, json}
use cleat_ports.Dbos.Chain.{chain_input, can_signal_input}

module _ ⦃u : Unicode⦄ where
  -- The input that HandleContinueAsNew writes for the next run with %q and %d reads as JSON, and as
  -- the very key and number, for every int, exactly when the key has no character that %q
  -- escapes in a way JSON does not know; for any other key it is no JSON object.
  pub chain_input-read :
      (key : String) (n : ℤ)
      → read_object (chain_input key n) ≡ (
          if json_safe key
          then some ((codes "key", text (codes key)) ∷ (codes "remaining", number n) ∷ [])
          else none)
  unfolding chain_input read_object
  chain_input-read key n = elim (Bool-cases (json_safe key)) [
    | inl e ↦ simp (json, quote-read, e)
    | inr e ↦ simp (json, quote-read, e)
  ]

  -- The same for the input of HandleCanSignal's second iteration.
  pub can_signal_input-read :
      (key : String) (ms : ℤ)
      → read_object (can_signal_input key ms) ≡ (
          if json_safe key
          then some (
              (codes "key", text (codes key))
              ∷ (codes "timeoutMs", number ms)
              ∷ (codes "second", number (pos 1))
              ∷ [])
          else none)
  unfolding can_signal_input read_object
  can_signal_input-read key ms = elim (Bool-cases (json_safe key)) [
    | inl e ↦ simp (json, quote-read, e)
    | inr e ↦ simp (json, quote-read, e)
  ]
