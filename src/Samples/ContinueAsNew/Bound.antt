-- ===== src/Samples/ContinueAsNew/Bound.antt =====
-- Chains of HandleCasnChild runs where the engine binds each run's arguments from its JSON input.
use cleat_ports.Base.{
  ℕ, ◌≤◌, String, ◌++◌, true, [], ◌∷◌, Option, none, some, ◌≡◌, ◌≢◌, refl, inl, inr, Bool-cases,
  if◌then◌else◌, arith,
}
use cleat_ports.Base.Int.{ℤ, pos, pos_part, max_int}
use cleat_ports.Base.Json.{codes, text, number, read_object}
use cleat_ports.Base.Format.{Unicode, quote}
use cleat_ports.Base.Format.Escapes.{json_safe}
use cleat_ports.Base.Format.Json.{quote-read, json}
use cleat_ports.Host.Calls.{ok}
use cleat_ports.Host.Run.{Host, returned, out_of_fuel}
use cleat_ports.Host.History.Requests.{requests}
use cleat_ports.Host.Chain.{HaltsAtContinue, links, repeated, follow, follow-requests, follow_ends}
use cleat_ports.Host.Binding.{BindsArguments, input_bound}
use cleat_ports.Samples.ContinueAsNew.{casn_input, handle_casn_child}
use cleat_ports.Samples.ContinueAsNew.Announced.{child-Links, child-Ends}

module _ ⦃u : Unicode⦄ where
  -- The input that HandleCasnChild and HandleCasnParent write, as JSON.
  pub casn_input-read :
      (key : String) (n : ℤ)
      → read_object (casn_input key n) ≡ (
          if json_safe key
          then some ((codes "key", text (codes key)) ∷ (codes "iterations", number n) ∷ [])
          else none)
  unfolding casn_input read_object
  casn_input-read key n = elim (Bool-cases (json_safe key)) [
    | inl e ↦ simp (json, quote-read, e)
    | inr e ↦ simp (json, quote-read, e)
  ]

  -- With a key that %q writes as JSON, both arguments of the next run bind from that input.
  casn_input_bound :
      (bind : String → Option (String × ℤ)) (binds : BindsArguments "key" "iterations" bind)
      (key : String) (m : ℕ)
      → json_safe key ≡ true
      → m ≤ max_int
      → bind (casn_input key (pos m)) ≡ some (key, pos m)
  casn_input_bound bind binds key m safe small =
      input_bound "key" "iterations" bind binds key (casn_input key)
        (λ n. rw (casn_input-read key n, safe) refl) m small

  module _ (bind : String → Option (String × ℤ)) (binds : BindsArguments "key" "iterations" bind)
      (h : Host) (halts : HaltsAtContinue h) (key : String) (safe : json_safe key ≡ true) where
    -- Against a host that ends a run at its continue-as-new, and binds the next run's key and number
    -- from its input as JSON, and for a key that %q writes as JSON: a chain of HandleCasnChild from
    -- `n`, an int, that comes to a result has made exactly `n` durable calls, or one if `n` is not
    -- above one; and each is `casn/Iteration` with the first run's key.
    pub bound_child_announces_each :
        (fuel : ℕ) (n : ℤ) (s : h.State) (result : String)
        → pos_part n ≤ max_int
        → (follow h handle_casn_child bind fuel key n s).outcome ≡ returned (ok result)
        → requests (follow h handle_casn_child bind fuel key n s).trace
          ≡ repeated (links n) ("casn", "Iteration", "{\"key\":" ++ quote key ++ "}")
    bound_child_announces_each fuel n s result small =
        follow-requests h halts handle_casn_child bind key _ (casn_input key) (child-Links key) fuel
          n s result
          (λ m below. casn_input_bound bind binds key m safe (omega (arith, below, small))) small

    -- Against a host that ends a run at its continue-as-new, and binds the next run's key and number
    -- from its input as JSON, and for a key that %q writes as JSON: a chain of HandleCasnChild from
    -- `n`, an int, ends within `n` runs, or one if `n` is not above one.
    pub bound_child_ends :
        (n : ℤ) (s : h.State)
        → pos_part n ≤ max_int
        → (follow h handle_casn_child bind (links n) key n s).outcome ≢ out_of_fuel
    bound_child_ends n s small =
        follow_ends h halts handle_casn_child bind key _ (casn_input key) (child-Links key)
          (child-Ends key) (links n) n s
          (λ m below. casn_input_bound bind binds key m safe (omega (arith, below, small))) small
          (omega arith)
