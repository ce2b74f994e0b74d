-- ===== src/Dbos/Chain/Bound.antt =====
-- Chains of HandleContinueAsNew runs where the engine binds each run's arguments from its JSON input.
use cleat_ports.Base.{ℕ, ◌≤◌, String, ◌++◌, true, Option, some, ◌≡◌, refl, arith}
use cleat_ports.Base.Int.{ℤ, pos, pos_part, max_int}
use cleat_ports.Base.Format.{Unicode, quote}
use cleat_ports.Base.Format.Escapes.{json_safe}
use cleat_ports.Host.Calls.{ok}
use cleat_ports.Host.Run.{Host, returned}
use cleat_ports.Host.History.Requests.{requests}
use cleat_ports.Host.Chain.{HaltsAtContinue, links, repeated, follow, follow-requests}
use cleat_ports.Host.Binding.{BindsArguments, input_bound}
use cleat_ports.Dbos.Chain.{chain_input, handle_continue_as_new}
use cleat_ports.Dbos.Chain.Input.{chain_input-read}
use cleat_ports.Dbos.Chain.Announced.{chain-Links}

module _ ⦃u : Unicode⦄ where
  -- With a key that %q writes as JSON, both arguments of the next run bind from the input that the
  -- run before wrote.
  pub chain_input_bound :
      (bind : String → Option (String × ℤ)) (binds : BindsArguments "key" "remaining" bind)
      (key : String) (m : ℕ)
      → json_safe key ≡ true
      → m ≤ max_int
      → bind (chain_input key (pos m)) ≡ some (key, pos m)
  chain_input_bound bind binds key m safe small =
      input_bound "key" "remaining" bind binds key (chain_input key)
        (λ n. rw (chain_input-read key n, safe) refl) m small

  -- Against a host that ends a run at its continue-as-new, and binds the next run's key and number
  -- from its input as JSON, and for a key that %q writes as JSON: a chain of HandleContinueAsNew from
  -- `n`, an int, that comes to a result has made exactly `n` durable calls, or one if `n` is not above
  -- one; and each is `flaky/op` with the first run's key and no failures asked for.
  pub bound_chain_announces_each :
      (bind : String → Option (String × ℤ)) (binds : BindsArguments "key" "remaining" bind)
      (h : Host) (halts : HaltsAtContinue h) (key : String) (fuel : ℕ) (n : ℤ) (s : h.State)
      (result : String)
      → json_safe key ≡ true
      → pos_part n ≤ max_int
      → (follow h handle_continue_as_new bind fuel key n s).outcome ≡ returned (ok result)
      → requests (follow h handle_continue_as_new bind fuel key n s).trace
        ≡ repeated (links n) ("flaky", "op", "{\"key\":" ++ quote key ++ ",\"fail_times\":0}")
  bound_chain_announces_each bind binds h halts key fuel n s result safe small =
      follow-requests h halts handle_continue_as_new bind key _ (chain_input key) (chain-Links key)
        fuel n s result
        (λ m below. chain_input_bound bind binds key m safe (omega (arith, below, small))) small
