-- ===== src/Dbos/Chain/Announced.antt =====
-- What one run in a chain of HandleContinueAsNew runs calls, and what it continues with.
use cleat_ports.Base.{String, ◌++◌, refl, arith}
use cleat_ports.Base.Int.{ℤ}
use cleat_ports.Base.Format.{Unicode, quote}
use cleat_ports.Host.Logic.{Ensures, Ensures-ret, Ensures-call, Ensures-if, Ensures-check}
use cleat_ports.Host.Chain.{Links}
use cleat_ports.Dbos.Fixture.{flaky_request}
use cleat_ports.Dbos.Chain.{chain_input, handle_continue_as_new}

module _ ⦃u : Unicode⦄ where
  pub chain-Links :
      (key : String) (n : ℤ)
      → Ensures
          (Links
            ("flaky", "op", "{\"key\":" ++ quote key ++ ",\"fail_times\":0}")
            (chain_input key)
            n)
          (handle_continue_as_new key n)
  unfolding handle_continue_as_new Links chain_input flaky_request
  chain-Links key n =
      Ensures-call _ _ (λ x. (λ text e. cc, λ text e. cc))
        λ r.
          Ensures-check _ _ _ (λ e f. Ensures-ret _ λ x. (λ text q. cc, λ text q. cc))
            λ a g.
              Ensures-if _ _ _
                (λ more.
                  Ensures-call _ _ (λ x. (λ text q. cc, λ text q. (refl, more, ground arith)))
                    λ c.
                      Ensures-check _ _ _ (λ e f. Ensures-ret _ λ x. cc)
                        λ b q. Ensures-ret _ λ x. cc)
                λ last.
                  Ensures-call _ _ (λ x. (λ text q. cc, λ text q. cc))
                    λ id. Ensures-ret _ λ x. (λ text q. (refl, last), λ text q. cc)
