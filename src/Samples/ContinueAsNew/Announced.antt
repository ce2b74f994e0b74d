-- ===== src/Samples/ContinueAsNew/Announced.antt =====
-- What one run in a chain of sg_casn_child runs calls, what it continues with, and that it ends.
use cleat_ports.Base.{String, ◌++◌, ◌≢◌, refl, arith}
use cleat_ports.Base.Int.{ℤ}
use cleat_ports.Base.Format.{Unicode, quote}
use cleat_ports.Host.Run.{out_of_fuel}
use cleat_ports.Host.Logic.{Ensures, Ensures-ret, Ensures-call, Ensures-if, Ensures-check}
use cleat_ports.Host.Chain.{Links}
use cleat_ports.Samples.ContinueAsNew.{casn_input, handle_casn_child}

module _ ⦃u : Unicode⦄ where
  pub child-Links :
      (key : String) (n : ℤ)
      → Ensures
          (Links ("casn", "Iteration", "{\"key\":" ++ quote key ++ "}") (casn_input key) n)
          (handle_casn_child key n)
  unfolding handle_casn_child Links casn_input
  child-Links key n =
      Ensures-call _ _ (λ x. (λ text e. cc, λ text e. cc))
        λ r.
          Ensures-check _ _ _ (λ e f. Ensures-ret _ λ x. (λ text q. cc, λ text q. cc))
            λ a g.
              Ensures-if _ _ _
                (λ more.
                  Ensures-call _ _ (λ x. (λ text q. cc, λ text q. (refl, more, ground arith)))
                    λ c.
                      Ensures-check _ _ _ (λ e f. Ensures-ret _ λ x. cc)
                        λ b q. Ensures-ret _ λ x. cc)
                λ last. Ensures-ret _ λ x. (λ text q. (refl, last), λ text q. cc)

  pub child-Ends :
      (key : String) (n : ℤ) → Ensures (λ tr o. o ≢ out_of_fuel) (handle_casn_child key n)
  unfolding handle_casn_child
  child-Ends key n =
      Ensures-call _ _ (λ x. cc)
        λ r.
          Ensures-check _ _ _ (λ e f. Ensures-ret _ λ x. cc)
            λ a g.
              Ensures-if _ _ _
                (λ more.
                  Ensures-call _ _ (λ x. cc)
                    λ c.
                      Ensures-check _ _ _ (λ e f. Ensures-ret _ λ x. cc)
                        λ b q. Ensures-ret _ λ x. cc)
                λ last. Ensures-ret _ λ x. cc
