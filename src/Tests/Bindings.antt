-- ===== src/Tests/Bindings.antt =====
-- A binding of JSON inputs, and chains that go by it.
use Prim.Native.Char.{Char, char, code, nul, IsLt}
use Prim.Native.Nat.{compare, Ordering}
use Prim.Native.String as S
use cleat_ports.Base.{ℕ, ◌≢◌, String, List, [], ◌∷◌, false, Option, none, some, ◌≡◌, refl, arith}
use cleat_ports.Base.Int.{ℤ, pos, wrap64, ◌-ℤ◌}
use cleat_ports.Base.Text.{contains}
use cleat_ports.Base.Json.{Fields, Value, text, number, codes, read_object}
use cleat_ports.Base.Format.{quote, show_int, decimal, latin_1}
use cleat_ports.Host.Program.{branching}
use cleat_ports.Host.History.Requests.{requests}
use cleat_ports.Host.Chain.{follow}
use cleat_ports.Host.Run.{run, out_of_fuel}
use cleat_ports.Host.Binding.{BindsArguments, member, same_codes}
use cleat_ports.Service.State.{same_codes_refl}
use cleat_ports.Samples.ContinueAsNew.{casn_input, handle_casn_child}
use cleat_ports.Samples.ContinueAsNew.Bound.{bound_child_announces_each, bound_child_ends}
use cleat_ports.Dbos.Chain.{chain_input, handle_continue_as_new}
use cleat_ports.Dbos.Chain.Input.{chain_input-read}
use cleat_ports.Dbos.Chain.Bound.{bound_chain_announces_each}
use cleat_ports.Tests.{machine, machine_halts, fresh_machine}

abbrev Both : Ordering → Ordering → Type 0
Both Ordering.lt o = IsLt o
Both Ordering.eq _ = ⊥
Both Ordering.gt _ = ⊥

-- What a code point's three comparisons say of it.
abbrev Scalar : Ordering → Ordering → Ordering → Type 0
Scalar Ordering.lt _ _ = Unit
Scalar Ordering.eq o p = Both o p
Scalar Ordering.gt o p = Both o p

above : (o p : Ordering) → (Both o p → Char) → Char
above Ordering.lt Ordering.lt found = found tt
above _ _ found = nul

scalar_or_nul : (o p q : Ordering) → (Scalar o p q → Char) → Char
unfolding above
scalar_or_nul Ordering.lt _ _ found = found tt
scalar_or_nul Ordering.eq o p found = above o p found
scalar_or_nul Ordering.gt o p found = above o p found

above_lem : (o p : Ordering) (found : Both o p → Char) (x : Both o p) → above o p found ≡ found x
unfolding above
above_lem Ordering.lt Ordering.lt found x = refl
above_lem Ordering.lt Ordering.eq found x = absurd x
above_lem Ordering.lt Ordering.gt found x = absurd x
above_lem Ordering.eq p found x = absurd x
above_lem Ordering.gt p found x = absurd x

scalar_or_nul_lem :
    (o p q : Ordering) (found : Scalar o p q → Char) (x : Scalar o p q)
    → scalar_or_nul o p q found ≡ found x
unfolding scalar_or_nul
scalar_or_nul_lem Ordering.lt p q found x = refl
scalar_or_nul_lem Ordering.eq p q found x = above_lem p q found x
scalar_or_nul_lem Ordering.gt p q found x = above_lem p q found x

-- The character of a code point, and nul where there is none.
character : ℕ → Char
unfolding scalar_or_nul
character n = scalar_or_nul (compare n 55296) (compare 57343 n) (compare n 1114112) (λ x. char n x)

character-code : (c : Char) → character (code c) ≡ c
unfolding character
character-code (char n x) =
    scalar_or_nul_lem (compare n 55296) (compare 57343 n) (compare n 1114112) (λ y. char n y) x

text_of : List ℕ → String
unfolding character
text_of [] = ""
text_of (c ∷ cs) = S.◌∷◌ (character c) (text_of cs)

text_of-codes : (s : String) → text_of (codes s) ≡ s
unfolding text_of
text_of-codes S.[] = refl
text_of-codes (S.◌∷◌ c s) = rw (character-code c, text_of-codes s) refl

both_in : Option Value → Option Value → Option (String × ℤ)
unfolding text_of
both_in (some (text t)) (some (number n)) = some (text_of t, n)
both_in _ _ = none

arguments_of : String → Option Fields → Option (String × ℤ)
unfolding both_in
arguments_of name none = none
arguments_of name (some fs) = both_in (member (codes "key") fs) (member (codes name) fs)

-- Reads the text under "key", and the number of that name.
pub bind_arguments : String → String → Option (String × ℤ)
unfolding arguments_of read_object
bind_arguments name input = arguments_of name (read_object input)

pub binds_arguments :
    (name : String)
    → same_codes (codes "key") (codes name) ≡ false
    → BindsArguments "key" name (bind_arguments name)
unfolding bind_arguments arguments_of both_in
binds_arguments name other = record {
  reads =
      λ input key n e small. rw (e, other, same_codes_refl (codes name), text_of-codes key) refl;
}

chain_input-read_example :
    read_object (chain_input "k" (pos 3))
    ≡ some ((codes "key", text (codes "k")) ∷ (codes "remaining", number (pos 3)) ∷ [])
chain_input-read_example = chain_input-read "k" (pos 3)

-- What `%q` makes of a bell is no JSON.
bell_refused : read_object (chain_input "\u{7}" (pos 3)) ≡ none
bell_refused = chain_input-read "\u{7}" (pos 3)

bound_chain_announces_each_example :
    requests
      (follow machine handle_continue_as_new
        (bind_arguments "remaining")
        5
        "k"
        (pos 3)
        fresh_machine).trace
    ≡ ("flaky", "op", "{\"key\":\"k\",\"fail_times\":0}")
      ∷ ("flaky", "op", "{\"key\":\"k\",\"fail_times\":0}")
      ∷ ("flaky", "op", "{\"key\":\"k\",\"fail_times\":0}")
      ∷ []
unfolding handle_continue_as_new chain_input follow run branching quote show_int decimal wrap64 ◌-ℤ◌
    contains bind_arguments
bound_chain_announces_each_example =
    bound_chain_announces_each (bind_arguments "remaining") (binds_arguments "remaining" refl)
      machine machine_halts "k" 5 (pos 3) fresh_machine
      "{\"outcome\":\"finished\",\"workflowId\":\"workflow\"}" refl (omega arith) refl

bound_child_announces_each_example :
    requests
      (follow machine handle_casn_child
        (bind_arguments "iterations")
        5
        "k"
        (pos 3)
        fresh_machine).trace
    ≡ ("casn", "Iteration", "{\"key\":\"k\"}")
      ∷ ("casn", "Iteration", "{\"key\":\"k\"}")
      ∷ ("casn", "Iteration", "{\"key\":\"k\"}")
      ∷ []
unfolding handle_casn_child casn_input follow run branching quote show_int decimal wrap64 ◌-ℤ◌
    contains bind_arguments
bound_child_announces_each_example =
    bound_child_announces_each (bind_arguments "iterations") (binds_arguments "iterations" refl)
      machine machine_halts "k" refl 5 (pos 3) fresh_machine "{\"key\":\"k\",\"final\":true}"
      (omega arith) refl

bound_child_ends_example :
    (follow machine handle_casn_child
      (bind_arguments "iterations")
      3
      "k"
      (pos 3)
      fresh_machine).outcome
    ≢ out_of_fuel
bound_child_ends_example =
    bound_child_ends (bind_arguments "iterations") (binds_arguments "iterations" refl) machine
      machine_halts "k" refl (pos 3) fresh_machine (omega arith)
