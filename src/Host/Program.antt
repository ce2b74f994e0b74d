-- ===== src/Host/Program.antt =====
-- A workflow's body as a program: it returns, panics, or makes a call and goes on with the answer.
use cleat_ports.Base.{String, Bool, true, false, Option, none, some}
use cleat_ports.Host.Calls.{Call, Answer, Error, Result, ok, err}

-- `exhausted` is a loop of the model whose fuel has run out; no source line does this.
pub data Prog {ℓ} (A : Type ℓ) : Type ℓ where
  ret : A → Prog A
  panic : String → Prog A
  exhausted : Prog A
  call : (c : Call) → (Answer c → Prog A) → Prog A

infixl 5 ◌>>=◌ ◌>>◌
abbrev pub ◌>>=◌ {ℓ κ} : {A : Type ℓ} {B : Type κ} → Prog A → (A → Prog B) → Prog B
ret a >>= f = f a
panic text >>= f = panic text
exhausted >>= f = exhausted
call c k >>= f = call c (λ a. k a >>= f)

abbrev pub ◌>>◌ {ℓ κ} : {A : Type ℓ} {B : Type κ} → Prog A → Prog B → Prog B
m >> n = m >>= λ _. n

-- one call of the host
abbrev pub ask : (c : Call) → Prog (Answer c)
ask c = call c ret

-- An entry point of type func(h cleat.HostCalls, ...) (string, error).
abbrev pub Handler : Type 0
Handler = Prog (Result String)

-- `return text, nil` and `return "", e`
abbrev pub done : String → Handler
done text = ret (ok text)

abbrev pub fail : Error → Handler
fail e = ret (err e)

-- The branches of a body. These three are shut, so that a proof goes by their rules in Host.Logic.
infix 1 if◌then◌else◌
unfoldable pub if◌then◌else◌ {ℓ} : {A : Type ℓ} → Bool → Prog A → Prog A → Prog A
if true then p else q = p
if false then p else q = q

-- `if err != nil { return ... }`, and the rest of the body with the value.
unfoldable pub check {ℓ} : {A : Type ℓ} → Result A → (Error → Handler) → (A → Handler) → Handler
check (ok a) failed rest = rest a
check (err e) failed rest = failed e

-- The same test of an `Err` field.
unfoldable pub check_field : Option Error → (Error → Handler) → Handler → Handler
check_field none failed rest = rest
check_field (some e) failed rest = failed e

-- Names the three, for the `unfolding` line of what runs a body.
unfoldable pub branching : Unit {0}
unfolding if◌then◌else◌ check check_field
branching = tt
