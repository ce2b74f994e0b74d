-- ===== src/Host/Chain.antt =====
-- Runs that continue as new: a run that the host stops at a continue-as-new is followed by a run of the
-- same workflow, with the arguments that its input binds.
use mathlib.Core.List as L
use cleat_ports.Base.{
  ℕ, zero, suc, ◌-◌, ◌≤◌, ◌<◌, String, true, false, List, [], ◌∷◌, Option, none, some, ◌≡◌, ◌≢◌,
  refl, if◌then◌else◌, arith,
}
use cleat_ports.Base.Int.{ℤ, pos, pos_part, ltb_ℤ, ◌-ℤ◌, wrap64, max_int}
use cleat_ports.Host.Calls.{Call, Answer, Result, ok, durable_call, continue_as_new}
use cleat_ports.Host.Program.{Prog, Handler, ret, panic, exhausted, call}
use cleat_ports.Host.Run.{
  Host, Reaction, resume, stop, Outcome, returned, out_of_fuel, stopped_at, Event, Run, absorb, run,
}
use cleat_ports.Host.Logic.{Ensures, run-Ensures}
use cleat_ports.Host.History.{continuations}
use cleat_ports.Host.History.Requests.{requested, requests}

-- The input that a run asked to continue with.
abbrev pub continued_at : Call → Option String
continued_at (continue_as_new input) = some input
continued_at _ = none

abbrev pub continued : Outcome (Result String) → Option String
continued (stopped_at c) = continued_at c
continued _ = none

module _ (h : Host) (body : String → ℤ → Handler) (bind : String → Option (String × ℤ)) where
  -- The link that follows, if there is one; `rest` is the chain from its arguments.
  abbrev pub and_then :
      Run h.State (Result String)
      → Option (String × ℤ)
      → (String × ℤ → Run h.State (Result String))
      → Run h.State (Result String)
  and_then r none rest = r
  and_then r (some m) rest = record (rest m) { trace = L.◌++◌ r.trace (rest m).trace }

  abbrev pub bound : Option String → Option (String × ℤ)
  bound none = none
  bound (some input) = bind input

  -- A chain of at most `fuel` links.
  unfoldable pub follow : ℕ → String → ℤ → h.State → Run h.State (Result String)
  follow zero key n s = record { outcome = out_of_fuel; trace = []; final = s }
  follow (suc fuel) key n s =
      let r = run h (body key n) s in
      and_then r (bound (continued r.outcome)) (λ m. follow fuel m.0 m.1 r.final)

-- How many runs a chain with the argument `n` has.
abbrev pub links : ℤ → ℕ
links n = if ltb_ℤ (pos 1) n then pos_part n else 1

abbrev pub repeated {ℓ} : {A : Type ℓ} → ℕ → A → List A
repeated zero a = []
repeated (suc n) a = a ∷ repeated n a

requested-append :
    (c : Call) (xs ys : List (String × String × String))
    → requested c (L.◌++◌ xs ys) ≡ L.◌++◌ (requested c xs) ys
requested-append (durable_call service op request) xs ys = refl
requested-append _ xs ys = refl

requests-append :
    (xs ys : List Event) → requests (L.◌++◌ xs ys) ≡ L.◌++◌ (requests xs) (requests ys)
requests-append [] ys = refl
requests-append (x ∷ xs) ys =
    rw (requests-append xs ys, requested-append x.request (requests xs) (requests ys)) refl

-- The host never goes on from a continue-as-new.
abbrev pub HaltsAtContinue : Host → Type 0
HaltsAtContinue h =
    (s : h.State) (input : String) (a : Result (Unit {0})) (s' : h.State)
    → h.react s (continue_as_new input) ≢ resume a s'

module _ (h : Host) (halts : HaltsAtContinue h) {A : Type 0} where
  absorb-continuations :
      (c : Call) (s : h.State) (r : Reaction (Answer c) h.State)
      (rest : Answer c → h.State → Run h.State A)
      → h.react s c ≡ r
      → ((a : Answer c) (s' : h.State) → continuations (rest a s').trace ≡ [])
      → continuations (absorb c r rest).trace ≡ []
  absorb-continuations c s (stop s') rest e ih = refl
  absorb-continuations (continue_as_new input) s (resume a s') rest e ih =
      absurd (halts s input a s' e)
  absorb-continuations _ s (resume a s') rest e ih = ih a s'

  pub no_continuations : (p : Prog A) (s : h.State) → continuations (run h p s).trace ≡ []
  unfolding run
  no_continuations (ret a) s = refl
  no_continuations (panic text) s = refl
  no_continuations exhausted s = refl
  no_continuations (call c k) s =
      absorb-continuations c s (h.react s c) _ refl (λ a s'. no_continuations (k a) s')

-- Of one link, in a run whose continue-as-new was not answered: its one durable call is `asked`, it
-- returns a result only at the last link, and continues with one less only before that.
unfoldable pub Links :
    String × String × String → (ℤ → String) → ℤ → List Event → Outcome (Result String) → Type 0
Links asked input n tr o =
    continuations tr ≡ []
    → ((text : String)
        → o ≡ returned (ok text)
        → (requests tr ≡ asked ∷ []) × (ltb_ℤ (pos 1) n ≡ false))
      × ((text : String)
          → continued o ≡ some text
          → (requests tr ≡ asked ∷ [])
            × (ltb_ℤ (pos 1) n ≡ true)
            × (text ≡ input (wrap64 (n -ℤ pos 1))))

-- The argument of the next link.
pub one_less :
    (n : ℤ)
    → ltb_ℤ (pos 1) n ≡ true
    → pos_part n ≤ max_int
    → wrap64 (n -ℤ pos 1) ≡ pos (pos_part n - 1)
unfolding wrap64 ◌-ℤ◌
one_less n more small = ground arith

pub links-one_less : (n : ℤ) → ltb_ℤ (pos 1) n ≡ true → links n ≡ suc (links (pos (pos_part n - 1)))
links-one_less n more = ground arith

module _ (h : Host) (body : String → ℤ → Handler) (bind : String → Option (String × ℤ))
    (key : String) (asked : String × String × String) (input : ℤ → String) (n : ℤ)
    (binds : (m : ℕ) → m < pos_part n → bind (input (pos m)) ≡ some (key, pos m))
    (small : pos_part n ≤ max_int) (text : String) (r : Run h.State (Result String))
    (rest : String × ℤ → Run h.State (Result String)) where
  -- One link and what follows it.
  and_then-requests :
      (c : Option String)
      → continued r.outcome ≡ c
      → continuations r.trace ≡ []
      → Links asked input n r.trace r.outcome
      → ((m : ℤ)
          → pos_part m ≤ pos_part n
          → (rest (key, m)).outcome ≡ returned (ok text)
          → requests (rest (key, m)).trace ≡ repeated (links m) asked)
      → (and_then h body bind r (bound h body bind c) rest).outcome ≡ returned (ok text)
      → requests (and_then h body bind r (bound h body bind c) rest).trace
        ≡ repeated (links n) asked
  unfolding Links
  and_then-requests none at quiet link ih e =
      let (called, last) = (link quiet).0 text e in ground (arith, called, last)
  and_then-requests (some i) at quiet link ih e =
      let (called, more, continued_with) = (link quiet).1 i at in
      let next : bind i ≡ some (key, pos (pos_part n - 1)) =
        rw (continued_with, one_less n more small) (binds (pos_part n - 1) (ground arith)) in
      let later = ih (pos (pos_part n - 1)) (omega arith) (rw (next) at e) in
      rw (next, requests-append r.trace, called, later, links-one_less n more) refl

  and_then-ends :
      (fuel : ℕ) (c : Option String)
      → continued r.outcome ≡ c
      → continuations r.trace ≡ []
      → Links asked input n r.trace r.outcome
      → r.outcome ≢ out_of_fuel
      → ((m : ℤ) → pos_part m ≤ pos_part n → links m ≤ fuel → (rest (key, m)).outcome ≢ out_of_fuel)
      → links n ≤ suc fuel
      → (and_then h body bind r (bound h body bind c) rest).outcome ≢ out_of_fuel
  unfolding Links
  and_then-ends fuel none at quiet link ends ih fits = ends
  and_then-ends fuel (some i) at quiet link ends ih fits =
      let (called, more, continued_with) = (link quiet).1 i at in
      let next : bind i ≡ some (key, pos (pos_part n - 1)) =
        rw (continued_with, one_less n more small) (binds (pos_part n - 1) (ground arith)) in
      rw (next) (ih (pos (pos_part n - 1)) (omega arith) (omega (arith, links-one_less n more)))

module _ (h : Host) (halts : HaltsAtContinue h) (body : String → ℤ → Handler)
    (bind : String → Option (String × ℤ)) (key : String) (asked : String × String × String)
    (input : ℤ → String) (linked : (n : ℤ) → Ensures (Links asked input n) (body key n)) where
  -- A chain that comes to a result has made the one call at each of its links.
  pub follow-requests :
      (fuel : ℕ) (n : ℤ) (s : h.State) (text : String)
      → ((m : ℕ) → m < pos_part n → bind (input (pos m)) ≡ some (key, pos m))
      → pos_part n ≤ max_int
      → (follow h body bind fuel key n s).outcome ≡ returned (ok text)
      → requests (follow h body bind fuel key n s).trace ≡ repeated (links n) asked
  unfolding follow
  follow-requests zero n s text binds small e = cc
  follow-requests (suc fuel) n s text binds small e =
      and_then-requests h body bind key asked input n binds small text (run h (body key n) s)
        (λ m. follow h body bind fuel m.0 m.1 (run h (body key n) s).final)
        (continued (run h (body key n) s).outcome) refl (no_continuations h halts (body key n) s)
        (run-Ensures h s (linked n))
        (λ m fits e'.
          follow-requests fuel m (run h (body key n) s).final text
            (λ k below. binds k (omega arith)) (omega arith) e')
        e

  -- A chain ends within its links.
  pub follow_ends :
      ((n : ℤ) → Ensures (λ tr o. o ≢ out_of_fuel) (body key n))
      → (fuel : ℕ) (n : ℤ) (s : h.State)
      → ((m : ℕ) → m < pos_part n → bind (input (pos m)) ≡ some (key, pos m))
      → pos_part n ≤ max_int
      → links n ≤ fuel
      → (follow h body bind fuel key n s).outcome ≢ out_of_fuel
  unfolding follow
  follow_ends ends zero n s binds small fits = absurd (ground arith)
  follow_ends ends (suc fuel) n s binds small fits =
      and_then-ends h body bind key asked input n binds small "" (run h (body key n) s)
        (λ m. follow h body bind fuel m.0 m.1 (run h (body key n) s).final) fuel
        (continued (run h (body key n) s).outcome) refl (no_continuations h halts (body key n) s)
        (run-Ensures h s (linked n)) (run-Ensures h s (ends n))
        (λ m small' fits'.
          follow_ends ends fuel m (run h (body key n) s).final (λ k below. binds k (omega arith))
            (omega arith) fits')
        fits
