-- ===== src/Base/Format/Json.antt =====
-- The texts that `%q` and `%d` write, as values of JSON.
use Prim.Native.Char.{code}
use Prim.Native.Nat.{ℕ, zero, suc, ◌+◌, ◌-◌, ◌*◌, ◌/◌, ◌%◌, ◌<◌}
use Prim.Native.String.{String}
use mathlib.Core.Path.{◌≡◌, refl, ◌∙◌}
use mathlib.Core.Logic.{inl, inr}
use mathlib.Core.Bool.{Bool, true, false}
use mathlib.Core.Option.{none, some}
use mathlib.Core.List.{List, [], ◌∷◌, append-nil, append_assoc}
use mathlib.Core.List as L
use native.Mathlib.Omega.{arith}
use cleat_ports.Base.Tests.{ltb, if◌then◌else◌, Bool-cases}
use cleat_ports.Base.Lists.{append, append-append}
use cleat_ports.Base.Int.{ℤ, pos, negsuc}
use cleat_ports.Base.Format.{
  Unicode, quote_char, quote_code, quote_from, quote, digit_char, digits, decimal, show_int,
  show_bool,
}
use cleat_ports.Base.Format.Escapes.{
  code-digit_char, is_json, json_safe, quote_code-Reads, codes-append, feed-append, feed-none,
  scalar-surrogate,
}
use cleat_ports.Base.Json.{
  signed, is_digit, codes, same, Fields, Place, Reader, in_string, plain, value_of, text, flag,
  after_value, at_value, at_minus, in_number, finish_string, step, feed,
}

module _ ⦃u : Unicode⦄ where
  quote_from-read :
      (fs : Fields) (p : Place) (s : String) (out : List ℕ)
      → feed (some (in_string fs p out plain)) (codes (quote_from s))
        ≡ (if json_safe s then some (finish_string fs p (L.◌++◌ out (codes s))) else none)
  unfolding quote_from quote_char
  quote_from-read fs p String.[] out = unfold feed step in rw (append-nil out) refl
  quote_from-read fs p (String.◌∷◌ c s) out =
      rw
        (
          codes-append (quote_code (code c) (String.◌∷◌ c "")) (quote_from s),
          feed-append (some (in_string fs p out plain))
              (codes (quote_code (code c) (String.◌∷◌ c ""))) (codes (quote_from s)),
          quote_code-Reads fs p out (code c) (String.◌∷◌ c "") refl (scalar-surrogate c),
        )
        (elim (Bool-cases (is_json (code c))) [
          | inl e ↦
              rw
                (
                  e,
                  quote_from-read fs p s (append out (code c)),
                  append-append out (codes s) (code c),
                )
                refl
          | inr e ↦ rw (e, feed-none) refl
        ])

  -- `%q` writes a JSON string that stands for the text, if all of its characters allow it, and else
  -- no JSON string.
  pub quote-read :
      (fs : Fields) (k : List ℕ) (s : String)
      → feed (some (at_value fs k)) (codes (quote s))
        ≡ (if json_safe s then some (after_value (append fs (k, text (codes s)))) else none)
  unfolding quote
  quote-read fs k s =
      rw (codes-append "\"" (quote_from s))
        (unfold feed step in quote_from-read fs (value_of k) s [])

-- A number's sign and its size.
abbrev pub negative : ℤ → Bool
negative (pos n) = false
negative (negsuc n) = true

abbrev pub size : ℤ → ℕ
size (pos n) = n
size (negsuc n) = suc n

module _ (fs : Fields) (k : List ℕ) where
  next_digit :
      (minus : Bool) (n : ℕ) (cs : List ℕ)
      → ltb n 10 ≡ false
      → feed (some (in_number fs k minus (n / 10))) ((n % 10 + 48) ∷ cs)
        ≡ feed (some (in_number fs k minus n)) cs
  unfolding feed step
  next_digit minus n cs e =
      let whole : n / 10 * 10 + (n % 10 + 48 - 48) ≡ n = omega arith in
      let digit : is_digit (n % 10 + 48) ≡ true = ground arith in
      let left : same (n / 10) 0 ≡ false = ground arith in rw (digit, left, whole) refl

  digits-read :
      (minus : Bool) (r : Reader)
      → ((d : ℕ) → 0 < d → d < 10 → step r (d + 48) ≡ some (in_number fs k minus d))
      → (fuel n : ℕ) (out : String) → 0 < n
      → n < fuel
      → feed (some r) (codes (digits fuel 10 n out))
        ≡ feed (some (in_number fs k minus n)) (codes out)
  unfolding digits feed
  digits-read minus r first zero n out some_left fits = absurd (omega arith)
  digits-read minus r first (suc fuel) n out some_left fits = elim (Bool-cases (ltb n 10)) [
    | inl e ↦ rw (e, code-digit_char n (ground arith), first n some_left (ground arith)) refl
    | inr e ↦
        let rest =
          digits-read minus r first fuel (n / 10) (String.◌∷◌ (digit_char (n % 10)) out)
            (ground arith) (omega arith) in
        rw (e)
          (rest ∙ rw (code-digit_char (n % 10) (omega arith)) (next_digit minus n (codes out) e))
  ]

  -- `%d` of a number that is not negative, in front of what follows.
  decimal-read :
      (minus : Bool) (r : Reader)
      → ((d : ℕ) → d < 10 → step r (d + 48) ≡ some (in_number fs k minus d))
      → (n : ℕ) → feed (some r) (codes (decimal n)) ≡ some (in_number fs k minus n)
  unfolding decimal feed
  decimal-read minus r first zero = first 0 (omega arith)
  decimal-read minus r first (suc n) =
      digits-read minus r (λ d some_left. first d) (suc (suc n)) (suc n) "" (omega arith)
        (omega arith)

  -- `%d` writes the number, of a count too.
  pub count-read :
      (n : ℕ) → feed (some (at_value fs k)) (codes (decimal n)) ≡ some (in_number fs k false n)
  count-read = decimal-read false (at_value fs k) (λ d h. unfold step in ground arith)

  pub show_int-read :
      (n : ℤ)
      → feed (some (at_value fs k)) (codes (show_int n))
        ≡ some (in_number fs k (negative n) (size n))
  unfolding show_int
  show_int-read (pos n) = count-read n
  show_int-read (negsuc n) = rw (codes-append "-" (decimal (suc n))) (
      unfold feed step in
      decimal-read true (at_minus fs k) (λ d h. unfold step in ground arith) (suc n))

  -- `%t` writes the truth value.
  pub show_bool-read :
      (b : Bool)
      → feed (some (at_value fs k)) (codes (show_bool b))
        ≡ some (after_value (append fs (k, flag b)))
  unfolding show_bool feed step
  show_bool-read true = refl
  show_bool-read false = refl

pub signed-size : (n : ℤ) → signed (negative n) (size n) ≡ n
signed-size (pos n) = refl
signed-size (negsuc n) = refl

-- What reads the texts that the workflows write, member by member.
pub ruleset json =
    (codes-append, feed-append, feed-none, count-read, show_int-read, show_bool-read, signed-size)
