-- ===== src/Base/Format/Escapes.antt =====
-- Which of the characters that `%q` writes are JSON.
use Prim.Native.Char.{Char, char, code}
use Prim.Native.Nat.{ℕ, zero, suc, ◌+◌, ◌-◌, ◌*◌, ◌/◌, ◌%◌, ◌≤◌, ◌<◌}
use Prim.Native.String.{String, ◌++◌}
use mathlib.Core.Path.{◌≡◌, refl, ap, subst, ◌∙◌}
use mathlib.Core.Logic.{inl, inr, ◌≢◌}
use mathlib.Core.Bool.{Bool, true, false, not, ◌&&◌, ◌||◌}
use mathlib.Core.Option.{Option, none, some}
use mathlib.Core.List.{List, [], ◌∷◌}
use mathlib.Core.List as L
use native.Mathlib.Omega.{arith}
use package.text.Mathlib.TextEquality.{Char-path}
use package.text.Mathlib.TextLemmas.{nil-append, cons-append}
use cleat_ports.Base.Tests.{ltb, leb, if◌then◌else◌, Bool-cases}
use cleat_ports.Base.Lists.{append}
use cleat_ports.Base.Format.{Unicode, printable, quote_code, hex, digit_char}
use cleat_ports.Base.Json.{
  hex_value, surrogate, digit_read, digits_left, codes, same, Fields, Place, Reader, in_string,
  plain, text, step, feed,
}

pub codes-append : (s t : String) → codes (s ++ t) ≡ L.◌++◌ (codes s) (codes t)
codes-append String.[] t = ap codes (nil-append t)
codes-append (String.◌∷◌ c s) t =
    ap codes (cons-append c s t) ∙ ap (λ cs. code c ∷ cs) (codes-append s t)

pub feed-append : (r : Option Reader) (xs ys : List ℕ) → feed r (L.◌++◌ xs ys) ≡ feed (feed r xs) ys
unfolding feed
feed-append r [] ys = refl
feed-append none (x ∷ xs) [] = refl
feed-append none (x ∷ xs) (y ∷ ys) = refl
feed-append (some r) (x ∷ xs) ys = feed-append (step r x) xs ys

pub feed-none : (cs : List ℕ) → feed none cs ≡ none
unfolding feed
feed-none [] = refl
feed-none (c ∷ cs) = refl

pub scalar-surrogate : (c : Char) → surrogate (code c) ≡ false
scalar-surrogate (char n p) = ground arith

-- A table for the sixteen digits, checked by evaluation.
all_below : ℕ → (ℕ → Bool) → Bool
all_below zero p = true
all_below (suc n) p = p n && all_below n p

all_below_sound : (n : ℕ) (p : ℕ → Bool) (d : ℕ) → all_below n p ≡ true → d < n → p d ≡ true
unfolding all_below
all_below_sound zero p d h lt = absurd (omega arith)
all_below_sound (suc n) p d h lt = ground (arith, all_below_sound n p d)

stands_for : Option ℕ → ℕ → Bool
stands_for none d = false
stands_for (some v) d = same v d

stands_for_sound : (v : Option ℕ) (d : ℕ) → stands_for v d ≡ true → v ≡ some d
unfolding stands_for
stands_for_sound none d h = cc
stands_for_sound (some v) d h = ground arith

digits_table : all_below 16 (λ d. stands_for (hex_value (code (digit_char d))) d) ≡ true
unfolding all_below stands_for
digits_table = refl

hex_value-digit_char : (d : ℕ) → d < 16 → hex_value (code (digit_char d)) ≡ some d
hex_value-digit_char d h = stands_for_sound _ d (all_below_sound 16 _ d digits_table h)

same-eq : (a b : ℕ) → same a b ≡ true → a ≡ b
same-eq a b h = ground arith

decimal_table : all_below 10 (λ d. same (code (digit_char d)) (d + 48)) ≡ true
unfolding all_below
decimal_table = refl

pub code-digit_char : (d : ℕ) → d < 10 → code (digit_char d) ≡ d + 48
code-digit_char d h =
    same-eq _ _ (all_below_sound 10 (λ d. same (code (digit_char d)) (d + 48)) d decimal_table h)

module _ (fs : Fields) (p : Place) (out : List ℕ) where
  one_digit :
      (left n d : ℕ) (cs : List ℕ)
      → d < 16
      → feed (some (in_string fs p out (digits_left left n))) (code (digit_char d) ∷ cs)
        ≡ feed (digit_read fs p out left n (some d)) cs
  unfolding feed step
  one_digit left n d cs h = rw (hex_value-digit_char d h) refl

  four_digits :
      (r : ℕ)
      → r < 0x10000
      → surrogate r ≡ false
      → feed (some (in_string fs p out (digits_left 4 0))) (codes (hex 4 r ""))
        ≡ some (in_string fs p (append out r) plain)
  unfolding feed hex
  four_digits r small scalar =
      let d3 = r / 16 / 16 / 16 % 16 in
      let d2 = r / 16 / 16 % 16 in
      let d1 = r / 16 % 16 in
      let d0 = r % 16 in
      let c2 = code (digit_char d2) in
      let c1 = code (digit_char d1) in
      let c0 = code (digit_char d0) in
      let whole : (((0 * 16 + d3) * 16 + d2) * 16 + d1) * 16 + d0 ≡ r = omega arith in
      one_digit 4 0 d3 (c2 ∷ c1 ∷ c0 ∷ []) (omega arith)
      ∙ one_digit 3 (0 * 16 + d3) d2 (c1 ∷ c0 ∷ []) (omega arith)
      ∙ one_digit 2 ((0 * 16 + d3) * 16 + d2) d1 (c0 ∷ []) (omega arith)
      ∙ one_digit 1 (((0 * 16 + d3) * 16 + d2) * 16 + d1) d0 [] (omega arith)
      ∙ rw (whole, scalar) refl

  -- No escape is written `\x` or `\U`.
  refuses_x : (cs : List ℕ) → feed (some (in_string fs p out plain)) (92 ∷ 120 ∷ cs) ≡ none
  unfolding feed step
  refuses_x cs = feed-none cs

  refuses_U : (cs : List ℕ) → feed (some (in_string fs p out plain)) (92 ∷ 85 ∷ cs) ≡ none
  unfolding feed step
  refuses_U cs = feed-none cs

  reads_u :
      (cs : List ℕ)
      → feed (some (in_string fs p out plain)) (92 ∷ 117 ∷ cs)
        ≡ feed (some (in_string fs p out (digits_left 4 0))) cs
  unfolding feed step
  reads_u cs = refl

module _ ⦃u : Unicode⦄ where
  -- The characters that `%q` writes as JSON does: of the control characters those with an escape of
  -- one letter that JSON knows, and of the others all but DEL and the unprintable ones from U+10000 on.
  abbrev pub is_json : ℕ → Bool
  is_json r =
      if ltb r 32
      then same r 8 || same r 9 || same r 10 || same r 12 || same r 13
      else not (same r 127) && (ltb r 0x10000 || printable r)

  abbrev pub json_safe : String → Bool
  json_safe String.[] = true
  json_safe (String.◌∷◌ c s) = is_json (code c) && json_safe s

  printable_range : (r : ℕ) → printable r ≡ true → (32 ≤ r) × (r ≢ 127)
  unfolding printable
  printable_range r p = ground arith

  module _ (fs : Fields) (p : Place) (out : List ℕ) where
    abbrev pub Reads : ℕ → List ℕ → Type 0
    Reads r cs =
        feed (some (in_string fs p out plain)) cs
        ≡ (if is_json r then some (in_string fs p (append out r) plain) else none)

    letter_escape :
        (k : ℕ) (alone : String) → k < 7 → Reads (k + 7) (codes (quote_code (k + 7) alone))
    unfolding quote_code feed step printable
    letter_escape zero alone h = refl
    letter_escape (suc zero) alone h = refl
    letter_escape (suc (suc zero)) alone h = refl
    letter_escape (suc (suc (suc zero))) alone h = refl
    letter_escape (suc (suc (suc (suc zero)))) alone h = refl
    letter_escape (suc (suc (suc (suc (suc zero))))) alone h = refl
    letter_escape (suc (suc (suc (suc (suc (suc zero)))))) alone h = refl
    letter_escape (suc (suc (suc (suc (suc (suc (suc k))))))) alone h = absurd (omega arith)

    pub quote_code-Reads :
        (r : ℕ) (alone : String)
        → codes alone ≡ r ∷ []
        → surrogate r ≡ false
        → Reads r (codes (quote_code r alone))
    unfolding quote_code feed step
    quote_code-Reads r alone is_alone scalar = elim (Bool-cases (leb 34 r && leb r 34)) [
      | inl e ↦ let at : r ≡ 34 = ground arith in rw (at) refl
      | inr a ↦ elim (Bool-cases (leb 92 r && leb r 92)) [
        | inl e ↦ let at : r ≡ 92 = ground arith in rw (at) refl
        | inr b ↦ elim (Bool-cases (printable r)) [
          | inl e ↦ rw (a, b, e, is_alone) (ground (arith, printable_range r e))
          | inr c ↦ elim (Bool-cases (leb 7 r && leb r 13)) [
            | inl e ↦
                let back : r - 7 + 7 ≡ r = ground arith in
                subst (λ n. Reads n (codes (quote_code n alone))) back
                  (letter_escape (r - 7) alone (ground arith))
            | inr d ↦ elim (Bool-cases (ltb r 32 || (leb 127 r && leb r 127))) [
              | inl e ↦
                  rw (a, b, c, d, e, codes-append "\\x" (hex 2 r ""))
                    (refuses_x fs p out (codes (hex 2 r "")) ∙ ground arith)
              | inr e ↦ elim (Bool-cases (ltb r 0x10000)) [
                | inl f ↦
                    rw (a, b, c, d, e, f, codes-append "\\u" (hex 4 r ""))
                      (reads_u fs p out (codes (hex 4 r ""))
                        ∙ four_digits fs p out r (ground arith) scalar
                        ∙ ground arith)
                | inr f ↦
                    rw (a, b, c, d, e, f, codes-append "\\U" (hex 8 r ""))
                      (refuses_U fs p out (codes (hex 8 r "")) ∙ ground arith)
              ]
            ]
          ]
        ]
      ]
    ]

pub codes-injective : (s t : String) → codes s ≡ codes t → s ≡ t
codes-injective String.[] String.[] e = refl
codes-injective String.[] (String.◌∷◌ d t) e = cc
codes-injective (String.◌∷◌ c s) String.[] e = cc
codes-injective (String.◌∷◌ c s) (String.◌∷◌ d t) e =
    let first : code c ≡ code d = cc in
    let rest : codes s ≡ codes t = cc in rw (Char-path c d first, codes-injective s t rest) refl
