-- ===== src/Host/History/Fresh.antt =====
-- Counting the distinct names of a list.
use cleat_ports.Base.{
  suc, ◌≤◌, String, true, false, List, [], ◌∷◌, append, length, ◌≡◌, refl, ◌==◌, ◌||◌, arith,
  eq_iff,
}
use cleat_ports.Base.Text.{contains}
use cleat_ports.Host.History.{fresh}

pub contains-append :
    (s : List String) (n x : String) → contains (append s n) x ≡ (contains s x || n == x)
unfolding contains append
contains-append [] n x = ground arith
contains-append (y ∷ s) n x = ground (arith, contains-append s n x)

fresh-ext :
    (s t : List String) (l : List String)
    → ((x : String) → contains s x ≡ contains t x)
    → fresh s l ≡ fresh t l
fresh-ext s t [] h = refl
fresh-ext s t (n ∷ l) h = ground (
  arith,
  h n,
  fresh-ext s t l h,
  fresh-ext (append s n) (append t n) l
      (λ x. ground (arith, h x, contains-append s n x, contains-append t n x)),
)

-- Moving a name of `l` into `seen` takes one fresh name away.
fresh-append :
    (seen : List String) (n : String) (l : List String)
    → contains l n ≡ true
    → contains seen n ≡ false
    → length (fresh seen l) ≡ suc (length (fresh (append seen n) l))
unfolding contains
fresh-append seen n [] has lacks = cc
fresh-append seen n (w ∷ l) has lacks = ground (
  arith,
  contains-append seen n w,
  contains-append seen w n,
  eq_iff w n,
  eq_iff n w,
  fresh-append seen n l,
  fresh-append (append seen w) n l,
  fresh-ext (append (append seen w) n) (append (append seen n) w) l (λ x. ground (
    arith,
    contains-append (append seen w) n x,
    contains-append seen w x,
    contains-append (append seen n) w x,
    contains-append seen n x,
  )),
)

-- Every name of `names` is one of `wanted`.
abbrev pub AllIn : List String → List String → Type 0
AllIn wanted [] = Unit
AllIn wanted (n ∷ names) = (contains wanted n ≡ true) × AllIn wanted names

pub length-fresh-le :
    (wanted seen names : List String)
    → AllIn wanted names
    → length (fresh seen names) ≤ length (fresh seen wanted)
length-fresh-le wanted seen [] h = omega arith
length-fresh-le wanted seen (n ∷ names) h = ground (
  arith,
  fresh-append seen n wanted h.0,
  length-fresh-le wanted seen names h.1,
  length-fresh-le wanted (append seen n) names h.1,
)
