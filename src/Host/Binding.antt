-- ===== src/Host/Binding.antt =====
-- The engine binds the arguments of a next run from the JSON text that the run continued with. The
-- binding is a parameter; what the workflows rely on is that it reads the two members of an object that
-- has just the workflow's key, a text, and its number, an int.
use cleat_ports.Base.{
  ◌≤◌, ℕ, String, Bool, true, false, List, [], ◌∷◌, Option, none, some, ◌≡◌, ◌&&◌, if◌then◌else◌,
}
use cleat_ports.Base.Int.{ℤ, pos, max_int, wrap64, wrap64-pos}
use cleat_ports.Base.Json.{Fields, Value, text, number, codes, same, read_object}

abbrev pub same_codes : List ℕ → List ℕ → Bool
same_codes [] [] = true
same_codes (a ∷ rest) (b ∷ others) = same a b && same_codes rest others
same_codes _ _ = false

-- The first member of that name.
abbrev pub member : List ℕ → Fields → Option Value
member k [] = none
member k (f ∷ fs) = if same_codes f.0 k then some f.1 else member k fs

-- `bind` hands on both members of an object of that form. Of other texts it says nothing.
pub record BindsArguments (key_name number_name : String) (bind : String → Option (String × ℤ))
    : Type 0 where
  pub reads :
      (input key : String) (n : ℤ)
      → read_object input
        ≡ some ((codes key_name, text (codes key)) ∷ (codes number_name, number n) ∷ [])
      → wrap64 n ≡ n
      → bind input ≡ some (key, n)

-- Inputs that read as the key and the number bind to them.
pub input_bound :
    (key_name number_name : String) (bind : String → Option (String × ℤ))
    (binds : BindsArguments key_name number_name bind) (key : String) (input : ℤ → String)
    → ((n : ℤ)
        → read_object (input n)
          ≡ some ((codes key_name, text (codes key)) ∷ (codes number_name, number n) ∷ []))
    → (m : ℕ) → m ≤ max_int
    → bind (input (pos m)) ≡ some (key, pos m)
input_bound key_name number_name bind binds key input written m small =
    binds.reads (input (pos m)) key (pos m) (written (pos m)) (wrap64-pos m small)
