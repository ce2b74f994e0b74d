-- ===== src/Service/State.antt =====
-- The module's dictionaries of scripts/fixture-service.py, as functions of the keys that they are given.
use cleat_ports.Base.{
  ℕ, suc, ◌+◌, ◌-◌, ltb, leb, String, Bool, true, false, ◌&&◌, List, [], ◌∷◌, Option, none, some,
  append, ◌≡◌, refl, if◌then◌else◌, arith,
}
use cleat_ports.Base.Int.{ℤ, pos, leb_ℤ, pos_part, neg_part}
use cleat_ports.Base.Json.{Fields, Value, text, number, flag, same}
use cleat_ports.Host.Binding.{same_codes}

-- A key of a dictionary: a text, or a number; True and False are 1 and 0.
pub data Key : Type 0 where
  named : List ℕ → Key
  numbered : ℤ → Key

abbrev pub key_of : Value → Key
key_of (text t) = named t
key_of (number n) = numbered n
key_of (flag b) = numbered (if b then pos 1 else pos 0)

unfoldable pub same_key : Key → Key → Bool
same_key (named s) (named t) = same_codes s t
same_key (numbered m) (numbered n) = leb_ℤ m n && leb_ℤ n m
same_key _ _ = false

-- `req.get(name)`: the last member of that name.
abbrev or_else : Option Value → Option Value → Option Value
or_else (some v) w = some v
or_else none w = w

abbrev pub get : List ℕ → Fields → Option Value
get k [] = none
get k (f ∷ fs) = or_else (get k fs) (if same_codes f.0 k then some f.1 else none)

-- `d[key] = v`
abbrev pub set {ℓ} : {A : Type ℓ} → Key → A → (Key → A) → Key → A
set k v d j = if same_key j k then v else d j

-- `d[key] += 1` and `d[key] -= 1`, of a defaultdict(int)
abbrev pub add_one : Key → (Key → ℕ) → Key → ℕ
add_one k d = set k (suc (d k)) d

abbrev pub take_one : Key → (Key → ℕ) → Key → ℕ
take_one k d = set k (d k - 1) d

pub record Tables : Type 0 where
  pub counts : Key → ℕ
  pub log : Key → List String
  pub inflight : Key → ℕ
  pub peak : Key → ℕ
  pub released : Key → ℕ

-- Before the first request.
abbrev pub empty_tables : Tables
empty_tables = record {
  counts = λ k. 0;
  log = λ k. [];
  inflight = λ k. 0;
  peak = λ k. 0;
  released = λ k. 0;
}

-- The count and the log, under one lock.
abbrev pub recorded : Key → String → Tables → Tables
recorded k op t = record t { counts = add_one k t.counts; log = set k (append (t.log k) op) t.log }

-- `_inflight[key] += 1`, and the peak raised to it.
abbrev pub entered : Key → Tables → Tables
entered k t =
    let now = suc (t.inflight k) in
    record t {
      inflight = add_one k t.inflight;
      peak = set k (if ltb (t.peak k) now then now else t.peak k) t.peak;
    }

-- `_inflight[key] -= 1`
abbrev pub left : Key → Tables → Tables
left k t = record t { inflight = take_one k t.inflight }

same_refl : (n : ℕ) → same n n ≡ true
same_refl n = ground arith

pub same_codes_refl : (s : List ℕ) → same_codes s s ≡ true
same_codes_refl [] = refl
same_codes_refl (c ∷ s) = rw (same_refl c) (same_codes_refl s)

leb_refl : (n : ℕ) → leb n n ≡ true
leb_refl n = ground arith

pub same_key_refl : (k : Key) → same_key k k ≡ true
unfolding same_key
same_key_refl (named s) = same_codes_refl s
same_key_refl (numbered n) = rw (leb_refl (pos_part n + neg_part n)) refl

pub set-here {ℓ} : {A : Type ℓ} → (k : Key) (v : A) (d : Key → A) → set k v d k ≡ v
set-here k v d = rw (same_key_refl k) refl
