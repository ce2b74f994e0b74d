-- ===== src/Service/Threads/Occupancy.antt =====
-- What the fixture's counters say of its threads: how many are between their entry and their leaving.
use cleat_ports.Base.{
  ℕ, ◌+◌, ◌≤◌, ltb, String, Bool, true, false, List, [], ◌∷◌, ◌≡◌, refl, ◌⊎◌, inl, inr,
  if◌then◌else◌, Bool-cases, arith, sym, ap, Option, none, some,
}
use cleat_ports.Base.Int.{ℤ, pos, negsuc, leb_ℤ}
use cleat_ports.Base.Json.{Fields, Value, same, codes}
use cleat_ports.Host.Binding.{same_codes}
use cleat_ports.Service.{
  Python, Arrival, replied, held, do_call, parsed_call, keyed_call, counted_call, truthy,
  operation_of, body_of,
}
use cleat_ports.Service.State.{
  Tables, Key, get, named, numbered, same_key, key_of, entered, left, recorded,
}
use cleat_ports.Service.Threads.{
  Thread, waiting, leaving, Acts, records, reads_epoch, enters, wakes, times_out, leaves, asks,
  releases, Turn, this, other, new_call, new_release, phase_of, released_under,
}

same-true : (m n : ℕ) → same m n ≡ true → m ≡ n
same-true m n e = ground arith

pub same_codes-true : (s t : List ℕ) → same_codes s t ≡ true → s ≡ t
same_codes-true [] [] e = refl
same_codes-true [] (d ∷ t) e = cc
same_codes-true (c ∷ s) [] e = cc
same_codes-true (c ∷ s) (d ∷ t) e = elim (Bool-cases (same c d)) [
  | inl f ↦ rw (same-true c d f, same_codes-true s t ((rw (f) at e))) refl
  | inr f ↦ let never = (rw (f) at e) in absurd (cc)
]

same_int : (m n : ℤ) → leb_ℤ m n ≡ true → leb_ℤ n m ≡ true → m ≡ n
same_int (pos m) (pos n) e f = ap pos (ground arith)
same_int (pos m) (negsuc n) e f = absurd (ground arith)
same_int (negsuc m) (pos n) e f = absurd (ground arith)
same_int (negsuc m) (negsuc n) e f = ap negsuc (ground arith)

pub same_key-true : (j k : Key) → same_key j k ≡ true → j ≡ k
unfolding same_key
same_key-true (named s) (named t) e = ap named (same_codes-true s t e)
same_key-true (named s) (numbered n) e = cc
same_key-true (numbered m) (named t) e = cc
same_key-true (numbered m) (numbered n) e = elim (Bool-cases (leb_ℤ m n)) [
  | inl f ↦ ap numbered (same_int m n f (rw (f) at e))
  | inr f ↦ let never = (rw (f) at e) in absurd (cc)
]

abbrev pub one_if : Bool → ℕ
one_if true = 1
one_if false = 0

-- Whether a thread is in flight under the key.
abbrev pub holds : Key → Thread → ℕ
holds j (waiting k seen p) = one_if (same_key j k)
holds j (leaving k p) = one_if (same_key j k)
holds j _ = 0

abbrev pub holders : Key → List Thread → ℕ
holders j [] = 0
holders j (th ∷ ths) = holds j th + holders j ths

module _ (py : Python) where
  abbrev Recorded : Tables → Tables → Type 0
  Recorded t t' = (t' ≡ t) ⊎ ((k : Key) × (op : String) × (t' ≡ recorded k op t))

  counted_call-Recorded :
      (req : Fields) (op : String) (key : Value) (n : Option ℤ) (t : Tables)
      → Recorded t (counted_call py req op key n t).1
  counted_call-Recorded req op key none t = inl refl
  counted_call-Recorded req op key (some n) t = inr (key_of key, op, refl)

  keyed_call-Recorded :
      (req : Fields) (op : String) (v : Option Value) (t : Tables)
      → Recorded t (keyed_call py req op v t).1
  keyed_call-Recorded req op none t = inl refl
  keyed_call-Recorded req op (some key) t = elim (Bool-cases (truthy (some key))) [
    | inl e ↦ rw (e) (counted_call-Recorded req op key _ t)
    | inr e ↦ rw (e) (inl refl)
  ]

  parsed_call-Recorded :
      (op : String) (req : Option Fields) (t : Tables) → Recorded t (parsed_call py op req t).1
  parsed_call-Recorded op none t = inl refl
  parsed_call-Recorded op (some req) t = keyed_call-Recorded req op (get (codes "key") req) t

  -- A call that is read changes the counts and the log of one key at most, and nothing else.
  pub do_call-Recorded : (path raw : String) (t : Tables) → Recorded t (do_call py path raw t).1
  unfolding do_call
  do_call-Recorded path raw t = parsed_call-Recorded (operation_of path) (py.loads (body_of raw)) t

  phase_of-holds : (j : Key) (arrival : Arrival) → holds j (phase_of arrival) ≡ 0
  phase_of-holds j (replied r) = refl
  phase_of-holds j (held k p) = refl

  -- What a step changes of one key: the peak goes up with the number in flight.
  abbrev Counts : Key → Tables → Tables → ℕ → ℕ → Type 0
  Counts j t t' before after =
      (after + t.inflight j ≡ before + t'.inflight j)
      × (t'.peak j ≡ (if ltb (t.peak j) (t'.inflight j) then t'.inflight j else t.peak j))

  same-Counts :
      (j : Key) (t t' : Tables) (n : ℕ)
      → t'.inflight j ≡ t.inflight j
      → t'.peak j ≡ t.peak j
      → t.inflight j ≤ t.peak j
      → Counts j t t' n n
  same-Counts j t t' n e f below = rw (e, f) (refl, ground arith)

  enters-Counts :
      (j k : Key) (t : Tables)
      → t.inflight j ≤ t.peak j
      → Counts j t (entered k t) 0 (one_if (same_key j k))
  enters-Counts j k t below = elim (Bool-cases (same_key j k)) [
    | inl e ↦ let there = same_key-true j k e in rw (e, sym there) (omega arith, refl)
    | inr e ↦ rw (e) (refl, ground arith)
  ]

  leaves-Counts :
      (j k : Key) (t : Tables)
      → t.inflight j ≤ t.peak j
      → one_if (same_key j k) ≤ t.inflight j
      → Counts j t (left k t) (one_if (same_key j k)) 0
  leaves-Counts j k t below here = elim (Bool-cases (same_key j k)) [
    | inl e ↦
        let there = same_key-true j k e in
        let some_left : 1 ≤ t.inflight j = (rw (e) at here) in
        rw (e, sym there) (omega arith, ground arith)
    | inr e ↦ rw (e) (refl, ground arith)
  ]

  Acts-Counts :
      (j : Key) (t t' : Tables) (th th' : Thread)
      → t.inflight j ≤ t.peak j
      → holds j th ≤ t.inflight j
      → Acts py t th t' th'
      → Counts j t t' (holds j th) (holds j th')
  Acts-Counts j t t' th th' below here (records path raw) =
      rw (phase_of-holds j (do_call py path raw t).0) (elim (do_call-Recorded path raw t) [
        | inl same ↦ rw (same) (same-Counts j t t 0 refl refl below)
        | inr (k, op, e) ↦ rw (e) (same-Counts j t (recorded k op t) 0 refl refl below)
      ])
  Acts-Counts j t t' th th' below here (reads_epoch k p) = same-Counts j t t 0 refl refl below
  Acts-Counts j t t' th th' below here (enters k seen p) = enters-Counts j k t below
  Acts-Counts j t t' th th' below here (wakes k seen p newer) =
      same-Counts j t t (one_if (same_key j k)) refl refl below
  Acts-Counts j t t' th th' below here (times_out k seen p) =
      same-Counts j t t (one_if (same_key j k)) refl refl below
  Acts-Counts j t t' th th' below here (leaves k p) = leaves-Counts j k t below here
  Acts-Counts j t t' th th' below here (asks key) = same-Counts j t t 0 refl refl below
  Acts-Counts j t t' th th' below here (releases key n) =
      same-Counts j t (released_under key t) 0 refl refl below

  pub Turn-Counts :
      (j : Key) (t t' : Tables) (ths ths' : List Thread)
      → t.inflight j ≤ t.peak j
      → holders j ths ≤ t.inflight j
      → Turn py t ths t' ths'
      → Counts j t t' (holders j ths) (holders j ths')
  Turn-Counts j t t' ths ths' below here (this {th} {th'} {ths = rest} act) =
      let (moved, peak) = Acts-Counts j t t' th th' below (omega arith) act in (omega arith, peak)
  Turn-Counts j t t' ths ths' below here (other {th} {ths = rest} {ths' = rest'} turn) =
      let (moved, peak) = Turn-Counts j t t' rest rest' below (omega arith) turn in
      (omega arith, peak)
  Turn-Counts j t t' ths ths' below here (new_call path raw) = same-Counts j t t 0 refl refl below
  Turn-Counts j t t' ths ths' below here (new_release key) = same-Counts j t t 0 refl refl below
