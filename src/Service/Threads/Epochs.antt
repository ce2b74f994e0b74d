-- ===== src/Service/Threads/Epochs.antt =====
-- The epoch that a held call has read is not ahead of the releases of its key.
use cleat_ports.Base.{
  ℕ, suc, ◌≤◌, String, List, [], ◌∷◌, ◌≡◌, refl, inl, inr, Bool-cases, arith, sym,
}
use cleat_ports.Base.Json.{codes}
use cleat_ports.Service.{Python, Arrival, replied, held, do_call}
use cleat_ports.Service.State.{Tables, Key, named, same_key, empty_tables}
use cleat_ports.Service.Threads.{
  Thread, waiting, leaving, calling, reading, entering, asked, releasing, answered, Acts, records,
  reads_epoch, enters, wakes, times_out, leaves, asks, releases, released_under, Turn, this, other,
  new_call, new_release, phase_of, Turns, none_yet, then_turn,
}
use cleat_ports.Service.Threads.Occupancy.{same_key-true, do_call-Recorded}

-- The thread of that number, in the order of arrival.
pub data At (th : Thread) : ℕ → List Thread → Type 0 where
  first : {ths : List Thread} → At th 0 (th ∷ ths)
  behind :
      {i : ℕ} {ths : List Thread} {other_th : Thread} → At th i ths → At th (suc i) (other_th ∷ ths)

pub At-unique :
    (th th' : Thread) (i : ℕ) (ths : List Thread) → At th i ths → At th' i ths → th ≡ th'
At-unique th th' i ths first first = refl
At-unique th th' i ths (behind {i = j} {ths = rest} a) (behind b) = At-unique th th' j rest a b

-- A held call has read an epoch that is not ahead of the releases.
abbrev pub EpochFits : Tables → Thread → Type 0
EpochFits t (entering k seen p) = seen ≤ t.released k
EpochFits t (waiting k seen p) = seen ≤ t.released k
EpochFits t _ = Unit

-- The releases of no key become fewer.
abbrev pub Grows : Tables → Tables → Type 0
Grows t t' = (j : Key) → t.released j ≤ t'.released j

EpochFits-Grows : (t t' : Tables) (th : Thread) → Grows t t' → EpochFits t th → EpochFits t' th
EpochFits-Grows t t' (entering k seen p) grows fits = omega (arith, grows k)
EpochFits-Grows t t' (waiting k seen p) grows fits = omega (arith, grows k)
EpochFits-Grows t t' (calling path raw) grows fits = tt
EpochFits-Grows t t' (reading k p) grows fits = tt
EpochFits-Grows t t' (leaving k p) grows fits = tt
EpochFits-Grows t t' (asked key) grows fits = tt
EpochFits-Grows t t' (releasing key n) grows fits = tt
EpochFits-Grows t t' (answered r) grows fits = tt

abbrev pub AllFit : Tables → List Thread → Type 0
AllFit t [] = Unit
AllFit t (th ∷ ths) = EpochFits t th × AllFit t ths

AllFit-Grows : (t t' : Tables) (ths : List Thread) → Grows t t' → AllFit t ths → AllFit t' ths
AllFit-Grows t t' [] grows fits = tt
AllFit-Grows t t' (th ∷ ths) grows fits =
    (EpochFits-Grows t t' th grows fits.0, AllFit-Grows t t' ths grows fits.1)

pub AllFit-At :
    (t : Tables) (th : Thread) (i : ℕ) (ths : List Thread)
    → AllFit t ths
    → At th i ths
    → EpochFits t th
AllFit-At t th i ths fits first = fits.0
AllFit-At t th i ths fits (behind {i = j} {ths = rest} a) = AllFit-At t th j rest fits.1 a

released_under-Grows : (key : String) (t : Tables) → Grows t (released_under key t)
released_under-Grows key t j = elim (Bool-cases (same_key j (named (codes key)))) [
  | inl e ↦ let there = same_key-true j (named (codes key)) e in rw (e, sym there) (omega arith)
  | inr e ↦ rw (e) (omega arith)
]

module _ (py : Python) where
  pub Acts-Grows : (t t' : Tables) (th th' : Thread) → Acts py t th t' th' → Grows t t'
  Acts-Grows t t' th th' (records path raw) j = elim (do_call-Recorded py path raw t) [
    | inl same ↦ rw (same) (omega arith)
    | inr (k, op, e) ↦ rw (e) (omega arith)
  ]
  Acts-Grows t t' th th' (reads_epoch k p) j = omega arith
  Acts-Grows t t' th th' (enters k seen p) j = omega arith
  Acts-Grows t t' th th' (wakes k seen p newer) j = omega arith
  Acts-Grows t t' th th' (times_out k seen p) j = omega arith
  Acts-Grows t t' th th' (leaves k p) j = omega arith
  Acts-Grows t t' th th' (asks key) j = omega arith
  Acts-Grows t t' th th' (releases key n) j = released_under-Grows key t j

  pub Turn-Grows : (t t' : Tables) (ths ths' : List Thread) → Turn py t ths t' ths' → Grows t t'
  Turn-Grows t t' ths ths' (this {th} {th'} act) j = Acts-Grows t t' th th' act j
  Turn-Grows t t' ths ths' (other {ths = rest} {ths' = rest'} turn) j =
      Turn-Grows t t' rest rest' turn j
  Turn-Grows t t' ths ths' (new_call path raw) j = omega arith
  Turn-Grows t t' ths ths' (new_release key) j = omega arith

  phase_of-Fits : (t : Tables) (arrival : Arrival) → EpochFits t (phase_of arrival)
  phase_of-Fits t (replied r) = tt
  phase_of-Fits t (held k p) = tt

  Acts-Fits :
      (t t' : Tables) (th th' : Thread) → Acts py t th t' th' → EpochFits t th → EpochFits t' th'
  Acts-Fits t t' th th' (records path raw) fits = phase_of-Fits t' (do_call py path raw t).0
  Acts-Fits t t' th th' (reads_epoch k p) fits = omega arith
  Acts-Fits t t' th th' (enters k seen p) fits = fits
  Acts-Fits t t' th th' (wakes k seen p newer) fits = tt
  Acts-Fits t t' th th' (times_out k seen p) fits = tt
  Acts-Fits t t' th th' (leaves k p) fits = tt
  Acts-Fits t t' th th' (asks key) fits = tt
  Acts-Fits t t' th th' (releases key n) fits = tt

  Turn-Fits :
      (t t' : Tables) (ths ths' : List Thread)
      → Turn py t ths t' ths'
      → AllFit t ths
      → AllFit t' ths'
  Turn-Fits t t' ths ths' (this {th} {th'} {ths = rest} act) fits =
      (Acts-Fits t t' th th' act fits.0, AllFit-Grows t t' rest (Acts-Grows t t' th th' act) fits.1)
  Turn-Fits t t' ths ths' (other {th} {ths = rest} {ths' = rest'} turn) fits = (
    EpochFits-Grows t t' th (Turn-Grows t t' rest rest' turn) fits.0,
    Turn-Fits t t' rest rest' turn fits.1,
  )
  Turn-Fits t t' ths ths' (new_call path raw) fits = (tt, tt)
  Turn-Fits t t' ths ths' (new_release key) fits = (tt, tt)

  pub Turns-Fits :
      (past : List (List Thread)) (t : Tables) (ths : List Thread)
      → Turns py empty_tables [] past t ths
      → AllFit t ths
  Turns-Fits past t ths none_yet = tt
  Turns-Fits past t ths (then_turn {past = before} {t' = t₁} {ths' = ths₁} turns turn) =
      Turn-Fits t₁ t ths₁ ths turn (Turns-Fits before t₁ ths₁ turns)
