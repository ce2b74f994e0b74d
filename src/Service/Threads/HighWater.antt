-- ===== src/Service/Threads/HighWater.antt =====
-- What GET /calls/, /log/, /inflight/ and /peak/ answer after any interleaving of requests.
use cleat_ports.Base.{
  ℕ, ◌≤◌, ltb, String, List, [], ◌∷◌, ◌≡◌, refl, inl, inr, if◌then◌else◌, Bool-cases, arith, length,
  length-append, sym, ◌∙◌,
}
use cleat_ports.Service.{Python}
use cleat_ports.Service.State.{Tables, Key, same_key, recorded, empty_tables}
use cleat_ports.Service.Threads.{
  Thread, Acts, records, reads_epoch, enters, wakes, times_out, leaves, asks, releases, Turn, this,
  other, new_call, new_release, Turns, none_yet, then_turn,
}
use cleat_ports.Service.Threads.Occupancy.{holders, same_key-true, do_call-Recorded, Turn-Counts}

abbrev pub larger : ℕ → ℕ → ℕ
larger m n = if ltb m n then n else m

-- The most threads that were in flight under the key at once.
abbrev pub highest : Key → List (List Thread) → ℕ
highest j [] = 0
highest j (ths ∷ past) = larger (highest j past) (holders j ths)

larger_above : (m n : ℕ) → n ≤ larger m n
larger_above m n = ground arith

module _ (py : Python) where
  recorded-Agrees :
      (j k : Key) (op : String) (t : Tables)
      → t.counts j ≡ length (t.log j)
      → (recorded k op t).counts j ≡ length ((recorded k op t).log j)
  recorded-Agrees j k op t agree = elim (Bool-cases (same_key j k)) [
    | inl e ↦
        let there = same_key-true j k e in rw (e, sym there, length-append (t.log j) op, agree) refl
    | inr e ↦ rw (e) agree
  ]

  Acts-Agrees :
      (j : Key) (t t' : Tables) (th th' : Thread)
      → Acts py t th t' th'
      → t.counts j ≡ length (t.log j)
      → t'.counts j ≡ length (t'.log j)
  Acts-Agrees j t t' th th' (records path raw) agree = elim (do_call-Recorded py path raw t) [
    | inl same ↦ rw (same) agree
    | inr (k, op, e) ↦ rw (e) (recorded-Agrees j k op t agree)
  ]
  Acts-Agrees j t t' th th' (reads_epoch k p) agree = agree
  Acts-Agrees j t t' th th' (enters k seen p) agree = agree
  Acts-Agrees j t t' th th' (wakes k seen p newer) agree = agree
  Acts-Agrees j t t' th th' (times_out k seen p) agree = agree
  Acts-Agrees j t t' th th' (leaves k p) agree = agree
  Acts-Agrees j t t' th th' (asks key) agree = agree
  Acts-Agrees j t t' th th' (releases key n) agree = agree

  Turn-Agrees :
      (j : Key) (t t' : Tables) (ths ths' : List Thread)
      → Turn py t ths t' ths'
      → t.counts j ≡ length (t.log j)
      → t'.counts j ≡ length (t'.log j)
  Turn-Agrees j t t' ths ths' (this {th} {th'} act) agree = Acts-Agrees j t t' th th' act agree
  Turn-Agrees j t t' ths ths' (other {ths = rest} {ths' = rest'} turn) agree =
      Turn-Agrees j t t' rest rest' turn agree
  Turn-Agrees j t t' ths ths' (new_call path raw) agree = agree
  Turn-Agrees j t t' ths ths' (new_release key) agree = agree

  abbrev Exact : Key → List (List Thread) → Tables → List Thread → Type 0
  Exact j past t ths =
      (t.inflight j ≡ holders j ths) × (t.peak j ≡ highest j past) × (t.counts j ≡ length (t.log j))

  Turns-Exact :
      (j : Key) (past : List (List Thread)) (t : Tables) (ths : List Thread)
      → Turns py empty_tables [] past t ths
      → Exact j past t ths × (t.inflight j ≤ t.peak j)
  Turns-Exact j past t ths none_yet = ((refl, refl, refl), omega arith)
  Turns-Exact j past t ths (then_turn {past = before} {t' = t₁} {ths' = ths₁} turns turn) =
      let ((now, most, agree), below) = Turns-Exact j before t₁ ths₁ turns in
      let (moved, peak) = Turn-Counts py j t₁ t ths₁ ths below (omega arith) turn in
      let now' : t.inflight j ≡ holders j ths = omega arith in
      (
        (now', peak ∙ rw (now', most) refl, Turn-Agrees j t₁ t ths₁ ths turn agree),
        rw (peak) (larger_above (t₁.peak j) (t.inflight j)),
      )

  -- In every interleaving of call and release requests, from the start of the service on, and for
  -- every key: the number in flight is the number of threads between their entry and their leaving
  -- under the key; the peak is the highest that this number has ever been; and the count of calls is
  -- the length of the log.
  pub counters_exact :
      (j : Key) (past : List (List Thread)) (t : Tables) (ths : List Thread)
      → Turns py empty_tables [] past t ths
      → (t.inflight j ≡ holders j ths)
        × (t.peak j ≡ highest j past)
        × (t.counts j ≡ length (t.log j))
  counters_exact j past t ths turns = (Turns-Exact j past t ths turns).0
