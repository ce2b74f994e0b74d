-- ===== src/Service/Threads/Ends.antt =====
-- The requests of the fixture service come to their end: a hold has a ceiling.
use cleat_ports.Base.{
  ℕ, suc, ◌+◌, ◌*◌, ◌≤◌, ◌<◌, List, [], ◌∷◌, ◌≡◌, refl, ◌⊎◌, inl, inr, arith, length, ap,
}
use cleat_ports.Service.{Python, Arrival, replied, held, do_call}
use cleat_ports.Service.State.{Tables, empty_tables}
use cleat_ports.Service.Threads.{
  Thread, waiting, leaving, calling, reading, entering, asked, releasing, answered, Acts, records,
  reads_epoch, enters, wakes, times_out, leaves, asks, releases, Turn, this, other, new_call,
  new_release, phase_of, Turns, none_yet, then_turn,
}

-- At most how many steps a thread has left.
abbrev pub steps_left : Thread → ℕ
steps_left (calling path raw) = 5
steps_left (reading k p) = 4
steps_left (entering k seen p) = 3
steps_left (waiting k seen p) = 2
steps_left (leaving k p) = 1
steps_left (asked key) = 2
steps_left (releasing key n) = 1
steps_left (answered r) = 0

abbrev pub all_left : List Thread → ℕ
all_left [] = 0
all_left (th ∷ ths) = steps_left th + all_left ths

-- Every request has been answered, or left without an answer.
abbrev pub AllAnswered : List Thread → Type 0
AllAnswered [] = Unit
AllAnswered (answered r ∷ ths) = AllAnswered ths
AllAnswered _ = ⊥

module _ (py : Python) where
  phase_of-left : (arrival : Arrival) → steps_left (phase_of arrival) ≤ 4
  phase_of-left (replied r) = omega arith
  phase_of-left (held k p) = omega arith

  Acts-left :
      (t t' : Tables) (th th' : Thread) → Acts py t th t' th' → steps_left th' < steps_left th
  Acts-left t t' th th' (records path raw) = omega (arith, phase_of-left (do_call py path raw t).0)
  Acts-left t t' th th' (reads_epoch k p) = omega arith
  Acts-left t t' th th' (enters k seen p) = omega arith
  Acts-left t t' th th' (wakes k seen p newer) = omega arith
  Acts-left t t' th th' (times_out k seen p) = omega arith
  Acts-left t t' th th' (leaves k p) = omega arith
  Acts-left t t' th th' (asks key) = omega arith
  Acts-left t t' th th' (releases key n) = omega arith

  -- A turn takes a step of some thread, or brings one more.
  Turn-left :
      (t t' : Tables) (ths ths' : List Thread)
      → Turn py t ths t' ths'
      → all_left ths' + 6 * length ths < all_left ths + 6 * length ths'
  Turn-left t t' ths ths' (this {th} {th'} act) = omega (arith, Acts-left t t' th th' act)
  Turn-left t t' ths ths' (other {ths = rest} {ths' = rest'} turn) =
      omega (arith, Turn-left t t' rest rest' turn)
  Turn-left t t' ths ths' (new_call path raw) = omega arith
  Turn-left t t' ths ths' (new_release key) = omega arith

  Turns-left :
      (past : List (List Thread)) (t : Tables) (ths : List Thread)
      → Turns py empty_tables [] past t ths
      → length past + all_left ths ≤ 6 * length ths
  Turns-left past t ths none_yet = omega arith
  Turns-left past t ths (then_turn {past = before} {t' = t₁} {ths' = ths₁} turns turn) =
      omega (arith, Turns-left before t₁ ths₁ turns, Turn-left t₁ t ths₁ ths turn)

  -- A step of one of the threads that are there.
  abbrev pub Moves : Tables → List Thread → Type 0
  Moves t ths =
      (t' : Tables) × (ths' : List Thread) × Turn py t ths t' ths' × (length ths' ≡ length ths)

  can_move : (t : Tables) (ths : List Thread) → AllAnswered ths ⊎ Moves t ths
  can_move t [] = inl tt
  can_move t (calling path raw ∷ ths) = inr (_, _, this (records path raw), refl)
  can_move t (reading k p ∷ ths) = inr (_, _, this (reads_epoch k p), refl)
  can_move t (entering k seen p ∷ ths) = inr (_, _, this (enters k seen p), refl)
  can_move t (waiting k seen p ∷ ths) = inr (_, _, this (times_out k seen p), refl)
  can_move t (leaving k p ∷ ths) = inr (_, _, this (leaves k p), refl)
  can_move t (asked key ∷ ths) = inr (_, _, this (asks key), refl)
  can_move t (releasing key n ∷ ths) = inr (_, _, this (releases key n), refl)
  can_move t (answered r ∷ ths) = elim (can_move t ths) [
    | inl over ↦ inl over
    | inr moves ↦
        let (t', ths', turn, same) = moves in inr (t', answered r ∷ ths', other turn, ap suc same)
  ]

  -- In every interleaving of call and release requests, from the start of the service on: no more turns
  -- have been taken than six for each request that has arrived, and unless every request has been
  -- answered or dropped, one of those that are there can take a step, whether or not a release ever
  -- comes.
  pub requests_end :
      (past : List (List Thread)) (t : Tables) (ths : List Thread)
      → Turns py empty_tables [] past t ths
      → (length past ≤ 6 * length ths) × (AllAnswered ths ⊎ Moves t ths)
  requests_end past t ths turns = (omega (arith, Turns-left past t ths turns), can_move t ths)
