-- ===== src/Service/Threads.antt =====
-- scripts/fixture-service.py: the requests of the /call/ and /release/ paths, each in a thread of its
-- own, and the interleavings of their steps. A step is what happens under one of the two locks.
pub mod Occupancy
pub mod HighWater
pub mod Recording
pub mod Epochs
pub mod Release
pub mod Ends
use cleat_ports.Base.{ℕ, suc, ltb, String, true, List, [], ◌∷◌, ◌≡◌, refl}
use cleat_ports.Base.Int.{pos}
use cleat_ports.Base.Json.{codes}
use cleat_ports.Service.{
  Python, Hold, unreleased, Reply, sent, Arrival, replied, held, do_call, said, counted, do_release,
}
use cleat_ports.Service.State.{Tables, Key, named, add_one, entered, left}

-- Where a thread is: before it has read and recorded its call; held, before it reads the epoch; before
-- it is counted as in flight; at the wait for a release newer than the epoch; after the wait, with the
-- reply that is to come; before it reads how many a release ends, and before it counts the release; or
-- with its answer sent.
pub data Thread : Type 0 where
  calling : String → String → Thread
  reading : Key → Hold → Thread
  entering waiting : Key → ℕ → Hold → Thread
  leaving : Key → Reply → Thread
  asked : String → Thread
  releasing : String → ℕ → Thread
  answered : Reply → Thread

abbrev pub phase_of : Arrival → Thread
phase_of (replied r) = answered r
phase_of (held k p) = reading k p

abbrev pub released_under : String → Tables → Tables
released_under key t = record t { released = add_one (named (codes key)) t.released }

module _ (py : Python) where
  -- A step of one thread. A wait that the platform cannot take ends in the step of one that times out,
  -- but without an answer.
  pub data Acts (t : Tables) : Thread → Tables → Thread → Type 0 where
    records :
        (path raw : String)
        → Acts t (calling path raw) (do_call py path raw t).1 (phase_of (do_call py path raw t).0)
    reads_epoch : (k : Key) (p : Hold) → Acts t (reading k p) t (entering k (t.released k) p)
    enters :
        (k : Key) (seen : ℕ) (p : Hold)
        → Acts t (entering k seen p) (entered k t) (waiting k seen p)
    wakes :
        (k : Key) (seen : ℕ) (p : Hold)
        → ltb seen (t.released k) ≡ true
        → Acts t (waiting k seen p) t (leaving k (sent (pos 200) p.payload))
    times_out :
        (k : Key) (seen : ℕ) (p : Hold) → Acts t (waiting k seen p) t (leaving k (unreleased p))
    leaves : (k : Key) (r : Reply) → Acts t (leaving k r) (left k t) (answered r)
    asks : (key : String) → Acts t (asked key) t (releasing key (t.inflight (named (codes key))))
    releases :
        (key : String) (n : ℕ)
        → Acts t
            (releasing key n)
            (released_under key t)
            (answered (sent (pos 200) (("key", said key) ∷ ("released", counted n) ∷ [])))

  -- A step of one of the threads, or the arrival of a request.
  pub data Turn (t : Tables) : List Thread → Tables → List Thread → Type 0 where
    this :
        {th th' : Thread} {t' : Tables} {ths : List Thread}
        → Acts t th t' th'
        → Turn t (th ∷ ths) t' (th' ∷ ths)
    other :
        {th : Thread} {ths ths' : List Thread} {t' : Tables}
        → Turn t ths t' ths'
        → Turn t (th ∷ ths) t' (th ∷ ths')
    new_call : (path raw : String) → Turn t [] t (calling path raw ∷ [])
    new_release : (key : String) → Turn t [] t (asked key ∷ [])

  -- Any number of turns, with the threads after each of them, the latest first.
  pub data Turns (t : Tables) (ths : List Thread)
      : List (List Thread) → Tables → List Thread → Type 0 where
    none_yet : Turns t ths [] t ths
    then_turn :
        {past : List (List Thread)} {t' t'' : Tables} {ths' ths'' : List Thread}
        → Turns t ths past t' ths'
        → Turn t' ths' t'' ths''
        → Turns t ths (ths'' ∷ past) t'' ths''

  -- One request that no other meets.
  abbrev pub finish : Arrival → Tables → Reply × Tables
  finish (replied r) t = (r, t)
  finish (held k p) t = (unreleased p, left k (entered k t))

  unfoldable pub serve_alone : String → String → Tables → Reply × Tables
  serve_alone path raw t = finish (do_call py path raw t).0 (do_call py path raw t).1

  finish_turns :
      (t₀ t : Tables) (ths : List Thread) (past : List (List Thread)) (arrival : Arrival)
      → Turns t₀ ths past t (phase_of arrival ∷ [])
      → (more : List (List Thread)) × Turns t₀ ths more
          (finish arrival t).1
          (answered (finish arrival t).0 ∷ [])
  finish_turns t₀ t ths past (replied r) turns = (_, turns)
  finish_turns t₀ t ths past (held k p) turns = (
    _,
    then_turn
        (then_turn
          (then_turn (then_turn turns (this (reads_epoch k p))) (this (enters k (t.released k) p)))
          (this (times_out k (t.released k) p)))
        (this (leaves k (unreleased p))),
  )

  -- The answer and the tables that a call comes to when no other request meets it are those of a run
  -- of its thread.
  pub serve_alone-Turns :
      (path raw : String) (t : Tables)
      → (past : List (List Thread)) × Turns t
          (calling path raw ∷ [])
          past
          (serve_alone path raw t).1
          (answered (serve_alone path raw t).0 ∷ [])
  unfolding serve_alone
  serve_alone-Turns path raw t =
      finish_turns t _ _ _ (do_call py path raw t).0 (then_turn none_yet (this (records path raw)))
