-- ===== src/Tests/Held.antt =====
-- A call that the fixture service holds, and its release.
use cleat_ports.Base.{true, append, String, List, [], ◌∷◌, ◌≡◌}
use cleat_ports.Base.Int.{pos}
use cleat_ports.Base.Json.{codes, text, read_object, feed, step}
use cleat_ports.Service.{Hold, success, do_call, do_get, sent, said, counted, texts, operation_of}
use cleat_ports.Service.State.{Tables, Key, named, same_key, recorded, entered, empty_tables}
use cleat_ports.Service.Threads.{
  Thread, waiting, releasing, answered, records, reads_epoch, enters, asks, this, other, new_call,
  new_release, Turns, none_yet, then_turn,
}
use cleat_ports.Base.{◌≤◌, ◌⊎◌, length}
use cleat_ports.Service.Threads.Ends.{AllAnswered, Moves, requests_end}
use cleat_ports.Service.Routes.{answers_exact}
use cleat_ports.Tests.Forwarded.{python}

abbrev account : Key
account = named (codes "k")

abbrev body : String
body = "{\"key\":\"k\",\"delay_ms\":50}"

abbrev answer : Hold
answer = record { payload = success (text (codes "k")) 1 "par.unit"; waits = true }

abbrev after_call : Tables
after_call = recorded account "par.unit" empty_tables

-- Up to the wait.
held_call :
    (past : List (List Thread)) × Turns python empty_tables [] past
      (entered account after_call)
      (waiting account 0 answer ∷ [])
unfolding do_call read_object feed step operation_of
held_call = (
  _,
  then_turn
      (then_turn
        (then_turn (then_turn none_yet (new_call "par/unit" body)) (this (records "par/unit" body)))
        (this (reads_epoch account answer)))
      (this (enters account 0 answer)),
)

-- Then another call arrives, and is recorded.
abbrev after_both : Tables
after_both = recorded account "pay.charge" (entered account after_call)

second_call :
    (past : List (List Thread)) × Turns python empty_tables [] past after_both (
      waiting account 0 answer
      ∷ answered (sent (pos 200) (success (text (codes "k")) 2 "pay.charge"))
      ∷ [])
unfolding held_call do_call read_object feed step operation_of same_key
second_call = (
  _,
  then_turn (then_turn held_call.1 (other (new_call "pay/charge" "{\"key\":\"k\"}")))
      (other (this (records "pay/charge" "{\"key\":\"k\"}"))),
)

answers_exact_example :
    (do_get "/log/k" after_both
      ≡ sent (pos 200) (("key", said "k") ∷ ("calls", texts ("par.unit" ∷ "pay.charge" ∷ [])) ∷ []))
    × (do_get "/calls/k" after_both
        ≡ sent (pos 200) (("key", said "k") ∷ ("attempts", counted 2) ∷ []))
    × (do_get "/inflight/k" after_both
        ≡ sent (pos 200) (("key", said "k") ∷ ("inflight", counted 1) ∷ []))
    × (do_get "/peak/k" after_both
        ≡ sent (pos 200) (("key", said "k") ∷ ("peak", counted 1) ∷ ("attempts", counted 2) ∷ []))
unfolding second_call held_call same_key append read_object feed step operation_of
answers_exact_example =
    answers_exact python "k" second_call.0 after_both
      (waiting account 0 answer
        ∷ answered (sent (pos 200) (success (text (codes "k")) 2 "pay.charge"))
        ∷ [])
      second_call.1

-- Up to the release, which is about to be counted.
asked_release :
    (past : List (List Thread)) × Turns python empty_tables [] past
      (entered account after_call)
      (waiting account 0 answer ∷ releasing "k" 1 ∷ [])
unfolding held_call same_key
asked_release =
    (_, then_turn (then_turn held_call.1 (other (new_release "k"))) (other (this (asks "k"))))

-- The held call alone, for which no release comes.
requests_end_example :
    (length held_call.0 ≤ 6)
    × (AllAnswered (waiting account 0 answer ∷ [])
        ⊎ Moves python (entered account after_call) (waiting account 0 answer ∷ []))
requests_end_example =
    requests_end python held_call.0 (entered account after_call) (waiting account 0 answer ∷ [])
      held_call.1
