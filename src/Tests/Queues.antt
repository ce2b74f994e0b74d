-- ===== src/Tests/Queues.antt =====
-- A host that hands over a queue of signals at once, each to an await that asks for its name.
use cleat_ports.Base.{List, String, [], ◌∷◌, ap, append, ◌∙◌, refl, arith, if◌then◌else◌}
use cleat_ports.Base.Int.{pos, millis, ◌-ℤ◌}
use cleat_ports.Base.Text.{contains, split_commas}
use cleat_ports.Base.Format.{latin_1}
use cleat_ports.Host.Calls.{Call, Answer, SignalResult, now, set_query_state, await_signals}
use cleat_ports.Host.Run.{Host, Reaction, resume, stop, run}
use cleat_ports.Host.Delivery.{Delivering, delivery}
use cleat_ports.Samples.AwaitSignals.{handle_await_signals}
use cleat_ports.Samples.AwaitSignals.Delivered.{Completes, completes_when_delivered}

abbrev handed : List String → List String → Reaction SignalResult (List String)
handed names [] = stop []
handed names (n ∷ ns) = if contains names n then resume (delivery n) ns else stop (n ∷ ns)

abbrev queue_react : List String → (c : Call) → Reaction (Answer c) (List String)
queue_react q now = resume (pos 0) q
queue_react q (set_query_state key value) = resume tt q
queue_react q (await_signals names d) = handed names q
queue_react q c = stop q

abbrev queue_host : Host
queue_host = record { State = List String; react = queue_react }

queue_delivers : Delivering queue_host (pos 0) (pos 1)
queue_delivers = record {
  queue = λ q. q;
  reads = λ q. (pos 0, q, refl, refl, refl, refl);
  publishes = λ q key value. (q, refl, refl);
  hands_over = λ q names d n rest e asked. (rest, ap (handed names) e ∙ rw (asked) refl, refl);
}

completes_when_delivered_example :
    Completes "k"
      (run queue_host (handle_await_signals 5 "k" "a,b" (pos 1000)) ("b" ∷ "b" ∷ "a" ∷ [])).outcome
unfolding queue_delivers split_commas millis ◌-ℤ◌ contains append
completes_when_delivered_example =
    completes_when_delivered queue_delivers ("b" ∷ "b" ∷ "a" ∷ []) 5 "k" "a,b" (pos 1000) refl refl
      (refl, (refl, (refl, tt))) (omega arith) (omega arith)
