-- ===== src/Tests/Dbos.antt =====
-- Runs of the dbos-transact-py workflows against the example hosts.
use cleat_ports.Base.{append, String, List, [], ◌∷◌, true, ◌≡◌, ◌≢◌, refl, arith}
use cleat_ports.Base.Int.{pos, millis, ◌+ℤ◌, sub_time, wrap64, ◌*ℤ◌, div_int}
use cleat_ports.Base.Text.{contains}
use cleat_ports.Base.Format.{quote, decimal, show_int, show_bool, latin_1}
use cleat_ports.Host.Calls.{err, Result, ok, new, wrap}
use cleat_ports.Host.Program.{branching}
use cleat_ports.Host.Run.{run, out_of_fuel}
use cleat_ports.Host.History.{locks_taken, releases}
use cleat_ports.Host.History.Spawns.{child_requests, awaited_sets}
use cleat_ports.Dbos.Cancellation.{handle_cancellable, handle_bulk_cancel_steps, cancelled_report}
use cleat_ports.Dbos.Cancellation.Polling.{elapsed_exact, cancellable_ends}
use cleat_ports.Dbos.Cancellation.Bulk.{bulk_cancel_ends}
use cleat_ports.Dbos.Promises.{handle_promise_chain, chain_report}
use cleat_ports.Dbos.Promises.Resolved.{resolved_exact}
use cleat_ports.Dbos.Locks.{handle_lock_try, handle_lock_holder, acquired_report}
use cleat_ports.Dbos.Locks.Release.{try_releases, holder-Leaves, AtMostOwn}
use cleat_ports.Dbos.Children.{handle_fanout, all_report, fanout_input}
use cleat_ports.Dbos.Children.Fanout.{fanout_awaits_all}
use cleat_ports.Tests.{Machine, machine, fresh_machine}

elapsed_exact_example :
    "{\"outcome\":\"cancelled\",\"reason\":\"operator\",\"elapsed_ms\":750}"
    ≡ cancelled_report "operator" (pos 750)
unfolding handle_cancellable run branching contains append cancelled_report quote show_int decimal
    wrap64 ◌+ℤ◌
elapsed_exact_example =
    elapsed_exact machine fresh_machine (pos 2000) (pos 1)
      "{\"outcome\":\"cancelled\",\"reason\":\"operator\",\"elapsed_ms\":750}" (omega arith) refl

cancellable_ends_example :
    (run machine (handle_cancellable (pos 2000) (pos 1)) fresh_machine).outcome ≢ out_of_fuel
cancellable_ends_example = cancellable_ends machine fresh_machine (pos 2000) (pos 1) (omega arith)

bulk_cancel_ends_example :
    (run machine (handle_bulk_cancel_steps "k" (pos 2000)) fresh_machine).outcome ≢ out_of_fuel
bulk_cancel_ends_example = bulk_cancel_ends machine fresh_machine "k" (pos 2000) (omega arith)

-- The second promise does not settle in time.
abbrev one_settles : Machine
one_settles = record fresh_machine { failing = "k-1" ∷ [] }

resolved_exact_example :
    "{\"key\":\"k\",\"resolved\":1,\"timedOut\":true}" ≡ chain_report "k" 1 true
unfolding handle_promise_chain run branching contains append chain_report quote decimal show_bool
    millis sub_time ◌+ℤ◌ div_int
resolved_exact_example =
    resolved_exact machine one_settles "k" (pos 3) (pos 1000)
      "{\"key\":\"k\",\"resolved\":1,\"timedOut\":true}" refl

try_releases_example :
    (releases (run machine (handle_lock_try "k" (pos 100)) fresh_machine).trace
      ≡ locks_taken (run machine (handle_lock_try "k" (pos 100)) fresh_machine).trace)
    × AtMostOwn "k" ("lock-k" ∷ [])
unfolding handle_lock_try run branching contains append acquired_report show_bool
try_releases_example =
    try_releases machine fresh_machine "k" (pos 100) (ok "{\"acquired\":true}") refl

abbrev announce_fails : Machine
announce_fails = record fresh_machine { failing = "op" ∷ [] }

holder-Leaves_example :
    (locks_taken (run machine (handle_lock_holder "k" (pos 100)) announce_fails).trace
      ≡ "lock-k" ∷ [])
    × (releases (run machine (handle_lock_holder "k" (pos 100)) announce_fails).trace ≡ [])
unfolding handle_lock_holder run branching contains append
holder-Leaves_example =
    holder-Leaves machine announce_fails "k" (pos 100) (err (wrap "announce: " (new "HTTP 500")))
      refl

-- One fixed encoding is enough for the example.
abbrev encode_fixed : List String → Result String
encode_fixed results = ok "[]"

fanout_awaits_all_example :
    (child_requests
        (run machine (handle_fanout encode_fixed (pos 2) (pos 50) (pos 0)) fresh_machine).trace
      ≡ ("child_leaf", "{\"ms\":50,\"tag\":\"child-0\"}")
        ∷ ("child_leaf", "{\"ms\":100,\"tag\":\"child-1\"}")
        ∷ [])
    × (awaited_sets
          (run machine (handle_fanout encode_fixed (pos 2) (pos 50) (pos 0)) fresh_machine).trace
        ≡ ("run-0" ∷ "run-1" ∷ []) ∷ [])
unfolding handle_fanout run branching contains append all_report quote decimal fanout_input show_int
    wrap64 ◌*ℤ◌
fanout_awaits_all_example =
    fanout_awaits_all machine fresh_machine encode_fixed (pos 2) (pos 50) (pos 0)
      "{\"mode\":\"all\",\"results\":[],\"spawned\":2}" refl
