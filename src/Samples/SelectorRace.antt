-- ===== src/Samples/SelectorRace.antt =====
-- ports/samples-go/workflows/selectorrace/main.go
-- The selector itself (cleat.NewSelector, AddSignal, AddTimer, Select, Err) is the package's, and
-- enters as a parameter.
use cleat_ports.Base.{
  String, ◌++◌, Bool, true, false, not, List, [], Option, none, some, append, ◌==◌,
}
use cleat_ports.Base.Int.{ℤ, pos, ltb_ℤ, millis, sub_time, div_int}
use cleat_ports.Base.Format.{Unicode, quote, show_bool, show_int}
use cleat_ports.Host.Calls.{Error, message, now, set_query_state}
use cleat_ports.Host.Program.{Prog, Handler, ask, done, ◌>>=◌, ◌>>◌}

-- The flag that a timer sets through the pointer it was given.
pub data Flag : Type 0 where
  short_fired long_fired : Flag

-- What has been added to the selector, in order. A signal's payload goes to the one `payload`.
pub data Future : Type 0 where
  signal : String → Future
  timer : ℤ → Flag → Future

-- What Select and Err report, and what was written through the pointers.
pub record Selected : Type 0 where
  pub winner : String
  pub payload : Option String
  pub fired : Flag → Bool
  pub failure : Option Error

abbrev pub written : Option String → String
written none = ""
written (some p) = p

abbrev pub error_text : Option Error → String
error_text none = ""
error_text (some e) = message e

abbrev add_if : Bool → Future → List Future → List Future
add_if true f fs = append fs f
add_if false f fs = fs

-- The futures that the parameters enable.
unfoldable pub futures : String → ℤ → ℤ → List Future
futures signal_name short_ms long_ms =
    let with_signal = add_if (not (signal_name == "")) (signal signal_name) [] in
    let with_short =
      add_if (ltb_ℤ (pos 0) short_ms) (timer (millis short_ms) short_fired) with_signal in
    add_if (ltb_ℤ (pos 0) long_ms) (timer (millis long_ms) long_fired) with_short

module _ ⦃u : Unicode⦄ where
  pub race_report : String → Selected → ℤ → String
  race_report key sel elapsed_ms =
      "{\"key\":"
      ++ quote key
      ++ ",\"winner\":"
      ++ quote sel.winner
      ++ ",\"payload\":"
      ++ quote (written sel.payload)
      ++ ",\"shortFired\":"
      ++ show_bool (sel.fired short_fired)
      ++ ",\"longFired\":"
      ++ show_bool (sel.fired long_fired)
      ++ ",\"elapsedMs\":"
      ++ show_int elapsed_ms
      ++ ",\"err\":"
      ++ quote (error_text sel.failure)
      ++ "}"

  module _ (select : List Future → Prog Selected) where
    unfoldable pub handle_selector_race : String → String → ℤ → ℤ → Handler
    unfolding futures race_report
    handle_selector_race key signal_name short_ms long_ms = do
      ask (set_query_state "phase" "waiting")
      started ← ask now
      sel ← select (futures signal_name short_ms long_ms)
      ended ← ask now
      done (race_report key sel (div_int (sub_time ended started) 1000000))
