-- ===== src/Sdk/Updates.antt =====
-- ports/temporalio-sdk-go/workflows/updates/main.go
-- The package variable `applied` is the state that the handlers are given and hand back.
pub mod Order
use cleat_ports.Base.{
  ℕ, zero, suc, String, ◌++◌, Bool, List, [], ◌∷◌, Option, none, some, ◌==◌, append, length,
  if◌then◌else◌,
}
use cleat_ports.Base.Int.{ℤ, pos, pos_part}
use cleat_ports.Base.Text.{join, contains_text}
use cleat_ports.Base.Format.{Unicode, quote, decimal}
use cleat_ports.Host.Calls.{
  Error, new, Result, ok, err, Update, await_signals, register_update_handler, dispatched,
}
use cleat_ports.Host.Program.{Handler, ask, done, ◌>>=◌, ◌>>◌}

-- The two functions of one RegisterUpdateHandler; a validator that is nil refuses nothing.
pub record UpdateHandler : Type 0 where
  pub handle : String → List String → List String × Result String
  pub validate : String → Option Error

abbrev no_validator : String → Option Error
no_validator payload = none

-- `applied = append(applied, name)`, and `len(applied)` after it
abbrev positioned : String → List String → List String × Result String
positioned name applied = (
  append applied name,
  ok (
      "{\"handled\":\""
      ++ name
      ++ "\",\"position\":"
      ++ decimal (length (append applied name))
      ++ "}"),
)

abbrev apply_one : UpdateHandler
apply_one = record { handle = λ payload. positioned "apply_one"; validate = no_validator }

abbrev apply_two : UpdateHandler
apply_two = record { handle = λ payload. positioned "apply_two"; validate = no_validator }

abbrev guarded : UpdateHandler
guarded = record {
  handle = λ payload applied. (append applied "guarded", ok "{\"handled\":\"guarded\"}");
  validate = λ payload.
      if contains_text payload "\"reject\":true"
      then some (new "guarded: refused, reject was set")
      else none;
}

abbrev boom : UpdateHandler
boom = record {
  handle =
      λ payload applied. (append applied "boom", err (new "boom: the handler failed on purpose"));
  validate = no_validator;
}

module _ ⦃u : Unicode⦄ where
  abbrev echo : UpdateHandler
  echo = record {
    handle =
        λ payload applied. (append applied "echo", ok ("{\"echoed\":" ++ quote payload ++ "}"));
    validate = no_validator;
  }

  -- The handler registered under a name.
  unfoldable pub registered : String → Option UpdateHandler
  registered name =
      if name == "apply_one"
      then some apply_one
      else if name == "apply_two"
      then some apply_two
      else if name == "echo"
      then some echo
      else if name == "guarded"
      then some guarded
      else if name == "boom"
      then some boom
      else none

  -- An update that its validator refuses, or that nothing is registered for, runs no handler.
  abbrev pub validated : Option Error → UpdateHandler → String → List String → List String
  validated none handler payload applied = (handler.handle payload applied).0
  validated (some e) handler payload applied = applied

  abbrev pub handled_by : Option UpdateHandler → String → List String → List String
  handled_by none payload applied = applied
  handled_by (some handler) payload applied =
      validated (handler.validate payload) handler payload applied

  pub serve : List Update → List String → List String
  serve [] applied = applied
  serve (up ∷ us) applied = serve us (handled_by (registered up.name) up.payload applied)

  unfoldable pub updates_report : String → List String → String
  updates_report marker applied =
      "{\"marker\":"
      ++ quote marker
      ++ ",\"applied\":"
      ++ decimal (length applied)
      ++ ",\"order\":"
      ++ quote (join applied ",")
      ++ "}"

  -- `for i := 0; i < slices; i++ { ... }` and what follows it, by the slices left
  pub update_loop : String → ℕ → List String → Handler
  update_loop marker zero applied = done (updates_report marker applied)
  update_loop marker (suc left) applied = do
    ask (await_signals ("never" ∷ []) (pos 500000000))
    ups ← ask dispatched
    update_loop marker left (serve ups applied)

  unfoldable pub handle_updates : List String → String → ℤ → Handler
  unfolding update_loop serve
  handle_updates applied marker slices = do
    ask (register_update_handler "apply_one")
    ask (register_update_handler "apply_two")
    ask (register_update_handler "echo")
    ask (register_update_handler "guarded")
    ask (register_update_handler "boom")
    update_loop marker (pos_part slices) applied
