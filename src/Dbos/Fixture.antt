-- ===== src/Dbos/Fixture.antt =====
-- The request that most workflows of ports/dbos-transact-py send to the fixture service.
use cleat_ports.Base.{String, ◌++◌}
use cleat_ports.Base.Format.{Unicode, quote}
use cleat_ports.Host.Calls.{Error, message}

module _ ⦃u : Unicode⦄ where
  -- `{"key":%q,"fail_times":0}`
  unfoldable pub flaky_request : String → String
  flaky_request key = "{\"key\":" ++ quote key ++ ",\"fail_times\":0}"

  -- `{"outcome":"error","error":%q}` of an error's text
  unfoldable pub error_report : Error → String
  error_report e = "{\"outcome\":\"error\",\"error\":" ++ quote (message e) ++ "}"
