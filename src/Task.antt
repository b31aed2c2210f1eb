-- ===== src/Task.antt =====
-- What the goroutines of the builder and the controller share: a task has no caller to report to, so
-- an early return, after an error was logged or with nothing left to do, is its only error.
use uran_api.Exec.{Exec}
use uran_api.Store.{World}

pub data Stop : Type 0 where
  stopped : Stop

abbrev pub Task : Type 0 → Type 0
Task A = Exec World Stop A
