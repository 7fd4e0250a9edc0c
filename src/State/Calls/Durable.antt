-- ===== src/State/Calls/Durable.antt =====
-- internal/state/state.go: the state file and the memory after an operation.
use nz.Base.{true, ◌≡◌, none}
use nz.State.Model.{State, Outcome}
use nz.State.Saving.{IsSynced, save_locked_lem}
use nz.State.Step.{Effect, refused, idle, stored, Call}
use nz.State.Calls.{perform, perform-Effect, writes_file}

Effect-IsSynced :
    {s : State} {c : Call} {o : Outcome} → Effect s c o → IsSynced s → o.1 ≡ none → IsSynced o.0
Effect-IsSynced (refused e none_fits) h n = h
Effect-IsSynced (idle i) h n = h
Effect-IsSynced (stored {t} step) h n = (save_locked_lem t).0 n

-- If the state file is in step with the memory, then an operation other than Touch that reports no
-- error leaves the file in step with the new tables.
pub perform-IsSynced :
    (c : Call) (s : State)
    → writes_file c ≡ true
    → IsSynced s
    → (perform c s).1 ≡ none
    → IsSynced (perform c s).0
perform-IsSynced c s w h e = Effect-IsSynced (perform-Effect c s w) h e
