-- ===== src/Command/Client/Laws.antt =====
-- cmd/nz/main.go: the commands over a socket that the daemon serves.
use nz.Base.{ℕ, ◌≡◌, refl, ap, ◌∙◌, String, Bool, List, [], ◌∷◌, some, if◌then◌else◌, arith}
use nz.Control.{Request}
use nz.Ipc.{Response, Json, answered}
use nz.Ipc.Laws.{Carried, served, command_request-served}
use nz.Command.Text.{◌⧺◌, success}
use nz.Command.Args.{parse_target_args}
use nz.Command.Client.{Ran, succeeding, respond, ask, grant_cmd, send_grant}

respond-code :
    (exists : Bool) (next : Response → Ran) (r : Response)
    → (next r).code ≡ 0
    → (respond exists next (answered r)).code ≡ (if r.ok then 0 else 1)
unfolding respond
respond-code exists next r h = ground (arith, h)

module _ {S : Type 0} (json : Json) (handler : ℕ → Request → S → S × Response) (uid : ℕ)
    (exists : Bool) where
  ask-served :
      (req : Request) (next : Response → Ran) (s : S)
      → Carried json req (handler uid req s).1
      → ask json (some (served json handler uid)) exists req next s
        ≡ ((handler uid req s).0, respond exists next (answered (handler uid req s).1))
  unfolding ask
  ask-served req next s c = rw (command_request-served json handler uid req s c) refl

  -- With a target and a machine, allow or deny does to the state of the daemon what the daemon's
  -- handler does with the command, the target and the machine, and exits with 0 if the handler
  -- answers without an error and with 1 otherwise, if the request and the answer get through.
  pub grant_cmd-served :
      (name summary subject to : String) (args : List String) (s : S)
      → parse_target_args args ≡ some (subject, to)
      → Carried json
          (record { command = name; target = subject; to = to })
          (handler uid (record { command = name; target = subject; to = to }) s).1
      → ((grant_cmd json (some (served json handler uid)) exists name summary args s).0
          ≡ (handler uid (record { command = name; target = subject; to = to }) s).0)
        × ((grant_cmd json (some (served json handler uid)) exists name summary args s).1.code ≡ (
            if (handler uid (record { command = name; target = subject; to = to }) s).1.ok
            then 0
            else 1))
  unfolding grant_cmd send_grant
  grant_cmd-served name summary subject to args s reads c =
      let req : Request = record { command = name; target = subject; to = to } in
      let next = λ (r : Response). succeeding (success (name ⧺ " " ⧺ subject ⧺ " done") ∷ []) in
      let asked : grant_cmd json (some (served json handler uid)) exists name summary args s
          ≡ ((handler uid req s).0, respond exists next (answered (handler uid req s).1)) =
        ap (λ o. send_grant json (some (served json handler uid)) exists name summary o s) reads
        ∙ ask-served req next s c in
      (
        ap (λ (r : S × Ran). r.0) asked,
        ap (λ (r : S × Ran). r.1.code) asked ∙ respond-code exists next (handler uid req s).1 refl,
      )
