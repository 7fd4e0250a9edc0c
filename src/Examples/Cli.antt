-- ===== src/Examples/Cli.antt =====
-- Examples of the command line and of the control socket.
use nz.Base.{
  ℕ, ◌+◌, ◌≡◌, ◌↔◌, ◌⊎◌, refl, true, false, [], ◌∷◌, none, some, arith, ◌==◌, string_eq, nat_eq,
  if◌then◌else◌,
}
use nz.Control.{Program, Request, handle}
use nz.Control.Laws.{Untouched}
use nz.Control.Socket.{Texts, answer_request, serve_conn_no_root}
use nz.Ipc.{Response, Json, newline, serve_conn}
use nz.Ipc.Laws.{streamed, answer_all, serve_conn-streamed, Carried, served}
use nz.State.Model.{MachineView, MachineStatus}
use nz.Command.Args.{parse_target_args}
use nz.Command.Args.Laws.{Reading, parse_target_args_iff}
use nz.Command.Users.{groups}
use nz.Command.Users.Laws.{In, IsShown, HasUser, groups_iff}
use nz.Command.Client.{grant_cmd}
use nz.Command.Client.Laws.{grant_cmd-served}
use nz.Examples.Data.{user_named, phone}
use nz.Examples.NodeData.{quiet}
use nz.Examples.Requests.{world, running, deny_alice}

parse_target_args_iff_example :
    (parse_target_args ("--to=laptop" ∷ "alice/phone" ∷ []) ≡ some ("alice/phone", "laptop"))
    ↔ Reading "" "" "alice/phone" "laptop" ("--to=laptop" ∷ "alice/phone" ∷ [])
parse_target_args_iff_example =
    parse_target_args_iff ("--to=laptop" ∷ "alice/phone" ∷ []) "alice/phone" "laptop"

abbrev view : MachineView
view = record { machine = phone; self = false }

groups_iff_example : IsShown view (groups true (view ∷ []) (user_named "alice" ∷ [])) ↔ (
    In view (view ∷ [])
    × HasUser view (user_named "alice" ∷ [])
    × ((true ≡ false) ⊎ (phone.status ≡ MachineStatus.pending)))
groups_iff_example = groups_iff true (view ∷ []) (user_named "alice" ∷ []) view

abbrev texts : Texts
texts = record { problem = λ e. "refused"; listing = λ l. some "{}"; marshal_error = "" }

-- One request and one response as a line of JSON.
abbrev refusal : Response
refusal = record { ok = false; error = "refused"; body = "" }

abbrev json : Json
json = record {
  request_text = λ r. some (1 ∷ []);
  response_text = λ r. some (2 ∷ []);
  read_request =
      λ line. elim line [ b ∷ _ ↦ (if b == 1 then some deny_alice else none) | [] ↦ none ];
  read_response = λ line. some refusal;
}

abbrev socket_handler : ℕ → Request → ℕ × Program → (ℕ × Program) × Response
socket_handler = answer_request world (quiet 5) texts (λ t. t + 1)

serve_conn-streamed_example :
    serve_conn json socket_handler 1000
      (streamed ((1 ∷ []) ∷ (7 ∷ 7 ∷ []) ∷ []) (1 ∷ []))
      (5, running)
    ≡ answer_all json socket_handler 1000 ((1 ∷ []) ∷ (7 ∷ 7 ∷ []) ∷ []) (5, running)
serve_conn-streamed_example =
    serve_conn-streamed json socket_handler 1000 ((1 ∷ []) ∷ (7 ∷ 7 ∷ []) ∷ []) (1 ∷ [])
      (5, running) (((λ e. omega arith), tt), (((λ e. omega arith), ((λ e. omega arith), tt)), tt))
      ((λ e. omega arith), tt)

serve_conn_no_root_example :
    Untouched running (serve_conn json socket_handler 1000 (1 ∷ newline ∷ []) (5, running)).0.1
serve_conn_no_root_example =
    serve_conn_no_root world (quiet 5) texts (λ t. t + 1) json 1000 (1 ∷ newline ∷ []) 5 running
      (omega arith)

abbrev denied : ((ℕ × Program) × Response)
denied = socket_handler 1000 deny_alice (5, running)

deny_alice-Carried : Carried json deny_alice denied.1
unfolding answer_request handle
deny_alice-Carried = record {
  sent = 1 ∷ [];
  back = 2 ∷ [];
  encodes = refl;
  one_line = ((λ e. omega arith), tt);
  decodes = refl;
  encodes_back = refl;
  one_line_back = ((λ e. omega arith), tt);
  decodes_back = refl;
}

grant_cmd-served_example :
    ((grant_cmd json
        (some (served json socket_handler 1000))
        true
        "deny"
        ""
        ("alice" ∷ [])
        (5, running)).0
      ≡ denied.0)
    × ((grant_cmd json
          (some (served json socket_handler 1000))
          true
          "deny"
          ""
          ("alice" ∷ [])
          (5, running)).1.code
        ≡ (if denied.1.ok then 0 else 1))
unfolding parse_target_args
grant_cmd-served_example =
    grant_cmd-served json socket_handler 1000 true "deny" "" "alice" "" ("alice" ∷ []) (5, running)
      refl deny_alice-Carried
