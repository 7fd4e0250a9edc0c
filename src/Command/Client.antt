-- ===== src/Command/Client.antt =====
-- cmd/nz/main.go: the commands that ask the daemon over the control socket.
pub mod Laws
use nz.Base.{
  ℕ, ◌*◌, ◌/◌, ◌%◌, ◌+◌, String, Bool, true, false, not, List, [], ◌∷◌, ◌++◌, Option, none, some,
  ◌==◌, string_eq, if◌then◌else◌, ltb,
}
use nz.Control.{Request, Status, Listing}
use nz.Config.File.{int_text}
use nz.Ipc.{Response, Json, Called, answered, call_failed, Peer, command_request}
use nz.Command.Text.{◌⧺◌, decimal, info, success, error}
use nz.Command.Args.{parse_target_args}
use nz.Command.Usage.{Command, command_usage, grant_usage, version}
use nz.Command.Users.{print_user_table}

-- What a command prints, line by line, and its exit code.
pub record Ran : Type 0 where
  pub lines : List String
  pub code : ℕ

abbrev pub failing : List String → Ran
failing lines = record { lines = lines; code = 1 }

abbrev pub succeeding : List String → Ran
succeeding lines = record { lines = lines; code = 0 }

-- `formatDuration`, for a time that a time.Duration holds.
unfoldable pub format_duration : ℕ → String
unfolding decimal
format_duration sec =
    if ltb sec 60
    then decimal sec ⧺ "s"
    else if ltb sec 3600
    then decimal (sec / 60) ⧺ "m" ⧺ decimal (sec % 60) ⧺ "s"
    else decimal (sec / 3600) ⧺ "h" ⧺ decimal (sec / 60 % 60) ⧺ "m"

shown_ip : String → String
shown_ip ip = if ip == "" then "not assigned" else ip

-- What printStatus prints, line by line.
unfoldable pub print_status : Status → List String
unfolding info decimal int_text format_duration shown_ip
print_status st =
    info (
      "running  version "
      ⧺ st.version
      ⧺ "  mode "
      ⧺ st.mode
      ⧺ "  port "
      ⧺ int_text st.port
      ⧺ "  subnet "
      ⧺ st.subnet)
    ∷ (if st.mode == "node"
        then info ("connection " ⧺ st.conn ⧺ "  vpn ip " ⧺ shown_ip st.vpn_ip)
          ∷ info ("uptime " ⧺ format_duration st.uptime)
          ∷ []
        else info (
            "uptime "
            ⧺ format_duration st.uptime
            ⧺ "  users "
            ⧺ decimal st.users
            ⧺ "  machines "
            ⧺ decimal st.machines
            ⧺ "  pending "
            ⧺ decimal st.pending)
          ∷ [])

-- The listing in the text of a response, or the text of the error of json.Unmarshal.
pub data ListingRead : Type 0 where
  listing : Listing → ListingRead
  bad_listing : String → ListingRead

-- What the commands use of the terminal and of encoding/json.
pub record Terminal : Type 0 where
  pub width : String → ℕ
  pub time_text : ℕ → String
  pub read_listing : String → ListingRead

-- What is printed when the call fails; `exists` says whether the socket is there.
unfoldable pub no_daemon : Bool → List String
unfolding error info
no_daemon exists =
    (if exists
      then error "admin socket exists but no daemon answers"
      else error "daemon is not running")
    ∷ info "start it with nz install"
    ∷ []

-- What follows on a response, for `send` and the test of it that every command makes.
unfoldable pub respond : Bool → (Response → Ran) → Called → Ran
unfolding no_daemon error
respond exists next (call_failed e) = failing (no_daemon exists)
respond exists next (answered r) =
    let done = next r in if not r.ok then failing (error r.error ∷ []) else done

show_listing : Terminal → Bool → ListingRead → Ran
unfolding error print_status print_user_table
show_listing t pending (bad_listing e) = failing (error ("failed to decode list: " ⧺ e) ∷ [])
show_listing t pending (listing l) = succeeding (
    print_status l.status
    ++ print_user_table t.width t.time_text l.users l.machines l.grants pending)

-- `socket` is the daemon on the control socket, if there is one.
module _ {S : Type 0} (json : Json) (socket : Option (Peer S)) (exists : Bool) where
  unfoldable pub ask : Request → (Response → Ran) → S → S × Ran
  unfolding respond
  ask req next s =
      let (s', called) = command_request json socket req s in (s', respond exists next called)

  unfoldable pub reload_cmd : S → S × Ran
  unfolding ask success
  reload_cmd s =
      ask (record { command = "reload"; target = ""; to = "" })
        (λ r. succeeding (success "config reloaded" ∷ [])) s

  unfoldable pub list_cmd : Terminal → Bool → S → S × Ran
  unfolding ask show_listing
  list_cmd t pending s =
      ask (record { command = "list"; target = ""; to = "" })
        (λ r. show_listing t pending (t.read_listing r.body)) s

  no_target : String → String → Ran
  unfolding error command_usage
  no_target name summary = failing (
      error ("nz " ⧺ name ⧺ " needs one target")
      ∷ command_usage (record {
        name = name;
        summary = summary;
        usage = grant_usage name;
        options = [];
        runner = version;
      }))

  send_grant : String → String → Option (String × String) → S → S × Ran
  unfolding no_target ask success
  send_grant name summary none s = (s, no_target name summary)
  send_grant name summary (some (subject, to)) s =
      ask (record { command = name; target = subject; to = to })
        (λ r. succeeding (success (name ⧺ " " ⧺ subject ⧺ " done") ∷ [])) s

  unfoldable pub grant_cmd : String → String → List String → S → S × Ran
  unfolding send_grant
  grant_cmd name summary args s = send_grant name summary (parse_target_args args) s
