-- ===== src/Command/Users.antt =====
-- cmd/nz/output.go: the table of users, and one of machines for each.
pub mod Laws
use nz.Base.{
  ℕ, String, Bool, false, not, ◌&&◌, ◌||◌, List, [], ◌∷◌, ◌++◌, map, length, ◌==◌, string_eq,
  nat_eq, if◌then◌else◌, keep_if, get_or,
}
use nz.State.Model.{
  User, MachineView, Grant, UserStatus, MachineStatus, user_status_eq, machine_status_eq,
}
use nz.Command.Text.{◌⧺◌, joined, decimal, blue, green, yellow, red_soft, bold, reset}
use nz.Command.Table.{print_table}

abbrev pub dash : String → String
dash s = if s == "" then "-" else s

abbrev pub yes_no : Bool → String
yes_no b = if b then "yes" else "no"

abbrev pub status_color : String → String
status_color s =
    if s == "local"
    then blue
    else if s == "active" || s == "online"
    then green
    else if s == "pending"
    then yellow
    else if s == "blocked" || s == "offline"
    then red_soft
    else if s == "unknown"
    then yellow
    else reset

contains : String → List String → Bool
contains s [] = false
contains s (t ∷ rest) = t == s || contains s rest

-- The loop of trustOf: each target once, in the order of the grants.
collect : String → String → List String → List Grant → List String
unfolding contains
collect user machine found [] = found
collect user machine found (g ∷ grants) =
    let skip = collect user machine found grants in
    let take = collect user machine (found ++ g.target ∷ []) grants in
    if not (g.subject == user ⧺ "/" ⧺ machine) && not (g.subject == user)
    then skip
    else if contains g.target found
    then skip
    else take

dash_if_none : List String → String
unfolding joined
dash_if_none [] = "-"
dash_if_none (s ∷ rest) = joined "," (s ∷ rest)

unfoldable pub trust_of : List Grant → String → String → String
unfolding collect dash_if_none
trust_of grants user machine = dash_if_none (collect user machine [] grants)

abbrev pub user_status_text : UserStatus → String
user_status_text s = elim s [
  | UserStatus.pending ↦ "pending"
  | UserStatus.active ↦ "active"
  | UserStatus.blocked ↦ "blocked"
]

abbrev pub machine_status_text : MachineStatus → String
machine_status_text s = elim s [
  | MachineStatus.pending ↦ "pending"
  | MachineStatus.active ↦ "active"
  | MachineStatus.blocked ↦ "blocked"
]

pub record Group : Type 0 where
  pub user : String
  pub status : String
  pub machines : List MachineView

abbrev pub is_pending : MachineView → Bool
is_pending m = m.machine.status == MachineStatus.pending

-- The machines of one user that are shown.
unfoldable pub shown_of : Bool → List MachineView → User → List MachineView
shown_of pending_only machines u =
    let own = keep_if (λ m. m.machine.user == u.name) machines in
    if pending_only then keep_if is_pending own else own

abbrev pub is_left_out : Bool → User → List MachineView → Bool
is_left_out pending_only u shown =
    pending_only && not (u.status == UserStatus.pending) && length shown == 0

unfoldable pub groups : Bool → List MachineView → List User → List Group
unfolding shown_of
groups pending_only machines [] = []
groups pending_only machines (u ∷ users) =
    let shown = shown_of pending_only machines u in
    let rest = groups pending_only machines users in
    if is_left_out pending_only u shown
    then rest
    else record { user = u.name; status = user_status_text u.status; machines = shown } ∷ rest

-- `width` is runewidth.StringWidth, and `time_text` is the format "01-02 15:04" of a time.
module _ (width : String → ℕ) (time_text : ℕ → String) where
  unfoldable pub format_seen : ℕ → String
  format_seen t = if t == 0 then "-" else time_text t

  abbrev pub shown_status : MachineView → String
  shown_status m = if m.self then "local" else machine_status_text m.machine.status

  abbrev pub shown_trust : MachineView → String → String
  shown_trust m trust = if m.machine.trusted && trust == "-" then "Trust" else trust

  unfoldable pub machine_cells : List Grant → MachineView → List String
  unfolding format_seen trust_of
  machine_cells grants m =
      m.machine.name
      ∷ dash m.machine.vpn_ip
      ∷ shown_status m
      ∷ dash m.machine.fingerprint
      ∷ format_seen m.machine.last_seen
      ∷ shown_trust m (trust_of grants m.machine.user m.machine.name)
      ∷ []

  unfoldable pub overview_cells : Group → List String
  unfolding decimal
  overview_cells g = g.user ∷ decimal (length g.machines) ∷ g.status ∷ []

  -- The colour of column 2 is that of the status that stands there.
  abbrev pub state_color : List (List String) → ℕ → ℕ → String → String
  state_color rows row column cell =
      if column == 2 then status_color (get_or (get_or rows row []) 2 "") else reset

  abbrev pub machine_header : List String
  machine_header = "Machine" ∷ "VPN IP" ∷ "Status" ∷ "Key" ∷ "Last Seen" ∷ "Trust" ∷ []

  unfoldable pub group_lines : List Grant → Group → List String
  unfolding machine_cells print_table
  group_lines grants g =
      ""
      ∷ (bold ⧺ g.user ⧺ reset)
      ∷ (if length g.machines == 0
          then "  no machines" ∷ []
          else (let rows = map (machine_cells grants) g.machines in
              print_table width machine_header rows (state_color rows)))

  unfoldable pub all_group_lines : List Grant → List Group → List String
  unfolding group_lines
  all_group_lines grants [] = []
  all_group_lines grants (g ∷ rest) = group_lines grants g ++ all_group_lines grants rest

  -- What printUserTable prints, line by line.
  unfoldable pub print_user_table : List User → List MachineView → List Grant → Bool → List String
  unfolding groups overview_cells print_table all_group_lines
  print_user_table users machines grants pending_only =
      let shown = groups pending_only machines users in
      let overview = map overview_cells shown in
      ""
      ∷ (print_table width ("User" ∷ "Machines" ∷ "State" ∷ []) overview (state_color overview)
          ++ all_group_lines grants shown
          ++ "" ∷ [])
