-- ===== src/State/Target.antt =====
-- internal/state/state.go, ParseTarget: "friend" and "friend/laptop".
use nz.Base.{String, ◌==◌, nat_eq, string_eq, if◌then◌else◌, cut}
use nz.State.Model.{Error, target_empty, no_user_part}

-- Go's (string, string, error).
pub data Target : Type 0 where
  target : String → String → Target
  bad_target : Error → Target

unfoldable pub parse_target : String → Target
unfolding cut
parse_target text =
    if text == ""
    then bad_target target_empty
    else (let (user, machine) = cut b'/' text in
        if user == "" then bad_target (no_user_part text) else target user machine)
