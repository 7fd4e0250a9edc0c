-- ===== src/Server/Joining.antt =====
-- internal/server/server.go: the join handshake. A message body comes in as its bytes; `now` is the
-- clock and `random` what rand.Read gives, `none` if it fails.
pub mod Laws
pub mod Store
pub mod Acceptance
pub mod Replay
use nz.Base.{
  ℕ, ℤ, pos, String, Bool, true, false, not, ◌&&◌, ◌||◌, List, [], ◌∷◌, ◌++◌, Option, none, some,
  ◌==◌, string_eq, nat_eq, if◌then◌else◌, lookup, insert, erase,
}
use nz.Base64.{encode}
use nz.Netip.{Addr, AddrPort, Prefix, parse_addr, parse_prefix, contains, octet_3}
use nz.State.Model.{
  State, User, Machine, MachineStatus, machine_status_eq, Error, find_user, find_machine,
}
use nz.State.Roster
use nz.State.Join.{JoinArgs, register_join, set_machine_ip, is_zero}
use nz.State.Alloc.{Allocated, allocated, refused, allocate_ip}
use nz.Protocol.MsgType
use nz.Protocol.Proof.{verify_proof}
use nz.Server.Model.{
  Server, Env, JoinRequest, JoinProof, JoinReply, JoinError, parts_required, unknown_user,
  no_challenge, proof_failed, store_error,
}
use nz.Server.Policy.{admin_name, decode_b64}
use nz.Server.Sending.{join_key, remember_endpoint, send_envelope, send_join_reply}

abbrev pub key_string : List ℕ → String
key_string = encode

abbrev pub status_text : MachineStatus → String
status_text MachineStatus.pending = "pending"
status_text MachineStatus.active = "active"
status_text MachineStatus.blocked = "blocked"

-- `JoinReply{Result: …}` and its error forms; the address and the server key are put in later.
abbrev pub reply_with : String → JoinReply
reply_with result = record { result = result; error = none; vpn_ip = ""; server_pub = [] }

abbrev pub rejected : JoinError → JoinReply
rejected error = record { result = "rejected"; error = some error; vpn_ip = ""; server_pub = [] }

-- A status that a failed join leaves out reads as "".
abbrev pub text_of : Option MachineStatus → String
text_of none = ""
text_of (some status) = status_text status

abbrev is_empty : List ℕ → Bool
is_empty [] = true
is_empty (_ ∷ _) = false

-- The error of an assignment that is only logged.
assign_ip : String → String → Allocated → Server → Server
unfolding set_machine_ip
assign_ip user machine (refused _) s = s
assign_ip user machine (allocated ip) s = record s { st = (set_machine_ip user machine ip s.st).0 }

in_subnet : Prefix → Option Addr → Bool
in_subnet p none = false
in_subnet p (some ip) = contains p ip

move_into : String → String → Machine → Option Prefix → Server → Server
unfolding in_subnet assign_ip allocate_ip parse_addr
move_into user machine m none s = s
move_into user machine m (some p) s =
    if in_subnet p (parse_addr m.vpn_ip)
    then s
    else assign_ip user machine (allocate_ip s.cfg.subnet m.desired_ip s.st) s

unfoldable pub ensure_in_subnet : String → String → Server → Server
unfolding move_into parse_prefix
ensure_in_subnet user machine s = elim (find_machine user machine s.st) [
  | none ↦ s
  | some m ↦ if m.vpn_ip == "" then s else move_into user machine m (parse_prefix s.cfg.subnet) s
]

abbrev is_octet : ℤ → ℕ → Bool
is_octet (pos n) b = n == b
is_octet _ b = false

unfoldable pub rebind_desired : String → String → ℤ → Server → Server
unfolding assign_ip allocate_ip parse_addr
rebind_desired user machine desired s =
    if is_zero desired then s else elim (find_machine user machine s.st) [
      | none ↦ s
      | some m ↦ if m.vpn_ip == "" then s else elim (parse_addr m.vpn_ip) [
        | none ↦ s
        | some ip ↦
            if is_octet desired (octet_3 ip)
            then s
            else assign_ip user machine (allocate_ip s.cfg.subnet desired s.st) s
      ]
    ]

abbrev desired_in : Option Machine → ℤ
desired_in none = pos 0
desired_in (some m) = m.desired_ip

unfoldable pub desired_of : String → String → Server → ℤ
desired_of user machine s = desired_in (find_machine user machine s.st)

-- `return err == nil` of the last assignment.
assigned : String → String → Allocated → Server → Server × Bool
unfolding set_machine_ip
assigned user machine (refused _) s = (s, false)
assigned user machine (allocated ip) s =
    let (st, failure) = set_machine_ip user machine ip s.st in
    (record s { st = st }, elim failure [ none ↦ true | some _ ↦ false ])

approve_admin : String → String → State × Option Error → Server → Server × Bool
unfolding assigned allocate_ip desired_of
approve_admin user machine (st, some _) s = (record s { st = st }, false)
approve_admin user machine (st, none) s =
    let s' : Server = record s { st = st } in
    assigned user machine (allocate_ip s.cfg.subnet (desired_of user machine s') st) s'

unfoldable pub auto_approve_admin : String → String → Server → Server × Bool
unfolding approve_admin
auto_approve_admin user machine s =
    if not (user == admin_name s)
    then (s, false)
    else approve_admin user machine (Roster.allow user machine s.st) s

bytes_of : Option (List ℕ) → List ℕ
bytes_of none = []
bytes_of (some bytes) = bytes

-- A verifier that cannot be read is empty.
unfoldable pub decode_verifier : User → List ℕ
unfolding bytes_of decode_b64
decode_verifier u = bytes_of (decode_b64 u.verifier)

address_of : Option Machine → String
address_of none = ""
address_of (some m) = m.vpn_ip

module _ (e : Env) where
  abbrev pub request_args : JoinRequest → JoinArgs
  request_args r = record {
    user = r.user;
    machine = r.machine;
    public = key_string r.public;
    fingerprint = e.crypto.fingerprint r.public;
    salt = r.salt;
    verifier = r.verifier;
    desired = r.desired_ip;
  }

  abbrev pub proof_args : JoinProof → JoinArgs
  proof_args p = record {
    user = p.user;
    machine = p.machine;
    public = key_string p.public;
    fingerprint = e.crypto.fingerprint p.public;
    salt = [];
    verifier = [];
    desired = p.desired_ip;
  }

  -- The reply to the first join of a new user.
  answer_registration : AddrPort → State × Option MachineStatus × Option Error → Server → Server
  unfolding send_join_reply
  answer_registration remote (st, status, some failure) s =
      send_join_reply e remote (rejected (store_error failure)) (record s { st = st })
  answer_registration remote (st, status, none) s =
      send_join_reply e remote (reply_with (text_of status)) (record s { st = st })

  challenge : JoinRequest → AddrPort → Option (List ℕ) → Server → Server
  unfolding send_envelope
  challenge r remote none s = s
  challenge r remote (some nonce) s =
      send_envelope remote MsgType.join_challenge (e.json.write_challenge nonce)
        (record s { nonces = insert (join_key r.user r.machine) nonce s.nonces })

  unfoldable pub join_request : JoinRequest → AddrPort → ℕ → Option (List ℕ) → Server → Server
  unfolding answer_registration challenge remember_endpoint register_join
  join_request r remote now random s =
      if r.user == "" || r.machine == "" || is_empty r.public
      then send_join_reply e remote (rejected parts_required) s
      else (let s' = remember_endpoint r.user r.machine remote s in
          elim (find_user r.user s'.st) [
            | none ↦ answer_registration remote (register_join (request_args r) now s'.st) s'
            | some _ ↦ challenge r remote random s'
          ])

  unfoldable pub handle_join_request : List ℕ → AddrPort → ℕ → Option (List ℕ) → Server → Server
  unfolding join_request
  handle_join_request body remote now random s = elim (e.json.read_join_request body) [
    | none ↦ s
    | some r ↦ join_request r remote now random s
  ]

  -- What a join of an accepted machine does to its address and its approval, and the result to report.
  settle : JoinProof → MachineStatus → Server → Server × String
  unfolding ensure_in_subnet rebind_desired auto_approve_admin
  settle p status s =
      let s' = rebind_desired p.user p.machine p.desired_ip (ensure_in_subnet p.user p.machine s) in
      if status == MachineStatus.pending
      then (let (s'', approved) = auto_approve_admin p.user p.machine s' in
          (s'', if approved then "active" else status_text status))
      else (s', status_text status)

  finish_join : JoinProof → AddrPort → Server × String → Server
  unfolding send_join_reply address_of
  finish_join p remote (s, result) =
      send_join_reply e remote
        (record (reply_with result) { vpn_ip = address_of (find_machine p.user p.machine s.st) }) s

  pub complete_join :
      JoinProof → AddrPort → State × Option MachineStatus × Option Error → Server → Server
  unfolding settle finish_join send_join_reply
  complete_join p remote (st, status, some failure) s =
      send_join_reply e remote (rejected (store_error failure)) (record s { st = st })
  complete_join p remote (st, some status, none) s =
      finish_join p remote (settle p status (record s { st = st }))
  complete_join p remote (st, none, none) s =
      finish_join p remote (settle_blank (record s { st = st }))
    where
      settle_blank : Server → Server × String
      settle_blank s' =
          (rebind_desired p.user p.machine p.desired_ip (ensure_in_subnet p.user p.machine s'), "")

  check_proof : JoinProof → User → Option (List ℕ) → AddrPort → ℕ → Server → Server
  unfolding complete_join decode_verifier remember_endpoint register_join
  check_proof p u none remote now s = send_join_reply e remote (rejected no_challenge) s
  check_proof p u (some nonce) remote now s =
      if not
        (verify_proof e.crypto.hmac (decode_verifier u) p.proof nonce p.user p.machine p.public)
      then send_join_reply e remote (rejected proof_failed) s
      else (let s' = remember_endpoint p.user p.machine remote s in
          complete_join p remote (register_join (proof_args p) now s'.st) s')

  unfoldable pub join_proof : JoinProof → AddrPort → ℕ → Server → Server
  unfolding check_proof lookup erase
  join_proof p remote now s = elim (find_user p.user s.st) [
    | none ↦ send_join_reply e remote (rejected unknown_user) s
    | some u ↦
        check_proof p u (lookup (join_key p.user p.machine) s.nonces) remote now
          (record s { nonces = erase (join_key p.user p.machine) s.nonces })
  ]

  unfoldable pub handle_join_proof : List ℕ → AddrPort → ℕ → Server → Server
  unfolding join_proof
  handle_join_proof body remote now s = elim (e.json.read_join_proof body) [
    | none ↦ s
    | some p ↦ join_proof p remote now s
  ]
