-- ===== src/Node/Joining.antt =====
-- internal/node/node.go: how a node finds its server and joins.
pub mod Soundness
use nz.Base.{
  ℕ, ℤ, pos, negsuc, ◌+◌, ◌*◌, ◌-◌, ◌%◌, ◌^◌, Bool, true, false, not, ltb, String, List, [], ◌∷◌,
  Option, none, some, ◌==◌, nat_eq, string_eq, if◌then◌else◌, length, erase,
}
use nz.Netip.{
  Addr, addr_eq, v4, from_4, octet_0, octet_1, octet_2, number, Prefix, AddrPort, parse_addr,
  to_string,
}
use nz.Identity.{split_public}
use nz.State.Model.{State, ServerAuth, save_locked}
use nz.Protocol.Envelope.{Envelope}
use nz.Protocol.Answer.{public_blob_size}
use nz.Protocol.Proof.{bytes_eq, proof}
use nz.Protocol.MsgType
use nz.Server.Model.{JoinRequest, JoinProof}
use nz.Daemon.{user_salt}
use nz.Node.Model.{Node, Env, Reply, server_ip, server_keys, send_envelope}
use nz.Node.Waiting.{Pause, wait_join, wait_approve}

pub data NodeError : Type 0 where
  no_name no_address : String → NodeError
  no_socket : NodeError
  timeout unread : NodeError
  unexpected : ℕ → NodeError
  refusal : String → NodeError
  -- The errors that wrap `errFatal`.
  bad_vpn_ip : String → NodeError
  no_device : NodeError

abbrev pub is_fatal : NodeError → Bool
is_fatal (bad_vpn_ip _) = true
is_fatal no_device = true
is_fatal _ = false

-- Go's (value, error).
pub data Answer {ℓ} (A : Type ℓ) : Type ℓ where
  done : A → Answer A
  failed : NodeError → Answer A

-- `uint16` of an `int`.
abbrev pub uint16 : ℤ → ℕ
uint16 (pos n) = n % 2 ^ 16
uint16 (negsuc n) = (2 ^ 16 - (n + 1) % 2 ^ 16) % 2 ^ 16

first_of : String → ℕ → List Addr → Answer AddrPort
first_of host port [] = failed (no_address host)
first_of host port (addr ∷ _) = done (record { addr = addr; port = port })

looked_up : String → ℕ → Option (List Addr) → Answer AddrPort
unfolding first_of
looked_up host port none = failed (no_name host)
looked_up host port (some addrs) = first_of host port addrs

-- `dns` is the resolver, `none` if it fails.
unfoldable pub resolve : (String → Option (List Addr)) → String → ℤ → Answer AddrPort
unfolding looked_up parse_addr
resolve dns host port = elim (parse_addr host) [
  | some addr ↦ done (record { addr = addr; port = uint16 port })
  | none ↦ looked_up host (uint16 port) (dns host)
]

connect_at : Answer AddrPort → Bool → Node → Node × Option NodeError
connect_at (failed error) opens n = (n, some error)
connect_at (done addr) false n = (record n { server_addr = addr }, some no_socket)
connect_at (done addr) true n = (record n { server_addr = addr; connected = true }, none)

-- `opens` says whether the socket can be opened.
unfoldable pub connect : (String → Option (List Addr)) → Bool → Node → Node × Option NodeError
unfolding connect_at resolve
connect dns opens n = connect_at (resolve dns n.cfg.domain n.cfg.port) opens n

-- `PrefixFrom` of the first three bytes, with 24 bits.
abbrev pub subnet_of : Addr → Prefix
subnet_of ip = record { addr = number (from_4 (octet_0 ip) (octet_1 ip) (octet_2 ip) 0); bits = 24 }

adopt : Bool → Option Addr → String → Node → Node × Option NodeError
unfolding to_string
adopt creates none text n = (n, some (bad_vpn_ip text))
adopt creates (some ip) text n =
    let n' : Node = record n { vpn_ip = ip; subnet = some (subnet_of ip) } in
    if n.has_tun
    then (n', none)
    else if not creates
    then (n', some no_device)
    else (record n' { has_tun = true; conn_state = "joined"; conn_ip = to_string ip }, none)

-- `adoptVPNIP`; `creates` says whether the device can be created.
unfoldable pub adopt_vpn_ip : Bool → String → Node → Node × Option NodeError
unfolding adopt parse_addr
adopt_vpn_ip creates text n = adopt creates (parse_addr text) text n

store_keys : Option (List ℕ × List ℕ) → Node → Node
unfolding server_keys server_ip save_locked
store_keys none n = n
store_keys (some (sign_pub, exch_pub)) n =
    let auth : ServerAuth = record { sign_pub = sign_pub; exch_pub = exch_pub } in
    if (server_keys n).0 == sign_pub then n else record n {
      st = (save_locked (record n.st { server_auth = some auth })).0;
      peers = erase (server_ip n) n.peers;
    }

-- The failure of the write is only logged.
unfoldable pub accept_server_keys : List ℕ → Node → Node
unfolding store_keys split_public
accept_server_keys blob n =
    if not (length blob == public_blob_size) then n else store_keys (split_public blob) n

-- `serverStaleAfter`
abbrev pub server_stale_after : ℕ
server_stale_after = 15 * 1000000000

-- The test of `serverWatch`.
unfoldable pub is_stale : ℕ → Node → Bool
is_stale now n = not (ltb (now - n.last_server_seen) server_stale_after)

-- What may go on around one attempt to join: the waits for the two replies and for the approval, the
-- sleep, and whether the device can be created.
pub record Round : Type 0 where
  pub first_reply : Pause
  pub second_reply : Pause
  pub approval : Pause
  pub sleep : Node → Node
  pub creates : Bool

-- How one round of the loop of `join` ends.
pub data RoundEnd : Type 0 where
  joined again : RoundEnd
  fatal : NodeError → RoundEnd

module _ (e : Env) where
  abbrev pub own_verifier : Node → List ℕ
  own_verifier n = e.crypto.verifier n.cfg.password (user_salt n.cfg.user)

  abbrev pub own_request : Node → JoinRequest
  own_request n = record {
    user = n.cfg.user;
    machine = n.cfg.name;
    public = e.crypto.blob;
    salt = user_salt n.cfg.user;
    verifier = own_verifier n;
    desired_ip = n.cfg.desired_ip;
  }

  abbrev pub own_proof : List ℕ → Node → JoinProof
  own_proof nonce n = record {
    user = n.cfg.user;
    machine = n.cfg.name;
    public = e.crypto.blob;
    proof = proof e.crypto.hmac (own_verifier n) nonce n.cfg.user n.cfg.name e.crypto.blob;
    desired_ip = n.cfg.desired_ip;
  }

  send_proof : List ℕ → Node → Node
  unfolding send_envelope proof
  send_proof nonce n =
      send_envelope MsgType.join_proof (e.json.write_join_proof (own_proof nonce n)) n

  adopted : String → Node × Option NodeError → Node × Answer String
  adopted result (n, none) = (n, done result)
  adopted result (n, some error) = (n, failed error)

  take_reply : Bool → Option Reply → Node → Node × Answer String
  unfolding adopted adopt_vpn_ip accept_server_keys
  take_reply creates none n = (n, failed unread)
  take_reply creates (some r) n =
      if r.result == "rejected"
      then (n, failed (refusal r.error))
      else if r.result == "active"
      then adopted r.result (adopt_vpn_ip creates r.vpn_ip (accept_server_keys r.server_pub n))
      else (accept_server_keys r.server_pub n, done r.result)

  read_reply : Bool → Node × Option Envelope → Node × Answer String
  unfolding take_reply
  read_reply creates (n, none) = (n, failed timeout)
  read_reply creates (n, some env) =
      if not (env.typ == MsgType.join_reply)
      then (n, failed (unexpected env.typ))
      else take_reply creates (e.json.read_join_reply env.body) n

  answer_challenge : Round → Option (List ℕ) → Node → Node × Answer String
  unfolding send_proof read_reply
  answer_challenge w none n = (n, failed unread)
  answer_challenge w (some nonce) n =
      read_reply w.creates (wait_join w.second_reply (send_proof nonce n))

  first_answer : Round → Node × Option Envelope → Node × Answer String
  unfolding answer_challenge read_reply
  first_answer w (n, none) = (n, failed timeout)
  first_answer w (n, some env) =
      if env.typ == MsgType.join_challenge
      then answer_challenge w (e.json.read_challenge env.body) n
      else read_reply w.creates (n, some env)

  unfoldable pub try_join : Round → Node → Node × Answer String
  unfolding first_answer send_envelope user_salt
  try_join w n = first_answer w (
      wait_join w.first_reply
        (send_envelope MsgType.join_request (e.json.write_join_request (own_request n)) n))

  approved : Node × Option NodeError → Node × Answer Bool
  approved (n, none) = (n, done true)
  approved (n, some error) = (n, failed error)

  notified : Bool → Option String → Node → Node × Answer Bool
  unfolding approved adopt_vpn_ip
  notified creates none n = (n, done false)
  notified creates (some ip) n = approved (adopt_vpn_ip creates ip n)

  -- A body that cannot be read counts as a timeout.
  read_notice : Bool → Node × Option Envelope → Node × Answer Bool
  unfolding notified
  read_notice creates (n, none) = (n, done false)
  read_notice creates (n, some env) = notified creates (e.json.read_approve env.body) n

  unfoldable pub wait_for_approval : Round → Node → Node × Answer Bool
  unfolding read_notice
  wait_for_approval w n = read_notice w.creates (wait_approve w.approval n)

  after_wait : Node × Answer Bool → Node × RoundEnd
  after_wait (n, done true) = (n, joined)
  after_wait (n, done false) = (n, again)
  after_wait (n, failed error) = (n, fatal error)

  after_try : Round → Node × Answer String → Node × RoundEnd
  unfolding wait_for_approval after_wait
  after_try w (n, failed error) = if is_fatal error then (n, fatal error) else (w.sleep n, again)
  after_try w (n, done result) =
      if result == "active"
      then (n, joined)
      else if result == "pending"
      then after_wait (wait_for_approval w n)
      else (w.sleep n, again)

  unfoldable pub join_round : Round → Node → Node × RoundEnd
  unfolding after_try try_join
  join_round w n = after_try w (try_join w n)

  -- `rest` is the loop from the next round on.
  next_round : Node × RoundEnd → (Node → Node × RoundEnd) → Node × RoundEnd
  next_round (n, again) rest = rest n
  next_round (n, joined) rest = (n, joined)
  next_round (n, fatal error) rest = (n, fatal error)

  -- The loop of `join`, for as long as rounds are given: `again` means that it goes on.
  unfoldable pub join_loop : List Round → Node → Node × RoundEnd
  unfolding join_round next_round
  join_loop [] n = (n, again)
  join_loop (w ∷ ws) n = next_round (join_round w n) (join_loop ws)

  -- One tick of `serverWatch`: a node that has heard nothing for too long joins again.
  unfoldable pub watch_server : List Round → ℕ → Node → Node
  unfolding is_stale join_loop
  watch_server ws now n =
      if is_stale now n then (join_loop ws (record n { last_server_seen = now })).0 else n
