-- ===== src/Server/Local.antt =====
-- internal/server/data.go: traffic between a machine and the server itself, through the local device.
pub mod Laws
pub mod Store
use nz.Base.{
  ℕ, ◌/◌, not, List, [], ◌∷◌, ◌++◌, Option, none, some, ◌==◌, nat_eq, if◌then◌else◌, ltb, get_or,
  length,
}
use nz.Netip.{Addr, addr_eq, AddrPort, is_valid, from_4, to_string}
use nz.State.Model.{Machine, MachineStatus, machine_status_eq, find_machine_by_ip}
use nz.Protocol.Signed.{SignedMessage, marshal_signed}
use nz.Protocol.Sealed.{SealResult, sealed, refused, seal, unseal}
use nz.Protocol.MsgType
use nz.Server.Model.{Server, Env}
use nz.Server.Policy.{allow_relay, server_machine, machine_keys}
use nz.Server.Sending.{send_raw, ip_endpoint, server_ip}

module _ (e : Env) where
  opened : SealResult → Server → Server
  opened (refused _) s = s
  opened (sealed plain) s = record s { written = s.written ++ plain ∷ [] }

  open_with : List ℕ → Option (List ℕ) → Server → Server
  unfolding opened unseal
  open_with payload none s = s
  open_with payload (some key) s = opened (unseal e.crypto.aead key payload) s

  unfoldable pub local_data : SignedMessage → Machine → Server → Server
  unfolding allow_relay open_with machine_keys
  local_data m src s =
      if not (allow_relay s src (server_machine s))
      then s
      else if not s.has_tun
      then s
      else open_with m.payload (e.crypto.shared_key (machine_keys src).1) s

  sealed_data : Addr → AddrPort → SealResult → Server → Server
  unfolding send_raw marshal_signed server_ip
  sealed_data dst addr (refused _) s = s
  sealed_data dst addr (sealed cipher) s =
      send_raw
        (record {
          typ = MsgType.plain_data;
          body =
              marshal_signed
                (record {
                  typ = MsgType.plain_data;
                  src_ip = server_ip s;
                  dst_ip = dst;
                  payload = cipher;
                })
                e.crypto.sign;
        })
        addr s

  seal_with : Addr → AddrPort → List ℕ → List ℕ → Option (List ℕ) → Server → Server
  unfolding sealed_data seal
  seal_with dst addr nonce raw none s = s
  seal_with dst addr nonce raw (some key) s =
      sealed_data dst addr (seal e.crypto.aead nonce key raw) s

  local_to : Addr → List ℕ → List ℕ → Machine → Server → Server
  unfolding allow_relay ip_endpoint seal_with machine_keys
  local_to dst nonce raw m s =
      if not (m.status == MachineStatus.active)
      then s
      else if not (allow_relay s (server_machine s) m)
      then s
      else if not (is_valid (ip_endpoint dst s))
      then s
      else seal_with dst (ip_endpoint dst s) nonce raw (e.crypto.shared_key (machine_keys m).1) s

  -- `nonce` is what rand.Read gives to `Seal`.
  unfoldable pub send_local_data : Addr → List ℕ → List ℕ → Server → Server
  unfolding local_to to_string
  send_local_data dst nonce raw s = elim (find_machine_by_ip (to_string dst) s.st) [
    | none ↦ s
    | some m ↦ local_to dst nonce raw m s
  ]

  abbrev pub packet_target : List ℕ → Addr
  packet_target raw = from_4 (get_or raw 16 0) (get_or raw 17 0) (get_or raw 18 0) (get_or raw 19 0)

  -- One round of the loop of `readFromTUN`, on the packet that was read.
  unfoldable pub read_packet : List ℕ → List ℕ → Server → Server
  unfolding send_local_data server_ip
  read_packet nonce raw s =
      if ltb (length raw) 20
      then s
      else if not (get_or raw 0 0 / 16 == 4)
      then s
      else if packet_target raw == server_ip s
      then s
      else send_local_data (packet_target raw) nonce raw s
