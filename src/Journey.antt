-- ===== src/Journey.antt =====
-- internal/node/data.go and internal/server/data.go together: the way of a packet from the device of
-- one machine through the server to the device of another.
use nz.Base.{
  ℕ, ◌-◌, ◌<◌, ◌^◌, ◌≡◌, refl, ap, ◌∙◌, Bool, true, false, arith, List, [], ◌∷◌, ◌++◌, Option, some,
  ◌==◌, nat_eq, length, ltb,
}
use nz.Netip.{Addr, addr_eq, addr_beq_iff, AddrPort, IsAddr}
use nz.State.Model.{Machine}
use nz.Protocol.Envelope.{marshal}
use nz.Protocol.Signed.{
  SignedMessage, signed, signature_size, public_key_size, sign_bytes, marshal_signed, parse_signed,
  verify_signed,
}
use nz.Protocol.Signed.Laws.{parse_signed-marshal_signed}
use nz.Protocol.Sealed.{nonce_size, key_size, seal, unseal, sealed, unseal-seal}
use nz.Protocol.MsgType
use nz.Server.Model
use nz.Server.Model.{Server}
use nz.Server.Policy.{machine_keys}
use nz.Server.Sending.{ip_endpoint}
use nz.Server.Relay.Passing.{CanRelay}
use nz.Server.Handling.{serve}
use nz.Server.Handling.Passing.{serve-passes}
use nz.Node.Model.{Node, Env, Peer, server_ip, send_envelope, send_to_addr}
use nz.Node.Waiting.{Pause}
use nz.Node.Peers.{lookup_peer, peer_refresh_after}
use nz.Node.Outgoing.{send_to, data_body}
use nz.Node.Outgoing.Direct.{send_to-relayed}
use nz.Node.Incoming.{read_udp}
use nz.Node.Incoming.Delivery.{read_udp-delivers}

-- The sender listens, and has asked for the receiver within the second: it may call, and the receiver
-- may not call back.
pub record CanSend (a : Node) (dst : Addr) (p : Peer) (now : ℕ) : Type 0 where
  pub listening : a.self_blocked ≡ false
  pub other : (dst == server_ip a) ≡ false
  pub known : lookup_peer dst a ≡ some p
  pub fresh : ltb (now - p.last_seen) peer_refresh_after ≡ true
  pub may : p.can_call ≡ true
  pub back : p.can_call_back ≡ false
  pub key : length p.key ≡ key_size

-- The receiver listens and knows the sender, who may call it.
pub record CanReceive (b : Node) (src : Addr) (p : Peer) : Type 0 where
  pub listening : b.self_blocked ≡ false
  pub known : lookup_peer src b ≡ some p
  pub may : p.can_call_back ≡ true

-- The signed message in which a packet travels, with its payload.
abbrev pub cipher_text : Env → Peer → List ℕ → List ℕ → List ℕ
cipher_text e p nonce raw = nonce ++ e.crypto.aead.encrypt p.key nonce raw

abbrev pub message : Env → Peer → List ℕ → List ℕ → Node → Addr → SignedMessage
message e p nonce raw a dst = record {
  typ = MsgType.plain_data;
  src_ip = a.vpn_ip;
  dst_ip = dst;
  payload = cipher_text e p nonce raw;
}

abbrev pub body : Env → Peer → List ℕ → List ℕ → Node → Addr → List ℕ
body e p nonce raw a dst = marshal_signed (message e p nonce raw a dst) e.crypto.sign

abbrev pub datagram : Env → Peer → List ℕ → List ℕ → Node → Addr → List ℕ
datagram e p nonce raw a dst =
    marshal (record { typ = MsgType.relay_data; body = body e p nonce raw a dst })

-- What the keys of two environments have to do with each other.
pub record Paired (ea : Env) (verify : List ℕ → List ℕ → List ℕ → Bool) (sign_pub : List ℕ)
    : Type 0 where
  pub sign_size : (text : List ℕ) → length (ea.crypto.sign text) ≡ signature_size
  pub pub_size : length sign_pub ≡ public_key_size
  pub accepts : (text : List ℕ) → verify sign_pub text (ea.crypto.sign text) ≡ true

Paired-verify :
    (ea : Env) (verify : List ℕ → List ℕ → List ℕ → Bool) (sign_pub : List ℕ) (m : SignedMessage)
    → Paired ea verify sign_pub
    → verify_signed verify m (ea.crypto.sign (sign_bytes m)) sign_pub ≡ true
unfolding verify_signed
Paired-verify ea verify sign_pub m h =
    ground (arith, h.sign_size (sign_bytes m), h.pub_size, h.accepts (sign_bytes m))

encrypted :
    (e : Env) (nonce raw : List ℕ) (p : Peer)
    → length p.key ≡ key_size
    → seal e.crypto.aead nonce p.key raw ≡ sealed (cipher_text e p nonce raw)
unfolding seal
encrypted e nonce raw p size = ground (arith, size)

-- The receiver opens what the sender has sealed, if they share the key and the ciphers are the same.
decrypted :
    (ea eb : Env) (nonce raw : List ℕ) (p q : Peer)
    → length p.key ≡ key_size
    → length nonce ≡ nonce_size
    → q.key ≡ p.key
    → eb.crypto.aead ≡ ea.crypto.aead
    → ea.crypto.aead.decrypt p.key nonce (ea.crypto.aead.encrypt p.key nonce raw) ≡ some raw
    → unseal eb.crypto.aead q.key (cipher_text ea p nonce raw) ≡ sealed raw
decrypted ea eb nonce raw p q size nonce_length same cipher inverse =
    ap (λ c. unseal c q.key (cipher_text ea p nonce raw)) cipher
    ∙ ap (λ key. unseal ea.crypto.aead key (cipher_text ea p nonce raw)) same
    ∙ unseal-seal ea.crypto.aead nonce p.key raw (cipher_text ea p nonce raw) nonce_length inverse
        (encrypted ea nonce raw p size)

-- Two nodes with different valid addresses share a key of the right size, their ciphers are the same,
-- and neither is blocked. The first has heard of the second within the second, is not asked to send to
-- the server itself, and may call it but not be called by it; the second knows the first, which may
-- call it. The server is connected, knows both machines as active, lets the first call the second, and
-- has an endpoint of the second. The signatures of the first have the right size and verify under the
-- keys of the right size that the server and the second node hold of it; the cipher decrypts what it
-- encrypts, the nonce has its size, and the message is shorter than 2 ^ 32 bytes. Then a packet that the
-- first node sends goes out as one datagram to the server, the server sends the same bytes on to the
-- endpoint of the second node, and that node writes the packet, unchanged, to its device.
pub packet_arrives :
    (ea eb : Env) (es : Model.Env) (a b : Node) (s : Server) (p q : Peer) (src dst : Machine)
    (w : Pause) (nonce raw : List ℕ) (remote : AddrPort) (now at later : ℕ)
    (random : Option (List ℕ))
    → CanSend a b.vpn_ip p now
    → CanRelay (message ea p nonce raw a b.vpn_ip) src dst s
    → CanReceive b a.vpn_ip q
    → Paired ea es.crypto.verify (machine_keys src).0
    → Paired ea eb.crypto.verify q.sign_pub
    → IsAddr a.vpn_ip
    → IsAddr b.vpn_ip
    → (a.vpn_ip == b.vpn_ip) ≡ false
    → length nonce ≡ nonce_size
    → q.key ≡ p.key
    → eb.crypto.aead ≡ ea.crypto.aead
    → ea.crypto.aead.decrypt p.key nonce (ea.crypto.aead.encrypt p.key nonce raw) ≡ some raw
    → length (body ea p nonce raw a b.vpn_ip) < 2 ^ 32
    → ((send_to ea w nonce b.vpn_ip raw now a).sent
        ≡ a.sent ++ record { to = a.server_addr; bytes = datagram ea p nonce raw a b.vpn_ip } ∷ [])
      × ((serve es (datagram ea p nonce raw a b.vpn_ip) remote at random s).sent
          ≡ s.sent
            ++ record { to = ip_endpoint b.vpn_ip s; bytes = datagram ea p nonce raw a b.vpn_ip }
              ∷ [])
      × ((read_udp eb (datagram ea p nonce raw a b.vpn_ip) b.server_addr later b).written
          ≡ b.written ++ raw ∷ [])
unfolding send_envelope send_to_addr data_body
packet_arrives ea eb es a b s p q src dst w nonce raw remote now at later random send relay receive
      paired_server paired_node addr_a addr_b apart nonce_length same cipher inverse short =
    let m : SignedMessage = message ea p nonce raw a b.vpn_ip in
    let read : parse_signed (body ea p nonce raw a b.vpn_ip)
        ≡ signed m (ea.crypto.sign (sign_bytes m)) =
      parse_signed-marshal_signed m ea.crypto.sign addr_a addr_b
        (paired_node.sign_size (sign_bytes m)) in
    (
      ap (λ (t : Node). t.sent)
          (send_to-relayed ea w nonce b.vpn_ip raw now a p (cipher_text ea p nonce raw)
            send.listening send.other send.known send.fresh send.may send.back
            (encrypted ea nonce raw p send.key)),
      serve-passes es m src dst s (ea.crypto.sign (sign_bytes m)) (body ea p nonce raw a b.vpn_ip)
          remote at random relay read
          (Paired-verify ea es.crypto.verify (machine_keys src).0 m paired_server) apart short,
      read_udp-delivers eb (body ea p nonce raw a b.vpn_ip) b.server_addr later m
          (ea.crypto.sign (sign_bytes m)) raw q read
          (Paired-verify ea eb.crypto.verify q.sign_pub m paired_node)
          (decrypted ea eb nonce raw p q send.key nonce_length same cipher inverse) receive.may b
          short receive.listening receive.known apart ((addr_beq_iff b.vpn_ip b.vpn_ip).1 refl),
    )
