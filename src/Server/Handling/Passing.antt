-- ===== src/Server/Handling/Passing.antt =====
-- internal/server/server.go and data.go: a datagram to be relayed, from the socket to the socket.
use nz.Base.{
  ℕ, ◌<◌, ◌^◌, ◌≡◌, ap, ◌∙◌, true, false, not, List, [], ◌∷◌, ◌++◌, Option, ◌==◌, nat_eq, length,
  if_false,
}
use nz.Netip.{addr_eq, AddrPort}
use nz.State.Model.{Machine, machine_status_eq}
use nz.Protocol.Envelope.{Envelope, Parsed, parsed, failed, marshal}
use nz.Protocol.Envelope.RoundTrip.{unmarshal-marshal}
use nz.Protocol.Signed.{SignedMessage, SignedParse, signed, too_short, parse_signed, verify_signed}
use nz.Protocol.MsgType
use nz.Server.Model.{Server, Env}
use nz.Server.Policy.{machine_keys}
use nz.Server.Sending.{ip_endpoint}
use nz.Server.Relay.{verify_machine}
use nz.Server.Relay.Passing.{CanRelay, verify_machine-sender, relay_data-passes}
use nz.Server.Handling.{dispatch, accept, handle_signed, handle, serve}

module _ (e : Env) (m : SignedMessage) (src dst : Machine) (s : Server) (sig body : List ℕ)
    (remote : AddrPort) (now : ℕ) (random : Option (List ℕ)) (c : CanRelay m src dst s)
    (read : parse_signed body ≡ signed m sig)
    (good : verify_signed e.crypto.verify m sig (machine_keys src).0 ≡ true)
    (apart : (m.src_ip == m.dst_ip) ≡ false) where
  abbrev envelope : Envelope
  envelope = record { typ = MsgType.relay_data; body = body }

  passed_on :
      (handle e envelope remote now random s).sent
      ≡ s.sent ++ record { to = ip_endpoint m.dst_ip s; bytes = marshal envelope } ∷ []
  unfolding handle handle_signed accept dispatch
  passed_on =
      ap
        (λ (r : SignedParse).
          let t : Server = elim r [
            | too_short _ ↦ s
            | signed m sig ↦ accept e envelope m remote now s (verify_machine e m sig s)
          ] in
          t.sent)
        read
      ∙ ap (λ o. (accept e envelope m remote now s o).sent)
          (verify_machine-sender m src dst s c e sig good)
      ∙ ap (λ (t : Server). t.sent) (if_false _ _ _ (ap not c.sender_active))
      ∙ relay_data-passes m src dst s c body remote now apart

  pub serve-passes :
      length body < 2 ^ 32
      → (serve e (marshal envelope) remote now random s).sent
        ≡ s.sent ++ record { to = ip_endpoint m.dst_ip s; bytes = marshal envelope } ∷ []
  unfolding serve
  serve-passes short =
      ap
        (λ (r : Parsed).
          let t : Server = elim r [
            | failed _ ↦ s
            | parsed env ↦ handle e env remote now random s
          ] in
          t.sent)
        (unmarshal-marshal envelope short)
      ∙ passed_on
