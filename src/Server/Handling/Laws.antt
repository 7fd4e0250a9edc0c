-- ===== src/Server/Handling/Laws.antt =====
-- internal/server/data.go: what a signed message needs to be heard, and who may manage.
use nz.Base.{
  ℕ, ◌≡◌, ◌≢◌, ◌⊎◌, inl, inr, refl, ap, ◌∙◌, true, false, not, ◌&&◌, arith, List, none, some, ◌==◌,
  string_eq, eq_iff, Bool-cases, Option-cases,
}
use nz.Netip.{AddrPort, to_string}
use nz.State.Model.{
  Machine, MachineStatus, machine_status_eq, machine_status_beq_iff, find_machine_by_ip,
}
use nz.Protocol.Envelope.{Envelope}
use nz.Protocol.Signed.{SignedMessage, SignedParse, signed, too_short, parse_signed, verify_signed}
use nz.Server.Model.{Server, Env, AdminRequest, AdminReply}
use nz.Server.Policy.{admin_name, machine_keys}
use nz.Server.Sending.{send_signed, send_raw}
use nz.Server.Relay.{verify_machine, checked_machine}
use nz.Server.Handling.{
  is_data_plane, handle_signed, accept, handle_admin_request, admin_answer, send_admin_reply,
}

-- A message that `handleSigned` acts on.
pub record Heard (e : Env) (env : Envelope) (s : Server) : Type 0 where
  pub message : SignedMessage
  pub sig : List ℕ
  pub src : Machine
  pub read : parse_signed env.body ≡ signed message sig
  pub registered : find_machine_by_ip (to_string message.src_ip) s.st ≡ some src
  pub verified : verify_signed e.crypto.verify message sig (machine_keys src).0 ≡ true
  pub active : is_data_plane env.typ ≡ true → src.status ≡ MachineStatus.active

never_both : (src : Machine) → none ≡ some src → ⊥
never_both src e = cc

some_injective : {a b : Machine} → some a ≡ some b → a ≡ b
some_injective e = cc

active_src :
    (typ : ℕ) (status : MachineStatus)
    → (is_data_plane typ && not (status == MachineStatus.active)) ≡ false
    → is_data_plane typ ≡ true
    → status ≡ MachineStatus.active
active_src typ status miss plane =
    ground (arith, machine_status_beq_iff status MachineStatus.active)

module _ (e : Env) where
  checked :
      (m : SignedMessage) (sig : List ℕ) (s : Server) (src machine : Machine)
      → find_machine_by_ip (to_string m.src_ip) s.st ≡ some machine
      → checked_machine e m sig machine ≡ some src
      → (find_machine_by_ip (to_string m.src_ip) s.st ≡ some src)
        × (verify_signed e.crypto.verify m sig (machine_keys src).0 ≡ true)
  unfolding checked_machine
  checked m sig s src machine found h =
      elim (Bool-cases (verify_signed e.crypto.verify m sig (machine_keys machine).0)) [
        | inl hit ↦
            let same = some_injective (rw (hit, checked_machine) at h) in
            (found ∙ ap some same, rw (← same) hit)
        | inr miss ↦ absurd (never_both src (rw (miss, checked_machine) at h))
      ]

  verify_machine-verified :
      (m : SignedMessage) (sig : List ℕ) (s : Server) (src : Machine)
      → verify_machine e m sig s ≡ some src
      → (find_machine_by_ip (to_string m.src_ip) s.st ≡ some src)
        × (verify_signed e.crypto.verify m sig (machine_keys src).0 ≡ true)
  unfolding verify_machine
  verify_machine-verified m sig s src h =
      elim (Option-cases (find_machine_by_ip (to_string m.src_ip) s.st)) [
        | inl missing ↦ absurd (never_both src (rw (missing, verify_machine) at h))
        | inr (machine, found) ↦ checked m sig s src machine found (rw (found, verify_machine) at h)
      ]

  accept-Heard :
      (env : Envelope) (m : SignedMessage) (sig : List ℕ) (remote : AddrPort) (now : ℕ) (s : Server)
      → parse_signed env.body ≡ signed m sig
      → (accept e env m remote now s (verify_machine e m sig s) ≡ s) ⊎ Heard e env s
  unfolding accept
  accept-Heard env m sig remote now s read = elim (Option-cases (verify_machine e m sig s)) [
    | inl refused ↦ inl (rw (refused, accept) refl)
    | inr (src, known) ↦
        elim (Bool-cases (is_data_plane env.typ && not (src.status == MachineStatus.active))) [
          | inl hit ↦ inl (rw (known, hit, accept) refl)
          | inr miss ↦
              let (registered, verified) = verify_machine-verified m sig s src known in
              inr (record {
                message = m;
                sig = sig;
                src = src;
                read = read;
                registered = registered;
                verified = verified;
                active = active_src env.typ src.status miss;
              })
        ]
  ]

  -- A signed message changes nothing at all in the server, unless it is signed by the machine that is
  -- registered for its source address, and that machine is active if the message carries data.
  pub handle_signed-Heard :
      (env : Envelope) (remote : AddrPort) (now : ℕ) (s : Server)
      → (handle_signed e env remote now s ≡ s) ⊎ Heard e env s
  unfolding handle_signed
  handle_signed-Heard env remote now s = by_parse (parse_signed env.body) refl
    where
      by_parse :
          (r : SignedParse)
          → parse_signed env.body ≡ r
          → (handle_signed e env remote now s ≡ s) ⊎ Heard e env s
      by_parse (too_short _) read = inl (rw (read, handle_signed) refl)
      by_parse (signed m sig) read =
          rw (read, handle_signed) (accept-Heard env m sig remote now s read)

  admin_answer-st :
      (r : AdminRequest) (src : Machine) (s : Server)
      → src.user ≢ admin_name s
      → (admin_answer e r src s).0 ≡ s
  unfolding admin_answer
  admin_answer-st r src s other = elim (Bool-cases (r.command == "users")) [
    | inl hit ↦ rw (hit, admin_answer) refl
    | inr miss ↦ elim (Bool-cases (src.user == admin_name s)) [
      | inl same ↦ absurd (other ((eq_iff src.user (admin_name s)).0 same))
      | inr differs ↦ rw (miss, differs, admin_answer) refl
    ]
  ]

  pub send_admin_reply-st :
      (m : SignedMessage) (o : Server × AdminReply) → (send_admin_reply e m o).st ≡ o.0.st
  unfolding send_admin_reply send_signed send_raw
  send_admin_reply-st m (s, reply) = ground arith

  -- A management request of a machine of another user than the admin leaves the store as it was.
  pub handle_admin_request-st :
      (m : SignedMessage) (src : Machine) (s : Server)
      → src.user ≢ admin_name s
      → (handle_admin_request e m src s).st ≡ s.st
  unfolding handle_admin_request
  handle_admin_request-st m src s other =
      elim (Option-cases (e.json.read_admin_request m.payload)) [
        | inl unread ↦ rw (unread, handle_admin_request) refl
        | inr (r, read) ↦
            rw (read, handle_admin_request)
              (send_admin_reply-st m (admin_answer e r src s)
                ∙ ap (λ x. x.st) (admin_answer-st r src s other))
      ]
