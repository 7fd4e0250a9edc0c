-- ===== src/Server/Queries/Laws.antt =====
-- internal/server/data.go: what a discovery answer and a machine list give away.
use nz.Base.{◌≡◌, inl, inr, true, false, arith, some, Bool-cases, Option-cases}
use nz.Netip.{Addr, AddrPort, is_valid, to_string}
use nz.State.Model.{
  Machine, MachineStatus, machine_status_eq, machine_status_beq_iff, find_machine_by_ip,
}
use nz.Server.Model.{Server}
use nz.Server.Policy.{allow_address_exchange}
use nz.Server.Sending.{ip_endpoint}
use nz.Server.Queries.{peer_answer, found_answer, shared_endpoint, has, or_none, is_active}

-- Why an answer may carry an endpoint.
pub record Disclosed (src : Machine) (ip : Addr) (s : Server) : Type 0 where
  pub dst : Machine
  pub found : find_machine_by_ip (to_string ip) s.st ≡ some dst
  pub active : dst.status ≡ MachineStatus.active
  pub permitted : allow_address_exchange s src dst ≡ true
  pub endpoint : (peer_answer src ip s).addr ≡ ip_endpoint ip s
  pub valid : is_valid (ip_endpoint ip s) ≡ true

shared_only :
    (src dst : Machine) (addr : AddrPort) (s : Server)
    → has (shared_endpoint src dst addr s) ≡ true
    → (allow_address_exchange s src dst ≡ true)
      × (is_valid addr ≡ true)
      × (or_none (shared_endpoint src dst addr s) ≡ addr)
unfolding shared_endpoint has or_none
shared_only src dst addr s h = ground arith

not_true : false ≡ true → ⊥
not_true e = cc

-- The answer to a discovery request carries an endpoint only if the machine at the asked address is
-- active and the two machines may call each other, and then it is the endpoint known for that address.
pub peer_answer-Disclosed :
    (src : Machine) (ip : Addr) (s : Server)
    → (peer_answer src ip s).has_addr ≡ true
    → Disclosed src ip s
unfolding peer_answer found_answer
peer_answer-Disclosed src ip s h = elim (Option-cases (find_machine_by_ip (to_string ip) s.st)) [
  | inl missing ↦ absurd (not_true (rw (missing, peer_answer) at h))
  | inr (dst, found) ↦ elim (Bool-cases (is_active dst)) [
    | inr miss ↦ absurd (not_true (rw (found, miss, peer_answer) at h))
    | inl hit ↦
        let (permitted, valid, endpoint) =
          shared_only src dst (ip_endpoint ip s) s
            (rw (found, hit, peer_answer, found_answer) at h) in
        record {
          dst = dst;
          found = found;
          active = (machine_status_beq_iff dst.status MachineStatus.active).0 hit;
          permitted = permitted;
          endpoint = rw (found, hit, peer_answer, found_answer) endpoint;
          valid = valid;
        }
  ]
]
