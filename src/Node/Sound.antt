-- ===== src/Node/Sound.antt =====
-- internal/node: the bounds of the queues, and the device and the network of a node.
use nz.Base.{
  refl, ◌≤◌, ◌≡◌, ◌⊎◌, false, Option, none, some, length, All, Option-cases, subst, sym, inl, inr,
}
use nz.Protocol.Envelope.{Envelope}
use nz.Node.Model.{Node}
use nz.Node.Waiting.{
  Pause, wait_envelope, wait_query, wait_join, wait_approve, wait_list, wait_admin,
}
use nz.Node.Joining.{subnet_of}

-- No queue of waiting packets is longer than `maxPending`. There is a device only once there is a
-- network, and the network is the /24 of the node's own address.
pub record IsSound (n : Node) : Type 0 where
  pub bounded : All (λ entry. length entry.1 ≤ 4) n.pending
  pub home : ((n.subnet ≡ none) × (n.has_tun ≡ false)) ⊎ (n.subnet ≡ some (subnet_of n.vpn_ip))

-- A change of other fields.
pub carry :
    {n t : Node}
    → t.pending ≡ n.pending
    → t.subnet ≡ n.subnet
    → t.vpn_ip ≡ n.vpn_ip
    → t.has_tun ≡ n.has_tun
    → IsSound n
    → IsSound t
carry {n} {t} pending subnet vpn_ip has_tun h = record {
  bounded = subst (λ entries. All (λ entry. length entry.1 ≤ 4) entries) (sym pending) h.bounded;
  home = rw (subnet, vpn_ip, has_tun) h.home;
}

abbrev pub KeepsSound : (Node → Node) → Type 0
KeepsSound f = (n : Node) → IsSound n → IsSound (f n)

wait-IsSound :
    (get : Node → Option Envelope) (clear : Node → Node)
    → KeepsSound clear
    → (w : Pause) → KeepsSound w.others
    → (n : Node) → IsSound n
    → IsSound (wait_envelope get clear w n).0
unfolding wait_envelope
wait-IsSound get clear c w k n h = elim (Option-cases (get n)) [
  | inr (env, there) ↦ rw (there, wait_envelope) (c n h)
  | inl empty ↦ elim (Option-cases (get (w.others n))) [
    | inr (env, there) ↦ rw (empty, there, wait_envelope) (c (w.others n) (k n h))
    | inl nothing ↦ rw (empty, nothing, wait_envelope) (k n h)
  ]
]

module _ (w : Pause) (k : KeepsSound w.others) (n : Node) (h : IsSound n) where
  pub wait_query-IsSound : IsSound (wait_query w n).0
  wait_query-IsSound = wait-IsSound _ _ (λ n h. carry refl refl refl refl h) w k n h

  pub wait_join-IsSound : IsSound (wait_join w n).0
  wait_join-IsSound = wait-IsSound _ _ (λ n h. carry refl refl refl refl h) w k n h

  pub wait_approve-IsSound : IsSound (wait_approve w n).0
  wait_approve-IsSound = wait-IsSound _ _ (λ n h. carry refl refl refl refl h) w k n h

  pub wait_list-IsSound : IsSound (wait_list w n).0
  wait_list-IsSound = wait-IsSound _ _ (λ n h. carry refl refl refl refl h) w k n h

  pub wait_admin-IsSound : IsSound (wait_admin w n).0
  wait_admin-IsSound = wait-IsSound _ _ (λ n h. carry refl refl refl refl h) w k n h
