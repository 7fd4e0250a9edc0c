-- ===== src/Node/Incoming/Notices.antt =====
-- internal/node/data.go: what a notice can change.
use nz.Base.{
  ◌≡◌, ◌⊎◌, inl, inr, refl, true, String, List, Option, none, some, ◌==◌, string_eq, All, All-imp,
  keep_if, keep_if-test,
}
use nz.Netip.{Addr, addr_eq, addr_beq_iff}
use nz.Protocol.Envelope.{Envelope}
use nz.Protocol.Signed.{SignedMessage}
use nz.Node.Model.{Node, Env, Peer, server_ip}
use nz.Node.Waiting.{FromServer, genuine, forged, unreadable, from_server}
use nz.Node.Peers.{drop_all_peers}
use nz.Node.Incoming.{handle_policy_changed, policy_changed, note_status}
use nz.Node.Waiting.Genuine.{Signed, from_server-Signed}

-- What a node makes of the server's notice that its rights or its own status have changed.
pub record Noticed (e : Env) (env : Envelope) (n t : Node) : Type 0 where
  pub message : SignedMessage
  pub from_server : Signed e env n message
  pub status :
      ((text : String) × (e.json.read_status message.payload ≡ some text)
        × (t.self_blocked ≡ (text == "blocked")))
      ⊎ ((e.json.read_status message.payload ≡ none) × (t.self_blocked ≡ n.self_blocked))
  pub server_only : All (λ entry. entry.0 ≡ server_ip n) t.peers
  pub same : t ≡ record n { self_blocked = t.self_blocked; peers = t.peers }

server_entries :
    (ip : Addr) (peers : List (Addr × Peer))
    → All (λ entry. entry.0 ≡ ip) (keep_if (λ entry. entry.0 == ip) peers)
server_entries ip peers =
    All-imp (λ entry. (entry.0 == ip) ≡ true) (λ entry. entry.0 ≡ ip)
      (keep_if (λ entry. entry.0 == ip) peers) (λ entry h. (addr_beq_iff entry.0 ip).0 h)
      (keep_if-test (λ (entry : Addr × Peer). entry.0 == ip) peers)

module _ (e : Env) (env : Envelope) (n : Node) where
  noted :
      (m : SignedMessage)
      → Signed e env n m
      → (status : Option String) → e.json.read_status m.payload ≡ status
      → Noticed e env n (drop_all_peers (note_status e status n))
  unfolding drop_all_peers note_status server_ip
  noted m signed_by none read = record {
    message = m;
    from_server = signed_by;
    status = inr (read, refl);
    server_only = server_entries (server_ip n) n.peers;
    same = refl;
  }
  noted m signed_by (some text) read = record {
    message = m;
    from_server = signed_by;
    status = inl (text, read, refl);
    server_only = server_entries (server_ip n) n.peers;
    same = refl;
  }

  told :
      (r : FromServer)
      → from_server e env n ≡ r
      → (policy_changed e r n ≡ n) ⊎ Noticed e env n (policy_changed e r n)
  unfolding policy_changed
  told (genuine m) result =
      inr (noted m (from_server-Signed e env n m result) (e.json.read_status m.payload) refl)
  told forged result = inl refl
  told unreadable result = inl refl

  -- A notice that the policy has changed leaves the node as it is, or: the server has signed it, of
  -- the peers at most the server itself is still known, the node counts as blocked if the status that is
  -- read from the notice is blocked, as not blocked if it is another, and as before if the notice
  -- cannot be read, and all else is as before.
  pub handle_policy_changed-Noticed :
      (handle_policy_changed e env n ≡ n) ⊎ Noticed e env n (handle_policy_changed e env n)
  unfolding handle_policy_changed
  handle_policy_changed-Noticed = told (from_server e env n) refl
