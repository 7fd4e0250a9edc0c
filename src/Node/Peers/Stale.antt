-- ===== src/Node/Peers/Stale.antt =====
-- internal/node/data.go: an answer that is already in the channel when a query starts.
use nz.Base.{none}
use nz.Netip.{Addr, addr_eq}
use nz.Protocol.Envelope.{Envelope}
use nz.Node.Model.{Node, Env}
use nz.Node.Waiting.{Pause}
use nz.Node.Peers.{send_query}

module _ (e : Env) (w : Pause) (dst : Addr) (n : Node) where
  -- The node after the query is sent and the envelope is taken.
  taken : Node
  taken = record (send_query e dst n) { query_reply = none }
