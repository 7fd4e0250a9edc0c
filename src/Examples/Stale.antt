-- ===== src/Examples/Stale.antt =====
-- Examples of an answer that waits in a channel, and of a datagram and the store.
use nz.Base.{true, false, [], ◌∷◌, some}
use nz.Netip.{v4}
use nz.Protocol.Envelope.{Envelope}
use nz.Protocol.Signed.{SignedMessage, marshal_signed}
use nz.Protocol.Answer.{PeerAnswer, marshal_peer_answer}
use nz.Protocol.MsgType
use nz.Node.Model.{Node}
use nz.Server.Handling.{serve}
use nz.Server.Handling.Store.{serve-Reached}
use nz.Server.History.{Reached}
use nz.Examples.Data.{zeros, home, remote, sign, env, server}
use nz.Examples.NodeData.{laptop_node}

-- The answer about the phone, which the server has signed.
abbrev about_phone : PeerAnswer
about_phone = record {
  found = true;
  has_addr = true;
  can_call = true;
  can_call_back = false;
  addr = record { addr = v4 3232235777; port = 4000 };
  sign_pub = zeros 32;
  exch_pub = zeros 32;
}

abbrev reply : SignedMessage
reply = record {
  typ = MsgType.peer_query_rpy;
  src_ip = v4 167772161;
  dst_ip = v4 167772163;
  payload = marshal_peer_answer about_phone;
}

abbrev envelope : Envelope
envelope = record { typ = MsgType.peer_query_rpy; body = marshal_signed reply sign }

abbrev waiting : Node
waiting = record laptop_node {
  st = record home { server_auth = some (record { sign_pub = zeros 32; exch_pub = zeros 32 }) };
  query_reply = some envelope;
}

serve-Reached_example :
    Reached server.st
      (serve env (3 ∷ 16 ∷ 0 ∷ 0 ∷ 0 ∷ 1 ∷ 1 ∷ []) remote 5 (some (1 ∷ [])) server).st
serve-Reached_example =
    serve-Reached env (3 ∷ 16 ∷ 0 ∷ 0 ∷ 0 ∷ 1 ∷ 1 ∷ []) remote 5 (some (1 ∷ [])) server
