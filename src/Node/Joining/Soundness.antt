-- ===== src/Node/Joining/Soundness.antt =====
-- internal/node/node.go: the bounds of a node around a join.
use nz.Base.{
  refl, inr, arith, ℕ, Bool, true, false, not, String, List, [], ◌∷◌, Option, none, some, ◌==◌,
  nat_eq, string_eq, if_both, All,
}
use nz.Netip.{Addr, AddrPort, parse_addr}
use nz.Identity.{split_public}
use nz.Protocol.Envelope.{Envelope}
use nz.Protocol.MsgType
use nz.Node.Model.{Node, Env, Reply, send_envelope, send_to_addr}
use nz.Node.Waiting.{wait_join, wait_approve}
use nz.Node.Joining.{
  NodeError, is_fatal, Answer, done, failed, connect_at, connect, resolve, subnet_of, adopt,
  adopt_vpn_ip, store_keys, accept_server_keys, is_stale, Round, send_proof, adopted, take_reply,
  read_reply, answer_challenge, first_answer, try_join, approved, notified, read_notice,
  wait_for_approval, RoundEnd, joined, again, fatal, after_wait, after_try, join_round, next_round,
  join_loop, watch_server, own_request,
}
use nz.Node.Sound.{IsSound, carry, KeepsSound, wait_join-IsSound, wait_approve-IsSound}

connect_at-IsSound :
    (a : Answer AddrPort) (opens : Bool) (n : Node) → IsSound n → IsSound (connect_at a opens n).0
unfolding connect_at
connect_at-IsSound (failed error) opens n h = h
connect_at-IsSound (done addr) false n h = carry refl refl refl refl h
connect_at-IsSound (done addr) true n h = carry refl refl refl refl h

pub connect-IsSound :
    (dns : String → Option (List Addr)) (opens : Bool) (n : Node)
    → IsSound n
    → IsSound (connect dns opens n).0
unfolding connect
connect-IsSound dns opens n h = connect_at-IsSound (resolve dns n.cfg.domain n.cfg.port) opens n h

adopt-IsSound :
    (creates : Bool) (ip : Option Addr) (text : String) (n : Node)
    → IsSound n
    → IsSound (adopt creates ip text n).0
unfolding adopt
adopt-IsSound creates none text n h = h
adopt-IsSound creates (some ip) text n h =
    let at_home : IsSound (record n { vpn_ip = ip; subnet = some (subnet_of ip) }) = record {
      bounded = h.bounded;
      home = inr refl;
    } in
    if_both (λ (r : Node × Option NodeError). IsSound r.0) n.has_tun _ _ at_home
      (if_both (λ (r : Node × Option NodeError). IsSound r.0) (not creates) _ _ at_home
        (record { bounded = h.bounded; home = inr refl }))

adopt_vpn_ip-IsSound :
    (creates : Bool) (text : String) (n : Node)
    → IsSound n
    → IsSound (adopt_vpn_ip creates text n).0
unfolding adopt_vpn_ip
adopt_vpn_ip-IsSound creates text n h = adopt-IsSound creates (parse_addr text) text n h

store_keys-IsSound :
    (keys : Option (List ℕ × List ℕ)) (n : Node) → IsSound n → IsSound (store_keys keys n)
unfolding store_keys
store_keys-IsSound none n h = h
store_keys-IsSound (some (sign_pub, exch_pub)) n h =
    carry (ground arith) (ground arith) (ground arith) (ground arith) h

accept_server_keys-IsSound :
    (blob : List ℕ) (n : Node) → IsSound n → IsSound (accept_server_keys blob n)
unfolding accept_server_keys
accept_server_keys-IsSound blob n h =
    if_both IsSound _ n _ h (store_keys-IsSound (split_public blob) n h)

pub record KeepsRound (w : Round) : Type 0 where
  pub first : KeepsSound w.first_reply.others
  pub second : KeepsSound w.second_reply.others
  pub approval : KeepsSound w.approval.others
  pub sleep : KeepsSound w.sleep

module _ (e : Env) where
  adopted-IsSound :
      (result : String) (r : Node × Option NodeError) → IsSound r.0 → IsSound (adopted e result r).0
  unfolding adopted
  adopted-IsSound result (n, none) h = h
  adopted-IsSound result (n, some error) h = h

  take_reply-IsSound :
      (creates : Bool) (r : Option Reply) (n : Node)
      → IsSound n
      → IsSound (take_reply e creates r n).0
  unfolding take_reply
  take_reply-IsSound creates none n h = h
  take_reply-IsSound creates (some r) n h =
      let h' : IsSound (accept_server_keys r.server_pub n) =
        accept_server_keys-IsSound r.server_pub n h in
      if_both (λ (t : Node × Answer String). IsSound t.0) (r.result == "rejected") _ _ h
        (if_both (λ (t : Node × Answer String). IsSound t.0) (r.result == "active") _ _
          (adopted-IsSound r.result
            (adopt_vpn_ip creates r.vpn_ip (accept_server_keys r.server_pub n))
            (adopt_vpn_ip-IsSound creates r.vpn_ip (accept_server_keys r.server_pub n) h'))
          h')

  read_reply-IsSound :
      (creates : Bool) (r : Node × Option Envelope)
      → IsSound r.0
      → IsSound (read_reply e creates r).0
  unfolding read_reply
  read_reply-IsSound creates (n, none) h = h
  read_reply-IsSound creates (n, some env) h =
      if_both (λ (t : Node × Answer String). IsSound t.0) (not (env.typ == MsgType.join_reply)) _ _
        h (take_reply-IsSound creates (e.json.read_join_reply env.body) n h)

  module _ (w : Round) (k : KeepsRound w) where
    answer_challenge-IsSound :
        (nonce : Option (List ℕ)) (n : Node) → IsSound n → IsSound (answer_challenge e w nonce n).0
    unfolding answer_challenge send_proof send_envelope send_to_addr
    answer_challenge-IsSound none n h = h
    answer_challenge-IsSound (some nonce) n h =
        read_reply-IsSound w.creates (wait_join w.second_reply (send_proof e nonce n)) (
          wait_join-IsSound w.second_reply k.second (send_proof e nonce n)
            (carry refl refl refl refl h))

    first_answer-IsSound :
        (r : Node × Option Envelope) → IsSound r.0 → IsSound (first_answer e w r).0
    unfolding first_answer
    first_answer-IsSound (n, none) h = h
    first_answer-IsSound (n, some env) h =
        if_both (λ (t : Node × Answer String). IsSound t.0) (env.typ == MsgType.join_challenge) _ _
          (answer_challenge-IsSound (e.json.read_challenge env.body) n h)
          (read_reply-IsSound w.creates (n, some env) h)

    try_join-IsSound : (n : Node) → IsSound n → IsSound (try_join e w n).0
    unfolding try_join send_envelope send_to_addr
    try_join-IsSound n h =
        let asked : Node =
          send_envelope MsgType.join_request (e.json.write_join_request (own_request e n)) n in
        first_answer-IsSound (wait_join w.first_reply asked)
          (wait_join-IsSound w.first_reply k.first asked (carry refl refl refl refl h))

    approved-IsSound : (r : Node × Option NodeError) → IsSound r.0 → IsSound (approved e r).0
    unfolding approved
    approved-IsSound (n, none) h = h
    approved-IsSound (n, some error) h = h

    notified-IsSound :
        (ip : Option String) (n : Node) → IsSound n → IsSound (notified e w.creates ip n).0
    unfolding notified
    notified-IsSound none n h = h
    notified-IsSound (some ip) n h =
        approved-IsSound (adopt_vpn_ip w.creates ip n) (adopt_vpn_ip-IsSound w.creates ip n h)

    read_notice-IsSound :
        (r : Node × Option Envelope) → IsSound r.0 → IsSound (read_notice e w.creates r).0
    unfolding read_notice
    read_notice-IsSound (n, none) h = h
    read_notice-IsSound (n, some env) h = notified-IsSound (e.json.read_approve env.body) n h

    after_wait-IsSound : (r : Node × Answer Bool) → IsSound r.0 → IsSound (after_wait e r).0
    unfolding after_wait
    after_wait-IsSound (n, done true) h = h
    after_wait-IsSound (n, done false) h = h
    after_wait-IsSound (n, failed error) h = h

    after_try-IsSound : (r : Node × Answer String) → IsSound r.0 → IsSound (after_try e w r).0
    unfolding after_try wait_for_approval
    after_try-IsSound (n, failed error) h =
        if_both (λ (t : Node × RoundEnd). IsSound t.0) (is_fatal error) _ _ h (k.sleep n h)
    after_try-IsSound (n, done result) h =
        if_both (λ (t : Node × RoundEnd). IsSound t.0) (result == "active") _ _ h
          (if_both (λ (t : Node × RoundEnd). IsSound t.0) (result == "pending") _ _
            (after_wait-IsSound (wait_for_approval e w n) (
              read_notice-IsSound (wait_approve w.approval n)
                (wait_approve-IsSound w.approval k.approval n h)))
            (k.sleep n h))

    join_round-IsSound : (n : Node) → IsSound n → IsSound (join_round e w n).0
    unfolding join_round
    join_round-IsSound n h = after_try-IsSound (try_join e w n) (try_join-IsSound n h)

  next_round-IsSound :
      (r : Node × RoundEnd) (rest : Node → Node × RoundEnd)
      → IsSound r.0
      → ((n : Node) → IsSound n → IsSound (rest n).0)
      → IsSound (next_round e r rest).0
  unfolding next_round
  next_round-IsSound (n, again) rest h k = k n h
  next_round-IsSound (n, joined) rest h k = h
  next_round-IsSound (n, fatal error) rest h k = h

  pub join_loop-IsSound :
      (ws : List Round) → All KeepsRound ws → (n : Node) → IsSound n → IsSound (join_loop e ws n).0
  unfolding join_loop
  join_loop-IsSound [] k n h = h
  join_loop-IsSound (w ∷ ws) (k, ks) n h =
      next_round-IsSound (join_round e w n) (join_loop e ws) (join_round-IsSound w k n h)
        (join_loop-IsSound ws ks)

  pub watch_server-IsSound :
      (ws : List Round)
      → All KeepsRound ws
      → (now : ℕ) (n : Node) → IsSound n
      → IsSound (watch_server e ws now n)
  unfolding watch_server
  watch_server-IsSound ws k now n h =
      if_both IsSound (is_stale now n) _ n
        (join_loop-IsSound ws k (record n { last_server_seen = now }) (carry refl refl refl refl h))
        h
