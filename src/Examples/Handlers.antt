-- ===== src/Examples/Handlers.antt =====
-- Examples of the handlers of the server.
use nz.Base.{find_first, lookup, refl, ◌≡◌, ◌↔◌, ◌⊎◌, ◌≢◌, eq_iff, String, true, [], ◌∷◌, All}
use nz.Netip.{v4, to_string}
use nz.Server.Model.{new}
use nz.Server.Policy.{admin_name, allow_relay, allow_p2p, allow_address_exchange}
use nz.Server.Policy.Laws.{Holds, allow_relay_iff}
use nz.Server.Relay.{relay_data}
use nz.Server.Relay.Laws.{Passed, relay_data-Passed}
use nz.Server.Sending.{ip_endpoint}
use nz.Server.Joining.{join_proof, handle_join_proof}
use nz.Server.Joining.Laws.{Proved, join_proof-Proved}
use nz.Server.Joining.Replay.{handle_join_proof_replay}
use nz.Server.Local.{local_data}
use nz.Server.Local.Laws.{Delivered, local_data-Delivered}
use nz.Server.Queries.{peer_answer}
use nz.Server.Queries.Laws.{Disclosed, peer_answer-Disclosed}
use nz.Server.Views.{users_view}
use nz.Server.Views.Laws.{users_view-own}
use nz.Server.Handling.{handle_signed, handle_admin_request}
use nz.Server.Handling.Laws.{Heard, handle_signed-Heard, handle_admin_request-st}
use nz.Examples.Data.{server, env, remote, relay_envelope, to_laptop, phone, laptop, phone_proof}

abbrev alice : String
alice = "alice"

alice-ne-root : alice ≢ "root"
alice-ne-root e = let hit = (eq_iff "alice" "root").1 e in cc

handle_signed-Heard_example :
    (handle_signed env relay_envelope remote 5 server ≡ server) ⊎ Heard env relay_envelope server
handle_signed-Heard_example = handle_signed-Heard env relay_envelope remote 5 server

relay_data-Passed_example :
    ((relay_data to_laptop (7 ∷ []) phone 5 server).sent ≡ server.sent)
    ⊎ Passed to_laptop (7 ∷ []) phone 5 server (relay_data to_laptop (7 ∷ []) phone 5 server)
relay_data-Passed_example = relay_data-Passed to_laptop (7 ∷ []) phone 5 server

join_proof-Proved_example :
    ((join_proof env phone_proof remote 5 server).st ≡ server.st) ⊎ Proved env phone_proof server
join_proof-Proved_example = join_proof-Proved env phone_proof remote 5 server

handle_join_proof_replay_example :
    (handle_join_proof env (1 ∷ []) remote 6 (handle_join_proof env (1 ∷ []) remote 5 server)).st
    ≡ (handle_join_proof env (1 ∷ []) remote 5 server).st
handle_join_proof_replay_example = handle_join_proof_replay env (1 ∷ []) remote remote 5 6 server

users_view-own_example :
    All (λ u. u.name ≡ "alice") (users_view "alice" "phone" server).0
    × All (λ v. v.machine.user ≡ "alice") (users_view "alice" "phone" server).1
unfolding new
users_view-own_example = users_view-own "alice" "phone" server alice-ne-root

handle_admin_request-st_example : (handle_admin_request env to_laptop phone server).st ≡ server.st
unfolding new
handle_admin_request-st_example = handle_admin_request-st env to_laptop phone server alice-ne-root

allow_relay_iff_example : (allow_relay server phone laptop ≡ true) ↔ (
    (phone.user ≡ admin_name server)
    ⊎ ((phone.user ≡ laptop.user)
        ⊎ ((laptop.user ≡ admin_name server)
            × Holds phone.user phone.name laptop.name server.st.grants)))
allow_relay_iff_example = allow_relay_iff server phone laptop

local_data-Delivered_example :
    (local_data env to_laptop phone server ≡ server)
    ⊎ Delivered env to_laptop phone server (local_data env to_laptop phone server)
local_data-Delivered_example = local_data-Delivered env to_laptop phone server

peer_answer-Disclosed_example : Disclosed phone (v4 167772163) server
unfolding new peer_answer find_first to_string ip_endpoint lookup allow_address_exchange allow_p2p
    allow_relay
peer_answer-Disclosed_example = peer_answer-Disclosed phone (v4 167772163) server refl
