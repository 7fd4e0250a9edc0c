-- ===== src/Server/History.antt =====
-- internal/server and internal/state: sequences of the operations of the store that the server makes.
use nz.Base.{
  ℕ, ◌≡◌, refl, ap, ◌∙◌, List, [], ◌∷◌, ◌++◌, Option, none, some, All, All-append, arith, if_both,
}
use nz.Netip.{AddrPort}
use nz.State.Model.{State}
use nz.State.Step.{Call, trusts, sets_verifier, ensures_admin}
use nz.State.Calls.{perform, run}
use nz.Protocol.Envelope.{Envelope}
use nz.Protocol.Signed.{SignedMessage}
use nz.Server.Model.{Server, Env}
use nz.Server.Sending.{send_raw, send_envelope, send_signed}

-- What both cases of a search have, the whole has.
pub option_both :
    {A : Type 0} {B : Type 0} (P : B → Type 0) (o : Option A) (x : B) (f : A → B)
    → P x
    → ((a : A) → P (f a))
    → P (elim o [ none ↦ x | some a ↦ f a ])
option_both P none x f p q = p
option_both P (some a) x f p q = q a

-- The operations that a datagram can cause: neither the trust of a machine, nor a user's verifier, nor
-- the administrator is set by one.
abbrev pub ByServer : Call → Type 0
ByServer (trusts _ _ _) = ⊥
ByServer (sets_verifier _ _ _) = ⊥
ByServer (ensures_admin _ _ _ _) = ⊥
ByServer _ = Unit

-- The second state comes from the first one by such operations.
pub record Reached (s t : State) : Type 0 where
  pub calls : List Call
  pub each : All ByServer calls
  pub same : run calls s ≡ t

pub no_calls : (s t : State) → s ≡ t → Reached s t
unfolding run
no_calls s t e = record { calls = []; each = tt; same = e }

pub one_call : (c : Call) (s : State) → ByServer c → Reached s (perform c s).0
unfolding run
one_call c s h = record { calls = c ∷ []; each = (h, tt); same = refl }

run-append : (cs ds : List Call) (s : State) → run (cs ++ ds) s ≡ run ds (run cs s)
unfolding run
run-append [] ds s = refl
run-append (c ∷ cs) ds s = run-append cs ds (perform c s).0

pub Reached-trans : (s t u : State) → Reached s t → Reached t u → Reached s u
Reached-trans s t u h k = record {
  calls = h.calls ++ k.calls;
  each = All-append ByServer h.calls k.calls h.each k.each;
  same = run-append h.calls k.calls s ∙ ap (run k.calls) h.same ∙ k.same;
}

-- What goes out on the socket leaves the store as it was.
pub send_raw-st : (env : Envelope) (addr : AddrPort) (s : Server) → (send_raw env addr s).st ≡ s.st
unfolding send_raw
send_raw-st env addr s = if_both (λ (t : Server). t.st ≡ s.st) s.connected _ _ refl refl

pub send_envelope-st :
    (addr : AddrPort) (typ : ℕ) (body : List ℕ) (s : Server)
    → (send_envelope addr typ body s).st ≡ s.st
unfolding send_envelope
send_envelope-st addr typ body s = send_raw-st _ addr s

module _ (e : Env) where
  pub send_signed-st :
      (m : SignedMessage) (addr : AddrPort) (s : Server) → (send_signed e m addr s).st ≡ s.st
  unfolding send_signed send_raw
  send_signed-st m addr s = ground arith
