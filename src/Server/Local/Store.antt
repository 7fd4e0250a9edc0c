-- ===== src/Server/Local/Store.antt =====
-- internal/server/data.go: data for the server itself and the store.
use nz.Base.{ℕ, ◌≡◌, refl, List, arith, Option, none, some}
use nz.State.Model.{Machine}
use nz.Protocol.Signed.{SignedMessage}
use nz.Protocol.Sealed.{SealResult}
use nz.Server.Model.{Server, Env}
use nz.Server.Local.{local_data, open_with, opened}

module _ (e : Env) where
  opened-st : (r : SealResult) (s : Server) → (opened e r s).st ≡ s.st
  unfolding opened
  opened-st r s = ground arith

  open_with-st :
      (payload : List ℕ) (o : Option (List ℕ)) (s : Server) → (open_with e payload o s).st ≡ s.st
  unfolding open_with
  open_with-st payload none s = refl
  open_with-st payload (some key) s = opened-st _ s

  pub local_data-st :
      (m : SignedMessage) (src : Machine) (s : Server) → (local_data e m src s).st ≡ s.st
  unfolding local_data
  local_data-st m src s = ground (arith, open_with-st m.payload)
