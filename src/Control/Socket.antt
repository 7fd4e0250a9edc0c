-- ===== src/Control/Socket.antt =====
-- internal/daemon/daemon.go: the requests of the control socket as they stand on it.
use nz.Base.{ℕ, ◌≢◌, refl, String, true, false, List, Option, none, some, ◌∙◌}
use nz.Ipc.{Json, serve_conn}
use nz.Ipc
use nz.Ipc.Laws.{serve_conn-Kept}
use nz.Node.Waiting.{Pause}
use nz.Control.{Program, Request, Response, World, Listing, Problem, ok, listed, denied, handle}
use nz.Control.Laws.{Untouched, handle_no_root}

-- The texts of the errors, and the JSON text of a list or the error of json.Marshal.
pub record Texts : Type 0 where
  pub problem : Problem → String
  pub listing : Listing → Option String
  pub marshal_error : String

abbrev pub refused : String → Ipc.Response
refused error = record { ok = false; error = error; body = "" }

unfoldable pub json_data : Texts → Listing → Ipc.Response
json_data texts l = elim (texts.listing l) [
  | none ↦ refused texts.marshal_error
  | some text ↦ record { ok = true; error = ""; body = text }
]

unfoldable pub wired : Texts → Response → Ipc.Response
unfolding json_data
wired texts ok = record { ok = true; error = ""; body = "" }
wired texts (listed l) = json_data texts l
wired texts (denied e) = refused (texts.problem e)

-- The program with the time of the next request; `tick` is the time that a request takes.
module _ (x : World) (w : Pause) (texts : Texts) (tick : ℕ → ℕ) where
  unfoldable pub answer_request : ℕ → Request → ℕ × Program → (ℕ × Program) × Ipc.Response
  unfolding handle wired
  answer_request uid r (now, p) =
      let (p', response) = handle x w uid r now p in ((tick now, p'), wired texts response)

  Untouched-trans : (p q t : Program) → Untouched p q → Untouched q t → Untouched p t
  Untouched-trans p q t h k = record {
    cfg = k.cfg ∙ h.cfg;
    st = k.st ∙ h.st;
    srv = k.srv ∙ h.srv;
    starts = k.starts ∙ h.starts;
  }

  -- Whatever bytes come on the connection of another user than root, the configuration, the store and
  -- the server stay as they are, and no node is started.
  pub serve_conn_no_root :
      (json : Json) (uid : ℕ) (input : List ℕ) (now : ℕ) (p : Program)
      → uid ≢ 0
      → Untouched p (serve_conn json answer_request uid input (now, p)).0.1
  unfolding answer_request
  serve_conn_no_root json uid input now p other =
      serve_conn-Kept json answer_request uid (λ (s : ℕ × Program). Untouched p s.1)
        (λ r (s : ℕ × Program) h.
          Untouched-trans p s.1 (handle x w uid r s.0 s.1).0 h
            (handle_no_root x w uid r s.0 s.1 other).0)
        input (now, p) (record { cfg = refl; st = refl; srv = refl; starts = refl })
