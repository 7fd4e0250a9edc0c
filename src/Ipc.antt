-- ===== src/Ipc.antt =====
-- internal/ipc/ipc.go: requests and responses as lines of JSON over the control socket. A connection
-- carries bytes; what a write does not deliver is not modelled on the side that answers.
pub mod Laws
use nz.Base.{
  ℕ, zero, suc, String, Bool, true, false, List, [], ◌∷◌, ◌++◌, Option, none, some, ◌==◌, nat_eq,
  if◌then◌else◌, length,
}
use nz.Control.{Request}

-- `ipc.Response`
pub record Response : Type 0 where
  pub ok : Bool
  pub error : String
  pub body : String

-- What the socket uses of encoding/json.
pub record Json : Type 0 where
  pub request_text : Request → Option (List ℕ)
  pub response_text : Response → Option (List ℕ)
  pub read_request : List ℕ → Option Request
  pub read_response : List ℕ → Option Response

abbrev pub newline : ℕ
newline = 10

-- `ReadBytes` up to a newline: the line with the newline, and what comes after it; `none` is the
-- error at the end of the stream.
unfoldable pub read_line : List ℕ → Option (List ℕ × List ℕ)
read_line [] = none
read_line (b ∷ rest) =
    if b == newline
    then some (b ∷ [], rest)
    else elim (read_line rest) [ none ↦ none | some (line, after) ↦ some (b ∷ line, after) ]

unfoldable pub line_of : Option (List ℕ) → List ℕ
line_of none = []
line_of (some text) = text ++ newline ∷ []

-- What writeResponse writes.
unfoldable pub write_response : Json → Response → List ℕ
unfolding line_of
write_response json r = line_of (json.response_text r)

abbrev pub invalid_request : Response
invalid_request = record { ok = false; error = "invalid request"; body = "" }

-- `handler` answers a request of the user `uid`; it may change the state of the program.
module _ {S : Type 0} (json : Json) (handler : ℕ → Request → S → S × Response) (uid : ℕ) where
  -- A round of serveConn, after the line is read.
  unfoldable pub answer_line : List ℕ → S → S × List ℕ
  unfolding write_response
  answer_line line s = elim (json.read_request line) [
    | none ↦ (s, write_response json invalid_request)
    | some r ↦ let (s', response) = handler uid r s in (s', write_response json response)
  ]

  -- The loop; each round takes a byte at least.
  unfoldable pub serve_lines : ℕ → List ℕ → S → S × List ℕ
  unfolding read_line answer_line
  serve_lines zero input s = (s, [])
  serve_lines (suc fuel) input s = elim (read_line input) [
    | none ↦ (s, [])
    | some (line, rest) ↦
        let (s', out) = answer_line line s in
        let (s'', more) = serve_lines fuel rest s' in (s'', out ++ more)
  ]

  unfoldable pub serve_conn : List ℕ → S → S × List ℕ
  unfolding serve_lines
  serve_conn input s = serve_lines (length input) input s

pub data CallError : Type 0 where
  not_connected not_encoded not_sent no_answer bad_answer : CallError

-- Go's (Response, error)
pub data Called : Type 0 where
  answered : Response → Called
  call_failed : CallError → Called

-- The other end of a connection: whether it takes what is written, and what comes back for it.
pub record Peer (S : Type 0) : Type 1 where
  pub takes : Bool
  pub talk : List ℕ → S → S × List ℕ

decoded : Option Response → Called
decoded none = call_failed bad_answer
decoded (some r) = answered r

first_line : Json → Option (List ℕ × List ℕ) → Called
unfolding decoded
first_line json none = call_failed no_answer
first_line json (some (line, rest)) = decoded (json.read_response line)

module _ {S : Type 0} (json : Json) where
  call_with : Peer S → Option (List ℕ) → S → S × Called
  unfolding first_line read_line
  call_with peer none s = (s, call_failed not_encoded)
  call_with peer (some text) s =
      let (s', back) = peer.talk (text ++ newline ∷ []) s in
      if peer.takes then (s', first_line json (read_line back)) else (s, call_failed not_sent)

  unfoldable pub call : Peer S → Request → S → S × Called
  unfolding call_with
  call peer req s = call_with peer (json.request_text req) s

  -- `none` is a failure of Dial.
  unfoldable pub command_request : Option (Peer S) → Request → S → S × Called
  unfolding call
  command_request none req s = (s, call_failed not_connected)
  command_request (some peer) req s = call peer req s
