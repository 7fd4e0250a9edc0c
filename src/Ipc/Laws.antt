-- ===== src/Ipc/Laws.antt =====
-- internal/ipc/ipc.go: the lines of a connection, and a call over it.
use nz.Base.{
  ℕ, zero, suc, ◌≤◌, ◌≡◌, ◌≢◌, refl, ◌∙◌, true, List, [], ◌∷◌, ◌++◌, none, some, ◌==◌, nat_eq,
  arith, length, length-append, All, Option-cases, inl, inr, if_false,
}
use mathlib.Core.List.{append-nil}
use nz.Control.{Request}
use nz.Ipc.{
  Response, Json, newline, read_line, line_of, write_response, answer_line, serve_lines, serve_conn,
  answered, Peer, call, call_with, first_line, decoded, command_request,
}

abbrev pub NoNewline : List ℕ → Type 0
NoNewline text = All (λ b. b ≢ newline) text

pub read_line-append :
    (line rest : List ℕ)
    → NoNewline line
    → read_line (line ++ newline ∷ rest) ≡ some (line ++ newline ∷ [], rest)
unfolding read_line
read_line-append [] rest h = refl
read_line-append (b ∷ line) rest (p, h) =
    if_false (b == newline) _ _ (ground (arith, p)) ∙ rw (read_line-append line rest h) refl

pub read_line-none : (text : List ℕ) → NoNewline text → read_line text ≡ none
unfolding read_line
read_line-none [] h = refl
read_line-none (b ∷ text) (p, h) =
    if_false (b == newline) _ _ (ground (arith, p)) ∙ rw (read_line-none text h) refl

-- The lines one after the other, each with its newline, and a rest.
abbrev pub streamed : List (List ℕ) → List ℕ → List ℕ
streamed [] rest = rest
streamed (line ∷ lines) rest = line ++ newline ∷ streamed lines rest

module _ {S : Type 0} (json : Json) (handler : ℕ → Request → S → S × Response) (uid : ℕ) where
  -- The lines answered one after the other.
  abbrev pub answer_all : List (List ℕ) → S → S × List ℕ
  answer_all [] s = (s, [])
  answer_all (line ∷ lines) s =
      let (s', out) = answer_line json handler uid (line ++ newline ∷ []) s in
      let (s'', more) = answer_all lines s' in (s'', out ++ more)

  serve_lines-streamed :
      (fuel : ℕ) (lines : List (List ℕ)) (rest : List ℕ) (s : S)
      → All NoNewline lines
      → NoNewline rest
      → length (streamed lines rest) ≤ fuel
      → serve_lines json handler uid fuel (streamed lines rest) s ≡ answer_all lines s
  unfolding serve_lines
  serve_lines-streamed zero [] rest s h k enough = refl
  serve_lines-streamed (suc fuel) [] rest s h k enough =
      rw (read_line-none rest k, serve_lines) refl
  serve_lines-streamed zero (line ∷ lines) rest s h k enough =
      absurd (omega (arith, length-append line (newline ∷ streamed lines rest)))
  serve_lines-streamed (suc fuel) (line ∷ lines) rest s (p, h) k enough =
      let after = answer_line json handler uid (line ++ newline ∷ []) s in
      let below =
        serve_lines-streamed fuel lines rest after.0 h k
          (omega (arith, length-append line (newline ∷ streamed lines rest))) in
      rw (read_line-append line (streamed lines rest) p, serve_lines, below) refl

  -- A connection on which lines arrive and then a rest without a newline is served by answering each
  -- line in order, with the state that the lines before it leave; the rest has no effect.
  pub serve_conn-streamed :
      (lines : List (List ℕ)) (rest : List ℕ) (s : S)
      → All NoNewline lines
      → NoNewline rest
      → serve_conn json handler uid (streamed lines rest) s ≡ answer_all lines s
  unfolding serve_conn
  serve_conn-streamed lines rest s h k =
      serve_lines-streamed (length (streamed lines rest)) lines rest s h k (omega arith)

  answer_line-Kept :
      (P : S → Type 0)
      → ((r : Request) (s : S) → P s → P (handler uid r s).0)
      → (line : List ℕ) (s : S) → P s
      → P (answer_line json handler uid line s).0
  unfolding answer_line
  answer_line-Kept P keep line s h = elim (Option-cases (json.read_request line)) [
    | inl none_read ↦ rw (none_read, answer_line) h
    | inr (r, read) ↦ rw (read, answer_line) (keep r s h)
  ]

  serve_lines-Kept :
      (P : S → Type 0)
      → ((r : Request) (s : S) → P s → P (handler uid r s).0)
      → (fuel : ℕ) (input : List ℕ) (s : S) → P s
      → P (serve_lines json handler uid fuel input s).0
  unfolding serve_lines answer_line
  serve_lines-Kept P keep zero input s h = h
  serve_lines-Kept P keep (suc fuel) input s h = elim (Option-cases (read_line input)) [
    | inl ended ↦ rw (ended, serve_lines) h
    | inr ((line, rest), read) ↦
        rw (read, serve_lines)
          (serve_lines-Kept P keep fuel rest (answer_line json handler uid line s).0
            (answer_line-Kept P keep line s h))
  ]

  -- What holds of the state and is kept by every request of the user holds after any bytes on the
  -- user's connection.
  pub serve_conn-Kept :
      (P : S → Type 0)
      → ((r : Request) (s : S) → P s → P (handler uid r s).0)
      → (input : List ℕ) (s : S) → P s
      → P (serve_conn json handler uid input s).0
  unfolding serve_conn
  serve_conn-Kept P keep input s h = serve_lines-Kept P keep (length input) input s h

-- A request and its answer get through: each is encoded without a newline, and its line is decoded to
-- what it was.
pub record Carried (json : Json) (req : Request) (response : Response) : Type 0 where
  pub sent : List ℕ
  pub back : List ℕ
  pub encodes : json.request_text req ≡ some sent
  pub one_line : NoNewline sent
  pub decodes : json.read_request (sent ++ newline ∷ []) ≡ some req
  pub encodes_back : json.response_text response ≡ some back
  pub one_line_back : NoNewline back
  pub decodes_back : json.read_response (back ++ newline ∷ []) ≡ some response

-- The end of a connection that serveConn serves.
abbrev pub served : {S : Type 0} → Json → (ℕ → Request → S → S × Response) → ℕ → Peer S
served json handler uid = record { takes = true; talk = serve_conn json handler uid }

served_request :
    {S : Type 0} (json : Json) (handler : ℕ → Request → S → S × Response) (uid : ℕ) (req : Request)
    (s : S) (c : Carried json req (handler uid req s).1)
    → serve_conn json handler uid (c.sent ++ newline ∷ []) s
      ≡ ((handler uid req s).0, c.back ++ newline ∷ [])
unfolding answer_line write_response line_of
served_request json handler uid req s c =
    serve_conn-streamed json handler uid (c.sent ∷ []) [] s (c.one_line, tt) tt
    ∙ rw (c.decodes, answer_line, c.encodes_back, line_of, append-nil) refl

-- A call over a connection that the handler serves does to the state what the handler does with that
-- request of that user, and returns the handler's answer, if both get through.
pub command_request-served :
    {S : Type 0} (json : Json) (handler : ℕ → Request → S → S × Response) (uid : ℕ) (req : Request)
    (s : S)
    → Carried json req (handler uid req s).1
    → command_request json (some (served json handler uid)) req s
      ≡ ((handler uid req s).0, answered (handler uid req s).1)
unfolding command_request call
command_request-served json handler uid req s c =
    let talked = served_request json handler uid req s c in
    rw
      (
        c.encodes,
        call_with,
        talked,
        read_line-append c.back [] c.one_line_back,
        first_line,
        c.decodes_back,
        decoded,
      )
      refl
