-- ===== src/Command/Text.antt =====
-- The text that the program prints: its colours, the log lines of internal/logx/logx.go, and the
-- functions of strings and fmt that it builds a line with.
use Prim.Native.String
use nz.Base.{ℕ, zero, suc, ◌+◌, ◌/◌, ◌%◌, String, List, [], ◌∷◌, if◌then◌else◌, ltb}

infixr 65 ◌⧺◌
abbrev pub ◌⧺◌ : String → String → String
◌⧺◌ = String.◌++◌

abbrev pub mauve : String
mauve = "\u{1b}[38;2;198;160;246m"

abbrev pub blue : String
blue = "\u{1b}[38;2;138;173;244m"

abbrev pub green : String
green = "\u{1b}[38;2;166;218;149m"

abbrev pub yellow : String
yellow = "\u{1b}[38;2;238;212;159m"

abbrev pub red_soft : String
red_soft = "\u{1b}[38;2;237;135;150m"

abbrev pub bold : String
bold = "\u{1b}[1m"

abbrev pub reset : String
reset = "\u{1b}[0m"

-- `strings.Join`
unfoldable pub joined : String → List String → String
joined sep [] = ""
joined sep (s ∷ []) = s
joined sep (s ∷ t ∷ rest) = s ⧺ sep ⧺ joined sep (t ∷ rest)

-- `strings.Repeat`
unfoldable pub repeated : String → ℕ → String
repeated s zero = ""
repeated s (suc n) = s ⧺ repeated s n

abbrev digit : ℕ → String
digit d = String.◌∷◌ (String.char_at "0123456789" d) String.[]

-- The digits of a number in front of a text; a number has no more digits than the fuel, which is the
-- number and one.
digits : ℕ → ℕ → String → String
digits zero n after = after
digits (suc fuel) n after =
    let more = digits fuel (n / 10) (digit (n % 10) ⧺ after) in
    if ltb n 10 then digit n ⧺ after else more

-- `%d`
unfoldable pub decimal : ℕ → String
unfolding digits
decimal n = digits (n + 1) n ""

-- The functions of logx: a line with a mark and its colour. `%s` in a message is written out.
unfoldable pub log_line : String → String → String → String
log_line color prefix message = color ⧺ prefix ⧺ " " ⧺ message ⧺ reset

unfoldable pub info : String → String
unfolding log_line
info message = log_line blue "[i]" message

unfoldable pub success : String → String
unfolding log_line
success message = log_line green "[+]" message

unfoldable pub warn : String → String
unfolding log_line
warn message = log_line yellow "[!]" message

unfoldable pub error : String → String
unfolding log_line
error message = log_line red_soft "[-]" message
