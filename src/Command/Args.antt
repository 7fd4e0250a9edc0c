-- ===== src/Command/Args.antt =====
-- cmd/nz/main.go: the arguments of allow and deny.
pub mod Laws
pub mod Words
use Prim.Native.String
use text.Mathlib.Text.{starts_with}
use nz.Base.{
  ℕ, zero, suc, ◌≡◌, refl, String, Bool, not, ◌||◌, List, [], ◌∷◌, Option, none, some, ◌==◌,
  string_eq, if◌then◌else◌,
}

abbrev pub is_help_arg : String → Bool
is_help_arg s = s == "-h" || s == "--help" || s == "help"

-- A text without its first characters.
unfoldable pub without_first : ℕ → String → String
without_first zero s = s
without_first (suc n) String.[] = ""
without_first (suc n) (String.◌∷◌ c s) = without_first n s

-- The last step of the loop: a subject must have been given.
unfoldable pub finish_args : String → String → Option (String × String)
finish_args subject to = if subject == "" then none else some (subject, to)

-- The loop of parseTargetArgs; `none` is its false.
unfoldable pub parse_from : String → String → List String → Option (String × String)
unfolding finish_args without_first
parse_from subject to [] = finish_args subject to
parse_from subject to (arg ∷ []) =
    if starts_with arg "--to="
    then finish_args subject (without_first 5 arg)
    else if is_help_arg arg || starts_with arg "-"
    then none
    else if not (subject == "")
    then none
    else finish_args arg to
parse_from subject to (arg ∷ next ∷ rest) =
    let after_value = parse_from subject next rest in
    let after_short = parse_from subject (without_first 5 arg) (next ∷ rest) in
    let after_subject = parse_from arg to (next ∷ rest) in
    if arg == "--to"
    then after_value
    else if starts_with arg "--to="
    then after_short
    else if is_help_arg arg || starts_with arg "-"
    then none
    else if not (subject == "")
    then none
    else after_subject

unfoldable pub parse_target_args : List String → Option (String × String)
unfolding parse_from
parse_target_args args = parse_from "" "" args

to_after :
    parse_target_args ("alice/phone" ∷ "--to" ∷ "laptop" ∷ []) ≡ some ("alice/phone", "laptop")
unfolding parse_target_args
to_after = refl

two_targets : parse_target_args ("alice" ∷ "bob" ∷ []) ≡ none
unfolding parse_target_args
two_targets = refl

to_without_value : parse_target_args ("alice" ∷ "--to" ∷ []) ≡ none
unfolding parse_target_args
to_without_value = refl
