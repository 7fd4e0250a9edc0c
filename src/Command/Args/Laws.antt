-- ===== src/Command/Args/Laws.antt =====
-- cmd/nz/main.go: the argument lists of allow and deny.
use Prim.Native.String
use text.Mathlib.Text.{starts_with}
use text.Mathlib.TextPositions.{starts_with-append}
use nz.Base.{
  ◌≡◌, ◌≢◌, ◌↔◌, inl, inr, refl, sym, ap, ◌∙◌, String, false, not, ◌||◌, List, [], ◌∷◌, Option,
  none, some, ◌==◌, string_eq, eq_iff, if◌then◌else◌, All, Bool-cases, arith, if_true, if_false,
}
use nz.Command.Args.Words.{without_first-append, cut_prefix, joined≢to, plain≢to, plain-no_option}
use nz.Command.Args.{is_help_arg, without_first, finish_args, parse_from, parse_target_args}

-- One item of a command line: the target, and the two forms of the option.
pub data Item : Type 0 where
  target : String → Item
  to_after : String → Item
  to_joined : String → Item

-- The arguments that spell the items.
abbrev pub spelled : List Item → List String
spelled [] = []
spelled (target s ∷ items) = s ∷ spelled items
spelled (to_after s ∷ items) = "--to" ∷ s ∷ spelled items
spelled (to_joined s ∷ items) = String.◌++◌ "--to=" s ∷ spelled items

abbrev pub targets : List Item → List String
targets [] = []
targets (target s ∷ items) = s ∷ targets items
targets (to_after s ∷ items) = targets items
targets (to_joined s ∷ items) = targets items

-- The machine of the last option, and the given one without an option.
abbrev pub last_to : String → List Item → String
last_to to [] = to
last_to to (target s ∷ items) = last_to to items
last_to to (to_after s ∷ items) = last_to s items
last_to to (to_joined s ∷ items) = last_to s items

-- A text that is no option: no dash in front, and not the word `help`.
pub record IsPlain (s : String) : Type 0 where
  pub no_help : is_help_arg s ≡ false
  pub no_dash : starts_with s "-" ≡ false

-- The last text is the given one, and those before it are empty.
abbrev pub Only : String → List String → Type 0
Only s [] = ⊥
Only s (x ∷ []) = x ≡ s
Only s (x ∷ y ∷ rest) = (x ≡ "") × Only s (y ∷ rest)

-- How the arguments read when the target and the machine so far are known.
pub record Reading (subject to s t : String) (args : List String) : Type 0 where
  items : List Item
  spells : spelled items ≡ args
  plain : All IsPlain (targets items)
  one : Only s (subject ∷ targets items)
  some_text : s ≢ ""
  machine : last_to to items ≡ t

-- What the loop does with an argument that is not the word of the option.
plain : String → String → String → List String → Option (String × String)
plain subject to arg rest =
    if starts_with arg "--to="
    then parse_from subject (without_first 5 arg) rest
    else if is_help_arg arg || starts_with arg "-"
    then none
    else if not (subject == "")
    then none
    else parse_from arg to rest

plain_step :
    (subject to arg : String) (rest : List String)
    → arg == "--to" ≡ false
    → parse_from subject to (arg ∷ rest) ≡ plain subject to arg rest
unfolding parse_from plain
plain_step subject to arg [] other = refl
plain_step subject to arg (next ∷ rest) other = if_false _ _ _ other

finish_given : (s to : String) → s ≢ "" → finish_args s to ≡ some (s, to)
unfolding finish_args
finish_given s to h = if_false (s == "") _ _ (ground (arith, eq_iff s "", h))

target_step :
    (to x : String) (rest : List String)
    → IsPlain x
    → parse_from "" to (x ∷ rest) ≡ parse_from x to rest
unfolding plain
target_step to x rest p =
    plain_step "" to x rest (plain≢to x p.no_dash)
    ∙ if_false _ _ _ (plain-no_option x p.no_dash)
    ∙ if_false (is_help_arg x || starts_with x "-") _ _ (ground (arith, p.no_help, p.no_dash))

joined_step :
    (subject to v : String) (rest : List String)
    → parse_from subject to (String.◌++◌ "--to=" v ∷ rest) ≡ parse_from subject v rest
unfolding plain
joined_step subject to v rest =
    plain_step subject to (String.◌++◌ "--to=" v) rest (joined≢to v)
    ∙ if_true _ _ _ (starts_with-append "--to=" v)
    ∙ ap (λ w. parse_from subject w rest) (without_first-append "--to=" v)

accepted :
    (s subject to : String) (items : List Item)
    → All IsPlain (targets items)
    → Only s (subject ∷ targets items)
    → s ≢ ""
    → parse_from subject to (spelled items) ≡ some (s, last_to to items)
unfolding parse_from
accepted s subject to [] h one text = ap (λ v. finish_args v to) one ∙ finish_given s to text
accepted s subject to (target x ∷ items) (p, h) (blank, one) text =
    ap (λ v. parse_from v to (x ∷ spelled items)) blank
    ∙ target_step to x (spelled items) p
    ∙ accepted s x to items h one text
accepted s subject to (to_after v ∷ items) h one text = accepted s subject v items h one text
accepted s subject to (to_joined v ∷ items) h one text =
    joined_step subject to v (spelled items) ∙ accepted s subject v items h one text

not_blank : (s : String) → s == "" ≡ false → s ≢ ""
not_blank s miss blank = cc (sym ((eq_iff s "").1 blank) ∙ miss)

-- What an accepted list says is put in front of a reading of the rest.
read_finish :
    (subject to s t : String) → finish_args subject to ≡ some (s, t) → Reading subject to s t []
unfolding finish_args
read_finish subject to s t e = elim (Bool-cases (subject == "")) [
  | inl hit ↦
      let bad : none ≡ some (s, t) =
        sym (if_true (subject == "") none (some (subject, to)) hit) ∙ e in
      absurd (cc bad)
  | inr miss ↦
      let given : some (subject, to) ≡ some (s, t) =
        sym (if_false (subject == "") none (some (subject, to)) miss) ∙ e in
      let same : subject ≡ s = cc given in
      record {
        items = [];
        spells = refl;
        plain = tt;
        one = same;
        some_text = λ blank. not_blank subject miss (same ∙ blank);
        machine = cc given;
      }
]

read_target :
    (subject to s t arg : String) (rest : List String)
    → ((subject' to' : String)
        → parse_from subject' to' rest ≡ some (s, t)
        → Reading subject' to' s t rest)
    → (is_help_arg arg ≡ false) × (starts_with arg "-" ≡ false)
    → (if not (subject == "") then none else parse_from arg to rest) ≡ some (s, t)
    → Reading subject to s t (arg ∷ rest)
read_target subject to s t arg rest below (no_help, no_dash) e = elim (Bool-cases (subject == "")) [
  | inl hit ↦
      let r = below arg to (sym (if_false (not (subject == "")) _ _ (ground (arith, hit))) ∙ e) in
      record {
        items = target arg ∷ r.items;
        spells = ap (◌∷◌ arg) r.spells;
        plain = (record { no_help = no_help; no_dash = no_dash }, r.plain);
        one = ((eq_iff subject "").0 hit, r.one);
        some_text = r.some_text;
        machine = r.machine;
      }
  | inr miss ↦
      let bad : none ≡ some (s, t) =
        sym (if_true (not (subject == "")) none (parse_from arg to rest) (ground (arith, miss)))
        ∙ e in
      absurd (cc bad)
]

read_plain :
    (subject to s t arg : String) (rest : List String)
    → ((subject' to' : String)
        → parse_from subject' to' rest ≡ some (s, t)
        → Reading subject' to' s t rest)
    → plain subject to arg rest ≡ some (s, t)
    → Reading subject to s t (arg ∷ rest)
unfolding plain
read_plain subject to s t arg rest below e = elim (Bool-cases (starts_with arg "--to=")) [
  | inl joined ↦
      let r = below subject (without_first 5 arg) (sym (if_true _ _ _ joined) ∙ e) in
      record {
        items = to_joined (without_first 5 arg) ∷ r.items;
        spells = rw (cut_prefix arg "--to=" joined, r.spells) refl;
        plain = r.plain;
        one = r.one;
        some_text = r.some_text;
        machine = r.machine;
      }
  | inr other ↦ elim (Bool-cases (is_help_arg arg || starts_with arg "-")) [
    | inl refused ↦
        let bad : none ≡ some (s, t) =
          sym (if_false _ _ _ other ∙ if_true (is_help_arg arg || starts_with arg "-") _ _ refused)
          ∙ e in
        absurd (cc bad)
    | inr word ↦ read_target subject to s t arg rest below (ground (arith, word)) (
        sym (if_false _ _ _ other ∙ if_false (is_help_arg arg || starts_with arg "-") _ _ word) ∙ e)
  ]
]

read_back :
    (subject to s t : String) (args : List String)
    → parse_from subject to args ≡ some (s, t)
    → Reading subject to s t args
unfolding parse_from plain
read_back subject to s t [] e = read_finish subject to s t e
read_back subject to s t (arg ∷ []) e =
    read_plain subject to s t arg [] (λ subject' to' e'. read_finish subject' to' s t e') e
read_back subject to s t (arg ∷ next ∷ rest) e = elim (Bool-cases (arg == "--to")) [
  | inr miss ↦
      read_plain subject to s t arg (next ∷ rest)
        (λ subject' to' e'. read_back subject' to' s t (next ∷ rest) e')
        (sym (plain_step subject to arg (next ∷ rest) miss) ∙ e)
  | inl hit ↦
      let r = read_back subject next s t rest (sym (if_true _ _ _ hit) ∙ e) in
      record {
        items = to_after next ∷ r.items;
        spells = rw (r.spells, (eq_iff arg "--to").0 hit) refl;
        plain = r.plain;
        one = r.one;
        some_text = r.some_text;
        machine = r.machine;
      }
]

-- The arguments of allow and deny are accepted with a target and a machine just where they spell a
-- list of items, in any order, whose only target that is not empty is that target and comes last of
-- all targets, where no target has a dash in front or asks for help, and where the last option names
-- that machine, which is the empty text if there is no option.
pub parse_target_args_iff :
    (args : List String) (s t : String)
    → (parse_target_args args ≡ some (s, t)) ↔ Reading "" "" s t args
unfolding parse_target_args
parse_target_args_iff args s t = (
  read_back "" "" s t args,
  λ r.
      ap (parse_from "" "") (sym r.spells)
      ∙ accepted s "" "" r.items r.plain r.one r.some_text
      ∙ ap (λ v. some (s, v)) r.machine,
)
