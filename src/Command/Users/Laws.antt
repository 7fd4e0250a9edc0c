-- ===== src/Command/Users/Laws.antt =====
-- cmd/nz/output.go: the machines in the table of users.
use nz.Base.{
  ◌≡◌, ◌≤◌, ◌↔◌, ◌⊎◌, inl, inr, refl, ap, subst, ◌∙◌, Bool, true, false, List, [], ◌∷◌, arith,
  length, All, keep_if, keep_if-test, Bool-cases, if_true, if_false, eq_iff, if◌then◌else◌, nat_eq,
  ◌==◌, string_eq,
}
use nz.State.Model.{
  User, MachineView, MachineStatus, user_status_eq, machine_status_eq, machine_status_beq_iff,
}
use nz.Command.Users.{user_status_text, Group, groups, shown_of, is_pending, is_left_out}

-- The value stands in the list.
abbrev pub In : {A : Type 0} → A → List A → Type 0
In x [] = ⊥
In x (y ∷ ys) = (y ≡ x) ⊎ In x ys

-- The machine stands in a group.
abbrev pub IsShown : MachineView → List Group → Type 0
IsShown m [] = ⊥
IsShown m (g ∷ rest) = In m g.machines ⊎ IsShown m rest

-- The machine belongs to one of the users.
abbrev pub HasUser : MachineView → List User → Type 0
HasUser m [] = ⊥
HasUser m (u ∷ users) = (m.machine.user ≡ u.name) ⊎ HasUser m users

module _ {A : Type 0} (p : A → Bool) (x : A) where
  In-keep_if : (xs : List A) → p x ≡ true → In x xs → In x (keep_if p xs)
  unfolding keep_if
  In-keep_if [] h here = here
  In-keep_if (y ∷ ys) h (inl same) = rw (ap p same ∙ h, keep_if) (inl same)
  In-keep_if (y ∷ ys) h (inr later) = elim (Bool-cases (p y)) [
    | inl hit ↦ rw (hit, keep_if) (inr (In-keep_if ys h later))
    | inr miss ↦ rw (miss, keep_if) (In-keep_if ys h later)
  ]

  In-All : (P : A → Type 0) (xs : List A) → All P xs → In x xs → P x
  In-All P [] h here = absurd here
  In-All P (y ∷ ys) (q, h) (inl same) = subst P same q
  In-All P (y ∷ ys) (q, h) (inr later) = In-All P ys h later

  keep_if-In : (xs : List A) → In x (keep_if p xs) → In x xs
  unfolding keep_if
  keep_if-In [] h = h
  keep_if-In (y ∷ ys) h = elim (Bool-cases (p y)) [
    | inl hit ↦
        let h' : (y ≡ x) ⊎ In x (keep_if p ys) =
          subst (In x) (if_true (p y) (y ∷ keep_if p ys) (keep_if p ys) hit) h in
        elim h' [ inl same ↦ inl same | inr later ↦ inr (keep_if-In ys later) ]
    | inr miss ↦
        inr (keep_if-In ys (subst (In x) (if_false (p y) (y ∷ keep_if p ys) (keep_if p ys) miss) h))
  ]

module _ {A : Type 0} (p : A → Bool) (x : A) (xs : List A) where
  In-keep_if_iff : In x (keep_if p xs) ↔ (In x xs × (p x ≡ true))
  In-keep_if_iff = (
    λ h. (keep_if-In p x xs h, In-All p x (λ y. p y ≡ true) (keep_if p xs) (keep_if-test p xs) h),
    λ (h, t). In-keep_if p x xs t h,
  )

In-nonempty : (m : MachineView) (ms : List MachineView) → In m ms → 1 ≤ length ms
In-nonempty m [] h = elim h [ ]
In-nonempty m (y ∷ ys) h = omega arith

-- The machines of a user that are shown are that user's, and pending ones if only those are asked for.
shown_of_iff :
    (pending_only : Bool) (machines : List MachineView) (u : User) (m : MachineView)
    → In m (shown_of pending_only machines u) ↔ (
        In m machines
        × (m.machine.user ≡ u.name)
        × ((pending_only ≡ false) ⊎ (m.machine.status ≡ MachineStatus.pending)))
unfolding shown_of
shown_of_iff true machines u m =
    let own : MachineView → Bool = λ k. k.machine.user == u.name in
    let own_iff = In-keep_if_iff own m machines in
    let all_iff = In-keep_if_iff is_pending m (keep_if own machines) in
    let name_iff = eq_iff m.machine.user u.name in
    let status_iff = machine_status_beq_iff m.machine.status MachineStatus.pending in
    (
      λ h.
          let (among, pending) = all_iff.0 h in
          let (here, of_user) = own_iff.0 among in
          (here, name_iff.0 of_user, inr (status_iff.0 pending)),
      λ (here, of_user, pending).
          all_iff.1 (own_iff.1 (here, name_iff.1 of_user), ground (arith, pending, status_iff)),
    )
shown_of_iff false machines u m =
    let own_iff = In-keep_if_iff (λ k. k.machine.user == u.name) m machines in
    let name_iff = eq_iff m.machine.user u.name in
    (
      λ h. let (here, of_user) = own_iff.0 h in (here, name_iff.0 of_user, inl refl),
      λ (here, of_user, pending). own_iff.1 (here, name_iff.1 of_user),
    )

-- A group that is left out shows no machine.
IsShown-keeps :
    (out : Bool) (g : Group) (rest : List Group) (m : MachineView)
    → ((out ≡ false) ⊎ ¬ In m g.machines)
    → IsShown m (if out then rest else g ∷ rest) ↔ (In m g.machines ⊎ IsShown m rest)
IsShown-keeps false g rest m h = (λ k. k, λ k. k)
IsShown-keeps true g rest m (inr empty) =
    (inr, λ k. elim k [ inl here ↦ absurd (empty here) | inr later ↦ later ])
IsShown-keeps true g rest m (inl no_way) = absurd (cc no_way)

left_out-empty :
    (pending_only : Bool) (u : User) (shown : List MachineView) (m : MachineView)
    → (is_left_out pending_only u shown ≡ false) ⊎ ¬ In m shown
left_out-empty pending_only u shown m = elim (Bool-cases (is_left_out pending_only u shown)) [
  | inr stays ↦ inl stays
  | inl out ↦ inr (λ here. ground (arith, out, In-nonempty m shown here))
]

-- The table shows a machine just where it is among the machines and belongs to one of the users, and,
-- if only the pending ones are asked for, is pending.
pub groups_iff :
    (pending_only : Bool) (machines : List MachineView) (users : List User) (m : MachineView)
    → IsShown m (groups pending_only machines users) ↔ (
        In m machines
        × HasUser m users
        × ((pending_only ≡ false) ⊎ (m.machine.status ≡ MachineStatus.pending)))
unfolding groups
groups_iff pending_only machines [] m = (λ h. absurd h, λ (here, none_of, rest). none_of)
groups_iff pending_only machines (u ∷ users) m =
    let below = groups_iff pending_only machines users m in
    let own = shown_of_iff pending_only machines u m in
    let shown = shown_of pending_only machines u in
    let split =
      IsShown-keeps (is_left_out pending_only u shown)
        (record { user = u.name; status = user_status_text u.status; machines = shown })
        (groups pending_only machines users) m (left_out-empty pending_only u shown m) in
    (
      λ h. elim (split.0 h) [
        | inl here ↦ let (among, of_user, pending) = own.0 here in (among, inl of_user, pending)
        | inr later ↦ let (among, known, pending) = below.0 later in (among, inr known, pending)
      ],
      λ (among, known, pending). split.1 (elim known [
        | inl of_user ↦ inl (own.1 (among, of_user, pending))
        | inr other ↦ inr (below.1 (among, other, pending))
      ]),
    )
