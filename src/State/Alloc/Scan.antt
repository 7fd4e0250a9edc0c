-- ===== src/State/Alloc/Scan.antt =====
-- internal/state/state.go, AllocateIP: the loop over the addresses.
use native.Mathlib.Nat.{pow-suc, le-div_iff_mul-le, div-mul-le_self, le_trans, le_refl}
use native.Mathlib.Decide.{dec_lt}
use nz.Base.{
  ℕ, zero, suc, ◌+◌, ◌-◌, ◌^◌, ◌/◌, ◌≤◌, ◌<◌, String, Bool, true, false, not, ◌||◌, ◌≡◌, ◌≢◌, ◌⊎◌,
  ◌∙◌, sym, subst, Option, none, some, List, ◌==◌, string_eq, arith, eq_iff, Bool-cases, inl, inr,
}
use nz.Netip.{Addr, invalid, v4, addr_eq, addr_beq_iff, next, Prefix, contains, to_string}
use nz.State.Alloc.{scan, owner_of, server_ip}

-- The address cannot be given out: it is the server's, or a machine has it.
abbrev pub Taken : Prefix → List (String × String) → Addr → Type 0
Taken p used a = (a ≡ server_ip p) ⊎ (owner_of (to_string a) used ≢ "")

abbrev pub IsBounded : Addr → Type 0
IsBounded invalid = Unit
IsBounded (v4 n) = n < 2 ^ 32

pub next-IsBounded : (a : Addr) → IsBounded (next a)
unfolding next
next-IsBounded invalid = tt
next-IsBounded (v4 n) = ground arith

pub next_v4 : (n m : ℕ) → n < m → m < 2 ^ 32 → next (v4 n) ≡ v4 (n + 1)
unfolding next
next_v4 n m h k = ground arith

abbrev blocked : Prefix → List (String × String) → Addr → Bool
blocked p used a = a == server_ip p || not (owner_of (to_string a) used == "")

-- One round.
scan_outside :
    (f : ℕ) (p : Prefix) (used : List (String × String)) (a : Addr)
    → contains p a ≡ false
    → scan (suc f) p used a ≡ none
unfolding scan
scan_outside f p used a e = rw (e, scan)

scan_stopped :
    (f : ℕ) (p : Prefix) (used : List (String × String)) (a : Addr)
    → contains p a ≡ true
    → blocked p used a ≡ true
    → scan (suc f) p used a ≡ scan f p used (next a)
unfolding scan
scan_stopped f p used a e b = rw (e, scan, b)

scan_free :
    (f : ℕ) (p : Prefix) (used : List (String × String)) (a : Addr)
    → contains p a ≡ true
    → blocked p used a ≡ false
    → scan (suc f) p used a ≡ some a
unfolding scan
scan_free f p used a e b = rw (e, scan, b)

blocked-Taken :
    (p : Prefix) (used : List (String × String)) (a : Addr)
    → blocked p used a ≡ true
    → Taken p used a
blocked-Taken p used a h =
    ground (arith, addr_beq_iff a (server_ip p), eq_iff (owner_of (to_string a) used) "")

abbrev pub Found : Prefix → List (String × String) → Addr → Type 0
Found p used a =
    (contains p a ≡ true) × (a ≢ server_ip p) × (owner_of (to_string a) used ≡ "") × IsBounded a

free-Found :
    (p : Prefix) (used : List (String × String)) (a : Addr)
    → contains p a ≡ true
    → blocked p used a ≡ false
    → IsBounded a
    → Found p used a
free-Found p used a e h b = (
  e,
  ground (arith, addr_beq_iff a (server_ip p)),
  ground (arith, eq_iff (owner_of (to_string a) used) ""),
  b,
)

module _ (p : Prefix) (used : List (String × String)) where
  pub scan-Found : (f : ℕ) (a b : Addr) → IsBounded a → scan f p used a ≡ some b → Found p used b
  unfolding scan
  scan-Found zero a b h e = cc
  scan-Found (suc f) a b h e = elim (Bool-cases (contains p a)) [
    | inr out ↦ cc (scan_outside f p used a out)
    | inl within ↦ elim (Bool-cases (blocked p used a)) [
      | inl skip ↦
          scan-Found f (next a) b (next-IsBounded a) (sym (scan_stopped f p used a within skip) ∙ e)
      | inr free ↦
          let same : a ≡ b = cc (scan_free f p used a within free) in
          subst (Found p used) same (free-Found p used a within free h)
    ]
  ]

  -- One taken address is passed, and the rest is left to the rounds to come.
  pass-Taken :
      (f n m k : ℕ) (o : Option Addr)
      → m < 2 ^ 32
      → contains p (v4 n) ≡ true
      → blocked p used (v4 n) ≡ true
      → scan (suc f) p used (v4 n) ≡ o
      → n ≤ k
      → n < m
      → (scan f p used (v4 (n + 1)) ≡ o → n + 1 ≤ k → Taken p used (v4 k))
      → Taken p used (v4 k)
  pass-Taken f n m k o hm within skip e h l rest = elim (dec_lt n k) [
    | yes before ↦
        rest (rw (next_v4 n m l hm) at (sym (scan_stopped f p used (v4 n) within skip) ∙ e))
          (omega arith)
    | no after ↦ let same : n ≡ k = omega arith in rw (← same) (blocked-Taken p used (v4 n) skip)
  ]

  -- Every address that the loop passed over is taken.
  pub scan_lowest :
      (f n m k : ℕ)
      → m < 2 ^ 32
      → scan f p used (v4 n) ≡ some (v4 m)
      → n ≤ k
      → k < m
      → Taken p used (v4 k)
  scan_lowest zero n m k hm e h l = unfold scan in cc
  scan_lowest (suc f) n m k hm e h l = elim (Bool-cases (contains p (v4 n))) [
    | inr out ↦ cc (scan_outside f p used (v4 n) out)
    | inl within ↦ elim (Bool-cases (blocked p used (v4 n))) [
      | inl skip ↦
          pass-Taken f n m k _ hm within skip e h (omega arith)
            (λ e' h'. scan_lowest f (n + 1) m k hm e' h' l)
      | inr free ↦
          let same : n ≡ m = ground (arith, scan_free f p used (v4 n) within free) in
          absurd (omega arith)
    ]
  ]

  -- With rounds for every address up to `k`, a loop that finds nothing has passed over `k` too.
  pub scan_exhausts :
      (f n k : ℕ)
      → k < 2 ^ 32
      → k < n + f
      → ((j : ℕ) → n ≤ j → j ≤ k → contains p (v4 j) ≡ true)
      → scan f p used (v4 n) ≡ none
      → n ≤ k
      → Taken p used (v4 k)
  scan_exhausts zero n k hk fuel inside e h = absurd (omega arith)
  scan_exhausts (suc f) n k hk fuel inside e h =
      let within = inside n (le_refl n) h in
      elim (Bool-cases (blocked p used (v4 n))) [
        | inl skip ↦ elim (dec_lt n k) [
          | yes before ↦ pass-Taken f n k k _ hk within skip e h before (λ e' h'.
              scan_exhausts f (n + 1) k hk (omega arith) (λ j a b. inside j (omega arith) b) e' h')
          | no after ↦
              let same : n ≡ k = omega arith in rw (← same) (blocked-Taken p used (v4 n) skip)
        ]
        | inr free ↦ cc (scan_free f p used (v4 n) within free)
      ]

pow_pos : (k : ℕ) → 0 < 2 ^ k
pow_pos zero = omega arith
pow_pos (suc k) = rw pow-suc (omega (arith, pow_pos k))

div_mono : (a b d : ℕ) → 0 < d → a ≤ b → a / d ≤ b / d
div_mono a b d h l = (le-div_iff_mul-le h).1 (le_trans (div-mul-le_self a d) l)

-- A prefix holds whole intervals.
pub contains-between :
    (p : Prefix) (i j k : ℕ)
    → contains p (v4 i) ≡ true
    → contains p (v4 k) ≡ true
    → i ≤ j
    → j ≤ k
    → contains p (v4 j) ≡ true
unfolding contains
contains-between p i j k a b h l =
    let d = 2 ^ (32 - p.bits) in
    ground
      (arith, div_mono i j d (pow_pos (32 - p.bits)) h, div_mono j k d (pow_pos (32 - p.bits)) l)
