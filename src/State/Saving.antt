-- ===== src/State/Saving.antt =====
-- internal/state/state.go, saveLocked: memory and file around a write.
use nz.Base.{◌≡◌, ◌≢◌, refl, List, [], ◌∷◌, none, some}
use nz.State.Model.{
  State, tables, save_locked, save_answered, Write, written, write_fails, rename_fails,
  user_status_eq,
}

-- A write leaves the tables alone.
pub tables-save_locked : (s : State) → tables (save_locked s).0 ≡ tables s
unfolding save_locked
tables-save_locked s = go s.writes
  where
    go : (ws : List Write) → tables (save_answered ws s).0 ≡ tables s
    go [] = refl
    go (written ∷ ws) = refl
    go (write_fails ∷ ws) = refl
    go (rename_fails ∷ ws) = refl

-- The file holds what is in memory.
abbrev pub IsSynced : State → Type 0
IsSynced s = s.file ≡ some (tables s)

-- A write that reports success leaves the file in step with the memory; one that fails leaves the
-- file as it was.
pub save_locked_lem :
    (s : State)
    → ((save_locked s).1 ≡ none → IsSynced (save_locked s).0)
      × ((save_locked s).1 ≢ none → (save_locked s).0.file ≡ s.file)
unfolding save_locked
save_locked_lem s = go s.writes
  where
    go :
        (ws : List Write)
        → ((save_answered ws s).1 ≡ none → IsSynced (save_answered ws s).0)
          × ((save_answered ws s).1 ≢ none → (save_answered ws s).0.file ≡ s.file)
    go [] = (λ e. refl, λ n. absurd (n refl))
    go (written ∷ ws) = (λ e. refl, λ n. absurd (n refl))
    go (write_fails ∷ ws) = (λ e. cc, λ n. refl)
    go (rename_fails ∷ ws) = (λ e. cc, λ n. refl)
