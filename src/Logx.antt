-- ===== src/Logx.antt =====
-- internal/logx/logx.go: the log file and its rotation.
use Prim.Native.String
use nz.Base.{ℕ, ◌-◌, ◌*◌, String, List, [], ◌∷◌, ◌++◌, Option, none, some, if◌then◌else◌, ltb}
use nz.Command.Text.{◌⧺◌}

abbrev pub max_log_size : ℕ
max_log_size = 10 * 1024 * 1024

-- A change of the file system.
pub data FileAction : Type 0 where
  remove : String → FileAction
  rename : String → String → FileAction
  append_to : String → FileAction

-- What the log uses of the file system: the size of a file or none on an error of Stat, filepath.Ext,
-- and the error of opening a file for appending.
pub record Files : Type 0 where
  pub size : String → Option ℕ
  pub extension : String → String
  pub open_error : String → Option String

module _ (files : Files) where
  unfoldable pub backup_path : String → String
  backup_path path =
      String.slice path 0 (String.len path - String.len (files.extension path)) ⧺ ".log.1"

  rotate_full : String → Option ℕ → List FileAction
  unfolding backup_path
  rotate_full path none = []
  rotate_full path (some size) =
      if ltb size max_log_size
      then []
      else remove (backup_path path) ∷ rename path (backup_path path) ∷ []

  -- The errors of the removal and of the renaming are dropped.
  unfoldable pub rotate : String → List FileAction
  unfolding rotate_full
  rotate path = rotate_full path (files.size path)

  -- What is done, and the text of the error.
  unfoldable pub open_log_file : String → List FileAction × Option String
  unfolding rotate
  open_log_file path = elim (files.open_error path) [
    | none ↦ (rotate path ++ append_to path ∷ [], none)
    | some e ↦ (rotate path, some ("failed to open log file " ⧺ path ⧺ ": " ⧺ e))
  ]
