-- ===== src/Clevis/Swap.antt =====
-- src/ogygia-clevis/src/swap.rs: the replacement of the blob by a renamed temporary file.
pub mod Atomic
pub mod Calls
use ogygia_nix.Base.{
  ℕ, zero, suc, Bool, true, false, Option, none, some, List, [], ◌∷◌, ◌++◌, map, take, length,
  if◌then◌else◌,
}
use ogygia_nix.Base.Text.{Text}
use ogygia_nix.Clevis.Disk.{
  File, Disk, put, Failure, metadata, creating, permissions, writing, syncing, persisting,
  syncing_dir, no_parent, Result, done, failed, Run, Action, then_run, ◌>>=◌, ◌>>◌, lift, pure,
  or_failed,
}

-- The operating system and the tempfile library: the parent of a path, the name chosen for a
-- temporary file in a directory, which calls are refused, after how many bytes a write stops, if it
-- does, and the mode of a fresh temporary file.
pub record Os : Type 0 where
  pub parent : Text → Option Text
  pub temp_name : Text → Text
  pub refuses : Failure → Bool
  pub stops_after : Option ℕ
  pub fresh_mode : ℕ

unfoldable pub attempt : (refused : Bool) → Failure → (before after : Disk) → Run (Unit {0})
attempt true what before after = record { result = failed what; during = []; disk = before }
attempt false what before after = record { result = done tt; during = before ∷ []; disk = after }

-- A call that the operating system may refuse, and the change of the disk otherwise.
unfoldable pub try : Os → Failure → (Disk → Disk) → Action (Unit {0})
unfolding attempt
try os what change d = attempt (os.refuses what) what d (change d)

unfoldable pub change_file : Text → (File → File) → Disk → Disk
change_file path f d = put path (elim (d path) [ none ↦ none | some file ↦ some (f file) ]) d

unfoldable pub set_mode : ℕ → File → File
set_mode mode file = record { content = file.content; mode = mode; synced = file.synced }

unfoldable pub append : List ℕ → File → File
append bytes file = record { content = file.content ++ bytes; mode = file.mode; synced = false }

unfoldable pub sync : File → File
sync file = record { content = file.content; mode = file.mode; synced = true }

-- The states with the first bytes of the contents only.
unfoldable pub partial_writes : ℕ → Text → List ℕ → Disk → List Disk
partial_writes zero path bytes d = d ∷ []
partial_writes (suc n) path bytes d =
    partial_writes n path bytes d ++ (change_file path (append (take (suc n) bytes)) d ∷ [])

unfoldable pub write_until : (stop : Option ℕ) → Text → List ℕ → Action (Unit {0})
unfolding partial_writes
write_until (some n) path bytes d = record {
  result = failed writing;
  during = partial_writes n path bytes d;
  disk = change_file path (append (take n bytes)) d;
}
write_until none path bytes d = record {
  result = done tt;
  during = partial_writes (length bytes) path bytes d;
  disk = change_file path (append bytes) d;
}

-- `write_all`.
unfoldable pub write_all : Os → Text → List ℕ → Action (Unit {0})
unfolding write_until
write_all os path bytes = write_until os.stops_after path bytes

unfoldable pub create : Os → Text → Action (Unit {0})
create os tmp =
    try os creating (put tmp (some (record { content = []; mode = os.fresh_mode; synced = false })))

-- `persist`: the rename.
unfoldable pub persist : Os → (tmp path : Text) → Action (Unit {0})
persist os tmp path = try os persisting (λ d. put path (d tmp) (put tmp none d))

unfoldable pub drop_temp : Text → Run (Unit {0}) → Result (Unit {0}) → Run (Unit {0})
drop_temp tmp r (done _) = r
drop_temp tmp r (failed e) = record {
  result = failed e;
  during = r.during ++ (r.disk ∷ []);
  disk = put tmp none r.disk;
}

-- A temporary file that is not persisted is removed when its handle is dropped.
unfoldable pub dropping : Text → Action (Unit {0}) → Action (Unit {0})
unfolding drop_temp
dropping tmp m d = let r = m d in drop_temp tmp r r.result

unfoldable pub file_mode : Option File → Option ℕ
file_mode none = none
file_mode (some file) = some file.mode

unfoldable pub mode_of : (refused : Bool) → Option File → Result ℕ
unfolding file_mode
mode_of true file = failed metadata
mode_of false file = or_failed (file_mode file) metadata

-- `fs::metadata(path)`, of which the permissions are used.
unfoldable pub read_mode : Os → Text → Action ℕ
unfolding mode_of
read_mode os path d = record {
  result = mode_of (os.refuses metadata) (d path);
  during = [];
  disk = d;
}

-- What is done with the temporary file.
unfoldable pub fill : Os → (tmp path : Text) → ℕ → List ℕ → Action (Unit {0})
fill os tmp path mode contents = do
  try os permissions (change_file tmp (set_mode mode))
  write_all os tmp contents
  try os syncing (change_file tmp sync)
  persist os tmp path

unfoldable pub replace : Os → Text → List ℕ → Action (Unit {0})
replace os path contents = do
  dir ← lift (or_failed (os.parent path) no_parent)
  mode ← read_mode os path
  create os (os.temp_name dir)
  dropping (os.temp_name dir) (fill os (os.temp_name dir) path mode contents)
  try os syncing_dir (λ d. d)
