-- ===== src/MyBash/Builtin.antt =====
-- lab01/sistop-famaf-so25lab1g34/builtin.c: the commands that the shell runs itself. `chdir`,
-- `getuid` and `getpwuid` are parameters; the texts of the messages are left out.
pub mod Internal
pub mod Cd
pub mod Dispatch
mod Tests
use fa_maf_sis_op.Prelude.{
  ℕ, zero, suc, Bool, true, false, not, ◌||◌, Option, none, some, List, [], ◌∷◌, ltb, ◌==◌,
  if◌then◌else◌, Text, codes, text_eq,
}
use fa_maf_sis_op.Prelude.Int.{ℤ, negsuc, eq_ℤ}
use fa_maf_sis_op.MyBash.GQueue.{GQueue}
use fa_maf_sis_op.MyBash.Run.{Run, pure, ◌>>=◌, ◌>>◌, assert, assert_some}
use fa_maf_sis_op.MyBash.Scommand.{
  Scommand, scommand_is_empty, scommand_front, scommand_length, scommand_pop_front,
}
use fa_maf_sis_op.MyBash.Pipeline.{Pipeline, pipeline_length, pipeline_front, pipeline_get}

-- `builtins`, without the final `NULL`
abbrev pub builtins : List Text
builtins = codes "cd" ∷ codes "exit" ∷ codes "help" ∷ []

-- The `while` of `builtin_is_internal`.
unfoldable pub matches_any : Text → List Text → Bool → Bool
matches_any cmd_name [] res = res
matches_any cmd_name (name ∷ names) res = matches_any cmd_name names (res || text_eq cmd_name name)

-- What is printed or done, other than the change of the directory.
pub data Answer : Type 0 where
  quiet too_many_arguments no_home chdir_failed help_message exited : Answer

-- `struct passwd` of the C library, of which the code reads one field.
pub record Passwd : Type 0 where
  pub pw_dir : Option Text

-- The system: `chdir`, with the state it acts on, the user, and the user database.
pub record Host : Type 1 where
  pub World : Type 0
  pub chdir : World → Text → ℤ × World
  pub getuid : World → ℕ
  pub getpwuid : World → (user_id : ℕ) → Option Passwd

module _ (g : GQueue) where
  unfoldable pub builtin_is_internal : Scommand g → Run Bool
  builtin_is_internal cmd =
      if not (scommand_is_empty g cmd)
      then (do cmd_name ← scommand_front g cmd; pure (matches_any cmd_name builtins false))
      else pure false

  unfoldable pub builtin_alone : Pipeline g → Run Bool
  builtin_alone p = do
    length ← pipeline_length g p
    if length == 1 then (pipeline_front g p >>= λ front. builtin_is_internal front) else pure false

  -- A round of the `for` of `pipeline_contains_builtin`: `||` calls only if `res` is false.
  unfoldable pub or_internal : Bool → Run (Option (Scommand g)) → Run Bool
  or_internal true nth = pure true
  or_internal false nth = do cmd ← nth; cmd ← assert_some cmd; builtin_is_internal cmd

  -- That `for`, from index `i` on, for `rounds` rounds.
  unfoldable pub contains_from : Pipeline g → (rounds i : ℕ) → Bool → Run Bool
  contains_from self zero i res = pure res
  contains_from self (suc rounds) i res =
      or_internal res (pipeline_get g self i) >>= λ res. contains_from self rounds (suc i) res

  unfoldable pub pipeline_contains_builtin : Pipeline g → Run Bool
  pipeline_contains_builtin self = do
    length ← pipeline_length g self
    contains_from self length 0 false

module _ (h : Host) where
  unfoldable pub change_directory : h.World → Text → Answer × h.World
  change_directory world path =
      let (rc, world) = h.chdir world path in
      (if eq_ℤ rc (negsuc 0) then chdir_failed else quiet, world)

  unfoldable pub get_home_directory : h.World → Option Text
  get_home_directory world =
      let user_id = h.getuid world in
      elim (h.getpwuid world user_id) [ none ↦ none | some user_info ↦ user_info.pw_dir ]

  -- The branch of `builtin_cd` without arguments.
  unfoldable pub go_home : h.World → Option Text → Answer × h.World
  go_home world none = (no_home, world)
  go_home world (some home_directory) = change_directory world home_directory

module _ (g : GQueue) (h : Host) where
  -- `builtin_cd`, with the command as it leaves it.
  unfoldable pub builtin_cd : h.World → Scommand g → Run ((Answer × h.World) × Scommand g)
  builtin_cd world cmd = do
    front ← scommand_front g cmd
    assert (text_eq front (codes "cd"))
    length ← scommand_length g cmd
    if ltb 2 length
        then pure ((too_many_arguments, world), cmd)
        else if length == 2
        then (do
          cmd ← scommand_pop_front g cmd
          dir ← scommand_front g cmd
          pure (change_directory h world dir, cmd))
        else pure (go_home h world (get_home_directory h world), cmd)

  unfoldable pub builtin_run : h.World → Scommand g → Run ((Answer × h.World) × Scommand g)
  builtin_run world cmd = do
    is_internal ← builtin_is_internal g cmd
    assert is_internal
    cmd_name ← scommand_front g cmd
    if text_eq cmd_name (codes "cd")
        then builtin_cd world cmd
        else pure (
          (
            if text_eq cmd_name (codes "exit")
                then exited
                else if text_eq cmd_name (codes "help")
                then help_message
                else quiet,
            world,
          ),
          cmd,
        )
