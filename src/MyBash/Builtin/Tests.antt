-- ===== src/MyBash/Builtin/Tests.antt =====
-- Sample commands, and the theorems of builtin.c on them.
use fa_maf_sis_op.Prelude.{◌≡◌, true, false, none, some, [], ◌∷◌, Text, codes, text_eq}
use fa_maf_sis_op.Prelude.Int.{pos}
use fa_maf_sis_op.MyBash.GQueue.{list_queue, list_queue-IsGQueue}
use fa_maf_sis_op.MyBash.Run.{text, pure, map_run}
use fa_maf_sis_op.MyBash.Scommand.{Scommand}
use fa_maf_sis_op.MyBash.Pipeline.{Pipeline}
use fa_maf_sis_op.MyBash.Builtin.{
  matches_any, change_directory, quiet, Host, builtin_alone, pipeline_contains_builtin, builtin_cd,
  builtin_run,
}
use fa_maf_sis_op.MyBash.Builtin.Internal.{pipeline_tests}
use fa_maf_sis_op.MyBash.Builtin.Dispatch.{builtin_run_lem}
use fa_maf_sis_op.MyBash.Builtin.Cd.{seen, builtin_cd_lem}

abbrev cd_tmp : Scommand list_queue
cd_tmp = record { words = codes "cd" ∷ codes "/tmp" ∷ []; redir_out = none; redir_in = none }

abbrev ls : Scommand list_queue
ls = record { words = codes "ls" ∷ []; redir_out = none; redir_in = none }

abbrev ls_cd : Pipeline list_queue
ls_cd = record { scommands = ls ∷ cd_tmp ∷ []; wait = true }

-- A host whose state is the working directory, with one user.
abbrev host : Host
host = record {
  World = Text;
  chdir = λ cwd path. (pos 0, path);
  getuid = λ cwd. 1000;
  getpwuid = λ cwd user_id. some (record { pw_dir = some (codes "/home/user") });
}

pipeline_tests_example :
    (pipeline_contains_builtin list_queue ls_cd ≡ pure true)
    × (builtin_alone list_queue ls_cd ≡ pure false)
unfolding matches_any text_eq
pipeline_tests_example = pipeline_tests list_queue list_queue-IsGQueue ls_cd

builtin_cd_lem_example :
    map_run (seen host) (builtin_cd list_queue host (codes "/") cd_tmp)
    ≡ some (
      (
        (quiet, codes "/tmp"),
        record { words = codes "/tmp" ∷ []; redir_out = none; redir_in = none },
      ),
      text (codes "cd") ∷ [],
    )
unfolding text_eq change_directory
builtin_cd_lem_example = builtin_cd_lem list_queue list_queue-IsGQueue host (codes "/") cd_tmp

builtin_run_lem_example :
    map_run (seen host) (builtin_run list_queue host (codes "/") cd_tmp)
    ≡ some (
      (
        (quiet, codes "/tmp"),
        record { words = codes "/tmp" ∷ []; redir_out = none; redir_in = none },
      ),
      text (codes "cd") ∷ [],
    )
unfolding text_eq change_directory
builtin_run_lem_example = builtin_run_lem list_queue list_queue-IsGQueue host (codes "/") cd_tmp
