-- ===== src/MyBash/Tests/Commands.antt =====
-- The theorems about strings, commands and pipelines at sample commands.
use fa_maf_sis_op.Prelude.{◌≡◌, refl, true, false, none, some, List, [], ◌∷◌, ◌++◌, arith, codes}
use fa_maf_sis_op.MyBash.GQueue.{list_queue, list_queue-IsGQueue}
use fa_maf_sis_op.MyBash.Run.{queue_block, pipeline_block, map_run, result}
use fa_maf_sis_op.MyBash.StrExtra.{strmerge, strmerge-append}
use fa_maf_sis_op.MyBash.Scommand.{scommand_to_string}
use fa_maf_sis_op.MyBash.Scommand.Laws.{
  simple, Op, push_back, pop_front, set_redir_out, apply_all, specified_all, scommand_refines,
}
use fa_maf_sis_op.MyBash.Scommand.Print.{scommand_text, scommand_to_string_lem}
use fa_maf_sis_op.MyBash.Pipeline.{pipeline_destroy, pipeline_to_string}
use fa_maf_sis_op.MyBash.Pipeline.Laws.{
  pipe, pipeline_blocks, Op as PipelineOp, push_back as push_command, pop_front as pop_command,
  set_wait, apply_all as apply_commands, specified_all as specified_commands, pipeline_refines,
  pipeline_destroy_lem,
}
use fa_maf_sis_op.MyBash.Pipeline.Print.{command_text, pipeline_text, pipeline_to_string_lem}
use fa_maf_sis_op.MyBash.Tests.Sample.{ls, wc, ls_wc}

strmerge-append_example :
    strmerge (codes "ls") (codes " -l") ≡ some (codes "ls" ++ codes " -l" ++ 0 ∷ [])
strmerge-append_example = strmerge-append (codes "ls") (codes " -l") (omega arith) (omega arith)

abbrev script : List Op
script = push_back (some (codes "x")) ∷ pop_front ∷ set_redir_out (some (codes "log")) ∷ []

scommand_refines_example :
    map_run simple (apply_all list_queue script ls) ≡ specified_all script (simple ls)
scommand_refines_example = scommand_refines list_queue-IsGQueue script ls

scommand_to_string_example :
    result (scommand_to_string list_queue ls)
    ≡ some (scommand_text (codes "ls" ∷ codes "-l" ∷ []) (some (codes "out")) none)
scommand_to_string_example =
    scommand_to_string_lem list_queue-IsGQueue ls (omega arith) (omega arith) tt

ls_text :
    scommand_text (codes "ls" ∷ codes "-l" ∷ []) (some (codes "out")) none ≡ codes "ls -l > out"
unfolding scommand_text
ls_text = refl

abbrev commands : List (PipelineOp list_queue)
commands = push_command (some ls) ∷ pop_command ∷ set_wait true ∷ []

pipeline_refines_example :
    map_run pipe (apply_commands list_queue commands ls_wc)
    ≡ specified_commands commands (pipe ls_wc)
pipeline_refines_example = pipeline_refines list_queue-IsGQueue commands ls_wc

pipeline_destroy_example :
    pipeline_destroy list_queue ls_wc
    ≡ some (tt, pipeline_blocks (simple ls ∷ simple wc ∷ []) ++ (queue_block ∷ pipeline_block ∷ []))
pipeline_destroy_example = pipeline_destroy_lem list_queue-IsGQueue ls_wc

pipeline_to_string_example :
    result (pipeline_to_string list_queue ls_wc)
    ≡ some (pipeline_text (simple ls ∷ simple wc ∷ []) false)
pipeline_to_string_example = pipeline_to_string_lem list_queue-IsGQueue ls_wc (
  record { words = omega arith; redir_out = omega arith; redir_in = tt },
  (record { words = omega arith; redir_out = tt; redir_in = omega arith }, tt),
)

lswc_text : pipeline_text (simple ls ∷ simple wc ∷ []) false ≡ codes "ls -l > out | wc < in &"
unfolding pipeline_text command_text scommand_text
lswc_text = refl
