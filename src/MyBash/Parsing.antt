-- ===== src/MyBash/Parsing.antt =====
-- lab01/sistop-famaf-so25lab1g34/parsing.c: from the parser's arguments to a pipeline. Memory is
-- always found. Both loops run on fuel; `none` also stands for its end.
pub mod Line
pub mod Arguments
pub mod Commands
pub mod Correct
pub mod RoundTrip
use fa_maf_sis_op.Prelude.{
  ℕ, zero, suc, ◌≡◌, refl, Bool, true, false, not, ◌&&◌, ◌||◌, Option, none, some, List, [], ◌∷◌,
  ◌++◌, if◌then◌else◌, is_some, Text,
}
use fa_maf_sis_op.MyBash.GQueue.{GQueue}
use fa_maf_sis_op.MyBash.Run.{Run, pure, ◌>>=◌, ◌>>◌, assert}
use fa_maf_sis_op.MyBash.Scommand.{
  Scommand, scommand_new, scommand_push_back, scommand_set_redir_in, scommand_set_redir_out,
  scommand_destroy, scommand_is_empty,
}
use fa_maf_sis_op.MyBash.Pipeline.{
  Pipeline, pipeline_new, pipeline_push_back, pipeline_set_wait, pipeline_destroy,
}
use fa_maf_sis_op.MyBash.Parser.{ArgKind, arg_normal, arg_input, arg_output, ParserApi}

-- `destroy_policy_t`
pub data DestroyPolicy : Type 0 where
  destroy_pipeline_if_garbage always_destroy_pipeline : DestroyPolicy

-- What is printed: the line end on standard output, the error on standard error.
pub data Message : Type 0 where
  line_end syntax_error : Message

abbrev is_redirection : ArgKind → Bool
is_redirection arg_normal = false
is_redirection arg_input = true
is_redirection arg_output = true

abbrev always : DestroyPolicy → Bool
always destroy_pipeline_if_garbage = false
always always_destroy_pipeline = true

module _ (g : GQueue) (a : ParserApi) where
  -- Where an argument goes, by its kind.
  unfoldable pub store_argument : Scommand g → ArgKind → Text → Run (Scommand g)
  store_argument res arg_normal arg = scommand_push_back g res (some arg)
  store_argument res arg_output arg = scommand_set_redir_out g res (some arg)
  store_argument res arg_input arg = scommand_set_redir_in g res (some arg)

  -- The end of the arguments: a redirection without a name destroys the command.
  unfoldable pub end_arguments : Scommand g → ArgKind → Run (Option (Scommand g))
  end_arguments res type =
      if is_redirection type then scommand_destroy g res >> pure none else pure (some res)

  -- One round of `parse_scommand`, given what `parser_next_argument` has answered; `loop` is the next
  -- round.
  unfoldable pub take_argument :
      (a.Parser → ArgKind → Scommand g → Run (Option (Scommand g) × a.Parser))
      → Option Text × ArgKind × a.Parser
      → Scommand g
      → Run (Option (Scommand g) × a.Parser)
  take_argument loop (none, type, p) res = end_arguments res type >>= λ res'. pure (res', p)
  take_argument loop (some arg, type, p) res = store_argument res type arg >>= loop p type

  -- The `while` of `parse_scommand`; `type` keeps its value from one round to the next.
  unfoldable pub parse_arguments :
      ℕ → a.Parser → ArgKind → Scommand g → Run (Option (Scommand g) × a.Parser)
  parse_arguments zero p type res = none
  parse_arguments (suc fuel) p type res =
      let round =
        take_argument (parse_arguments fuel) (a.next_argument (a.skip_blanks p) type) res in
      if not (a.at_eof p) then round else pure (some res, p)

  -- A command without words is destroyed.
  unfoldable pub drop_empty : Option (Scommand g) → Run (Option (Scommand g))
  drop_empty none = pure none
  drop_empty (some res) =
      if scommand_is_empty g res then scommand_destroy g res >> pure none else pure (some res)

  unfoldable pub parse_scommand : ℕ → a.Parser → Run (Option (Scommand g) × a.Parser)
  parse_scommand fuel p = do
    res ← scommand_new g true
    (res, p) ← parse_arguments fuel p arg_normal res
    res ← drop_empty res
    pure (res, p)

  -- What follows a command in `parse_pipeline`: the next round, `loop`, behind an operator `|`. The
  -- first field of the result is `syntax_error`.
  unfoldable pub add_command :
      (a.Parser → Pipeline g → Run (Bool × Pipeline g × a.Parser))
      → Option (Scommand g) × a.Parser
      → Pipeline g
      → Run (Bool × Pipeline g × a.Parser)
  add_command loop (none, p) result = pure (true, result, p)
  add_command loop (some cmd, p) result = pipeline_push_back g result (some cmd) >>= λ result.
      if a.at_eof p
      then pure (false, result, p)
      else if (a.op_pipe p).0
      then loop (a.op_pipe p).1 result
      else pure (false, result, (a.op_pipe p).1)

  -- The `while` of `parse_pipeline`, each round with the call of `parse_scommand` before it.
  unfoldable pub parse_commands :
      (fuel length : ℕ) → a.Parser → Pipeline g → Run (Bool × Pipeline g × a.Parser)
  parse_commands zero length p result = none
  parse_commands (suc fuel) length p result =
      parse_scommand length p >>= λ r. add_command (parse_commands fuel length) r result

  unfoldable pub handle_garbage :
      a.Parser → Pipeline g → DestroyPolicy → Run (Option (Pipeline g) × a.Parser × List Message)
  handle_garbage p result policy =
      let read : Bool × a.Parser = if not (a.at_eof p) then a.garbage p else (false, p) in
      let printed : List Message = if a.at_eof read.1 then line_end ∷ [] else [] in
      if always policy || read.0
      then pipeline_destroy g result >> pure (none, read.1, printed ++ syntax_error ∷ [])
      else pure (some result, read.1, printed)

  unfoldable pub handle_op_background : a.Parser → Pipeline g → Run (Pipeline g × a.Parser)
  handle_op_background p result =
      let (was_op_background, p') = a.op_background p in
      let found : Run (Pipeline g × a.Parser) =
        (if was_op_background
          then (pipeline_set_wait g result false >>= λ result. pure (result, p'))
          else pure (result, p')) in
      if not (a.at_eof p) then found else pure (result, p)

  -- The pipeline, or `NULL`, with the parser behind it and what was printed. `length` bounds the
  -- rounds of both loops.
  unfoldable pub parse_pipeline :
      (length : ℕ) → a.Parser → Run (Option (Pipeline g) × a.Parser × List Message)
  parse_pipeline length p = do
    assert (not (a.at_eof p))
    result ← pipeline_new g true
    (failed, result, p) ← parse_commands length length p result
    if failed
        then handle_garbage p result always_destroy_pipeline
        else (handle_op_background p result >>= λ (result, p).
            handle_garbage p result destroy_pipeline_if_garbage)
