-- ===== src/MyBash/Pipeline.antt =====
-- lab01/sistop-famaf-so25lab1g34/command.c, second half: pipelines of simple commands. The queue
-- holds the commands themselves: no two of its pointers are equal.
pub mod Laws
pub mod Print
use fa_maf_sis_op.Prelude.{
  ℕ, zero, suc, ◌+◌, ◌≡◌, refl, Bool, true, false, not, ◌||◌, Option, none, some, List, [], ◌∷◌,
  ◌++◌, ltb, ◌==◌, if◌then◌else◌, bool_eq, Text, codes,
}
use fa_maf_sis_op.MyBash.GQueue.{GQueue}
use fa_maf_sis_op.MyBash.Run.{
  Block, queue_block, pipeline_block, Run, pure, ◌>>=◌, ◌>>◌, assert, assert_some, release,
}
use fa_maf_sis_op.MyBash.StrExtra.{strlen}
use fa_maf_sis_op.MyBash.Scommand.{Scommand, scommand_destroy, scommand_to_string, str_append}

pub record Pipeline (g : GQueue) : Type 0 where
  pub scommands : g.Queue (Scommand g)
  pub wait : Bool

module _ (g : GQueue) where
  unfoldable pub pipeline_is_empty : Pipeline g → Bool
  pipeline_is_empty self = g.is_empty self.scommands

  unfoldable pub pipeline_get_wait : Pipeline g → Bool
  pipeline_get_wait self = self.wait

  unfoldable pub pipeline_new : (allocated : Bool) → Run (Pipeline g)
  unfolding pipeline_is_empty pipeline_get_wait
  pipeline_new allocated =
      let self : Pipeline g = record { scommands = g.new (Scommand g); wait = true } in
      do
        assert allocated
        assert (pipeline_is_empty self)
        assert (pipeline_get_wait self)
        pure self

  unfoldable pub pipeline_push_back : Pipeline g → (sc : Option (Scommand g)) → Run (Pipeline g)
  unfolding pipeline_is_empty
  pipeline_push_back self sc = do
    sc ← assert_some sc
    let self' : Pipeline g = record self { scommands = g.push_tail self.scommands sc }
    assert (not (pipeline_is_empty self'))
    pure self'

  -- The command at the head is destroyed.
  unfoldable pub pipeline_pop_front : Pipeline g → Run (Pipeline g)
  unfolding pipeline_is_empty
  pipeline_pop_front self = do
    assert (not (pipeline_is_empty self))
    let popped = g.pop_head self.scommands
    head ← assert_some popped.0
    scommand_destroy g head
    pure (record self { scommands = popped.1 })

  unfoldable pub pipeline_set_wait : Pipeline g → Bool → Run (Pipeline g)
  pipeline_set_wait self w = pure (record self { wait = w })

  unfoldable pub pipeline_length : Pipeline g → Run ℕ
  unfolding pipeline_is_empty
  pipeline_length self =
      let length = g.get_length self.scommands in
      do assert (bool_eq (length == 0) (pipeline_is_empty self)); pure length

  unfoldable pub pipeline_front : Pipeline g → Run (Scommand g)
  unfolding pipeline_is_empty
  pipeline_front self = do
    assert (not (pipeline_is_empty self))
    assert_some (g.peek_head self.scommands)

  -- The result of `g_queue_peek_nth` is returned as it is, `NULL` included.
  unfoldable pub pipeline_get : Pipeline g → ℕ → Run (Option (Scommand g))
  unfolding pipeline_length
  pipeline_get self index = do
    length ← pipeline_length self
    assert (ltb index length)
    pure (g.peek_nth self.scommands index)

  -- The `while` of `pipeline_destroy`; `none` also when the fuel runs out.
  unfoldable pub pop_scommands : ℕ → Pipeline g → Run (Pipeline g)
  unfolding pipeline_is_empty
  pop_scommands zero self = none
  pop_scommands (suc fuel) self =
      let rest = pipeline_pop_front self >>= pop_scommands fuel in
      if not (pipeline_is_empty self) then rest else pure self

  -- The result is `NULL`.
  unfoldable pub pipeline_destroy : Pipeline g → Run (Unit {0})
  pipeline_destroy self = do
    emptied ← pop_scommands (suc (g.get_length self.scommands)) self
    release queue_block
    release pipeline_block

  -- The text of a command is freed once it has been joined.
  unfoldable pub append_command : Text → Option (Scommand g) → Run Text
  append_command result nth = do
    sc ← assert_some nth
    scmd ← scommand_to_string g sc
    joined ← str_append result (some scmd)
    release (Block.text scmd)
    pure joined

  -- The `for` of `pipeline_to_string`, from index `i` on, for `rounds` rounds.
  unfoldable pub append_scommands : g.Queue (Scommand g) → (rounds i : ℕ) → Text → Run Text
  append_scommands scommands zero i result = pure result
  append_scommands scommands (suc rounds) i result = do
    spaced ← if ltb 0 i then str_append result (some (codes " | ")) else pure result
    joined ← append_command spaced (g.peek_nth scommands i)
    append_scommands scommands rounds (suc i) joined

  unfoldable pub pipeline_to_string : Pipeline g → Run Text
  unfolding pipeline_is_empty pipeline_get_wait
  pipeline_to_string self = do
    length ← pipeline_length self
    commands ← append_scommands self.scommands length 0 []
    result ←
        if not (pipeline_get_wait self)
        then str_append commands (some (codes " &"))
        else pure commands
    assert (pipeline_is_empty self || pipeline_get_wait self || ltb 0 (strlen result))
    pure result
