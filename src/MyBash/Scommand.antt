-- ===== src/MyBash/Scommand.antt =====
-- lab01/sistop-famaf-so25lab1g34/command.c, first half: simple commands. The command
-- itself is never `NULL`, and memory for strings and queues is always found; `scommand_new` is told whether
-- `malloc` found its block.
pub mod Laws
pub mod Print
use fa_maf_sis_op.Prelude.{
  ℕ, zero, suc, ◌+◌, ◌≡◌, refl, Bool, true, false, not, ◌||◌, Option, none, some, List, [], ◌∷◌,
  ◌++◌, ltb, ◌==◌, if◌then◌else◌, is_some, bool_eq, Text, codes,
}
use fa_maf_sis_op.MyBash.GQueue.{GQueue}
use fa_maf_sis_op.MyBash.Run.{
  Block, queue_block, scommand_block, Run, pure, ◌>>=◌, ◌>>◌, assert, assert_some, release,
  free_text,
}
use fa_maf_sis_op.MyBash.Run
use fa_maf_sis_op.MyBash.StrExtra.{strlen, text_of, strmerge}

pub record Scommand (g : GQueue) : Type 0 where
  pub words : g.Queue Text
  pub redir_out : Option Text
  pub redir_in : Option Text

-- `str_append`: joins `s2` to `s1` and frees `s1`; neither may be `NULL`.
unfoldable pub str_append : Text → Option Text → Run Text
str_append s1 s2 = do
  s2 ← assert_some s2
  elim (strmerge s1 s2) [ none ↦ none | some temp ↦ release (Block.text s1) >> pure (text_of temp) ]

-- One of the two redirections of `scommand_to_string`.
unfoldable pub append_redir : Text → Option Text → Text → Run Text
append_redir operator redir result = elim redir [
  | none ↦ pure result
  | some filename ↦ str_append result (some operator) >>= λ r. str_append r (some filename)
]

-- `scommand_set_redir`
unfoldable pub scommand_set_redir : Option Text → Option Text → Run (Option Text)
scommand_set_redir redir filename = do
  if is_some redir then free_text redir else pure tt
  pure filename

module _ (g : GQueue) where
  unfoldable pub scommand_is_empty : Scommand g → Bool
  scommand_is_empty self = g.is_empty self.words

  unfoldable pub scommand_get_redir_in : Scommand g → Option Text
  scommand_get_redir_in self = self.redir_in

  unfoldable pub scommand_get_redir_out : Scommand g → Option Text
  scommand_get_redir_out self = self.redir_out

  unfoldable pub scommand_new : (allocated : Bool) → Run (Scommand g)
  unfolding scommand_is_empty scommand_get_redir_in scommand_get_redir_out
  scommand_new allocated =
      let self : Scommand g = record { words = g.new Text; redir_out = none; redir_in = none } in
      do
        assert allocated
        assert (scommand_is_empty self)
        assert (not (is_some (scommand_get_redir_in self)))
        assert (not (is_some (scommand_get_redir_out self)))
        pure self

  unfoldable pub scommand_push_back : Scommand g → (argument : Option Text) → Run (Scommand g)
  unfolding scommand_is_empty
  scommand_push_back self argument = do
    argument ← assert_some argument
    let self' : Scommand g = record self { words = g.push_tail self.words argument }
    assert (not (scommand_is_empty self'))
    pure self'

  unfoldable pub scommand_pop_front : Scommand g → Run (Scommand g)
  unfolding scommand_is_empty
  scommand_pop_front self = do
    assert (not (scommand_is_empty self))
    let popped = g.pop_head self.words
    free_text popped.0
    pure (record self { words = popped.1 })

  unfoldable pub scommand_set_redir_in : Scommand g → Option Text → Run (Scommand g)
  unfolding scommand_set_redir
  scommand_set_redir_in self filename = do
    redir ← scommand_set_redir self.redir_in filename
    pure (record self { redir_in = redir })

  unfoldable pub scommand_set_redir_out : Scommand g → Option Text → Run (Scommand g)
  unfolding scommand_set_redir
  scommand_set_redir_out self filename = do
    redir ← scommand_set_redir self.redir_out filename
    pure (record self { redir_out = redir })

  unfoldable pub scommand_length : Scommand g → Run ℕ
  unfolding scommand_is_empty
  scommand_length self =
      let length = g.get_length self.words in
      do assert (bool_eq (length == 0) (scommand_is_empty self)); pure length

  unfoldable pub scommand_front : Scommand g → Run Text
  unfolding scommand_is_empty
  scommand_front self = do
    assert (not (scommand_is_empty self))
    assert_some (g.peek_head self.words)

  -- The `while` of `scommand_destroy`; `none` also when the fuel runs out.
  unfoldable pub pop_words : ℕ → Scommand g → Run (Scommand g)
  unfolding scommand_is_empty
  pop_words zero self = none
  pop_words (suc fuel) self =
      let rest = scommand_pop_front self >>= pop_words fuel in
      if not (scommand_is_empty self) then rest else pure self

  -- The queue is freed when all words are gone, then the redirections and the structure. The result
  -- is `NULL`.
  unfoldable pub scommand_destroy : Scommand g → Run (Unit {0})
  unfolding pop_words
  scommand_destroy self = do
    emptied ← pop_words (suc (g.get_length self.words)) self
    release queue_block
    free_text emptied.redir_out
    free_text emptied.redir_in
    release scommand_block

  -- The `for` of `scommand_to_string`, from index `i` on, for `rounds` rounds.
  unfoldable pub append_words : g.Queue Text → (rounds i : ℕ) → Text → Run Text
  append_words words zero i result = pure result
  append_words words (suc rounds) i result = do
    spaced ← if ltb 0 i then str_append result (some (codes " ")) else pure result
    joined ← str_append spaced (g.peek_nth words i)
    append_words words rounds (suc i) joined

  unfoldable pub scommand_to_string : Scommand g → Run Text
  unfolding scommand_is_empty scommand_length scommand_get_redir_in scommand_get_redir_out
      append_words append_redir
  scommand_to_string self = do
    length ← scommand_length self
    words ← append_words self.words length 0 []
    with_out ← append_redir (codes " > ") (scommand_get_redir_out self) words
    result ← append_redir (codes " < ") (scommand_get_redir_in self) with_out
    assert (
        scommand_is_empty self
        || not (is_some (scommand_get_redir_in self))
        || not (is_some (scommand_get_redir_out self))
        || ltb 0 (strlen result))
    pure result
