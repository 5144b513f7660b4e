-- ===== src/MyBash/Pipeline/Print.antt =====
-- What `pipeline_to_string` writes.
use mathlib.Core.List.{append_assoc, append-nil}
use fa_maf_sis_op.Prelude.{
  ℕ, suc, ◌<◌, ◌≡◌, refl, sym, ap, ◌∙◌, Bool, true, false, not, ◌||◌, some, List, [], ◌∷◌, ◌++◌,
  map, arith, ltb, lt→ltb, if◌then◌else◌, length, length-append, All, Text, IsText, codes,
}
use fa_maf_sis_op.MyBash.GQueue.{GQueue, IsGQueue, peek_nth-view}
use fa_maf_sis_op.MyBash.Run.{pure, ◌>>=◌, assert, result, result->>=, result-logged}
use fa_maf_sis_op.MyBash.StrExtra.{strlen, strlen-length}
use fa_maf_sis_op.MyBash.Scommand.{Scommand, scommand_to_string, str_append}
use fa_maf_sis_op.MyBash.Scommand.Laws.{Simple, simple}
use fa_maf_sis_op.MyBash.Scommand.Print.{
  join, followed, scommand_text, scommand_text-IsText, scommand_to_string_lem, result-str_append,
  IsTextPtr, IsText-append, join-IsText,
}
use fa_maf_sis_op.MyBash.Pipeline.{
  Pipeline, pipeline_is_empty, pipeline_length, append_command, append_scommands,
  pipeline_to_string,
}
use fa_maf_sis_op.MyBash.Pipeline.Laws.{pipeline_observers}

-- Words and names without NULs.
pub record HasTexts (c : Simple) : Type 0 where
  pub words : All IsText c.words
  pub redir_out : IsTextPtr c.redir_out
  pub redir_in : IsTextPtr c.redir_in

unfoldable pub command_text : Simple → Text
command_text c = scommand_text c.words c.redir_out c.redir_in

unfoldable pub background_text : Bool → Text
background_text wait = if wait then [] else codes " &"

-- The command line of a pipeline.
unfoldable pub pipeline_text : List Simple → Bool → Text
unfolding background_text
pipeline_text cs wait = join (codes " | ") (map command_text cs) ++ background_text wait

command_text-IsText : {c : Simple} → HasTexts c → IsText (command_text c)
unfolding command_text
command_text-IsText {c} h =
    scommand_text-IsText c.words c.redir_out c.redir_in h.words h.redir_out h.redir_in

command_texts-IsText : (cs : List Simple) → All HasTexts cs → All IsText (map command_text cs)
command_texts-IsText [] h = tt
command_texts-IsText (c ∷ cs) h = (command_text-IsText h.0, command_texts-IsText cs h.1)

module _ {g : GQueue} (l : IsGQueue g) where
  append_command_lem :
      (spaced : Text) (c : Scommand g)
      → IsText spaced
      → HasTexts (simple c)
      → result (append_command g spaced (some c)) ≡ some (spaced ++ command_text (simple c))
  unfolding append_command command_text
  append_command_lem spaced c hs h =
      result-logged [] _
      ∙ result->>= (scommand_to_string g c) _
          (scommand_to_string_lem l c h.words h.redir_out h.redir_in)
      ∙ result->>= (str_append spaced (some (command_text (simple c)))) _
          (result-str_append spaced (command_text (simple c)) hs (command_text-IsText h))

  append_scommands_round :
      (q : g.Queue (Scommand g)) (c : Scommand g) (acc : Text) (n i : ℕ)
      → 0 < i
      → g.peek_nth q i ≡ some c
      → IsText acc
      → HasTexts (simple c)
      → result (append_scommands g q (suc n) i acc)
        ≡ result (append_scommands g q n (suc i) (acc ++ codes " | " ++ command_text (simple c)))
  unfolding append_scommands
  append_scommands_round q c acc n i pos e ha h =
      rw (lt→ltb 0 i pos, e)
        (result->>= (str_append acc (some (codes " | "))) _
            (result-str_append acc (codes " | ") ha (omega arith))
          ∙ result->>= (append_command g (acc ++ codes " | ") (some c))
              (append_scommands g q n (suc i))
              (append_command_lem (acc ++ codes " | ") c
                (IsText-append acc (codes " | ") ha (omega arith)) h))

  append_scommands_later :
      (q : g.Queue (Scommand g)) (pre rest : List (Scommand g)) (acc : Text) (i : ℕ)
      → g.view q ≡ pre ++ rest
      → i ≡ length pre
      → 0 < i
      → All HasTexts (map simple rest)
      → IsText acc
      → result (append_scommands g q (length rest) i acc)
        ≡ some (acc ++ followed (codes " | ") (map command_text (map simple rest)))
  unfolding followed
  append_scommands_later q pre [] acc i e h pos hr ha = unfold append_scommands in rw append-nil
  append_scommands_later q pre (c ∷ rest) acc i e h pos hr ha =
      append_scommands_round q c acc (length rest) i pos (peek_nth-view l q pre c rest i e h) ha
        hr.0
      ∙ append_scommands_later q (pre ++ c ∷ []) rest
          (acc ++ codes " | " ++ command_text (simple c)) (suc i)
          (e ∙ sym (append_assoc pre (c ∷ []) rest)) (omega (arith, length-append pre (c ∷ [])))
          (omega arith) hr.1
          (IsText-append (acc ++ codes " | ") (command_text (simple c))
            (IsText-append acc (codes " | ") ha (omega arith)) (command_text-IsText hr.0))
      ∙ simp append_assoc

  append_scommands_lem :
      (q : g.Queue (Scommand g)) (cs : List (Scommand g))
      → g.view q ≡ cs
      → All HasTexts (map simple cs)
      → result (append_scommands g q (length cs) 0 [])
        ≡ some (join (codes " | ") (map command_text (map simple cs)))
  unfolding append_scommands join
  append_scommands_lem q [] e h = refl
  append_scommands_lem q (c ∷ rest) e h = rw (peek_nth-view l q [] c rest 0 e refl) (
      result-logged [] (append_command g [] (some c) >>= append_scommands g q (length rest) 1)
      ∙ result->>= (append_command g [] (some c)) (append_scommands g q (length rest) 1)
          (append_command_lem [] c tt h.0)
      ∙ append_scommands_later q (c ∷ []) rest (command_text (simple c)) 1 e refl (omega arith) h.1
          (command_text-IsText h.0))

  -- The flag of `pipeline_to_string`: a pipeline that is not waited for ends in `&`.
  background_lem :
      (acc : Text) (wait : Bool)
      → IsText acc
      → result (if not wait then str_append acc (some (codes " &")) else pure acc)
        ≡ some (acc ++ background_text wait)
  unfolding background_text
  background_lem acc true ha = rw append-nil
  background_lem acc false ha = result-str_append acc (codes " &") ha (omega arith)

  closing_assert :
      (empty wait : Bool) (commands : Text)
      → IsText commands
      → (empty || wait || ltb 0 (strlen (commands ++ background_text wait))) ≡ true
  unfolding background_text
  closing_assert empty true commands h = ground arith
  closing_assert empty false commands h = ground (
    arith,
    strlen-length (commands ++ codes " &") (IsText-append commands (codes " &") h (omega arith)),
    length-append commands (codes " &"),
  )

-- `pipeline_to_string` fails no `assert`, stays within every buffer, and gives the texts of the
-- commands with ` | ` between them, then ` &` if the pipeline is not waited for; the words and names
-- of every command are C strings.
pub pipeline_to_string_lem :
    {g : GQueue} (l : IsGQueue g) (p : Pipeline g)
    → All HasTexts (map simple (g.view p.scommands))
    → result (pipeline_to_string g p)
      ≡ some (pipeline_text (map simple (g.view p.scommands)) p.wait)
unfolding pipeline_to_string pipeline_text
pipeline_to_string_lem {g} l p h =
    result->>= (pipeline_length g p) _ (ap result (pipeline_observers l p 0).1)
    ∙ result->>= (append_scommands g p.scommands (length (g.view p.scommands)) 0 []) _
        (append_scommands_lem l p.scommands (g.view p.scommands) refl h)
    ∙ result->>= (if not p.wait then str_append commands (some (codes " &")) else pure commands) _
        (background_lem l commands p.wait commands-IsText)
    ∙ result->>= (assert _) _ (
        ap (λ b. result (assert b))
          (closing_assert l (pipeline_is_empty g p) p.wait commands commands-IsText))
  where
    commands : Text
    commands = join (codes " | ") (map command_text (map simple (g.view p.scommands)))

    commands-IsText : IsText commands
    commands-IsText =
        join-IsText (codes " | ") (map command_text (map simple (g.view p.scommands))) (omega arith)
          (command_texts-IsText (map simple (g.view p.scommands)) h)
