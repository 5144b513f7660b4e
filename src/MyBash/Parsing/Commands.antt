-- ===== src/MyBash/Parsing/Commands.antt =====
-- The loop of `parse_pipeline` against the grammar.
use mathlib.Core.Path.{subst}
use fa_maf_sis_op.Prelude.{
  ℕ, zero, suc, ◌≡◌, refl, ap, ◌∙◌, inl, inr, Bool, true, false, Bool-cases, Option, none, some,
  List, [], ◌∷◌, ◌++◌, ◌≤◌, ◌<◌, arith, if◌then◌else◌, length, Text,
}
use fa_maf_sis_op.MyBash.GQueue.{GQueue, IsGQueue}
use fa_maf_sis_op.MyBash.Run.{pure, Returns, returns, bind, mono, Returns_of_view}
use fa_maf_sis_op.MyBash.Scommand.{Scommand, scommand_new, scommand_is_empty}
use fa_maf_sis_op.MyBash.Scommand.Laws.{Simple, simple, scommand_new_lem, scommand_destroy_lem}
use fa_maf_sis_op.MyBash.Pipeline.{Pipeline, pipeline_push_back}
use fa_maf_sis_op.MyBash.Pipeline.Laws.{Pipe, pipe, push_back_view}
use fa_maf_sis_op.MyBash.Parser.{
  arg_normal, Symbol, word, redirect, bar, ampersand, blank, newline, HasLine, Stops, is_bar,
  behind, ParserApi, IsParser,
}
use fa_maf_sis_op.MyBash.Parsing.{
  drop_empty, parse_arguments, parse_scommand, add_command, parse_commands,
}
use fa_maf_sis_op.MyBash.Parsing.Line.{
  line, background, no_command, has_words, SameLine, SameLine-trans, is_nil-HasLine,
}
use fa_maf_sis_op.MyBash.Parsing.Arguments.{Parsed, failed, ended, parse_arguments_lem}

-- A command without words spoils the line.
line-has_words :
    (c : Simple) (prior : List Simple) (s : List Symbol)
    → Stops s
    → has_words c ≡ false
    → line none c prior s ≡ none
unfolding line
line-has_words c prior [] st e = refl
line-has_words c prior (bar ∷ s) st e = rw e
line-has_words c prior (ampersand ∷ s) st e = rw e
line-has_words c prior (newline ∷ s) st e = rw e
line-has_words c prior (blank ∷ s) st e = absurd st
line-has_words c prior (word w ∷ s) st e = absurd st
line-has_words c prior (redirect r ∷ s) st e = absurd st

-- What the commands `cs` stand for where the pipes end.
unfoldable pub finish : List Simple → List Symbol → Option Pipe
finish cs [] = none
finish cs (ampersand ∷ s) = background cs s
finish cs (newline ∷ s) = some (record { scommands = cs; wait = true })
finish cs (bar ∷ s) = none
finish cs (blank ∷ s) = none
finish cs (word w ∷ s) = none
finish cs (redirect r ∷ s) = none

bar_true :
    (cs : List Simple) (s s' : List Symbol)
    → is_bar s ≡ true
    → s' ≡ behind true s
    → (if is_bar s then line none no_command cs (behind true s) else finish cs s)
      ≡ line none no_command cs s'
bar_true cs s s' e v = rw (e, v)

bar_false :
    (cs : List Simple) (s s' : List Symbol)
    → is_bar s ≡ false
    → s' ≡ s
    → (if is_bar s then line none no_command cs (behind true s) else finish cs s) ≡ finish cs s'
bar_false cs s s' e v = rw (e, v)

-- A command that ends at a delimiter.
line-Stops :
    (c : Simple) (prior : List Simple) (s : List Symbol)
    → Stops s
    → has_words c ≡ true
    → line none c prior s ≡ (
        if is_bar s
        then line none no_command (prior ++ c ∷ []) (behind true s)
        else finish (prior ++ c ∷ []) s)
unfolding line finish
line-Stops c prior [] st e = absurd st
line-Stops c prior (bar ∷ s) st e = rw e
line-Stops c prior (ampersand ∷ s) st e = rw e
line-Stops c prior (newline ∷ s) st e = rw e
line-Stops c prior (blank ∷ s) st e = absurd st
line-Stops c prior (word w ∷ s) st e = absurd st
line-Stops c prior (redirect r ∷ s) st e = absurd st

module _ (g : GQueue) (a : ParserApi) where
  -- What `parse_scommand` returns on the input `s`.
  pub data ParsedCommand (s : List Symbol) : Option (Scommand g) × a.Parser → Type 0 where
    no_words :
        {p : a.Parser}
        → SameLine s (a.view p)
        → ((prior : List Simple) → line none no_command prior s ≡ none)
        → ParsedCommand s (none, p)
    words :
        {c : Scommand g} {p : a.Parser}
        → SameLine s (a.view p)
        → Stops (a.view p)
        → has_words (simple c) ≡ true
        → ((prior : List Simple)
            → line none no_command prior s ≡ line none (simple c) prior (a.view p))
        → ParsedCommand s (some c, p)

  -- What the loop returns behind the commands `prior` on the input `s`.
  pub data ParsedCommands (prior : List Simple) (s : List Symbol)
      : Bool × Pipeline g × a.Parser → Type 0 where
    spoiled :
        {result : Pipeline g} {p : a.Parser}
        → SameLine s (a.view p)
        → line none no_command prior s ≡ none
        → ParsedCommands prior s (true, result, p)
    complete :
        {result : Pipeline g} {p : a.Parser} (cs : List Simple)
        → pipe result ≡ record { scommands = cs; wait = true }
        → SameLine s (a.view p)
        → Stops (a.view p)
        → is_bar (a.view p) ≡ false
        → line none no_command prior s ≡ finish cs (a.view p)
        → ParsedCommands prior s (false, result, p)

module _ {g : GQueue} {a : ParserApi} (l : IsGQueue g) (k : IsParser a) where
  scommand_is_empty-has_words :
      (c : Scommand g) (ws : List Text)
      → g.view c.words ≡ ws
      → scommand_is_empty g c ≡ (if has_words (simple c) then false else true)
  unfolding scommand_is_empty
  scommand_is_empty-has_words c [] e = rw (l.is_empty_lem Text c.words, e)
  scommand_is_empty-has_words c (w ∷ ws) e = rw (l.is_empty_lem Text c.words, e) (ground arith)

  drop_empty_lem :
      (s : List Symbol) (r : Option (Scommand g) × a.Parser)
      → Parsed g a no_command s r
      → Returns (λ res. ParsedCommand g a s (res, r.1)) (drop_empty g a r.0)
  unfolding drop_empty
  drop_empty_lem s r (failed same e) = returns (no_words same e)
  drop_empty_lem s r (ended {c'} same st e) = elim (Bool-cases (has_words (simple c'))) [
    | inl some_word ↦
        rw (scommand_is_empty-has_words c' (g.view c'.words) refl, some_word)
          (returns (words same st some_word e))
    | inr no_word ↦
        rw
          (
            scommand_is_empty-has_words c' (g.view c'.words) refl,
            no_word,
            scommand_destroy_lem l c',
          )
          (returns
            (no_words same (λ prior. e prior ∙ line-has_words (simple c') prior _ st no_word)))
  ]

  parse_scommand_lem :
      (fuel : ℕ) (p : a.Parser)
      → HasLine (a.view p)
      → length (a.view p) < fuel
      → Returns (ParsedCommand g a (a.view p)) (parse_scommand g a fuel p)
  unfolding parse_scommand
  parse_scommand_lem fuel p h short =
      bind (Returns_of_view simple (scommand_new g true) (scommand_new_lem l true)) λ c e.
        bind
          (subst (λ x. Returns (Parsed g a x (a.view p)) (parse_arguments g a fuel p arg_normal c))
            e (parse_arguments_lem l k fuel p arg_normal c h short))
          λ r parsed. bind (drop_empty_lem (a.view p) r parsed) λ res done. returns done

  -- What stands behind a bar is on the same line.
  behind-SameLine :
      (s : List Symbol)
      → HasLine s
      → is_bar s ≡ true
      → SameLine s (behind true s) × (length (behind true s) < length s)
  behind-SameLine [] h e = absurd h
  behind-SameLine (bar ∷ s) h e =
      (record { rest = refl; has_line = h; shorter = omega arith }, omega arith)
  behind-SameLine (ampersand ∷ s) h e = cc
  behind-SameLine (newline ∷ s) h e = cc
  behind-SameLine (blank ∷ s) h e = cc
  behind-SameLine (word w ∷ s) h e = cc
  behind-SameLine (redirect r ∷ s) h e = cc

  -- The same outcome, seen from an earlier point of the line.
  earlier :
      {prior cs : List Simple} {s s' : List Symbol}
      → SameLine s s'
      → line none no_command prior s ≡ line none no_command cs s'
      → (r : Bool × Pipeline g × a.Parser) → ParsedCommands g a cs s' r
      → ParsedCommands g a prior s r
  earlier same e r (spoiled h n) = spoiled (SameLine-trans same h) (e ∙ n)
  earlier same e r (complete cs v h st nb f) = complete cs v (SameLine-trans same h) st nb (e ∙ f)

  -- A command has been added; the loop goes on behind a bar and ends elsewhere.
  module _ (fuel limit : ℕ)
      (next : (p : a.Parser) (result : Pipeline g) (cs : List Simple)
        → pipe result ≡ record { scommands = cs; wait = true }
        → HasLine (a.view p)
        → length (a.view p) < fuel
        → length (a.view p) < limit
        → Returns (ParsedCommands g a cs (a.view p)) (parse_commands g a fuel limit p result)) where
    go_on :
        (p : a.Parser) (result : Pipeline g) (c : Scommand g) (prior : List Simple)
        (s : List Symbol)
        → pipe result ≡ record { scommands = prior ++ simple c ∷ []; wait = true }
        → SameLine s (a.view p)
        → Stops (a.view p)
        → has_words (simple c) ≡ true
        → line none no_command prior s ≡ line none (simple c) prior (a.view p)
        → length (a.view p) ≤ fuel
        → length (a.view p) < limit
        → Returns (ParsedCommands g a prior s) (
            if a.at_eof p
            then pure (false, result, p)
            else if (a.op_pipe p).0
            then parse_commands g a fuel limit (a.op_pipe p).1 result
            else pure (false, result, (a.op_pipe p).1))
    go_on p result c prior s view same st has e enough short =
        elim (Bool-cases (is_bar (a.view p))) [
          | inl more ↦
              let (front, lt) = behind-SameLine (a.view p) same.has_line more in
              let v : a.view (a.op_pipe p).1 ≡ behind true (a.view p) =
                (piped.1 ∙ ap (λ b. behind b (a.view p)) more) in
              rw (not_eof, piped.0, more)
                (mono
                  (next (a.op_pipe p).1 result (prior ++ simple c ∷ []) view (rw v front.has_line)
                    (rw v (omega (arith, lt))) (rw v (omega (arith, lt))))
                  (earlier (SameLine-trans same (rw v front)) (
                    e
                    ∙ line-Stops (simple c) prior (a.view p) st has
                    ∙ bar_true (prior ++ simple c ∷ []) (a.view p) (a.view (a.op_pipe p).1) more
                        v)))
          | inr done ↦
              let v : a.view (a.op_pipe p).1 ≡ a.view p =
                (piped.1 ∙ ap (λ b. behind b (a.view p)) done) in
              rw (not_eof, piped.0, done)
                (returns (
                  complete (prior ++ simple c ∷ []) view (rw v same) (rw v st) (rw v done) (
                    e
                    ∙ line-Stops (simple c) prior (a.view p) st has
                    ∙ bar_false (prior ++ simple c ∷ []) (a.view p) (a.view (a.op_pipe p).1) done
                        v)))
        ]
      where
        not_eof : a.at_eof p ≡ false
        not_eof = k.at_eof_lem p ∙ is_nil-HasLine (a.view p) same.has_line

        piped :
            ((a.op_pipe p).0 ≡ is_bar (a.view p))
            × (a.view (a.op_pipe p).1 ≡ behind (is_bar (a.view p)) (a.view p))
        piped = k.op_pipe_lem p same.has_line

    add_command_lem :
        (r : Option (Scommand g) × a.Parser) (result : Pipeline g) (prior : List Simple)
        (s : List Symbol)
        → ParsedCommand g a s r
        → pipe result ≡ record { scommands = prior; wait = true }
        → length s ≤ fuel
        → length s < limit
        → Returns
            (ParsedCommands g a prior s)
            (add_command g a (parse_commands g a fuel limit) r result)
    unfolding add_command
    add_command_lem (none, p) result prior s (no_words same e) v enough short =
        returns (spoiled same (e prior))
    add_command_lem (some c, p) result prior s (words same st has e) v enough short =
        bind
          (Returns_of_view pipe (pipeline_push_back g result (some c)) (push_back_view l result c))
          λ result' v'.
            go_on p result' c prior s
              (v' ∙ ap (λ (x : Pipe). record x { scommands = x.scommands ++ simple c ∷ [] }) v) same
              st has (e prior) (omega (arith, same.shorter)) (omega (arith, same.shorter))

  -- The loop of `parse_pipeline` ends within as many rounds as the input is long, fails no `assert`,
  -- and collects the commands of the grammar.
  pub parse_commands_lem :
      (fuel limit : ℕ) (p : a.Parser) (result : Pipeline g) (prior : List Simple)
      → pipe result ≡ record { scommands = prior; wait = true }
      → HasLine (a.view p)
      → length (a.view p) < fuel
      → length (a.view p) < limit
      → Returns (ParsedCommands g a prior (a.view p)) (parse_commands g a fuel limit p result)
  unfolding parse_commands
  parse_commands_lem zero limit p result prior e h enough short = absurd (omega arith)
  parse_commands_lem (suc fuel) limit p result prior e h enough short =
      bind (parse_scommand_lem limit p h short) λ r parsed.
        add_command_lem fuel limit
          (λ p' result' cs v h' en sh. parse_commands_lem fuel limit p' result' cs v h' en sh) r
          result prior (a.view p) parsed e (omega arith) short
