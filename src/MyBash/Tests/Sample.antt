-- ===== src/MyBash/Tests/Sample.antt =====
-- A parser that does what parser.h says, over a list of symbols, and sample commands.
use fa_maf_sis_op.Prelude.{
  ◌≡◌, refl, ◌∙◌, ap, false, Option, none, some, List, [], ◌∷◌, Text, codes,
}
use fa_maf_sis_op.MyBash.GQueue.{list_queue}
use fa_maf_sis_op.MyBash.Scommand.{Scommand}
use fa_maf_sis_op.MyBash.Pipeline.{Pipeline}
use fa_maf_sis_op.MyBash.Parser.{
  ArgKind, arg_normal, kind_of, Redirect, Symbol, word, redirect, bar, ampersand, blank, newline,
  drop_blanks, after_line, has_garbage, is_bar, is_ampersand, behind, is_nil, NoWord, Stops,
  ParserApi, IsParser,
}
use fa_maf_sis_op.MyBash.Parsing.Line.{drop_blanks-SameLine}

abbrev operand : Redirect → List Symbol → Option Text × ArgKind × List Symbol
operand r [] = (none, kind_of r, [])
operand r (word w ∷ s) = (some w, kind_of r, s)
operand r (redirect r' ∷ s) = (none, kind_of r, redirect r' ∷ s)
operand r (bar ∷ s) = (none, kind_of r, bar ∷ s)
operand r (ampersand ∷ s) = (none, kind_of r, ampersand ∷ s)
operand r (blank ∷ s) = (none, kind_of r, blank ∷ s)
operand r (newline ∷ s) = (none, kind_of r, newline ∷ s)

abbrev argument : List Symbol → Option Text × ArgKind × List Symbol
argument [] = (none, arg_normal, [])
argument (word w ∷ s) = (some w, arg_normal, s)
argument (redirect r ∷ s) = operand r (drop_blanks s)
argument (bar ∷ s) = (none, arg_normal, bar ∷ s)
argument (ampersand ∷ s) = (none, arg_normal, ampersand ∷ s)
argument (blank ∷ s) = (none, arg_normal, blank ∷ s)
argument (newline ∷ s) = (none, arg_normal, newline ∷ s)

abbrev pub list_parser : ParserApi
list_parser = record {
  Parser = List Symbol;
  next_argument = λ s t. argument s;
  op_background = λ s. (is_ampersand s, behind (is_ampersand s) s);
  op_pipe = λ s. (is_bar s, behind (is_bar s) s);
  garbage = λ s. (has_garbage s, after_line s);
  skip_blanks = drop_blanks;
  at_eof = is_nil;
  view = λ s. s;
}

operand-none : (r : Redirect) (s : List Symbol) → NoWord s → operand r s ≡ (none, kind_of r, s)
operand-none r [] h = refl
operand-none r (word w ∷ s) h = absurd h
operand-none r (redirect r' ∷ s) h = refl
operand-none r (bar ∷ s) h = refl
operand-none r (ampersand ∷ s) h = refl
operand-none r (blank ∷ s) h = refl
operand-none r (newline ∷ s) h = refl

argument-Stops : (s : List Symbol) → Stops s → argument s ≡ (none, arg_normal, s)
argument-Stops [] h = absurd h
argument-Stops (word w ∷ s) h = absurd h
argument-Stops (redirect r ∷ s) h = absurd h
argument-Stops (bar ∷ s) h = refl
argument-Stops (ampersand ∷ s) h = refl
argument-Stops (blank ∷ s) h = absurd h
argument-Stops (newline ∷ s) h = refl

pub list_parser-IsParser : IsParser list_parser
list_parser-IsParser = record {
  at_eof_lem = λ p. refl;
  skip_blanks_lem = λ p h. refl;
  argument_word = λ p t w s e. (s, ap argument e, refl);
  argument_redirect = λ p t r w s s' e d. (s', ap argument e ∙ ap (operand r) d, refl);
  argument_missing = λ p t r s e h n.
      let same = drop_blanks-SameLine s h in
      (
        drop_blanks s,
        ap argument e ∙ operand-none r (drop_blanks s) n,
        same.rest,
        same.has_line,
        same.shorter,
      );
  argument_end = λ p t h. (p, argument-Stops p h, refl);
  op_pipe_lem = λ p h. (refl, refl);
  op_background_lem = λ p h. (refl, refl);
  garbage_lem = λ p h. (refl, refl);
}

-- ls -l > out
abbrev pub ls : Scommand list_queue
ls = record {
  words = codes "ls" ∷ codes "-l" ∷ [];
  redir_out = some (codes "out");
  redir_in = none;
}

-- wc < in
abbrev pub wc : Scommand list_queue
wc = record { words = codes "wc" ∷ []; redir_out = none; redir_in = some (codes "in") }

-- ls -l > out | wc < in &
abbrev pub ls_wc : Pipeline list_queue
ls_wc = record { scommands = ls ∷ wc ∷ []; wait = false }

-- The same as a line, with more input behind it.
abbrev pub ls_wc_line : List Symbol
ls_wc_line =
    blank
    ∷ word (codes "ls")
    ∷ blank
    ∷ word (codes "-l")
    ∷ blank
    ∷ redirect Redirect.output
    ∷ blank
    ∷ word (codes "out")
    ∷ blank
    ∷ bar
    ∷ blank
    ∷ word (codes "wc")
    ∷ blank
    ∷ redirect Redirect.input
    ∷ blank
    ∷ word (codes "in")
    ∷ blank
    ∷ ampersand
    ∷ newline
    ∷ word (codes "next")
    ∷ []
