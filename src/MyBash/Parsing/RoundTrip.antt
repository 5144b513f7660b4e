-- ===== src/MyBash/Parsing/RoundTrip.antt =====
-- A pipeline written as a line, and read back.
use mathlib.Core.List.{append_assoc, append-nil}
use fa_maf_sis_op.Prelude.{
  ℕ, ◌≡◌, refl, ap, ◌∙◌, Bool, true, false, Option, none, some, List, [], ◌∷◌, ◌++◌, ◌<◌, length,
  All, Text,
}
use mathlib.Core.Option
use fa_maf_sis_op.MyBash.GQueue.{GQueue, IsGQueue}
use fa_maf_sis_op.MyBash.Run.{Returns, mono}
use fa_maf_sis_op.MyBash.Scommand.Laws.{Simple}
use fa_maf_sis_op.MyBash.Pipeline.Laws.{pipe}
use fa_maf_sis_op.MyBash.Parser.{
  Redirect, input, output, Symbol, word, redirect, bar, ampersand, blank, newline, after_line,
  HasLine, ParserApi, IsParser,
}
use fa_maf_sis_op.MyBash.Parsing.{parse_pipeline}
use fa_maf_sis_op.MyBash.Parsing.Line.{
  line, background, no_command, add_word, has_words, parsed_line,
}
use fa_maf_sis_op.MyBash.Parsing.Correct.{parse_pipeline_lem}

-- Words with a blank before each.
unfoldable pub spaced : List Text → List Symbol
spaced [] = []
spaced (w ∷ ws) = blank ∷ word w ∷ spaced ws

unfoldable pub file_symbols : Redirect → Option Text → List Symbol
file_symbols r none = []
file_symbols r (some f) = blank ∷ redirect r ∷ blank ∷ word f ∷ []

-- The symbols of a command as `scommand_to_string` writes them, but for a leading blank.
unfoldable pub command_symbols : Simple → List Symbol
unfolding spaced file_symbols
command_symbols c =
    spaced c.words ++ (file_symbols output c.redir_out ++ file_symbols input c.redir_in)

unfoldable pub piped : List Simple → List Symbol
unfolding command_symbols
piped [] = []
piped (c ∷ cs) = blank ∷ bar ∷ (command_symbols c ++ piped cs)

unfoldable pub flag_symbols : Bool → List Symbol
flag_symbols true = []
flag_symbols false = blank ∷ ampersand ∷ []

-- The symbols of a pipeline as `pipeline_to_string` writes them, a line end, and more input.
unfoldable pub line_symbols : Simple → List Simple → Bool → List Symbol → List Symbol
unfolding command_symbols piped flag_symbols
line_symbols c cs wait rest =
    command_symbols c ++ (piped cs ++ (flag_symbols wait ++ newline ∷ rest))

module _ (prior : List Simple) where
  line-spaced :
      (ws : List Text) (cur : Simple) (s : List Symbol)
      → line none cur prior (spaced ws ++ s)
        ≡ line none (record cur { words = cur.words ++ ws }) prior s
  unfolding line spaced
  line-spaced [] cur s = rw append-nil
  line-spaced (w ∷ ws) cur s =
      line-spaced ws (add_word w cur) s
      ∙ ap (λ x. line none (record cur { words = x }) prior s) (append_assoc cur.words (w ∷ []) ws)

  line-files :
      (words : List Text) (out inn : Option Text) (s : List Symbol)
      → line none
          (record { words = words; redir_out = none; redir_in = none })
          prior
          ((file_symbols output out ++ file_symbols input inn) ++ s)
        ≡ line none (record { words = words; redir_out = out; redir_in = inn }) prior s
  unfolding line file_symbols
  line-files words none none s = refl
  line-files words none (some f) s = refl
  line-files words (some f) none s = refl
  line-files words (some f) (some f') s = refl

  line-command :
      (c : Simple) (s : List Symbol)
      → line none no_command prior (command_symbols c ++ s) ≡ line none c prior s
  unfolding command_symbols
  line-command c s =
      ap (line none no_command prior) (
        append_assoc (spaced c.words)
          (file_symbols output c.redir_out ++ file_symbols input c.redir_in) s)
      ∙ line-spaced c.words no_command
          ((file_symbols output c.redir_out ++ file_symbols input c.redir_in) ++ s)
      ∙ line-files c.words c.redir_out c.redir_in s

-- The commands behind the first, and then the end `t` of the line.
line-piped :
    (cs : List Simple) (c : Simple) (prior : List Simple) (t : List Symbol) (wait : Bool)
    → has_words c ≡ true
    → All (λ c. has_words c ≡ true) cs
    → ((c : Simple) (prior : List Simple)
        → has_words c ≡ true
        → line none c prior t ≡ some (record { scommands = prior ++ c ∷ []; wait = wait }))
    → line none c prior (piped cs ++ t) ≡ some (record { scommands = prior ++ c ∷ cs; wait = wait })
unfolding piped line
line-piped [] c prior t wait h hs last = last c prior h
line-piped (d ∷ cs) c prior t wait h hs last = rw h (
    ap (line none no_command (prior ++ c ∷ [])) (append_assoc (command_symbols d) (piped cs) t)
    ∙ line-command (prior ++ c ∷ []) d (piped cs ++ t)
    ∙ line-piped cs d (prior ++ c ∷ []) t wait hs.0 hs.1 last
    ∙ ap (λ x. some (record { scommands = x; wait = wait })) (append_assoc prior (c ∷ []) (d ∷ cs)))

line-flag :
    (wait : Bool) (c : Simple) (prior : List Simple) (rest : List Symbol)
    → has_words c ≡ true
    → line none c prior (flag_symbols wait ++ newline ∷ rest)
      ≡ some (record { scommands = prior ++ c ∷ []; wait = wait })
unfolding line background flag_symbols
line-flag true c prior rest h = rw h
line-flag false c prior rest h = rw h

-- A line that is written for commands with words spells these commands.
parsed_line-line_symbols :
    (c : Simple) (cs : List Simple) (wait : Bool) (rest : List Symbol)
    → has_words c ≡ true
    → All (λ c. has_words c ≡ true) cs
    → parsed_line (line_symbols c cs wait rest) ≡ some (record { scommands = c ∷ cs; wait = wait })
unfolding parsed_line line_symbols
parsed_line-line_symbols c cs wait rest h hs =
    line-command [] c (piped cs ++ (flag_symbols wait ++ newline ∷ rest))
    ∙ line-piped cs c [] (flag_symbols wait ++ newline ∷ rest) wait h hs
        (λ d prior hd. line-flag wait d prior rest hd)

-- No line end stands here.
abbrev NoEnd : List Symbol → Type 0
NoEnd [] = Unit
NoEnd (newline ∷ s) = ⊥
NoEnd (word w ∷ s) = NoEnd s
NoEnd (redirect r ∷ s) = NoEnd s
NoEnd (bar ∷ s) = NoEnd s
NoEnd (ampersand ∷ s) = NoEnd s
NoEnd (blank ∷ s) = NoEnd s

-- `s` is a line that ends before `rest`.
record Line (s rest : List Symbol) : Type 0 where
  has_line : HasLine s
  after : after_line s ≡ rest

Line-append : (x : List Symbol) {s rest : List Symbol} → NoEnd x → Line s rest → Line (x ++ s) rest
Line-append [] nx h = h
Line-append (word w ∷ x) nx h =
    let r = Line-append x nx h in record { has_line = r.has_line; after = r.after }
Line-append (redirect d ∷ x) nx h =
    let r = Line-append x nx h in record { has_line = r.has_line; after = r.after }
Line-append (bar ∷ x) nx h =
    let r = Line-append x nx h in record { has_line = r.has_line; after = r.after }
Line-append (ampersand ∷ x) nx h =
    let r = Line-append x nx h in record { has_line = r.has_line; after = r.after }
Line-append (blank ∷ x) nx h =
    let r = Line-append x nx h in record { has_line = r.has_line; after = r.after }
Line-append (newline ∷ x) nx h = absurd nx

NoEnd-append : (x y : List Symbol) → NoEnd x → NoEnd y → NoEnd (x ++ y)
NoEnd-append [] y hx hy = hy
NoEnd-append (word w ∷ x) y hx hy = NoEnd-append x y hx hy
NoEnd-append (redirect d ∷ x) y hx hy = NoEnd-append x y hx hy
NoEnd-append (bar ∷ x) y hx hy = NoEnd-append x y hx hy
NoEnd-append (ampersand ∷ x) y hx hy = NoEnd-append x y hx hy
NoEnd-append (blank ∷ x) y hx hy = NoEnd-append x y hx hy
NoEnd-append (newline ∷ x) y hx hy = absurd hx

spaced-NoEnd : (ws : List Text) → NoEnd (spaced ws)
unfolding spaced
spaced-NoEnd [] = tt
spaced-NoEnd (w ∷ ws) = spaced-NoEnd ws

file_symbols-NoEnd : (r : Redirect) (f : Option Text) → NoEnd (file_symbols r f)
unfolding file_symbols
file_symbols-NoEnd r none = tt
file_symbols-NoEnd r (some f) = tt

command_symbols-NoEnd : (c : Simple) → NoEnd (command_symbols c)
unfolding command_symbols
command_symbols-NoEnd c = NoEnd-append (spaced c.words) _ (spaced-NoEnd c.words) (
    NoEnd-append (file_symbols output c.redir_out) (file_symbols input c.redir_in)
      (file_symbols-NoEnd output c.redir_out) (file_symbols-NoEnd input c.redir_in))

piped-NoEnd : (cs : List Simple) → NoEnd (piped cs)
unfolding piped
piped-NoEnd [] = tt
piped-NoEnd (c ∷ cs) =
    NoEnd-append (command_symbols c) (piped cs) (command_symbols-NoEnd c) (piped-NoEnd cs)

flag_symbols-Line :
    (wait : Bool) (rest : List Symbol) → Line (flag_symbols wait ++ newline ∷ rest) rest
unfolding flag_symbols
flag_symbols-Line true rest = record { has_line = tt; after = refl }
flag_symbols-Line false rest = record { has_line = tt; after = refl }

line_symbols-Line :
    (c : Simple) (cs : List Simple) (wait : Bool) (rest : List Symbol)
    → Line (line_symbols c cs wait rest) rest
unfolding line_symbols
line_symbols-Line c cs wait rest =
    Line-append (command_symbols c) (command_symbols-NoEnd c)
      (Line-append (piped cs) (piped-NoEnd cs) (flag_symbols-Line wait rest))

-- A pipeline of one or more commands that all have words, written as a line in the form of
-- `pipeline_to_string`, is read back by `parse_pipeline` as the same pipeline: the same words and
-- files in the same order and the same flag. The input behind the line is left.
pub parse_pipeline-line_symbols :
    {g : GQueue} {a : ParserApi} (l : IsGQueue g) (k : IsParser a) (limit : ℕ) (p : a.Parser)
    (c : Simple) (cs : List Simple) (wait : Bool) (rest : List Symbol)
    → has_words c ≡ true
    → All (λ c. has_words c ≡ true) cs
    → a.view p ≡ line_symbols c cs wait rest
    → length (a.view p) < limit
    → Returns
        (λ r.
          (Option.map pipe r.0 ≡ some (record { scommands = c ∷ cs; wait = wait }))
          × (a.view r.1 ≡ rest))
        (parse_pipeline g a limit p)
parse_pipeline-line_symbols l k limit p c cs wait rest h hs e short =
    let written = line_symbols-Line c cs wait rest in
    mono (parse_pipeline_lem l k limit p (rw e written.has_line) short) λ r out. (
      out.pipeline ∙ ap parsed_line e ∙ parsed_line-line_symbols c cs wait rest h hs,
      out.rest ∙ ap after_line e ∙ written.after,
    )
