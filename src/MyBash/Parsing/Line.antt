-- ===== src/MyBash/Parsing/Line.antt =====
-- The grammar of a command line, read in one pass and apart from the code.
use fa_maf_sis_op.Prelude.{
  ◌≡◌, refl, ◌∙◌, Bool, true, false, Option, none, some, List, [], ◌∷◌, ◌++◌, ◌≤◌, arith,
  if◌then◌else◌, length, Text,
}
use fa_maf_sis_op.MyBash.Scommand.Laws.{Simple}
use fa_maf_sis_op.MyBash.Pipeline.Laws.{Pipe}
use fa_maf_sis_op.MyBash.Parser.{
  Redirect, input, output, Symbol, word, redirect, bar, ampersand, blank, newline, drop_blanks,
  after_line, HasLine, NoWord, NoBlank, is_nil,
}

abbrev pub no_command : Simple
no_command = record { words = []; redir_out = none; redir_in = none }

-- A command with one more word, or with another file for one of its streams.
abbrev pub add_word : Text → Simple → Simple
add_word w c = record c { words = c.words ++ w ∷ [] }

abbrev pub set_file : Redirect → Text → Simple → Simple
set_file input w c = record c { redir_in = some w }
set_file output w c = record c { redir_out = some w }

-- A command may stand in a pipeline if it has a word.
abbrev pub has_words : Simple → Bool
has_words c = elim c.words [ [] ↦ false | w ∷ ws ↦ true ]

-- Behind `&` only blanks may follow.
unfoldable pub background : List Simple → List Symbol → Option Pipe
background cs [] = none
background cs (blank ∷ s) = background cs s
background cs (newline ∷ s) = some (record { scommands = cs; wait = false })
background cs (word w ∷ s) = none
background cs (redirect r ∷ s) = none
background cs (bar ∷ s) = none
background cs (ampersand ∷ s) = none

-- The pipeline that the first line spells, or `none` where it spells none. `pending` is a redirection
-- that waits for its file name, `cur` the command being read, `prior` those before it.
unfoldable pub line :
    (pending : Option Redirect) (cur : Simple) (prior : List Simple) → List Symbol → Option Pipe
line pending cur prior [] = none
line pending cur prior (blank ∷ s) = line pending cur prior s
line none cur prior (word w ∷ s) = line none (add_word w cur) prior s
line (some r) cur prior (word w ∷ s) = line none (set_file r w cur) prior s
line none cur prior (redirect r ∷ s) = line (some r) cur prior s
line (some r) cur prior (redirect r' ∷ s) = none
line none cur prior (bar ∷ s) =
    let more = line none no_command (prior ++ cur ∷ []) s in if has_words cur then more else none
line (some r) cur prior (bar ∷ s) = none
line none cur prior (ampersand ∷ s) =
    if has_words cur then background (prior ++ cur ∷ []) s else none
line (some r) cur prior (ampersand ∷ s) = none
line none cur prior (newline ∷ s) =
    if has_words cur then some (record { scommands = prior ++ cur ∷ []; wait = true }) else none
line (some r) cur prior (newline ∷ s) = none

unfoldable pub parsed_line : List Symbol → Option Pipe
unfolding line
parsed_line s = line none no_command [] s

-- Blanks make no difference.
pub line-drop_blanks :
    (pending : Option Redirect) (cur : Simple) (prior : List Simple) (s : List Symbol)
    → line pending cur prior s ≡ line pending cur prior (drop_blanks s)
unfolding line
line-drop_blanks pending cur prior [] = refl
line-drop_blanks pending cur prior (blank ∷ s) = line-drop_blanks pending cur prior s
line-drop_blanks pending cur prior (word w ∷ s) = refl
line-drop_blanks pending cur prior (redirect r ∷ s) = refl
line-drop_blanks pending cur prior (bar ∷ s) = refl
line-drop_blanks pending cur prior (ampersand ∷ s) = refl
line-drop_blanks pending cur prior (newline ∷ s) = refl

-- A redirection without a name spoils the line.
pub line-missing :
    (r : Redirect) (cur : Simple) (prior : List Simple) (s : List Symbol)
    → NoWord s
    → NoBlank s
    → line (some r) cur prior s ≡ none
unfolding line
line-missing r cur prior [] h b = refl
line-missing r cur prior (word w ∷ s) h b = absurd h
line-missing r cur prior (blank ∷ s) h b = absurd b
line-missing r cur prior (redirect r' ∷ s) h b = refl
line-missing r cur prior (bar ∷ s) h b = refl
line-missing r cur prior (ampersand ∷ s) h b = refl
line-missing r cur prior (newline ∷ s) h b = refl

pub drop_blanks-NoBlank : (s : List Symbol) → NoBlank (drop_blanks s)
drop_blanks-NoBlank [] = tt
drop_blanks-NoBlank (blank ∷ s) = drop_blanks-NoBlank s
drop_blanks-NoBlank (word w ∷ s) = tt
drop_blanks-NoBlank (redirect r ∷ s) = tt
drop_blanks-NoBlank (bar ∷ s) = tt
drop_blanks-NoBlank (ampersand ∷ s) = tt
drop_blanks-NoBlank (newline ∷ s) = tt

-- Skipping blanks stays on the line.
pub record SameLine (s s' : List Symbol) : Type 0 where
  pub rest : after_line s' ≡ after_line s
  pub has_line : HasLine s'
  pub shorter : length s' ≤ length s

pub SameLine-trans : {s s' s'' : List Symbol} → SameLine s s' → SameLine s' s'' → SameLine s s''
SameLine-trans h k = record {
  rest = k.rest ∙ h.rest;
  has_line = k.has_line;
  shorter = omega (arith, h.shorter, k.shorter);
}

pub drop_blanks-SameLine : (s : List Symbol) → HasLine s → SameLine s (drop_blanks s)
drop_blanks-SameLine [] h = absurd h
drop_blanks-SameLine (blank ∷ s) h =
    let same = drop_blanks-SameLine s h in
    record { rest = same.rest; has_line = same.has_line; shorter = omega (arith, same.shorter) }
drop_blanks-SameLine (word w ∷ s) h = record { rest = refl; has_line = h; shorter = omega arith }
drop_blanks-SameLine (redirect r ∷ s) h = record {
  rest = refl;
  has_line = h;
  shorter = omega arith;
}
drop_blanks-SameLine (bar ∷ s) h = record { rest = refl; has_line = h; shorter = omega arith }
drop_blanks-SameLine (ampersand ∷ s) h = record { rest = refl; has_line = h; shorter = omega arith }
drop_blanks-SameLine (newline ∷ s) h = record { rest = refl; has_line = h; shorter = omega arith }

pub is_nil-HasLine : (s : List Symbol) → HasLine s → is_nil s ≡ false
is_nil-HasLine [] h = absurd h
is_nil-HasLine (x ∷ s) h = refl
