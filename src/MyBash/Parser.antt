-- ===== src/MyBash/Parser.antt =====
-- The parser that lab01/sistop-famaf-so25lab1g34/parsing.c calls. The repository has its header,
-- parser.h, and a compiled object, so it is a parameter: the calls, and what parser.h says of them.
use fa_maf_sis_op.Prelude.{
  ◌≡◌, Bool, true, false, Option, none, some, List, [], ◌∷◌, ◌≤◌, length, Text,
}

-- `arg_kind_t`
pub data ArgKind : Type 0 where
  arg_normal arg_input arg_output : ArgKind

-- The two redirections, `<` and `>`.
pub data Redirect : Type 0 where
  input output : Redirect

abbrev pub kind_of : Redirect → ArgKind
kind_of input = arg_input
kind_of output = arg_output

-- What the input is made of: names, the operators `<`, `>`, `|` and `&`, blanks and line ends.
pub data Symbol : Type 0 where
  word : Text → Symbol
  redirect : Redirect → Symbol
  bar ampersand blank newline : Symbol

abbrev pub drop_blanks : List Symbol → List Symbol
drop_blanks [] = []
drop_blanks (blank ∷ s) = drop_blanks s
drop_blanks (word w ∷ s) = word w ∷ s
drop_blanks (redirect r ∷ s) = redirect r ∷ s
drop_blanks (bar ∷ s) = bar ∷ s
drop_blanks (ampersand ∷ s) = ampersand ∷ s
drop_blanks (newline ∷ s) = newline ∷ s

-- The input behind the first line end.
abbrev pub after_line : List Symbol → List Symbol
after_line [] = []
after_line (newline ∷ s) = s
after_line (word w ∷ s) = after_line s
after_line (redirect r ∷ s) = after_line s
after_line (bar ∷ s) = after_line s
after_line (ampersand ∷ s) = after_line s
after_line (blank ∷ s) = after_line s

-- The line has an end.
abbrev pub HasLine : List Symbol → Type 0
HasLine [] = ⊥
HasLine (newline ∷ s) = Unit
HasLine (word w ∷ s) = HasLine s
HasLine (redirect r ∷ s) = HasLine s
HasLine (bar ∷ s) = HasLine s
HasLine (ampersand ∷ s) = HasLine s
HasLine (blank ∷ s) = HasLine s

-- The rest of the line holds more than blanks.
abbrev pub has_garbage : List Symbol → Bool
has_garbage [] = false
has_garbage (newline ∷ s) = false
has_garbage (blank ∷ s) = has_garbage s
has_garbage (word w ∷ s) = true
has_garbage (redirect r ∷ s) = true
has_garbage (bar ∷ s) = true
has_garbage (ampersand ∷ s) = true

-- A symbol at which `parser_next_argument` stops without consuming it.
abbrev pub IsDelimiter : Symbol → Type 0
IsDelimiter bar = Unit
IsDelimiter ampersand = Unit
IsDelimiter newline = Unit
IsDelimiter blank = ⊥
IsDelimiter (word w) = ⊥
IsDelimiter (redirect r) = ⊥

-- A delimiter stands here.
abbrev pub Stops : List Symbol → Type 0
Stops [] = ⊥
Stops (d ∷ s) = IsDelimiter d

-- No name stands here.
abbrev pub NoWord : List Symbol → Type 0
NoWord (word w ∷ s) = ⊥
NoWord [] = Unit
NoWord (redirect r ∷ s) = Unit
NoWord (bar ∷ s) = Unit
NoWord (ampersand ∷ s) = Unit
NoWord (blank ∷ s) = Unit
NoWord (newline ∷ s) = Unit

abbrev pub NoBlank : List Symbol → Type 0
NoBlank (blank ∷ s) = ⊥
NoBlank [] = Unit
NoBlank (word w ∷ s) = Unit
NoBlank (redirect r ∷ s) = Unit
NoBlank (bar ∷ s) = Unit
NoBlank (ampersand ∷ s) = Unit
NoBlank (newline ∷ s) = Unit

abbrev pub is_bar : List Symbol → Bool
is_bar [] = false
is_bar (bar ∷ s) = true
is_bar (word w ∷ s) = false
is_bar (redirect r ∷ s) = false
is_bar (ampersand ∷ s) = false
is_bar (blank ∷ s) = false
is_bar (newline ∷ s) = false

abbrev pub is_ampersand : List Symbol → Bool
is_ampersand [] = false
is_ampersand (ampersand ∷ s) = true
is_ampersand (word w ∷ s) = false
is_ampersand (redirect r ∷ s) = false
is_ampersand (bar ∷ s) = false
is_ampersand (blank ∷ s) = false
is_ampersand (newline ∷ s) = false

-- The input behind the operator, if it stands there.
abbrev pub behind : Bool → List Symbol → List Symbol
behind false s = s
behind true [] = []
behind true (x ∷ s) = s

-- `parser_next_argument` is given the value that its out parameter has before the call.
pub record ParserApi : Type 1 where
  pub Parser : Type 0
  pub next_argument : Parser → ArgKind → Option Text × ArgKind × Parser
  pub op_background : Parser → Bool × Parser
  pub op_pipe : Parser → Bool × Parser
  pub garbage : Parser → Bool × Parser
  pub skip_blanks : Parser → Parser
  pub at_eof : Parser → Bool
  -- The input that is left.
  pub view : Parser → List Symbol

abbrev pub is_nil : List Symbol → Bool
is_nil [] = true
is_nil (x ∷ s) = false

-- parser.h requires `!parser_at_eof` of every call but the last one. A missing name gives `NULL` and
-- the kind of its operator; how far the input is then consumed is left open, but for the line end,
-- which only `parser_garbage` consumes.
pub record IsParser (a : ParserApi) : Type 0 where
  pub at_eof_lem : (p : a.Parser) → a.at_eof p ≡ is_nil (a.view p)
  pub skip_blanks_lem :
      (p : a.Parser) → HasLine (a.view p) → a.view (a.skip_blanks p) ≡ drop_blanks (a.view p)
  pub argument_word :
      (p : a.Parser) (t : ArgKind) (w : Text) (s : List Symbol)
      → a.view p ≡ word w ∷ s
      → (n : a.Parser) × (a.next_argument p t ≡ (some w, arg_normal, n)) × (a.view n ≡ s)
  pub argument_redirect :
      (p : a.Parser) (t : ArgKind) (r : Redirect) (w : Text) (s s' : List Symbol)
      → a.view p ≡ redirect r ∷ s
      → drop_blanks s ≡ word w ∷ s'
      → (n : a.Parser) × (a.next_argument p t ≡ (some w, kind_of r, n)) × (a.view n ≡ s')
  pub argument_missing :
      (p : a.Parser) (t : ArgKind) (r : Redirect) (s : List Symbol)
      → a.view p ≡ redirect r ∷ s
      → HasLine s
      → NoWord (drop_blanks s)
      → (n : a.Parser) × (a.next_argument p t ≡ (none, kind_of r, n))
        × (after_line (a.view n) ≡ after_line s)
        × HasLine (a.view n)
        × (length (a.view n) ≤ length s)
  pub argument_end :
      (p : a.Parser) (t : ArgKind)
      → Stops (a.view p)
      → (n : a.Parser) × (a.next_argument p t ≡ (none, arg_normal, n)) × (a.view n ≡ a.view p)
  pub op_pipe_lem :
      (p : a.Parser)
      → HasLine (a.view p)
      → ((a.op_pipe p).0 ≡ is_bar (a.view p))
        × (a.view (a.op_pipe p).1 ≡ behind (is_bar (a.view p)) (a.view p))
  pub op_background_lem :
      (p : a.Parser)
      → HasLine (a.view p)
      → ((a.op_background p).0 ≡ is_ampersand (a.view p))
        × (a.view (a.op_background p).1 ≡ behind (is_ampersand (a.view p)) (a.view p))
  pub garbage_lem :
      (p : a.Parser)
      → HasLine (a.view p)
      → ((a.garbage p).0 ≡ has_garbage (a.view p))
        × (a.view (a.garbage p).1 ≡ after_line (a.view p))
