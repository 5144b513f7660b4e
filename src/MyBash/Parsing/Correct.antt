-- ===== src/MyBash/Parsing/Correct.antt =====
-- `parse_pipeline` against the grammar.
use mathlib.Core.Path.{subst}
use fa_maf_sis_op.Prelude.{
  ℕ, ◌≡◌, refl, ap, ◌∙◌, Bool, true, false, Bool-cases, Option, none, some, List, [], ◌∷◌, ◌++◌,
  ◌<◌, arith, if◌then◌else◌, length, is_some, inl, inr,
}
use mathlib.Core.Option
use mathlib.Core.List.{append-nil}
use fa_maf_sis_op.MyBash.GQueue.{GQueue, IsGQueue}
use fa_maf_sis_op.MyBash.Run.{◌>>=◌, Returns, returns, bind, Returns_of_view}
use fa_maf_sis_op.MyBash.Scommand.Laws.{Simple}
use fa_maf_sis_op.MyBash.Pipeline.{Pipeline, pipeline_new, pipeline_set_wait}
use fa_maf_sis_op.MyBash.Pipeline.Laws.{Pipe, pipe, pipeline_new_lem, pipeline_destroy_lem}
use fa_maf_sis_op.MyBash.Parser.{
  Symbol, word, redirect, bar, ampersand, blank, newline, after_line, has_garbage, HasLine, Stops,
  is_nil, is_bar, is_ampersand, behind, ParserApi, IsParser,
}
use fa_maf_sis_op.MyBash.Parsing.{
  destroy_pipeline_if_garbage, always_destroy_pipeline, Message, line_end, syntax_error,
  handle_garbage, handle_op_background, parse_pipeline,
}
use fa_maf_sis_op.MyBash.Parsing.Line.{background, SameLine, is_nil-HasLine, parsed_line}
use fa_maf_sis_op.MyBash.Parsing.Commands.{
  ParsedCommands, spoiled, complete, finish, parse_commands_lem,
}

-- What is printed: a line end at the end of the input, an error if there is no pipeline.
abbrev pub messages : (at_end : Bool) → (parsed : Bool) → List Message
messages at_end parsed =
    (if at_end then line_end ∷ [] else []) ++ (if parsed then [] else syntax_error ∷ [])

-- The outcome of `parse_pipeline` on the input `s` whose line spells `expected`.
pub record Outcome (g : GQueue) (a : ParserApi) (s : List Symbol) (expected : Option Pipe)
    (r : Option (Pipeline g) × a.Parser × List Message) : Type 0 where
  pub pipeline : Option.map pipe r.0 ≡ expected
  pub rest : a.view r.1 ≡ after_line s
  pub printed : r.2 ≡ messages (is_nil (after_line s)) (is_some expected)

-- What `handle_garbage` does with a pipeline that is good so far.
abbrev Ends :
    (g : GQueue) (a : ParserApi) → List Symbol → a.Parser → Pipeline g → Option Pipe → Type 0
Ends g a s p result expected =
    Returns (Outcome g a s expected) (handle_garbage g a p result destroy_pipeline_if_garbage)

background_lem :
    (cs : List Simple) (s : List Symbol)
    → HasLine s
    → background cs s
      ≡ (if has_garbage s then none else some (record { scommands = cs; wait = false }))
unfolding background
background_lem cs [] h = absurd h
background_lem cs (blank ∷ s) h = background_lem cs s h
background_lem cs (newline ∷ s) h = refl
background_lem cs (word w ∷ s) h = refl
background_lem cs (redirect r ∷ s) h = refl
background_lem cs (bar ∷ s) h = refl
background_lem cs (ampersand ∷ s) h = refl

module _ {g : GQueue} {a : ParserApi} (l : IsGQueue g) (k : IsParser a) where
  -- A line that is spoiled is read to its end, and the pipeline is destroyed.
  handle_garbage_always :
      (p : a.Parser) (result : Pipeline g) (s : List Symbol)
      → SameLine s (a.view p)
      → Returns (Outcome g a s none) (handle_garbage g a p result always_destroy_pipeline)
  unfolding handle_garbage
  handle_garbage_always p result s same =
      let (found, rest) = k.garbage_lem p same.has_line in
      rw
        (
          k.at_eof_lem p,
          is_nil-HasLine (a.view p) same.has_line,
          pipeline_destroy_lem l result,
          k.at_eof_lem (a.garbage p).1,
        )
        (returns
          (record { pipeline = refl; rest = rest ∙ same.rest; printed = rw (rest ∙ same.rest) }))

  -- The rest of a line whose pipeline is `result`.
  handle_garbage_if :
      (p : a.Parser) (result : Pipeline g) (s : List Symbol)
      → SameLine s (a.view p)
      → Returns
          (Outcome g a s (if has_garbage (a.view p) then none else some (pipe result)))
          (handle_garbage g a p result destroy_pipeline_if_garbage)
  unfolding handle_garbage
  handle_garbage_if p result s same =
      let (found, rest) = k.garbage_lem p same.has_line in
      elim (Bool-cases (has_garbage (a.view p))) [
        | inl more ↦
            rw
              (
                k.at_eof_lem p,
                is_nil-HasLine (a.view p) same.has_line,
                found,
                more,
                pipeline_destroy_lem l result,
                k.at_eof_lem (a.garbage p).1,
              )
              (returns (record {
                pipeline = refl;
                rest = rest ∙ same.rest;
                printed = rw (rest ∙ same.rest);
              }))
        | inr done ↦
            rw
              (
                k.at_eof_lem p,
                is_nil-HasLine (a.view p) same.has_line,
                found,
                done,
                k.at_eof_lem (a.garbage p).1,
              )
              (returns (record {
                pipeline = refl;
                rest = rest ∙ same.rest;
                printed = rw (rest ∙ same.rest, append-nil);
              }))
      ]

  -- The operator `&` is consumed and clears the flag; otherwise nothing changes.
  handle_op_background_lem :
      (p : a.Parser) (result : Pipeline g) (b : Bool)
      → HasLine (a.view p)
      → is_ampersand (a.view p) ≡ b
      → Returns
          (λ r. r ≡ ((if b then record result { wait = false } else result), (a.op_background p).1))
          (handle_op_background g a p result)
  unfolding handle_op_background pipeline_set_wait
  handle_op_background_lem p result true h e =
      rw (k.at_eof_lem p, is_nil-HasLine (a.view p) h, (k.op_background_lem p h).0, e)
        (returns refl)
  handle_op_background_lem p result false h e =
      rw (k.at_eof_lem p, is_nil-HasLine (a.view p) h, (k.op_background_lem p h).0, e)
        (returns refl)

  -- The end of a line whose commands are `cs`, at a delimiter that is no bar.
  at_delimiter :
      (p : a.Parser) (result : Pipeline g) (cs : List Simple) (s s' : List Symbol)
      → a.view p ≡ s'
      → pipe result ≡ record { scommands = cs; wait = true }
      → SameLine s (a.view p)
      → Stops s'
      → is_bar s' ≡ false
      → Returns (Outcome g a s (finish cs s')) (
          handle_op_background g a p result >>= λ (result, p).
          handle_garbage g a p result destroy_pipeline_if_garbage)
  unfolding handle_op_background finish
  at_delimiter p result cs s [] e v same st nb = absurd st
  at_delimiter p result cs s (bar ∷ s') e v same st nb = cc
  at_delimiter p result cs s (blank ∷ s') e v same st nb = absurd st
  at_delimiter p result cs s (word w ∷ s') e v same st nb = absurd st
  at_delimiter p result cs s (redirect r ∷ s') e v same st nb = absurd st
  at_delimiter p result cs s (newline ∷ s') e v same st nb =
      bind (handle_op_background_lem p result false same.has_line (ap is_ampersand e)) λ r er.
        rw er (
          subst (Ends g a s (a.op_background p).1 result) (rw (here, v))
            (handle_garbage_if (a.op_background p).1 result s (rw here (rw e at same))))
    where
      here : a.view (a.op_background p).1 ≡ newline ∷ s'
      here = (k.op_background_lem p same.has_line).1 ∙ ap (λ x. behind (is_ampersand x) x) e
  at_delimiter p result cs s (ampersand ∷ s') e v same st nb =
      bind (handle_op_background_lem p result true same.has_line (ap is_ampersand e)) λ r er.
        rw er (
          subst (Ends g a s (a.op_background p).1 (record result { wait = false }))
            (rw (
              here,
              background_lem cs s' (rw e at same.has_line),
              ap (λ (x : Pipe). x.scommands) v,
            ))
            (handle_garbage_if (a.op_background p).1 (record result { wait = false }) s
              same_behind))
    where
      here : a.view (a.op_background p).1 ≡ s'
      here = (k.op_background_lem p same.has_line).1 ∙ ap (λ x. behind (is_ampersand x) x) e

      on_line : SameLine s (ampersand ∷ s')
      on_line = rw e at same

      same_behind : SameLine s (a.view (a.op_background p).1)
      same_behind = rw here (record {
        rest = on_line.rest;
        has_line = on_line.has_line;
        shorter = omega (arith, on_line.shorter);
      })

  at_end_of_line :
      (s : List Symbol) (r : Bool × Pipeline g × a.Parser)
      → ParsedCommands g a [] s r
      → Returns (Outcome g a s (parsed_line s)) (
          if r.0
          then handle_garbage g a r.2 r.1 always_destroy_pipeline
          else (handle_op_background g a r.2 r.1 >>= λ (result, p).
              handle_garbage g a p result destroy_pipeline_if_garbage))
  unfolding parsed_line
  at_end_of_line s (true, result, p) (spoiled same e) = rw e (handle_garbage_always p result s same)
  at_end_of_line s (false, result, p) (complete cs v same st nb e) =
      rw e (at_delimiter p result cs s (a.view p) refl v same st nb)

  -- On a line that has an end, `parse_pipeline` ends within as many rounds as the input is long and
  -- fails no `assert`. It returns the pipeline that the line spells, or `NULL` if it spells none,
  -- consumes the line and its end and nothing more, prints `syntax error` exactly if the result is
  -- `NULL`, and prints a line end exactly if no input is left.
  pub parse_pipeline_lem :
      (limit : ℕ) (p : a.Parser)
      → HasLine (a.view p)
      → length (a.view p) < limit
      → Returns (Outcome g a (a.view p) (parsed_line (a.view p))) (parse_pipeline g a limit p)
  unfolding parse_pipeline
  parse_pipeline_lem limit p h short =
      rw (k.at_eof_lem p, is_nil-HasLine (a.view p) h)
        (bind {P = λ (u : Unit {0}). Unit {0}} (returns {w = []} tt) λ u trivial.
          bind (Returns_of_view pipe (pipeline_new g true) (pipeline_new_lem l true)) λ result e.
            bind (parse_commands_lem l k limit limit p result [] e h short short)
              (at_end_of_line (a.view p)))
