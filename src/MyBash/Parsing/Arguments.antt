-- ===== src/MyBash/Parsing/Arguments.antt =====
-- The loop of `parse_scommand` against the grammar.
use mathlib.Core.Path.{ap₂, subst}
use fa_maf_sis_op.Prelude.{
  ℕ, zero, suc, ◌≡◌, refl, sym, ap, ◌∙◌, Option, none, some, List, [], ◌∷◌, ◌≤◌, ◌<◌, arith, length,
  Text,
}
use fa_maf_sis_op.MyBash.GQueue.{GQueue, IsGQueue}
use fa_maf_sis_op.MyBash.Run.{Run, Returns, returns, bind, mono, Returns_of_view}
use fa_maf_sis_op.MyBash.Scommand.{
  Scommand, scommand_push_back, scommand_set_redir_in, scommand_set_redir_out,
}
use fa_maf_sis_op.MyBash.Scommand.Laws.{
  Simple, simple, scommand_destroy_lem, push_back_view, set_redir_in_view, set_redir_out_view,
}
use fa_maf_sis_op.MyBash.Parser.{
  ArgKind, arg_normal, Redirect, input, output, kind_of, Symbol, word, redirect, bar, ampersand,
  blank, newline, drop_blanks, after_line, HasLine, Stops, NoWord, NoBlank, ParserApi, IsParser,
}
use fa_maf_sis_op.MyBash.Parsing.{store_argument, end_arguments, take_argument, parse_arguments}
use fa_maf_sis_op.MyBash.Parsing.Line.{
  line, line-drop_blanks, line-missing, drop_blanks-NoBlank, SameLine, SameLine-trans,
  drop_blanks-SameLine, is_nil-HasLine, add_word, set_file,
}

module _ (g : GQueue) (a : ParserApi) where
  -- What the loop returns for a command `c` on the input `s`.
  pub data Parsed (c : Simple) (s : List Symbol) : Option (Scommand g) × a.Parser → Type 0 where
    failed :
        {p : a.Parser}
        → SameLine s (a.view p)
        → ((prior : List Simple) → line none c prior s ≡ none)
        → Parsed c s (none, p)
    ended :
        {c' : Scommand g} {p : a.Parser}
        → SameLine s (a.view p)
        → Stops (a.view p)
        → ((prior : List Simple) → line none c prior s ≡ line none (simple c') prior (a.view p))
        → Parsed c s (some c', p)

module _ {g : GQueue} {a : ParserApi} (l : IsGQueue g) (k : IsParser a) where
  store_word :
      (c : Scommand g) (w : Text)
      → Returns (λ c'. simple c' ≡ add_word w (simple c)) (store_argument g a c arg_normal w)
  unfolding store_argument
  store_word c w = Returns_of_view simple (scommand_push_back g c (some w)) (push_back_view l c w)

  store_file :
      (c : Scommand g) (r : Redirect) (w : Text)
      → Returns (λ c'. simple c' ≡ set_file r w (simple c)) (store_argument g a c (kind_of r) w)
  unfolding store_argument
  store_file c input w =
      Returns_of_view simple (scommand_set_redir_in g c (some w)) (set_redir_in_view l c (some w))
  store_file c output w =
      Returns_of_view simple (scommand_set_redir_out g c (some w)) (set_redir_out_view l c (some w))

  spoiled :
      (c : Scommand g) (r : Redirect)
      → Returns (λ res. res ≡ none) (end_arguments g a c (kind_of r))
  unfolding end_arguments
  spoiled c input = rw (scommand_destroy_lem l c) (returns refl)
  spoiled c output = rw (scommand_destroy_lem l c) (returns refl)

  -- A step along the line: the input `s'` behind `s`, with the command `c'`.
  module _ {c c' : Simple} {s s' : List Symbol} (same : SameLine s s')
      (same_line : (prior : List Simple) → line none c prior s ≡ line none c' prior s') where
    onward : {r : Option (Scommand g) × a.Parser} → Parsed g a c' s' r → Parsed g a c s r
    onward (failed h e) = failed (SameLine-trans same h) (λ prior. same_line prior ∙ e prior)
    onward (ended h st e) = ended (SameLine-trans same h) st (λ prior. same_line prior ∙ e prior)

  -- The loop from the next round on: it reads the rest of the line if that is short enough.
  module _ (loop : a.Parser → ArgKind → Scommand g → Run (Option (Scommand g) × a.Parser))
      (limit : ℕ)
      (next : (p : a.Parser) (t : ArgKind) (c : Scommand g)
        → HasLine (a.view p)
        → length (a.view p) < limit
        → Returns (Parsed g a (simple c) (a.view p)) (loop p t c)) where
    take_word :
        (n : a.Parser) (c : Scommand g) (w : Text) (s : List Symbol)
        → a.view n ≡ s
        → HasLine s
        → length s < limit
        → Returns
            (Parsed g a (simple c) (word w ∷ s))
            (take_argument g a loop (some w, arg_normal, n) c)
    unfolding take_argument line
    take_word n c w s e h short = bind (store_word c w) λ c' e'.
        mono (next n arg_normal c' (rw e h) (rw e short)) λ r.
          onward
            (record { rest = ap after_line e; has_line = rw e h; shorter = rw e (omega arith) })
            (λ prior. ap₂ (λ x y. line none x prior y) (sym e') (sym e))

    take_file :
        (n : a.Parser) (c : Scommand g) (r : Redirect) (w : Text) (s s' : List Symbol)
        → drop_blanks s ≡ word w ∷ s'
        → a.view n ≡ s'
        → HasLine s
        → length s < limit
        → Returns
            (Parsed g a (simple c) (redirect r ∷ s))
            (take_argument g a loop (some w, kind_of r, n) c)
    unfolding take_argument line
    take_file n c r w s s' named e h short = bind (store_file c r w) λ c' e'.
        mono (next n (kind_of r) c' there.has_line (omega (arith, there.shorter))) λ res.
          onward
            (record {
              rest = there.rest;
              has_line = there.has_line;
              shorter = omega (arith, there.shorter);
            })
            (λ prior.
              line-drop_blanks (some r) (simple c) prior s
              ∙ ap (line (some r) (simple c) prior) named
              ∙ ap₂ (λ x y. line none x prior y) (sym e') (sym e))
      where
        skipped : SameLine s (drop_blanks s)
        skipped = drop_blanks-SameLine s h

        there : SameLine s (a.view n)
        there = record {
          rest = ap after_line e ∙ (ap after_line (sym named) ∙ skipped.rest);
          has_line = rw e (subst HasLine named skipped.has_line);
          shorter = omega (arith, ap length e, ap length named, skipped.shorter);
        }

    take_missing :
        (n : a.Parser) (c : Scommand g) (r : Redirect) (s : List Symbol)
        → HasLine s
        → NoWord (drop_blanks s)
        → SameLine s (a.view n)
        → Returns
            (Parsed g a (simple c) (redirect r ∷ s))
            (take_argument g a loop (none, kind_of r, n) c)
    unfolding take_argument line
    take_missing n c r s h none_named same = bind (spoiled c r) λ res e. rw e (
        returns (
          failed
            (record {
              rest = same.rest;
              has_line = same.has_line;
              shorter = omega (arith, same.shorter);
            })
            (λ prior.
              line-drop_blanks (some r) (simple c) prior s
              ∙ line-missing r (simple c) prior (drop_blanks s) none_named
                  (drop_blanks-NoBlank s))))

    take_end :
        (n : a.Parser) (c : Scommand g) (s : List Symbol)
        → a.view n ≡ s
        → HasLine s
        → Stops s
        → Returns (Parsed g a (simple c) s) (take_argument g a loop (none, arg_normal, n) c)
    unfolding take_argument end_arguments
    take_end n c s e h st = returns (
        ended
          (record {
            rest = ap after_line e;
            has_line = rw e h;
            shorter = omega (arith, ap length e);
          })
          (rw e st) (λ prior. ap (line none (simple c) prior) (sym e)))

    no_operand :
        (p : a.Parser) (t : ArgKind) (c : Scommand g) (r : Redirect) (s : List Symbol)
        → a.view p ≡ redirect r ∷ s
        → HasLine s
        → NoWord (drop_blanks s)
        → Returns
            (Parsed g a (simple c) (redirect r ∷ s))
            (take_argument g a loop (a.next_argument p t) c)
    no_operand p t c r s e h none_named =
        let (n, answer, rest, has_line, shorter) = k.argument_missing p t r s e h none_named in
        rw answer (
          take_missing n c r s h none_named
            (record { rest = rest; has_line = has_line; shorter = shorter }))

    at_end :
        (p : a.Parser) (t : ArgKind) (c : Scommand g) (s : List Symbol)
        → a.view p ≡ s
        → Stops s
        → HasLine s
        → Returns (Parsed g a (simple c) s) (take_argument g a loop (a.next_argument p t) c)
    at_end p t c s e st h =
        let (n, answer, v) = k.argument_end p t (rw e st) in rw answer (take_end n c s (v ∙ e) h st)

    -- The operand of a redirection.
    take_operand :
        (p : a.Parser) (t : ArgKind) (c : Scommand g) (r : Redirect) (s s' : List Symbol)
        → a.view p ≡ redirect r ∷ s
        → drop_blanks s ≡ s'
        → HasLine s
        → length s < limit
        → Returns
            (Parsed g a (simple c) (redirect r ∷ s))
            (take_argument g a loop (a.next_argument p t) c)
    take_operand p t c r s (word w ∷ s') e d h short =
        let (n, answer, v) = k.argument_redirect p t r w s s' e d in
        rw answer (take_file n c r w s s' d v h short)
    take_operand p t c r s [] e d h short = no_operand p t c r s e h (rw d tt)
    take_operand p t c r s (redirect r' ∷ s') e d h short = no_operand p t c r s e h (rw d tt)
    take_operand p t c r s (bar ∷ s') e d h short = no_operand p t c r s e h (rw d tt)
    take_operand p t c r s (ampersand ∷ s') e d h short = no_operand p t c r s e h (rw d tt)
    take_operand p t c r s (blank ∷ s') e d h short = no_operand p t c r s e h (rw d tt)
    take_operand p t c r s (newline ∷ s') e d h short = no_operand p t c r s e h (rw d tt)

    -- One round, on input that begins with no blank.
    take_front :
        (p : a.Parser) (t : ArgKind) (c : Scommand g) (s : List Symbol)
        → a.view p ≡ s
        → NoBlank s
        → HasLine s
        → length s ≤ limit
        → Returns (Parsed g a (simple c) s) (take_argument g a loop (a.next_argument p t) c)
    take_front p t c [] e nb h short = absurd h
    take_front p t c (blank ∷ s) e nb h short = absurd nb
    take_front p t c (word w ∷ s) e nb h short =
        let (n, answer, v) = k.argument_word p t w s e in rw answer (take_word n c w s v h short)
    take_front p t c (redirect r ∷ s) e nb h short =
        take_operand p t c r s (drop_blanks s) e refl h short
    take_front p t c (bar ∷ s) e nb h short = at_end p t c (bar ∷ s) e tt h
    take_front p t c (ampersand ∷ s) e nb h short = at_end p t c (ampersand ∷ s) e tt h
    take_front p t c (newline ∷ s) e nb h short = at_end p t c (newline ∷ s) e tt h

  -- The loop of `parse_scommand` ends within as many rounds as the input is long, fails no `assert`,
  -- stays on its line, and collects what the grammar makes of the arguments.
  pub parse_arguments_lem :
      (fuel : ℕ) (p : a.Parser) (t : ArgKind) (c : Scommand g)
      → HasLine (a.view p)
      → length (a.view p) < fuel
      → Returns (Parsed g a (simple c) (a.view p)) (parse_arguments g a fuel p t c)
  unfolding parse_arguments
  parse_arguments_lem zero p t c h short = absurd (omega arith)
  parse_arguments_lem (suc fuel) p t c h short =
      rw (k.at_eof_lem p, is_nil-HasLine (a.view p) h)
        (mono
          (take_front (parse_arguments g a fuel) fuel (parse_arguments_lem fuel) (a.skip_blanks p) t
            c (drop_blanks (a.view p)) (k.skip_blanks_lem p h) (drop_blanks-NoBlank (a.view p))
            skipped.has_line (omega (arith, skipped.shorter)))
          (λ r. onward skipped (λ prior. line-drop_blanks none (simple c) prior (a.view p))))
    where
      skipped : SameLine (a.view p) (drop_blanks (a.view p))
      skipped = drop_blanks-SameLine (a.view p) h
