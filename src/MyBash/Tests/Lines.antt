-- ===== src/MyBash/Tests/Lines.antt =====
-- The theorems about the parser loop at a sample line, and lines that are refused.
use fa_maf_sis_op.Prelude.{◌≡◌, refl, false, none, some, [], ◌∷◌, arith, codes}
use mathlib.Core.Option
use fa_maf_sis_op.MyBash.GQueue.{list_queue, list_queue-IsGQueue}
use fa_maf_sis_op.MyBash.Run.{Returns}
use fa_maf_sis_op.MyBash.Scommand.Laws.{simple}
use fa_maf_sis_op.MyBash.Pipeline.Laws.{pipe}
use fa_maf_sis_op.MyBash.Parser.{word, redirect, bar, ampersand, newline, output}
use fa_maf_sis_op.MyBash.Parsing.{parse_pipeline}
use fa_maf_sis_op.MyBash.Parsing.Line.{parsed_line, background}
use fa_maf_sis_op.MyBash.Parsing.Correct.{Outcome, parse_pipeline_lem}
use fa_maf_sis_op.MyBash.Parsing.RoundTrip.{parse_pipeline-line_symbols, line_symbols}
use fa_maf_sis_op.MyBash.Tests.Sample.{list_parser, list_parser-IsParser, ls, wc, ls_wc, ls_wc_line}

parse_pipeline_example :
    Returns
      (Outcome list_queue list_parser ls_wc_line (parsed_line ls_wc_line))
      (parse_pipeline list_queue list_parser 30 ls_wc_line)
parse_pipeline_example =
    parse_pipeline_lem list_queue-IsGQueue list_parser-IsParser 30 ls_wc_line tt (omega arith)

parse_pipeline-line_symbols_example :
    Returns
      (λ r. (Option.map pipe r.0 ≡ some (pipe ls_wc)) × (r.1 ≡ word (codes "next") ∷ []))
      (parse_pipeline list_queue list_parser 30 ls_wc_line)
unfolding line_symbols
parse_pipeline-line_symbols_example =
    parse_pipeline-line_symbols list_queue-IsGQueue list_parser-IsParser 30 ls_wc_line (simple ls)
      (simple wc ∷ []) false (word (codes "next") ∷ []) refl (refl, tt) refl (omega arith)

-- `ls | \n`, `ls > \n` and `ls & wc\n` spell nothing.
refused_lines :
    (parsed_line (word (codes "ls") ∷ bar ∷ newline ∷ []) ≡ none)
    × (parsed_line (word (codes "ls") ∷ redirect output ∷ newline ∷ []) ≡ none)
    × (parsed_line (word (codes "ls") ∷ ampersand ∷ word (codes "wc") ∷ newline ∷ []) ≡ none)
unfolding parsed_line background
refused_lines = (refl, refl, refl)
