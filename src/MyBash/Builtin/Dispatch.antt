-- ===== src/MyBash/Builtin/Dispatch.antt =====
-- `builtin_run` of builtin.c.
use fa_maf_sis_op.Prelude.{
  ◌≡◌, refl, ap, ◌∙◌, Bool, true, false, ◌||◌, none, some, List, [], ◌∷◌, if◌then◌else◌, Text,
  codes, text_eq,
}
use fa_maf_sis_op.MyBash.GQueue.{GQueue, IsGQueue}
use fa_maf_sis_op.MyBash.Run.{Run, pure, logged, ◌>>=◌, assert, map_run}
use fa_maf_sis_op.MyBash.Scommand.{Scommand}
use fa_maf_sis_op.MyBash.Scommand.Laws.{Simple, simple, front_view}
use fa_maf_sis_op.MyBash.Builtin.{
  matches_any, Answer, quiet, help_message, exited, Host, builtin_cd, builtin_run,
}
use fa_maf_sis_op.MyBash.Builtin.Internal.{is_internal_words}
use fa_maf_sis_op.MyBash.Builtin.Cd.{cd_specified, seen, builtin_cd_lem}

-- The command by its name: `cd`, `exit` or `help`, and nothing else.
abbrev pub run_specified :
    (h : Host) → h.World → Simple → List Text → Run ((Answer × h.World) × Simple)
run_specified h world s [] = none
run_specified h world s (name ∷ arguments) =
    if text_eq name (codes "cd")
    then cd_specified h world s (name ∷ arguments)
    else if text_eq name (codes "exit")
    then pure ((exited, world), s)
    else if text_eq name (codes "help")
    then pure ((help_message, world), s)
    else none

without_frees : {A : Type 0} (m : Run A) → logged [] (logged [] (logged [] m)) ≡ m
without_frees none = refl
without_frees (some r) = refl

module _ (g : GQueue) (l : IsGQueue g) (h : Host) where
  -- The dispatch, given the three comparisons and what `cd` does.
  choice :
      (world : h.World) (c : Scommand g) (name : Text) (is_cd is_exit is_help : Bool)
      → (m : Run ((Answer × h.World) × Scommand g)) {s : Run ((Answer × h.World) × Simple)}
      → map_run (seen h) m ≡ s
      → map_run (seen h) (
          logged [] (
            assert (is_cd || is_exit || is_help) >>= λ u.
            (pure name >>= λ cmd_name.
            if is_cd
            then m
            else pure
                ((if is_exit then exited else if is_help then help_message else quiet, world), c))))
        ≡ (if is_cd
            then s
            else if is_exit
            then pure ((exited, world), simple c)
            else if is_help
            then pure ((help_message, world), simple c)
            else none)
  choice world c name true is_exit is_help m e = ap (map_run (seen h)) (without_frees m) ∙ e
  choice world c name false true is_help m e = refl
  choice world c name false false true m e = refl
  choice world c name false false false m e = refl

  run_lem :
      (world : h.World) (c : Scommand g) (ws : List Text)
      → g.view c.words ≡ ws
      → map_run (seen h) (builtin_run g h world c) ≡ run_specified h world (simple c) ws
  unfolding builtin_run matches_any
  run_lem world c [] e = rw (is_internal_words g l c [] e)
  run_lem world c (name ∷ ws) e =
      let cd = builtin_cd_lem g l h world c ∙ ap (cd_specified h world (simple c)) e in
      rw (is_internal_words g l c (name ∷ ws) e, front_view l c (name ∷ ws) e)
        (choice world c name (text_eq name (codes "cd")) (text_eq name (codes "exit"))
          (text_eq name (codes "help")) (builtin_cd g h world c) cd)

  -- `builtin_run` does what `cd`, `exit` or `help` does by the first word of the command; the `assert`
  -- fails for every other command.
  pub builtin_run_lem :
      (world : h.World) (c : Scommand g)
      → map_run (seen h) (builtin_run g h world c)
        ≡ run_specified h world (simple c) (g.view c.words)
  builtin_run_lem world c = run_lem world c (g.view c.words) refl
