-- ===== src/MyBash/Builtin/Cd.antt =====
-- `builtin_cd` of builtin.c.
use fa_maf_sis_op.Prelude.{
  zero, suc, Option, ◌≡◌, refl, none, some, List, [], ◌∷◌, if◌then◌else◌, Text, codes, text_eq,
  arith, ap, ◌∙◌,
}
use fa_maf_sis_op.Prelude.Int.{ℤ, pos, negsuc, eq_ℤ}
use fa_maf_sis_op.MyBash.GQueue.{GQueue, IsGQueue, popped}
use fa_maf_sis_op.MyBash.Run.{text, Run, pure, map_run}
use fa_maf_sis_op.MyBash.Scommand.{Scommand}
use fa_maf_sis_op.MyBash.Scommand.Laws.{
  Simple, simple, scommand_observers, pop_front_cons, front_view,
}
use fa_maf_sis_op.MyBash.Builtin.{
  Answer, quiet, no_home, chdir_failed, too_many_arguments, Passwd, Host, change_directory,
  get_home_directory, go_home, builtin_cd,
}

-- What is reported by the number that `chdir` gives: -1 is its failure.
abbrev reported : ℤ → Answer
reported (pos n) = quiet
reported (negsuc zero) = chdir_failed
reported (negsuc (suc n)) = quiet

-- The system after one call of `chdir`, and the report.
abbrev went : (h : Host) → h.World → Text → Answer × h.World
went h world dir = (reported (h.chdir world dir).0, (h.chdir world dir).1)

-- The way home, by what the user database says of the user.
abbrev went_home : (h : Host) → h.World → Option Passwd → Answer × h.World
went_home h world none = (no_home, world)
went_home h world (some user) = elim user.pw_dir [
  | none ↦ (no_home, world)
  | some dir ↦ went h world dir
]

change_directory_lem :
    (h : Host) (world : h.World) (dir : Text) → change_directory h world dir ≡ went h world dir
unfolding change_directory
change_directory_lem h world dir = answer (h.chdir world dir)
  where
    answer :
        (r : ℤ × h.World)
        → ◌≡◌ {A = Answer × h.World}
            (if eq_ℤ r.0 (negsuc 0) then chdir_failed else quiet, r.1)
            (reported r.0, r.1)
    answer (pos n, world) = refl
    answer (negsuc zero, world) = refl
    answer (negsuc (suc n), world) = ground arith

go_home_lem :
    (h : Host) (world : h.World)
    → go_home h world (get_home_directory h world)
      ≡ went_home h world (h.getpwuid world (h.getuid world))
unfolding go_home get_home_directory
go_home_lem h world = found (h.getpwuid world (h.getuid world))
  where
    home :
        (dir : Option Text)
        → go_home h world dir ≡ elim dir [ none ↦ (no_home, world) | some dir ↦ went h world dir ]
    home none = refl
    home (some dir) = change_directory_lem h world dir

    found :
        (o : Option Passwd)
        → go_home h world (elim o [ none ↦ none | some user_info ↦ user_info.pw_dir ])
          ≡ went_home h world o
    found none = refl
    found (some user) = home user.pw_dir

-- What `cd` does by its arguments, with the words that are left and the block that is freed.
abbrev cd_arguments :
    (h : Host) → h.World → Simple → (cmd : Text) → List Text → Run ((Answer × h.World) × Simple)
cd_arguments h world s cmd [] = pure (went_home h world (h.getpwuid world (h.getuid world)), s)
cd_arguments h world s cmd (dir ∷ []) =
    some ((went h world dir, record s { words = dir ∷ [] }), text cmd ∷ [])
cd_arguments h world s cmd (dir ∷ d ∷ ds) = pure ((too_many_arguments, world), s)

-- The answer of `cd`; a command that does not start with `cd` fails the `assert`.
abbrev pub cd_specified :
    (h : Host) → h.World → Simple → List Text → Run ((Answer × h.World) × Simple)
cd_specified h world s [] = none
cd_specified h world s (cmd ∷ arguments) =
    if text_eq cmd (codes "cd") then cd_arguments h world s cmd arguments else none

abbrev pub seen :
    {g : GQueue} (h : Host) → (Answer × h.World) × Scommand g → (Answer × h.World) × Simple
seen h (r, cmd) = (r, simple cmd)

module _ (g : GQueue) (l : IsGQueue g) (h : Host) where
  cd_lem :
      (world : h.World) (c : Scommand g) (ws : List Text)
      → g.view c.words ≡ ws
      → map_run (seen h) (builtin_cd g h world c) ≡ cd_specified h world (simple c) ws
  unfolding builtin_cd
  cd_lem world c [] e = rw (front_view l c [] e)
  cd_lem world c (cmd ∷ []) e =
      rw (front_view l c (cmd ∷ []) e, (scommand_observers l c).1, e, go_home_lem h world)
        (ground arith)
  cd_lem world c (cmd ∷ dir ∷ []) e =
      let c' : Scommand g = record c { words = (g.pop_head c.words).1 } in
      rw
        (
          front_view l c (cmd ∷ dir ∷ []) e,
          (scommand_observers l c).1,
          e,
          pop_front_cons l c cmd (dir ∷ []) e,
          front_view l c' (dir ∷ []) left,
          change_directory_lem h world dir,
        )
        (ground (arith, left))
    where
      left : g.view (g.pop_head c.words).1 ≡ dir ∷ []
      left = l.view-pop_head Text c.words ∙ ap (λ q. (popped q).1) e
  cd_lem world c (cmd ∷ dir ∷ d ∷ ds) e =
      rw (front_view l c (cmd ∷ dir ∷ d ∷ ds) e, (scommand_observers l c).1, e) (ground arith)

  -- `cd` without arguments calls `chdir` once on the home directory that the user database has for the
  -- user, or says that there is none; with one argument it calls it once on that and drops its own name,
  -- which is freed; with more it says so and nothing changes. `-1` of `chdir` is reported, and no other
  -- result of it. No `assert` fails if the first word is `cd`, and one does otherwise.
  pub builtin_cd_lem :
      (world : h.World) (c : Scommand g)
      → map_run (seen h) (builtin_cd g h world c) ≡ cd_specified h world (simple c) (g.view c.words)
  builtin_cd_lem world c = cd_lem world c (g.view c.words) refl
