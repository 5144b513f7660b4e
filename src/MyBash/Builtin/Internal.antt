-- ===== src/MyBash/Builtin/Internal.antt =====
-- The tests for internal commands of builtin.c.
use fa_maf_sis_op.Prelude.{
  ℕ, suc, ◌+◌, ◌≡◌, ◌↔◌, ◌⊎◌, refl, ap, ◌∙◌, inl, inr, Bool, true, false, ◌&&◌, ◌||◌, some, List,
  [], ◌∷◌, ◌==◌, length, get_elem?, get_elem?-bound, lt→ltb, Text, text_eq, text_eq_iff, arith,
}
use mathlib.Core.Path.{subst}
use fa_maf_sis_op.MyBash.GQueue.{GQueue, IsGQueue}
use fa_maf_sis_op.MyBash.Run.{pure, logged}
use fa_maf_sis_op.MyBash.Scommand.{Scommand, scommand_is_empty}
use fa_maf_sis_op.MyBash.Scommand.Laws.{scommand_observers, is_empty_cons, front_view}
use fa_maf_sis_op.MyBash.Pipeline.{Pipeline, pipeline_get}
use fa_maf_sis_op.MyBash.Pipeline.Laws.{length_lem, get_lem, front_view as pipeline_front_view}
use fa_maf_sis_op.MyBash.Builtin.{
  builtins, matches_any, builtin_is_internal, builtin_alone, or_internal, contains_from,
  pipeline_contains_builtin,
}

-- The name is one of those of the list.
abbrev pub OneOf : Text → List Text → Type 0
OneOf w [] = ⊥
OneOf w (name ∷ names) = (w ≡ name) ⊎ OneOf w names

matches_any-OneOf :
    (w : Text) (names : List Text) (res : Bool)
    → (matches_any w names res ≡ true) ↔ ((res ≡ true) ⊎ OneOf w names)
unfolding matches_any
matches_any-OneOf w [] res = (λ e. inl e, λ s. elim s [ inl e ↦ e | inr h ↦ absurd h ])
matches_any-OneOf w (name ∷ names) res =
    let (to, from) = matches_any-OneOf w names (res || text_eq w name) in
    (
      λ e. elim (to e) [ inl h ↦ or_cases res h | inr m ↦ inr (inr m) ],
      λ s. from (elim s [
        | inl r ↦ inl (or_true r)
        | inr (inl same) ↦ inl (or_name same)
        | inr (inr m) ↦ inr m
      ]),
    )
  where
    or_cases : (r : Bool) → (r || text_eq w name) ≡ true → (r ≡ true) ⊎ OneOf w (name ∷ names)
    or_cases true h = inl refl
    or_cases false h = inr (inl ((text_eq_iff w name).0 h))

    or_true : res ≡ true → (res || text_eq w name) ≡ true
    or_true r = ground arith

    or_name : w ≡ name → (res || text_eq w name) ≡ true
    or_name same = ground (arith, (text_eq_iff w name).1 same)

true_is_not : ¬ (false ≡ true)
true_is_not h = cc

same_first : {v w : Text} → some w ≡ some v → v ≡ w
same_first h = cc

-- What the words of a command say of it.
abbrev pub internal_words : List Text → Bool
internal_words [] = false
internal_words (w ∷ ws) = matches_any w builtins false

module _ (g : GQueue) where
  -- The answers for the commands of a pipeline, in turn.
  abbrev pub any_internal : List (Scommand g) → Bool
  any_internal [] = false
  any_internal (c ∷ cs) = internal_words (g.view c.words) || any_internal cs

module _ (g : GQueue) (l : IsGQueue g) where
  pub is_internal_words :
      (c : Scommand g) (ws : List Text)
      → g.view c.words ≡ ws
      → builtin_is_internal g c ≡ pure (internal_words ws)
  unfolding builtin_is_internal scommand_is_empty
  is_internal_words c [] e = rw ((scommand_observers l c).0, e)
  is_internal_words c (w ∷ ws) e = rw (is_empty_cons l c w ws e, front_view l c (w ∷ ws) e)

  -- `builtin_is_internal` never fails: its answer is true exactly if the command has a first word and
  -- that is one of the three names.
  pub builtin_is_internal_lem :
      (c : Scommand g)
      → (b : Bool) × (builtin_is_internal g c ≡ pure b)
        × ((b ≡ true) ↔ ((w : Text) × (get_elem? (g.view c.words) 0 ≡ some w) × OneOf w builtins))
  builtin_is_internal_lem c = (
    internal_words (g.view c.words),
    is_internal_words c (g.view c.words) refl,
    words_iff (g.view c.words),
  )
    where
      words_iff :
          (ws : List Text)
          → (internal_words ws ≡ true) ↔ ((w : Text) × (get_elem? ws 0 ≡ some w) × OneOf w builtins)
      words_iff [] = (λ h. cc, λ (w, h, m). cc)
      words_iff (w ∷ ws) =
          let (to, from) = matches_any-OneOf w builtins false in
          (
            λ h. elim (to h) [ inl bad ↦ absurd (true_is_not bad) | inr m ↦ (w, refl, m) ],
            λ (v, h, m). from (inr (subst (λ x. OneOf x builtins) (same_first h) m)),
          )

  or_internal_lem :
      (res : Bool) (c : Scommand g)
      → or_internal g res (pure (some c)) ≡ pure (res || internal_words (g.view c.words))
  unfolding or_internal
  or_internal_lem true c = refl
  or_internal_lem false c = rw (is_internal_words c (g.view c.words) refl)

  get_at :
      (p : Pipeline g) (i : ℕ) (c : Scommand g)
      → get_elem? (g.view p.scommands) i ≡ some c
      → pipeline_get g p i ≡ pure (some c)
  get_at p i c at = rw (get_lem l p i, lt→ltb i _ (get_elem?-bound (g.view p.scommands) i c at), at)

  contains_from_lem :
      (p : Pipeline g) (cs : List (Scommand g)) (i : ℕ) (res : Bool)
      → ((k : ℕ) → get_elem? (g.view p.scommands) (i + k) ≡ get_elem? cs k)
      → contains_from g p (length cs) i res ≡ pure (res || any_internal g cs)
  unfolding contains_from
  contains_from_lem p [] i res at = ground arith
  contains_from_lem p (c ∷ cs) i res at =
      rw
        (
          get_at p i c (ap (get_elem? (g.view p.scommands)) (omega arith) ∙ at 0),
          or_internal_lem res c,
          contains_from_lem p cs (suc i) (res || internal_words (g.view c.words))
              (λ k. ap (get_elem? (g.view p.scommands)) (omega arith) ∙ at (suc k)),
        )
        (assoc res)
    where
      assoc :
          (r : Bool)
          → pure ((r || internal_words (g.view c.words)) || any_internal g cs)
            ≡ pure (r || (internal_words (g.view c.words) || any_internal g cs))
      assoc true = refl
      assoc false = refl

  alone_lem :
      (p : Pipeline g) (cs : List (Scommand g))
      → g.view p.scommands ≡ cs
      → builtin_alone g p ≡ pure ((length cs == 1) && any_internal g cs)
  unfolding builtin_alone
  alone_lem p [] e = rw (length_lem l p, e)
  alone_lem p (c ∷ []) e =
      rw
        (
          length_lem l p,
          e,
          pipeline_front_view l p (c ∷ []) e,
          is_internal_words c (g.view c.words) refl,
        )
        (or_false (internal_words (g.view c.words)))
    where
      or_false : (b : Bool) → pure b ≡ pure (b || false)
      or_false true = refl
      or_false false = refl
  alone_lem p (c ∷ d ∷ cs) e = rw (length_lem l p, e, more (length cs))
    where
      more : (n : ℕ) → (suc (suc n) == 1) ≡ false
      more n = ground arith

  -- Neither test of a pipeline fails: `pipeline_contains_builtin` is true exactly if some command is
  -- internal, and `builtin_alone` exactly if the only command is.
  pub pipeline_tests :
      (p : Pipeline g)
      → (pipeline_contains_builtin g p ≡ pure (any_internal g (g.view p.scommands)))
        × (builtin_alone g p
            ≡ pure ((length (g.view p.scommands) == 1) && any_internal g (g.view p.scommands)))
  unfolding pipeline_contains_builtin builtin_alone
  pipeline_tests p = (
    rw (length_lem l p) (
        ap (logged []) (
          contains_from_lem p (g.view p.scommands) 0 false
            (λ k. ap (get_elem? (g.view p.scommands)) (omega arith)))),
    alone_lem p (g.view p.scommands) refl,
  )
