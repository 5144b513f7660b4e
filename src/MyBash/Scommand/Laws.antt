-- ===== src/MyBash/Scommand/Laws.antt =====
-- Simple commands refine a list of words with two optional file names.
use mathlib.Core.List.{map}
use fa_maf_sis_op.Prelude.{
  ℕ, zero, suc, ◌≡◌, refl, ap, ◌∙◌, Bool, false, Option, none, some, List, [], ◌∷◌, ◌++◌, arith,
  ◌==◌, if◌then◌else◌, length, length-append, get_elem?, bool_eq_refl, ◌<◌, Text,
}
use fa_maf_sis_op.MyBash.GQueue.{GQueue, IsGQueue, popped}
use fa_maf_sis_op.MyBash.Run.{
  text, queue_block, scommand_block, Run, pure, ◌>>=◌, map_run, map_run->>=, map_run-logged, logged,
  assert_some, bind_of_view, owned,
}
use fa_maf_sis_op.MyBash.Scommand.{
  Scommand, scommand_new, scommand_push_back, scommand_pop_front, scommand_set_redir_in,
  scommand_set_redir_out, scommand_is_empty, scommand_front, scommand_length, pop_words,
  scommand_destroy,
}

-- What a simple command stands for.
pub record Simple : Type 0 where
  pub words : List Text
  pub redir_out : Option Text
  pub redir_in : Option Text

abbrev pub simple : {g : GQueue} → Scommand g → Simple
simple {g} c = record { words = g.view c.words; redir_out = c.redir_out; redir_in = c.redir_in }

-- The operations that change a simple command.
pub data Op : Type 0 where
  push_back : Option Text → Op
  pop_front : Op
  set_redir_in set_redir_out : Option Text → Op

pub apply : (g : GQueue) → Op → Scommand g → Run (Scommand g)
apply g (push_back s) c = scommand_push_back g c s
apply g pop_front c = scommand_pop_front g c
apply g (set_redir_in f) c = scommand_set_redir_in g c f
apply g (set_redir_out f) c = scommand_set_redir_out g c f

-- What each of them promises of the words and names, and which strings it frees.
pub specified : Op → Simple → Run Simple
specified (push_back none) c = none
specified (push_back (some s)) c = some (record c { words = c.words ++ s ∷ [] }, [])
specified pop_front c = elim c.words [
  | [] ↦ none
  | w ∷ ws ↦ some (record c { words = ws }, text w ∷ [])
]
specified (set_redir_in f) c = some (record c { redir_in = f }, owned c.redir_in)
specified (set_redir_out f) c = some (record c { redir_out = f }, owned c.redir_out)

pub apply_all : (g : GQueue) → List Op → Scommand g → Run (Scommand g)
apply_all g [] c = pure c
apply_all g (o ∷ os) c = apply g o c >>= apply_all g os

pub specified_all : List Op → Simple → Run Simple
specified_all [] c = pure c
specified_all (o ∷ os) c = specified o c >>= specified_all os

module _ {g : GQueue} (l : IsGQueue g) where
  push_back_lem :
      (c : Scommand g) (s : Text)
      → scommand_push_back g c (some s) ≡ pure (record c { words = g.push_tail c.words s })
  unfolding scommand_push_back
  push_back_lem c s = ground (
    arith,
    l.is_empty_lem Text (g.push_tail c.words s),
    l.view-push_tail Text c.words s,
    length-append (g.view c.words) (s ∷ []),
  )

  pop_front_nil : (c : Scommand g) → g.view c.words ≡ [] → scommand_pop_front g c ≡ none
  unfolding scommand_pop_front
  pop_front_nil c e = ground (arith, l.is_empty_lem Text c.words)

  pub pop_front_cons :
      (c : Scommand g) (w : Text) (ws : List Text)
      → g.view c.words ≡ w ∷ ws
      → scommand_pop_front g c ≡ some (record c { words = (g.pop_head c.words).1 }, text w ∷ [])
  unfolding scommand_pop_front
  pop_front_cons c w ws e =
      ground (arith, l.is_empty_lem Text c.words, l.pop_head_value Text c.words)

  pop_front_refines :
      (c : Scommand g) (ws : List Text)
      → g.view c.words ≡ ws
      → map_run simple (scommand_pop_front g c) ≡ specified pop_front (simple c)
  unfolding specified
  pop_front_refines c [] e = rw (pop_front_nil c e) (ground arith)
  pop_front_refines c (w ∷ ws) e =
      rw (pop_front_cons c w ws e) (ground (arith, l.view-pop_head Text c.words))

  pub apply_refines :
      (o : Op) (c : Scommand g) → map_run simple (apply g o c) ≡ specified o (simple c)
  unfolding apply specified scommand_push_back scommand_set_redir_in scommand_set_redir_out
  apply_refines (push_back none) c = refl
  apply_refines (push_back (some s)) c =
      rw (push_back_lem c s) (rw (l.view-push_tail Text c.words s))
  apply_refines pop_front c = pop_front_refines c (g.view c.words) refl
  apply_refines (set_redir_in f) c = ground arith
  apply_refines (set_redir_out f) c = ground arith

  pub push_back_view :
      (c : Scommand g) (s : Text)
      → map_run simple (scommand_push_back g c (some s))
        ≡ some (record (simple c) { words = g.view c.words ++ s ∷ [] }, [])
  unfolding apply specified
  push_back_view c s = apply_refines (push_back (some s)) c

  pub set_redir_in_view :
      (c : Scommand g) (f : Option Text)
      → map_run simple (scommand_set_redir_in g c f)
        ≡ some (record (simple c) { redir_in = f }, owned c.redir_in)
  unfolding apply specified
  set_redir_in_view c f = apply_refines (set_redir_in f) c

  pub set_redir_out_view :
      (c : Scommand g) (f : Option Text)
      → map_run simple (scommand_set_redir_out g c f)
        ≡ some (record (simple c) { redir_out = f }, owned c.redir_out)
  unfolding apply specified
  set_redir_out_view c f = apply_refines (set_redir_out f) c

  -- Any sequence of changes to a simple command gives the words and redirections that the abstract
  -- operations give, frees the same strings in the same order, and fails an `assert` exactly where a
  -- word is taken from an empty command or `NULL` is put in as one.
  pub scommand_refines :
      (os : List Op) (c : Scommand g)
      → map_run simple (apply_all g os c) ≡ specified_all os (simple c)
  unfolding apply_all specified_all
  scommand_refines [] c = refl
  scommand_refines (o ∷ os) c =
      map_run->>= simple simple (apply g o c) _ _ (scommand_refines os)
      ∙ ap (λ m. m >>= specified_all os) (apply_refines o c)

  -- A new command is empty and has no redirection, if `malloc` finds its block.
  pub scommand_new_lem :
      (allocated : Bool)
      → map_run simple (scommand_new g allocated) ≡ (
          if allocated
          then pure (record { words = []; redir_out = none; redir_in = none })
          else none)
  unfolding scommand_new
  scommand_new_lem allocated = ground (arith, l.is_empty_lem Text (g.new Text), l.view-new Text)

  pub is_empty_cons :
      (c : Scommand g) (w : Text) (ws : List Text)
      → g.view c.words ≡ w ∷ ws
      → g.is_empty c.words ≡ false
  is_empty_cons c w ws e = ground (arith, l.is_empty_lem Text c.words)

  pub front_view :
      (c : Scommand g) (ws : List Text)
      → g.view c.words ≡ ws
      → scommand_front g c ≡ assert_some (get_elem? ws 0)
  unfolding scommand_front
  front_view c [] e = ground (arith, l.is_empty_lem Text c.words)
  front_view c (w ∷ ws) e =
      ground (arith, l.is_empty_lem Text c.words, l.peek_head_lem Text c.words)

  -- The observers answer about the words, and `scommand_front` fails on an empty command only.
  pub scommand_observers :
      (c : Scommand g)
      → (scommand_is_empty g c ≡ (length (g.view c.words) == 0))
        × (scommand_length g c ≡ pure (length (g.view c.words)))
        × (scommand_front g c ≡ assert_some (get_elem? (g.view c.words) 0))
  unfolding scommand_length
  scommand_observers c = (
    l.is_empty_lem Text c.words,
    ground (
      arith,
      l.is_empty_lem Text c.words,
      l.get_length_lem Text c.words,
      bool_eq_refl (length (g.view c.words) == 0),
    ),
    front_view c (g.view c.words) refl,
  )

  pop_words_lem :
      (ws : List Text) (n : ℕ) (c : Scommand g)
      → g.view c.words ≡ ws
      → length ws < n
      → map_run simple (pop_words g n c) ≡ some (record (simple c) { words = [] }, map text ws)
  unfolding pop_words
  pop_words_lem ws zero c e h = absurd (omega arith)
  pop_words_lem [] (suc n) c e h = ground (arith, l.is_empty_lem Text c.words)
  pop_words_lem (w ∷ ws) (suc n) c e h =
      rw (is_empty_cons c w ws e, pop_front_cons c w ws e)
        (let c' : Scommand g = record c { words = (g.pop_head c.words).1 } in
          map_run-logged simple (text w ∷ []) (pop_words g n c')
          ∙ ap (logged (text w ∷ [])) (pop_words_lem ws n c' left (omega arith)))
    where
      left : g.view (g.pop_head c.words).1 ≡ ws
      left = l.view-pop_head Text c.words ∙ ap (λ q. (popped q).1) e

  -- `scommand_destroy` ends, fails no `assert`, and frees each block of the command once: the words
  -- from first to last, the queue, the redirections that are there, and the structure.
  pub scommand_destroy_lem :
      (c : Scommand g)
      → scommand_destroy g c
        ≡ some (
          tt,
          map text (g.view c.words)
              ++ (queue_block ∷ owned c.redir_out ++ owned c.redir_in ++ scommand_block ∷ []),
        )
  unfolding scommand_destroy
  scommand_destroy_lem c =
      bind_of_view simple (pop_words g (suc (g.get_length c.words)) c) _
        (pop_words_lem (g.view c.words) (suc (g.get_length c.words)) c refl
          (omega (arith, l.get_length_lem Text c.words)))
        (λ emptied e. ground arith)
