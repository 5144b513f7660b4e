-- ===== src/MyBash/Pipeline/Laws.antt =====
-- Pipelines refine a list of commands with a flag.
use mathlib.Core.List.{append-nil, map-append}
use fa_maf_sis_op.Prelude.{
  ℕ, zero, suc, ◌<◌, ◌≡◌, refl, ap, ◌∙◌, Bool, Option, true, false, none, some, List, [], ◌∷◌, ◌++◌,
  map, arith, ltb, ◌==◌, if◌then◌else◌, length, length-append, get_elem?, bool_eq_refl,
}
use fa_maf_sis_op.MyBash.GQueue.{GQueue, IsGQueue, popped}
use fa_maf_sis_op.MyBash.Run.{
  Block, text, queue_block, scommand_block, pipeline_block, Run, pure, ◌>>=◌, assert_some, logged,
  map_run, map_run->>=, map_run-logged, bind_of_view, owned,
}
use fa_maf_sis_op.MyBash.Scommand.{Scommand}
use fa_maf_sis_op.MyBash.Scommand.Laws.{Simple, simple, scommand_destroy_lem}
use fa_maf_sis_op.MyBash.Pipeline.{
  Pipeline, pipeline_new, pipeline_push_back, pipeline_pop_front, pipeline_set_wait,
  pipeline_is_empty, pipeline_length, pipeline_front, pipeline_get, pop_scommands, pipeline_destroy,
}

-- What a pipeline stands for.
pub record Pipe : Type 0 where
  pub scommands : List Simple
  pub wait : Bool

abbrev pub pipe : {g : GQueue} → Pipeline g → Pipe
pipe {g} p = record { scommands = map simple (g.view p.scommands); wait = p.wait }

-- The blocks of a command, in the order in which `scommand_destroy` frees them.
unfoldable pub scommand_blocks : Simple → List Block
scommand_blocks c =
    map text c.words ++ (queue_block ∷ owned c.redir_out ++ owned c.redir_in ++ scommand_block ∷ [])

unfoldable pub pipeline_blocks : List Simple → List Block
pipeline_blocks [] = []
pipeline_blocks (c ∷ cs) = scommand_blocks c ++ pipeline_blocks cs

-- The operations that change a pipeline.
pub data Op (g : GQueue) : Type 0 where
  push_back : Option (Scommand g) → Op g
  pop_front : Op g
  set_wait : Bool → Op g

pub apply : (g : GQueue) → Op g → Pipeline g → Run (Pipeline g)
apply g (push_back c) p = pipeline_push_back g p c
apply g pop_front p = pipeline_pop_front g p
apply g (set_wait w) p = pipeline_set_wait g p w

-- What each of them promises of the commands, and which blocks it frees.
pub specified : {g : GQueue} → Op g → Pipe → Run Pipe
specified (push_back none) p = none
specified (push_back (some c)) p = some (record p { scommands = p.scommands ++ simple c ∷ [] }, [])
specified pop_front p = elim p.scommands [
  | [] ↦ none
  | c ∷ cs ↦ some (record p { scommands = cs }, scommand_blocks c)
]
specified (set_wait w) p = some (record p { wait = w }, [])

pub apply_all : (g : GQueue) → List (Op g) → Pipeline g → Run (Pipeline g)
apply_all g [] p = pure p
apply_all g (o ∷ os) p = apply g o p >>= apply_all g os

pub specified_all : {g : GQueue} → List (Op g) → Pipe → Run Pipe
specified_all [] p = pure p
specified_all (o ∷ os) p = specified o p >>= specified_all os

module _ {g : GQueue} (l : IsGQueue g) where
  push_back_lem :
      (p : Pipeline g) (c : Scommand g)
      → pipeline_push_back g p (some c) ≡ pure (record p { scommands = g.push_tail p.scommands c })
  unfolding pipeline_push_back
  push_back_lem p c = ground (
    arith,
    l.is_empty_lem (Scommand g) (g.push_tail p.scommands c),
    l.view-push_tail (Scommand g) p.scommands c,
    length-append (g.view p.scommands) (c ∷ []),
  )

  pop_front_nil : (p : Pipeline g) → g.view p.scommands ≡ [] → pipeline_pop_front g p ≡ none
  unfolding pipeline_pop_front
  pop_front_nil p e = ground (arith, l.is_empty_lem (Scommand g) p.scommands)

  is_empty_cons :
      (p : Pipeline g) (c : Scommand g) (cs : List (Scommand g))
      → g.view p.scommands ≡ c ∷ cs
      → g.is_empty p.scommands ≡ false
  is_empty_cons p c cs e = ground (arith, l.is_empty_lem (Scommand g) p.scommands)

  pop_front_cons :
      (p : Pipeline g) (c : Scommand g) (cs : List (Scommand g))
      → g.view p.scommands ≡ c ∷ cs
      → pipeline_pop_front g p
        ≡ some (record p { scommands = (g.pop_head p.scommands).1 }, scommand_blocks (simple c))
  unfolding pipeline_pop_front scommand_blocks
  pop_front_cons p c cs e =
      rw
        (
          is_empty_cons p c cs e,
          l.pop_head_value (Scommand g) p.scommands,
          e,
          scommand_destroy_lem l c,
        )
        (rw append-nil)

  pop_front_refines :
      (p : Pipeline g) (cs : List (Scommand g))
      → g.view p.scommands ≡ cs
      → map_run pipe (pipeline_pop_front g p) ≡ specified {g = g} pop_front (pipe p)
  unfolding specified
  pop_front_refines p [] e = rw (pop_front_nil p e) (ground arith)
  pop_front_refines p (c ∷ cs) e =
      rw (pop_front_cons p c cs e) (ground (arith, l.view-pop_head (Scommand g) p.scommands))

  apply_refines : (o : Op g) (p : Pipeline g) → map_run pipe (apply g o p) ≡ specified o (pipe p)
  unfolding apply specified pipeline_push_back pipeline_set_wait
  apply_refines (push_back none) p = refl
  apply_refines (push_back (some c)) p = rw (push_back_lem p c) (
      rw (l.view-push_tail (Scommand g) p.scommands c)
        (rw (map-append simple (g.view p.scommands) (c ∷ []))))
  apply_refines pop_front p = pop_front_refines p (g.view p.scommands) refl
  apply_refines (set_wait w) p = refl

  pub push_back_view :
      (p : Pipeline g) (c : Scommand g)
      → map_run pipe (pipeline_push_back g p (some c))
        ≡ some
            (record (pipe p) { scommands = map simple (g.view p.scommands) ++ simple c ∷ [] }, [])
  unfolding apply specified
  push_back_view p c = apply_refines (push_back (some c)) p

  -- Any sequence of changes to a pipeline gives the commands, in order, and the flag that the
  -- abstract operations give, frees the blocks of each command that is taken from the front, and
  -- fails an `assert` exactly where a command is taken from an empty pipeline or `NULL` is put in as one.
  pub pipeline_refines :
      (os : List (Op g)) (p : Pipeline g)
      → map_run pipe (apply_all g os p) ≡ specified_all os (pipe p)
  unfolding apply_all specified_all
  pipeline_refines [] p = refl
  pipeline_refines (o ∷ os) p =
      map_run->>= pipe pipe (apply g o p) (apply_all g os) (specified_all os) (pipeline_refines os)
      ∙ ap (λ m. m >>= specified_all os) (apply_refines o p)

  -- A new pipeline is empty and is waited for, if `malloc` finds its block.
  pub pipeline_new_lem :
      (allocated : Bool)
      → map_run pipe (pipeline_new g allocated)
        ≡ (if allocated then pure (record { scommands = []; wait = true }) else none)
  unfolding pipeline_new
  pipeline_new_lem allocated =
      ground (arith, l.is_empty_lem (Scommand g) (g.new (Scommand g)), l.view-new (Scommand g))

  pub front_view :
      (p : Pipeline g) (cs : List (Scommand g))
      → g.view p.scommands ≡ cs
      → pipeline_front g p ≡ assert_some (get_elem? cs 0)
  unfolding pipeline_front
  front_view p [] e = ground (arith, l.is_empty_lem (Scommand g) p.scommands)
  front_view p (c ∷ cs) e = rw (is_empty_cons p c cs e, l.peek_head_lem (Scommand g) p.scommands, e)

  pub length_lem : (p : Pipeline g) → pipeline_length g p ≡ pure (length (g.view p.scommands))
  unfolding pipeline_length
  length_lem p = ground (
    arith,
    l.is_empty_lem (Scommand g) p.scommands,
    l.get_length_lem (Scommand g) p.scommands,
    bool_eq_refl (length (g.view p.scommands) == 0),
  )

  pub get_lem :
      (p : Pipeline g) (n : ℕ)
      → pipeline_get g p n ≡ (
          if ltb n (length (g.view p.scommands))
          then pure (get_elem? (g.view p.scommands) n)
          else none)
  unfolding pipeline_get
  get_lem p n = rw (length_lem p, l.peek_nth_lem (Scommand g) p.scommands n) (ground arith)

  -- The observers answer about the commands: the length never fails, `pipeline_front` fails on an
  -- empty pipeline only, and `pipeline_get` fails on an index past the end only.
  pub pipeline_observers :
      (p : Pipeline g) (n : ℕ)
      → (pipeline_is_empty g p ≡ (length (g.view p.scommands) == 0))
        × (pipeline_length g p ≡ pure (length (g.view p.scommands)))
        × (pipeline_front g p ≡ assert_some (get_elem? (g.view p.scommands) 0))
        × (pipeline_get g p n ≡ (
            if ltb n (length (g.view p.scommands))
            then pure (get_elem? (g.view p.scommands) n)
            else none))
  unfolding pipeline_is_empty
  pipeline_observers p n = (
    l.is_empty_lem (Scommand g) p.scommands,
    length_lem p,
    front_view p (g.view p.scommands) refl,
    get_lem p n,
  )

  pop_scommands_lem :
      (cs : List (Scommand g)) (n : ℕ) (p : Pipeline g)
      → g.view p.scommands ≡ cs
      → length cs < n
      → map_run pipe (pop_scommands g n p)
        ≡ some (record (pipe p) { scommands = [] }, pipeline_blocks (map simple cs))
  unfolding pop_scommands pipeline_blocks
  pop_scommands_lem cs zero p e h = absurd (omega arith)
  pop_scommands_lem [] (suc n) p e h = ground (arith, l.is_empty_lem (Scommand g) p.scommands)
  pop_scommands_lem (c ∷ cs) (suc n) p e h =
      rw (is_empty_cons p c cs e, pop_front_cons p c cs e)
        (let p' : Pipeline g = record p { scommands = (g.pop_head p.scommands).1 } in
          map_run-logged pipe (scommand_blocks (simple c)) (pop_scommands g n p')
          ∙ ap (logged (scommand_blocks (simple c))) (pop_scommands_lem cs n p' left (omega arith)))
    where
      left : g.view (g.pop_head p.scommands).1 ≡ cs
      left = l.view-pop_head (Scommand g) p.scommands ∙ ap (λ q. (popped q).1) e

  -- `pipeline_destroy` ends, fails no `assert`, and frees each block once: those of the commands from
  -- first to last, the queue and the structure.
  pub pipeline_destroy_lem :
      (p : Pipeline g)
      → pipeline_destroy g p
        ≡ some (
          tt,
          pipeline_blocks (map simple (g.view p.scommands)) ++ (queue_block ∷ pipeline_block ∷ []),
        )
  unfolding pipeline_destroy
  pipeline_destroy_lem p =
      bind_of_view pipe (pop_scommands g (suc (g.get_length p.scommands)) p) _
        (pop_scommands_lem (g.view p.scommands) (suc (g.get_length p.scommands)) p refl
          (omega (arith, l.get_length_lem (Scommand g) p.scommands)))
        (λ emptied e. refl)
