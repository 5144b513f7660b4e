-- ===== src/MyBash/GQueue.antt =====
-- GLib's `GQueue`, which lab01/sistop-famaf-so25lab1g34/command.c uses and the repository does not
-- contain: a parameter of the model, with the documented behaviour of the calls that the code makes.
use mathlib.Core.Path.{ap₂}
use fa_maf_sis_op.Prelude.{
  ℕ, ◌≡◌, refl, Bool, Option, none, some, List, [], ◌∷◌, ◌++◌, length, get_elem?, ◌==◌, ◌∙◌,
  get_elem?-append,
}

-- A call on an empty queue answers `NULL`, here `none`. `g_queue_free` is written where it is used.
pub record GQueue : Type 1 where
  pub Queue : Type 0 → Type 0
  pub new : (A : Type 0) → Queue A
  pub push_tail : {A : Type 0} → Queue A → A → Queue A
  pub pop_head : {A : Type 0} → Queue A → Option A × Queue A
  pub peek_head : {A : Type 0} → Queue A → Option A
  pub peek_nth : {A : Type 0} → Queue A → ℕ → Option A
  pub get_length : {A : Type 0} → Queue A → ℕ
  pub is_empty : {A : Type 0} → Queue A → Bool
  -- The elements, from head to tail.
  pub view : {A : Type 0} → Queue A → List A

-- What `g_queue_pop_head` answers and leaves behind.
abbrev pub popped : {A : Type 0} → List A → Option A × List A
popped [] = (none, [])
popped (a ∷ rest) = (some a, rest)

pub record IsGQueue (g : GQueue) : Type 1 where
  pub view-new : (A : Type 0) → g.view (g.new A) ≡ []
  pub view-push_tail :
      (A : Type 0) (q : g.Queue A) (a : A) → g.view (g.push_tail q a) ≡ g.view q ++ a ∷ []
  pub pop_head_value : (A : Type 0) (q : g.Queue A) → (g.pop_head q).0 ≡ (popped (g.view q)).0
  pub view-pop_head : (A : Type 0) (q : g.Queue A) → g.view (g.pop_head q).1 ≡ (popped (g.view q)).1
  pub peek_head_lem : (A : Type 0) (q : g.Queue A) → g.peek_head q ≡ get_elem? (g.view q) 0
  pub peek_nth_lem : (A : Type 0) (q : g.Queue A) (n : ℕ) → g.peek_nth q n ≡ get_elem? (g.view q) n
  pub get_length_lem : (A : Type 0) (q : g.Queue A) → g.get_length q ≡ length (g.view q)
  pub is_empty_lem : (A : Type 0) (q : g.Queue A) → g.is_empty q ≡ (length (g.view q) == 0)

-- Lists are such queues.
abbrev pub list_queue : GQueue
list_queue = record {
  Queue = List;
  new = λ A. [];
  push_tail = λ q a. q ++ a ∷ [];
  pop_head = popped;
  peek_head = λ q. get_elem? q 0;
  peek_nth = get_elem?;
  get_length = length;
  is_empty = λ q. length q == 0;
  view = λ q. q;
}

pub list_queue-IsGQueue : IsGQueue list_queue
list_queue-IsGQueue = record {
  view-new = λ A. refl;
  view-push_tail = λ A q a. refl;
  pop_head_value = λ A q. refl;
  view-pop_head = λ A q. refl;
  peek_head_lem = λ A q. refl;
  peek_nth_lem = λ A q n. refl;
  get_length_lem = λ A q. refl;
  is_empty_lem = λ A q. refl;
}

-- The element at an index, by where it stands in the view.
pub peek_nth-view :
    {g : GQueue} (l : IsGQueue g) {A : Type 0} (q : g.Queue A) (pre : List A) (a : A)
    (rest : List A) (i : ℕ)
    → g.view q ≡ pre ++ a ∷ rest
    → i ≡ length pre
    → g.peek_nth q i ≡ some a
peek_nth-view l {A} q pre a rest i e h =
    l.peek_nth_lem A q i ∙ ap₂ get_elem? e h ∙ get_elem?-append pre a rest
