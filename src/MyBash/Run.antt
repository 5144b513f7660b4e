-- ===== src/MyBash/Run.antt =====
-- Runs of the code of lab01: `assert` may end the program, and `free` is logged.
use fa_maf_sis_op.Prelude.{
  ◌≡◌, refl, ap, ◌∙◌, Bool, true, false, Option, none, some, List, [], ◌∷◌, ◌++◌, Text,
}

-- What `free`, `g_queue_free` and the destructors give back, in the order of the calls.
pub data Block : Type 0 where
  text : Text → Block
  queue_block scommand_block pipeline_block : Block

-- `none` is a failed `assert`; else the result and the blocks that were freed.
abbrev pub Run : Type 0 → Type 0
Run A = Option (A × List Block)

abbrev pub pure : {A : Type 0} → A → Run A
pure a = some (a, [])

abbrev pub logged : {B : Type 0} → List Block → Run B → Run B
logged w none = none
logged w (some (b, w')) = some (b, w ++ w')

infixl 5 ◌>>=◌ ◌>>◌
abbrev pub ◌>>=◌ : {A B : Type 0} → Run A → (A → Run B) → Run B
none >>= f = none
some (a, w) >>= f = logged w (f a)

abbrev pub ◌>>◌ : {B : Type 0} → Run (Unit {0}) → Run B → Run B
m >> k = m >>= λ _. k

abbrev pub assert : Bool → Run (Unit {0})
assert true = pure tt
assert false = none

abbrev pub release : Block → Run (Unit {0})
release b = some (tt, b ∷ [])

-- `free` of a string pointer; of `NULL` it does nothing.
abbrev pub free_text : Option Text → Run (Unit {0})
free_text none = pure tt
free_text (some s) = release (text s)

-- The blocks of a string pointer.
abbrev pub owned : Option Text → List Block
owned none = []
owned (some s) = text s ∷ []

-- A value that must not be `NULL` (`assert(x != NULL)`).
abbrev pub assert_some : {A : Type 0} → Option A → Run A
assert_some none = none
assert_some (some a) = pure a

-- The result alone.
abbrev pub result : {A : Type 0} → Run A → Option A
result none = none
result (some (a, w)) = some a

-- A run seen through a function of its result.
abbrev pub map_run : {A B : Type 0} → (A → B) → Run A → Run B
map_run f none = none
map_run f (some (a, w)) = some (f a, w)

pub result-logged : {A : Type 0} (w : List Block) (m : Run A) → result (logged w m) ≡ result m
result-logged w none = refl
result-logged w (some r) = refl

pub map_run-logged :
    {A B : Type 0} (v : A → B) (w : List Block) (m : Run A)
    → map_run v (logged w m) ≡ logged w (map_run v m)
map_run-logged v w none = refl
map_run-logged v w (some r) = refl

-- The result of a bind whose first part returns `a`.
pub result->>= :
    {A B : Type 0} (m : Run A) (f : A → Run B) {a : A}
    → result m ≡ some a
    → result (m >>= f) ≡ result (f a)
result->>= none f h = cc
result->>= (some (b, w)) f h = result-logged w (f b) ∙ ap (λ x. result (f x)) (cc)

-- A bind seen through functions of the results.
pub map_run->>= :
    {A A' B B' : Type 0} (v : A → A') (v' : B → B') (m : Run A) (f : A → Run B) (f' : A' → Run B')
    → ((a : A) → map_run v' (f a) ≡ f' (v a))
    → map_run v' (m >>= f) ≡ (map_run v m >>= f')
map_run->>= v v' none f f' h = refl
map_run->>= v v' (some (a, w)) f f' h = map_run-logged v' w (f a) ∙ ap (logged w) (h a)

-- A bind whose first part is known through a function `v` of its result.
pub bind_of_view :
    {A A' B : Type 0} (v : A → A') (m : Run A) (f : A → Run B) {a' : A'} {w w' : List Block} {b : B}
    → map_run v m ≡ some (a', w)
    → ((a : A) → v a ≡ a' → f a ≡ some (b, w'))
    → (m >>= f) ≡ some (b, w ++ w')
bind_of_view v none f h k = cc
bind_of_view v (some (a, u)) f {w = w} {w'} {b} h k =
    ap (logged u) (k a (cc)) ∙ ap (λ x. some (b, x ++ w')) (cc)

-- Total correctness of a run: no `assert` fails and the result has the property.
pub data Returns {A : Type 0} (P : A → Type 0) : Run A → Type 0 where
  returns : {a : A} {w : List Block} → P a → Returns P (some (a, w))

Returns-logged :
    {B : Type 0} {Q : B → Type 0} (w : List Block) {m : Run B}
    → Returns Q m
    → Returns Q (logged w m)
Returns-logged w (returns q) = returns q

pub bind :
    {A B : Type 0} {P : A → Type 0} {Q : B → Type 0} {m : Run A} {f : A → Run B}
    → Returns P m
    → ((a : A) → P a → Returns Q (f a))
    → Returns Q (m >>= f)
bind (returns {a} {w} p) k = Returns-logged w (k a p)

-- From what is known of a run through a function of its result.
pub Returns_of_view :
    {A B : Type 0} (v : A → B) (m : Run A) {b : B} {w : List Block}
    → map_run v m ≡ some (b, w)
    → Returns (λ a. v a ≡ b) m
Returns_of_view v none h = cc
Returns_of_view v (some (a, u)) h = returns (cc)

pub mono :
    {A : Type 0} {P Q : A → Type 0} {m : Run A} → Returns P m → ((a : A) → P a → Q a) → Returns Q m
mono (returns {a} p) weaken = returns (weaken a p)
