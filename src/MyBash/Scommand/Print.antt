-- ===== src/MyBash/Scommand/Print.antt =====
-- What `scommand_to_string` writes.
use mathlib.Core.List.{append_assoc, append-nil}
use fa_maf_sis_op.Prelude.{
  ℕ, suc, ◌<◌, ◌≢◌, ◌≡◌, refl, sym, ap, ◌∙◌, Bool, true, not, ◌||◌, Option, none, some, List, [],
  ◌∷◌, ◌++◌, arith, ltb, is_some, length, length-append, lt→ltb, All, All-append, Text, IsText,
  codes,
}
use fa_maf_sis_op.MyBash.GQueue.{GQueue, IsGQueue, peek_nth-view}
use fa_maf_sis_op.MyBash.Run.{text, ◌>>=◌, assert, result, result->>=, result-logged}
use fa_maf_sis_op.MyBash.StrExtra.{strlen, strmerge-append, text_of-append_nul, strlen-length}
use fa_maf_sis_op.MyBash.Scommand.{
  Scommand, scommand_is_empty, str_append, append_words, append_redir, scommand_length,
  scommand_to_string,
}
use fa_maf_sis_op.MyBash.Scommand.Laws.{scommand_observers}

-- Every word with the separator before it.
unfoldable pub followed : Text → List Text → Text
followed sep [] = []
followed sep (w ∷ ws) = sep ++ w ++ followed sep ws

-- The words with the separator between them.
unfoldable pub join : Text → List Text → Text
unfolding followed
join sep [] = []
join sep (w ∷ ws) = w ++ followed sep ws

unfoldable pub redir_text : Text → Option Text → Text
redir_text operator none = []
redir_text operator (some filename) = operator ++ filename

-- The command line of a simple command.
unfoldable pub scommand_text : List Text → (out inn : Option Text) → Text
unfolding join redir_text
scommand_text words out inn =
    join (codes " ") words ++ redir_text (codes " > ") out ++ redir_text (codes " < ") inn

-- A pointer to a string, or `NULL`.
abbrev pub IsTextPtr : Option Text → Type 0
IsTextPtr none = Unit
IsTextPtr (some s) = IsText s

pub str_append_lem :
    (s1 s2 : Text) → IsText s1 → IsText s2 → str_append s1 (some s2) ≡ some (s1 ++ s2, text s1 ∷ [])
unfolding str_append
str_append_lem s1 s2 h1 h2 =
    rw (strmerge-append s1 s2 h1 h2)
      (rw (text_of-append_nul (s1 ++ s2) [] (All-append (λ c. c ≢ 0) s1 s2 h1 h2)))

pub result-str_append :
    (s1 s2 : Text) → IsText s1 → IsText s2 → result (str_append s1 (some s2)) ≡ some (s1 ++ s2)
result-str_append s1 s2 h1 h2 = ap result (str_append_lem s1 s2 h1 h2)

pub IsText-append : (s t : Text) → IsText s → IsText t → IsText (s ++ t)
IsText-append = All-append (λ c. c ≢ 0)

append_redir_lem :
    (operator acc : Text) (redir : Option Text)
    → IsText operator
    → IsText acc
    → IsTextPtr redir
    → result (append_redir operator redir acc) ≡ some (acc ++ redir_text operator redir)
unfolding append_redir redir_text
append_redir_lem operator acc none ho ha h = rw (append-nil)
append_redir_lem operator acc (some f) ho ha h =
    result->>= (str_append acc (some operator)) _ (result-str_append acc operator ha ho)
    ∙ result-str_append (acc ++ operator) f (IsText-append acc operator ha ho) h
    ∙ ap some (append_assoc acc operator f)

-- One round past the first: the separator, then the word.
append_words_round :
    {g : GQueue} (l : IsGQueue g) (q : g.Queue Text) (w acc : Text) (n i : ℕ)
    → 0 < i
    → g.peek_nth q i ≡ some w
    → IsText acc
    → IsText w
    → result (append_words g q (suc n) i acc)
      ≡ result (append_words g q n (suc i) (acc ++ codes " " ++ w))
unfolding append_words
append_words_round {g} l q w acc n i pos e ha hw =
    rw (lt→ltb 0 i pos, e)
      (result->>= (str_append acc (some (codes " "))) _
          (result-str_append acc (codes " ") ha (omega arith))
        ∙ result->>= (str_append (acc ++ codes " ") (some w)) (append_words g q n (suc i)) (
            result-str_append (acc ++ codes " ") w (IsText-append acc (codes " ") ha (omega arith))
              hw))

module _ {g : GQueue} (l : IsGQueue g) (q : g.Queue Text) where
  -- The loop from an index past the first word on.
  append_words_later :
      (pre rest : List Text) (acc : Text) (i : ℕ)
      → g.view q ≡ pre ++ rest
      → i ≡ length pre
      → 0 < i
      → All IsText rest
      → IsText acc
      → result (append_words g q (length rest) i acc) ≡ some (acc ++ followed (codes " ") rest)
  unfolding followed
  append_words_later pre [] acc i e h pos hr ha = unfold append_words in rw (append-nil)
  append_words_later pre (w ∷ rest) acc i e h pos hr ha =
      append_words_round l q w acc (length rest) i pos (peek_nth-view l q pre w rest i e h) ha hr.0
      ∙ append_words_later (pre ++ w ∷ []) rest (acc ++ codes " " ++ w) (suc i)
          (e ∙ sym (append_assoc pre (w ∷ []) rest)) (omega (arith, length-append pre (w ∷ [])))
          (omega arith) hr.1
          (IsText-append (acc ++ codes " ") w (IsText-append acc (codes " ") ha (omega arith)) hr.0)
      ∙ simp (append_assoc)

  append_words_lem :
      (ws : List Text)
      → g.view q ≡ ws
      → All IsText ws
      → result (append_words g q (length ws) 0 []) ≡ some (join (codes " ") ws)
  unfolding append_words join
  append_words_lem [] e h = refl
  append_words_lem (w ∷ rest) e h = rw (peek_nth-view l q [] w rest 0 e refl) (
      result-logged [] (str_append [] (some w) >>= append_words g q (length rest) 1)
      ∙ result->>= (str_append [] (some w)) (append_words g q (length rest) 1)
          (result-str_append [] w tt h.0)
      ∙ append_words_later (w ∷ []) rest w 1 e refl (omega arith) h.1 h.0)

followed-IsText :
    (sep : Text) (ws : List Text) → IsText sep → All IsText ws → IsText (followed sep ws)
unfolding followed
followed-IsText sep [] hs h = tt
followed-IsText sep (w ∷ ws) hs h =
    IsText-append (sep ++ w) (followed sep ws) (IsText-append sep w hs h.0)
      (followed-IsText sep ws hs h.1)

pub join-IsText : (sep : Text) (ws : List Text) → IsText sep → All IsText ws → IsText (join sep ws)
unfolding join
join-IsText sep [] hs h = tt
join-IsText sep (w ∷ ws) hs h =
    IsText-append w (followed sep ws) h.0 (followed-IsText sep ws hs h.1)

redir_text-IsText :
    (operator : Text) (redir : Option Text)
    → IsText operator
    → IsTextPtr redir
    → IsText (redir_text operator redir)
unfolding redir_text
redir_text-IsText operator none ho h = tt
redir_text-IsText operator (some f) ho h = IsText-append operator f ho h

pub scommand_text-IsText :
    (words : List Text) (out inn : Option Text)
    → All IsText words
    → IsTextPtr out
    → IsTextPtr inn
    → IsText (scommand_text words out inn)
unfolding scommand_text
scommand_text-IsText words out inn hw ho hi =
    IsText-append _ _
      (IsText-append _ _ (join-IsText (codes " ") words (omega arith) hw)
        (redir_text-IsText (codes " > ") out (omega arith) ho))
      (redir_text-IsText (codes " < ") inn (omega arith) hi)

-- A command line with an output redirection is not empty.
strlen-scommand_text :
    (words : List Text) (f : Text) (inn : Option Text)
    → All IsText words
    → IsText f
    → IsTextPtr inn
    → 0 < strlen (scommand_text words (some f) inn)
strlen-scommand_text words f inn hw hf hi =
    rw (strlen-length _ (scommand_text-IsText words (some f) inn hw hf hi)) (
      unfold scommand_text in
      omega (
        arith,
        length-append (join (codes " ") words ++ (codes " > " ++ f)) (redir_text (codes " < ") inn),
        length-append (join (codes " ") words) (codes " > " ++ f),
      ))

-- The closing `assert` of `scommand_to_string`.
closing_assert :
    (empty : Bool) (words : List Text) (out inn : Option Text)
    → All IsText words
    → IsTextPtr out
    → IsTextPtr inn
    → (empty
        || not (is_some inn)
        || not (is_some out)
        || ltb 0 (strlen (scommand_text words out inn)))
      ≡ true
closing_assert empty words none inn hw ho hi = ground arith
closing_assert empty words (some f) inn hw ho hi =
    ground (arith, strlen-scommand_text words f inn hw ho hi)

-- `scommand_to_string` fails no `assert`, stays within every buffer, and gives the words with one
-- blank between them, then the output and the input redirection that are there; the words and names
-- are C strings.
pub scommand_to_string_lem :
    {g : GQueue} (l : IsGQueue g) (c : Scommand g)
    → All IsText (g.view c.words)
    → IsTextPtr c.redir_out
    → IsTextPtr c.redir_in
    → result (scommand_to_string g c) ≡ some (scommand_text (g.view c.words) c.redir_out c.redir_in)
unfolding scommand_to_string scommand_text
scommand_to_string_lem {g} l c hw ho hi =
    result->>= (scommand_length g c) _ (ap result (scommand_observers l c).1)
    ∙ result->>= (append_words g c.words (length (g.view c.words)) 0 []) _
        (append_words_lem l c.words (g.view c.words) refl hw)
    ∙ result->>= (append_redir (codes " > ") c.redir_out words) _
        (append_redir_lem (codes " > ") words c.redir_out (omega arith) words-IsText ho)
    ∙ result->>= (append_redir (codes " < ") c.redir_in with_out) _
        (append_redir_lem (codes " < ") with_out c.redir_in (omega arith) with_out-IsText hi)
    ∙ result->>= (assert _) _ (
        ap (λ b. result (assert b))
          (closing_assert (scommand_is_empty g c) (g.view c.words) c.redir_out c.redir_in hw ho hi))
  where
    words : Text
    words = join (codes " ") (g.view c.words)

    words-IsText : IsText words
    words-IsText = join-IsText (codes " ") (g.view c.words) (omega arith) hw

    with_out : Text
    with_out = words ++ redir_text (codes " > ") c.redir_out

    with_out-IsText : IsText with_out
    with_out-IsText =
        IsText-append words _ words-IsText
          (redir_text-IsText (codes " > ") c.redir_out (omega arith) ho)
