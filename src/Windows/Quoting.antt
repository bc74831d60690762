-- ===== src/Windows/Quoting.antt =====
-- An argument that spawn quotes is read back by the rules for a command line.
use xproc.Prelude.{
  ℕ, suc, ◌+◌, ◌*◌, ◌≡◌, refl, sym, ap, ◌∙◌, inl, inr, Bool, true, false, ◌&&◌, ◌||◌, List, [], ◌∷◌,
  ◌++◌, arith, replicate, Bool-cases, ==_iff, ◌==◌,
}
use mathlib.Core.List.{append_assoc, append-nil}
use xproc.Windows.CommandLine.{
  backslash, quote_mark, space, tab, needs_quotes, quote_body, quote_arg, command_line_from,
}
use xproc.Windows.Splitting.{
  finish, split, nonempty, replicate_more, regroup, split_closing, split_literal, split_other,
  quote_body_end, quote_body-backslash, quote_body_mark, quote_body_other,
}

abbrev closing : List ℕ → List ℕ → List ℕ → List (List ℕ)
closing rest arg text = split (text ++ quote_mark ∷ rest) true true 0 arg

-- Inside quotes, what the quoting wrote is read as the argument.
split-quote_body :
    (s : List ℕ) (n : ℕ) (rest arg : List ℕ)
    → closing rest arg (quote_body n s)
      ≡ split rest false true 0 (arg ++ replicate n backslash ++ s)
split-quote_body [] n rest arg =
    ap (closing rest arg) (quote_body_end n)
    ∙ split_closing n rest arg
    ∙ ap (λ a. split rest false true 0 a) (sym (append-nil (arg ++ replicate n backslash)))
split-quote_body (c ∷ s) n rest arg = elim (Bool-cases (c == backslash)) [
  | inl e ↦
      let same : c ≡ backslash = (==_iff c backslash).0 e in
      ap (closing rest arg) (quote_body-backslash n c s e)
      ∙ split-quote_body s (suc n) rest arg
      ∙ ap (λ a. split rest false true 0 a)
          (append_assoc arg (replicate (suc n) backslash) s
            ∙ ap (λ a. arg ++ a)
                (replicate_more n s ∙ ap (λ b. replicate n backslash ++ b ∷ s) (sym same))
            ∙ sym (append_assoc arg (replicate n backslash) (c ∷ s)))
  | inr e ↦ elim (Bool-cases (c == quote_mark)) [
    | inl q ↦
        let same : c ≡ quote_mark = (==_iff c quote_mark).0 q in
        ap (closing rest arg) (quote_body_mark n c s e q)
        ∙ ap (λ t. split t true true 0 arg)
            (append_assoc (replicate (n * 2 + 1) backslash) (quote_mark ∷ quote_body 0 s)
              (quote_mark ∷ rest))
        ∙ split_literal n (quote_body 0 s ++ quote_mark ∷ rest) arg
        ∙ split-quote_body s 0 rest (arg ++ replicate n backslash ++ quote_mark ∷ [])
        ∙ ap (λ a. split rest false true 0 a) (regroup arg n quote_mark s)
        ∙ ap (λ b. split rest false true 0 (arg ++ replicate n backslash ++ b ∷ s)) (sym same)
    | inr q ↦
        ap (closing rest arg) (quote_body_other n c s e q)
        ∙ ap (λ t. split t true true 0 arg)
            (append_assoc (replicate n backslash) (c ∷ quote_body 0 s) (quote_mark ∷ rest))
        ∙ split_other n c (quote_body 0 s ++ quote_mark ∷ rest) arg e q
        ∙ split-quote_body s 0 rest (arg ++ replicate n backslash ++ c ∷ [])
        ∙ ap (λ a. split rest false true 0 a) (regroup arg n c s)
  ]
]

module _ (arg : List ℕ) where
  pub quoted :
      needs_quotes arg ≡ true → quote_arg arg ≡ quote_mark ∷ (quote_body 0 arg ++ quote_mark ∷ [])
  unfolding quote_arg
  quoted e = rw (e, quote_arg)

  pub bare : needs_quotes arg ≡ false → quote_arg arg ≡ arg
  unfolding quote_arg
  bare e = rw (e, quote_arg)

quote_nothing : quote_arg [] ≡ []
unfolding quote_arg needs_quotes
quote_nothing = refl

-- Outside quotes, the text `rest` ends the argument before it, and holds the arguments `others`.
abbrev Ends : List ℕ → List (List ℕ) → Type 0
Ends rest others =
    (begun : Bool) (n : ℕ) (arg : List ℕ)
    → split rest false begun n arg ≡ finish begun (arg ++ replicate n backslash) ++ others

-- A character that asks for no quotes.
record Plain (c : ℕ) : Type 0 where
  mark : (c == quote_mark) ≡ false
  blank : ((c == space || c == tab) && true) ≡ false

needs_quotes-false :
    (c : ℕ) (s : List ℕ) → needs_quotes (c ∷ s) ≡ false → Plain c × (needs_quotes s ≡ false)
unfolding needs_quotes
needs_quotes-false c s e = (record { mark = ground arith; blank = ground arith }, ground arith)

split-Plain :
    (n c : ℕ) (s arg : List ℕ) (begun : Bool)
    → Plain c
    → (c == backslash) ≡ false
    → split (c ∷ s) false begun n arg
      ≡ split s false true 0 (arg ++ replicate n backslash ++ c ∷ [])
unfolding split
split-Plain n c s arg begun p e = rw (e, p.mark, p.blank, split)

split-backslash :
    (n c : ℕ) (s arg : List ℕ) (begun : Bool)
    → (c == backslash) ≡ true
    → split (c ∷ s) false begun n arg ≡ split s false true (suc n) arg
unfolding split
split-backslash n c s arg begun e = rw (e, split)

module _ (rest : List ℕ) (others : List (List ℕ)) (ends : Ends rest others) where
  split_unquoted :
      (s : List ℕ) (n : ℕ) (arg : List ℕ)
      → needs_quotes s ≡ false
      → split (s ++ rest) false true n arg ≡ (arg ++ replicate n backslash ++ s) ∷ others
  split_unquoted [] n arg h =
      ends true n arg ∙ ap (λ a. a ∷ others) (sym (append-nil (arg ++ replicate n backslash)))
  split_unquoted (c ∷ s) n arg h =
      let (plain, h') = needs_quotes-false c s h in
      elim (Bool-cases (c == backslash)) [
        | inl e ↦
            let same : c ≡ backslash = (==_iff c backslash).0 e in
            split-backslash n c (s ++ rest) arg true e
            ∙ split_unquoted s (suc n) arg h'
            ∙ ap (λ a. a ∷ others)
                (append_assoc arg (replicate (suc n) backslash) s
                  ∙ ap (λ a. arg ++ a)
                      (replicate_more n s ∙ ap (λ b. replicate n backslash ++ b ∷ s) (sym same))
                  ∙ sym (append_assoc arg (replicate n backslash) (c ∷ s)))
        | inr e ↦
            split-Plain n c (s ++ rest) arg true plain e
            ∙ split_unquoted s 0 (arg ++ replicate n backslash ++ c ∷ []) h'
            ∙ ap (λ a. a ∷ others) (regroup arg n c s)
      ]

  -- The first character begins an argument.
  split_begun :
      (c : ℕ) (s : List ℕ)
      → Plain c
      → split (c ∷ s) false false 0 [] ≡ split (c ∷ s) false true 0 []
  split_begun c s p = elim (Bool-cases (c == backslash)) [
    | inl e ↦ split-backslash 0 c s [] false e ∙ sym (split-backslash 0 c s [] true e)
    | inr e ↦ split-Plain 0 c s [] false p e ∙ sym (split-Plain 0 c s [] true p e)
  ]

  split_opening : (s : List ℕ) → split (quote_mark ∷ s) false false 0 [] ≡ split s true true 0 []
  unfolding split
  split_opening s = refl

  split-quote_arg :
      (arg : List ℕ)
      → split (quote_arg arg ++ rest) false false 0 [] ≡ nonempty (arg ∷ []) ++ others
  unfolding nonempty
  split-quote_arg [] = ap (λ t. split (t ++ rest) false false 0 []) quote_nothing ∙ ends false 0 []
  split-quote_arg (c ∷ s) = elim (Bool-cases (needs_quotes (c ∷ s))) [
    | inl e ↦
        ap (λ t. split (t ++ rest) false false 0 []) (quoted (c ∷ s) e)
        ∙ split_opening ((quote_body 0 (c ∷ s) ++ quote_mark ∷ []) ++ rest)
        ∙ ap (λ t. split t true true 0 [])
            (append_assoc (quote_body 0 (c ∷ s)) (quote_mark ∷ []) rest)
        ∙ split-quote_body (c ∷ s) 0 rest []
        ∙ ends true 0 (c ∷ s)
        ∙ ap (λ a. a ∷ others) (append-nil (c ∷ s))
    | inr e ↦
        ap (λ t. split (t ++ rest) false false 0 []) (bare (c ∷ s) e)
        ∙ split_begun c (s ++ rest) (needs_quotes-false c s e).0
        ∙ split_unquoted (c ∷ s) 0 [] e
  ]

nonempty_cons :
    (arg : List ℕ) (argv : List (List ℕ))
    → nonempty (arg ∷ []) ++ nonempty argv ≡ nonempty (arg ∷ argv)
unfolding nonempty
nonempty_cons [] argv = refl
nonempty_cons (c ∷ s) argv = refl

pub split-space :
    (s : List ℕ) (begun : Bool) (n : ℕ) (arg : List ℕ)
    → split (space ∷ s) false begun n arg
      ≡ finish begun (arg ++ replicate n backslash) ++ split s false false 0 []
unfolding split
split-space s begun n arg = refl

split_end :
    (begun : Bool) (n : ℕ) (arg : List ℕ)
    → split [] false begun n arg ≡ finish begun (arg ++ replicate n backslash)
unfolding split
split_end begun n arg = refl

-- The arguments from the second on.
pub command_line-Ends :
    (argv : List (List ℕ)) (i : ℕ) → Ends (command_line_from (suc i) argv) (nonempty argv)
unfolding command_line_from nonempty
command_line-Ends [] i begun n arg =
    split_end begun n arg ∙ sym (append-nil (finish begun (arg ++ replicate n backslash)))
command_line-Ends (a ∷ argv) i begun n arg =
    let first : (suc i == 0) ≡ false = ground arith in
    rw first (
      split-space (quote_arg a ++ command_line_from (suc (suc i)) argv) begun n arg
      ∙ ap (λ l. finish begun (arg ++ replicate n backslash) ++ l)
          (split-quote_arg (command_line_from (suc (suc i)) argv) (nonempty argv)
              (command_line-Ends argv (suc i)) a
            ∙ nonempty_cons a argv))
