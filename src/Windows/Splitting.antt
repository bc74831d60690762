-- ===== src/Windows/Splitting.antt =====
-- The command line of `process::spawn` against the documented rules by which a Windows program splits
-- its command line: blanks outside quotes end an argument; 2n backslashes before a quotation mark
-- stand for n of them, and the mark opens or closes a quoted part; 2n + 1 stand for n and the mark
-- itself; other backslashes stand for themselves. The first argument has rules of its own.
use xproc.Prelude.{
  ℕ, zero, suc, ◌+◌, ◌*◌, ◌/◌, ◌%◌, ◌≡◌, refl, ap, ◌∙◌, inl, inr, Bool, true, false, not, ◌&&◌,
  ◌||◌, List, [], ◌∷◌, ◌++◌, arith, replicate, Bool-cases, ◌==◌,
}
use mathlib.Core.List.{append_assoc, append-nil}
use xproc.Windows.CommandLine.{backslash, quote_mark, space, tab, quote_body}

-- An argument that has begun is one, even if it is empty.
abbrev pub finish : Bool → List ℕ → List (List ℕ)
finish true arg = arg ∷ []
finish false arg = []

-- A quotation mark behind `n` backslashes.
abbrev is_even : ℕ → Bool
is_even n = n % 2 == 0

-- The arguments in a text, read with `quoted` inside quotes, `begun` inside an argument, `n`
-- backslashes just read, and `arg` read before them.
unfoldable pub split : List ℕ → Bool → Bool → ℕ → List ℕ → List (List ℕ)
split [] quoted begun n arg = finish begun (arg ++ replicate n backslash)
split (c ∷ s) quoted begun n arg = elim (c == backslash) [
  | true ↦ split s quoted true (suc n) arg
  | false ↦ elim (c == quote_mark) [
    | true ↦ elim (is_even n) [
      | true ↦ split s (not quoted) true 0 (arg ++ replicate (n / 2) backslash)
      | false ↦ split s quoted true 0 (arg ++ replicate (n / 2) backslash ++ quote_mark ∷ [])
    ]
    | false ↦ elim ((c == space || c == tab) && not quoted) [
      | true ↦ finish begun (arg ++ replicate n backslash) ++ split s false false 0 []
      | false ↦ split s quoted true 0 (arg ++ replicate n backslash ++ c ∷ [])
    ]
  ]
]

-- The first argument, the program: a quotation mark begins and ends a quoted part, backslashes stand
-- for themselves, and a blank outside quotes ends it, also at the very start.
unfoldable pub split_program : List ℕ → Bool → List ℕ → List (List ℕ)
unfolding split
split_program [] quoted arg = arg ∷ []
split_program (c ∷ s) quoted arg = elim (c == quote_mark) [
  | true ↦ split_program s (not quoted) arg
  | false ↦ elim ((c == space || c == tab) && not quoted) [
    | true ↦ arg ∷ split s false false 0 []
    | false ↦ split_program s quoted (arg ++ c ∷ [])
  ]
]

unfoldable pub arguments : List ℕ → List (List ℕ)
unfolding split_program
arguments text = split_program text false []

-- The arguments that are not empty.
unfoldable pub nonempty : List (List ℕ) → List (List ℕ)
nonempty [] = []
nonempty ([] ∷ args) = nonempty args
nonempty ((c ∷ s) ∷ args) = (c ∷ s) ∷ nonempty args

pub replicate_more :
    (n : ℕ) (s : List ℕ) → replicate (suc n) backslash ++ s ≡ replicate n backslash ++ backslash ∷ s
replicate_more zero s = refl
replicate_more (suc n) s = ap (◌∷◌ backslash) (replicate_more n s)

pub regroup :
    (arg : List ℕ) (n c : ℕ) (s : List ℕ)
    → (arg ++ replicate n backslash ++ c ∷ []) ++ [] ++ s ≡ arg ++ replicate n backslash ++ c ∷ s
regroup arg n c s =
    ap (λ a. a ++ s) (append-nil (arg ++ replicate n backslash ++ c ∷ []))
    ∙ append_assoc (arg ++ replicate n backslash) (c ∷ []) s

-- Backslashes are counted.
split-replicate :
    (k n m : ℕ) (rest : List ℕ) (quoted : Bool) (arg : List ℕ)
    → k + n ≡ m
    → split (replicate k backslash ++ rest) quoted true n arg ≡ split rest quoted true m arg
unfolding split
split-replicate zero n m rest quoted arg e =
    let same : n ≡ m = omega arith in ap (λ i. split rest quoted true i arg) same
split-replicate (suc k) n m rest quoted arg e =
    split-replicate k (suc n) m rest quoted arg (omega arith)

-- A quotation mark behind the backslashes that the quoting wrote, and another character.
pub split_closing :
    (n : ℕ) (rest arg : List ℕ)
    → split (replicate (n * 2) backslash ++ quote_mark ∷ rest) true true 0 arg
      ≡ split rest false true 0 (arg ++ replicate n backslash)
unfolding split
split_closing n rest arg =
    let even : is_even (n * 2) ≡ true = ground arith in
    let half : n * 2 / 2 ≡ n = omega arith in
    split-replicate (n * 2) 0 (n * 2) (quote_mark ∷ rest) true arg (omega arith)
    ∙ rw (even, half, split)

pub split_literal :
    (n : ℕ) (rest arg : List ℕ)
    → split (replicate (n * 2 + 1) backslash ++ quote_mark ∷ rest) true true 0 arg
      ≡ split rest true true 0 (arg ++ replicate n backslash ++ quote_mark ∷ [])
unfolding split
split_literal n rest arg =
    let odd : is_even (n * 2 + 1) ≡ false = ground arith in
    let half : (n * 2 + 1) / 2 ≡ n = omega arith in
    split-replicate (n * 2 + 1) 0 (n * 2 + 1) (quote_mark ∷ rest) true arg (omega arith)
    ∙ rw (odd, half, split)

pub split_other :
    (n c : ℕ) (rest arg : List ℕ)
    → (c == backslash) ≡ false
    → (c == quote_mark) ≡ false
    → split (replicate n backslash ++ c ∷ rest) true true 0 arg
      ≡ split rest true true 0 (arg ++ replicate n backslash ++ c ∷ [])
unfolding split
split_other n c rest arg p q =
    let inside : ((c == space || c == tab) && not true) ≡ false =
      elim (Bool-cases (c == space || c == tab)) [ inl e ↦ rw e | inr e ↦ rw e ] in
    split-replicate n 0 n (c ∷ rest) true arg (omega arith) ∙ rw (p, q, inside, split)

pub quote_body_end : (n : ℕ) → quote_body n [] ≡ replicate (n * 2) backslash
unfolding quote_body
quote_body_end n = refl

-- One character of the quoting.
module _ (n c : ℕ) (s : List ℕ) where
  pub quote_body-backslash : (c == backslash) ≡ true → quote_body n (c ∷ s) ≡ quote_body (suc n) s
  unfolding quote_body
  quote_body-backslash e = rw (e, quote_body)

  pub quote_body_mark :
      (c == backslash) ≡ false
      → (c == quote_mark) ≡ true
      → quote_body n (c ∷ s) ≡ replicate (n * 2 + 1) backslash ++ quote_mark ∷ quote_body 0 s
  unfolding quote_body
  quote_body_mark e q = rw (e, q, quote_body)

  pub quote_body_other :
      (c == backslash) ≡ false
      → (c == quote_mark) ≡ false
      → quote_body n (c ∷ s) ≡ replicate n backslash ++ c ∷ quote_body 0 s
  unfolding quote_body
  quote_body_other e q = rw (e, q, quote_body)

-- The text, put before a closing mark and what follows it, inside quotes.
