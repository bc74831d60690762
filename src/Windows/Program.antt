-- ===== src/Windows/Program.antt =====
-- A command line that spawn builds is read back by the documented rules.
use xproc.Prelude.{
  ℕ, suc, ◌≡◌, refl, sym, ap, ◌∙◌, inl, inr, Bool, true, false, not, ◌&&◌, ◌||◌, List, [], ◌∷◌,
  ◌++◌, arith, replicate, Bool-cases, ==_iff, ◌==◌,
}
use mathlib.Core.List.{append_assoc, append-nil}
use xproc.Windows.CommandLine.{
  backslash, quote_mark, space, tab, needs_quotes, quote_body, quote_arg, command_line_from,
  command_line,
}
use xproc.Windows.Splitting.{
  split_program, arguments, nonempty, replicate_more, quote_body_end, quote_body-backslash,
  quote_body_other,
}
use xproc.Windows.Quoting.{quoted, bare, split-space, command_line-Ends}

abbrev pub has_mark : List ℕ → Bool
has_mark [] = false
has_mark (c ∷ s) = c == quote_mark || has_mark s

abbrev pub ends_backslash : List ℕ → Bool
ends_backslash [] = false
ends_backslash (c ∷ []) = c == backslash
ends_backslash (c ∷ (d ∷ s)) = ends_backslash (d ∷ s)

-- What the quoting leaves as it is.
quote_body-plain :
    (n c : ℕ) (s : List ℕ)
    → has_mark (c ∷ s) ≡ false
    → ends_backslash (c ∷ s) ≡ false
    → quote_body n (c ∷ s) ≡ replicate n backslash ++ c ∷ s
quote_body-plain n c [] m e =
    quote_body_other n c [] e (ground arith)
    ∙ ap (λ t. replicate n backslash ++ c ∷ t) (quote_body_end 0)
quote_body-plain n c (d ∷ s) m e = elim (Bool-cases (c == backslash)) [
  | inl b ↦
      let same : c ≡ backslash = (==_iff c backslash).0 b in
      quote_body-backslash n c (d ∷ s) b
      ∙ quote_body-plain (suc n) d s (ground arith) e
      ∙ replicate_more n (d ∷ s)
      ∙ ap (λ x. replicate n backslash ++ x ∷ (d ∷ s)) (sym same)
  | inr b ↦
      quote_body_other n c (d ∷ s) b (ground arith)
      ∙ ap (λ t. replicate n backslash ++ c ∷ t) (quote_body-plain 0 d s (ground arith) e)
]

-- Inside quotes and, where no quotes are asked for, outside them, characters stand for themselves.
program_quoted :
    (s rest arg : List ℕ)
    → has_mark s ≡ false
    → split_program (s ++ quote_mark ∷ rest) true arg ≡ split_program rest false (arg ++ s)
unfolding split_program
program_quoted [] rest arg m = ap (λ a. split_program rest false a) (sym (append-nil arg))
program_quoted (c ∷ s) rest arg m =
    let mark : (c == quote_mark) ≡ false = ground arith in
    let inside : ((c == space || c == tab) && not true) ≡ false =
      elim (Bool-cases (c == space || c == tab)) [ inl e ↦ rw e | inr e ↦ rw e ] in
    rw (mark, inside, split_program)
      (program_quoted s rest (arg ++ c ∷ []) (ground arith)
        ∙ ap (λ a. split_program rest false a) (append_assoc arg (c ∷ []) s))

program_bare :
    (s rest arg : List ℕ)
    → needs_quotes s ≡ false
    → split_program (s ++ rest) false arg ≡ split_program rest false (arg ++ s)
unfolding split_program needs_quotes
program_bare [] rest arg m = ap (λ a. split_program rest false a) (sym (append-nil arg))
program_bare (c ∷ s) rest arg m =
    let mark : (c == quote_mark) ≡ false = ground arith in
    let blank : ((c == space || c == tab) && not false) ≡ false = ground arith in
    rw (mark, blank, split_program)
      (program_bare s rest (arg ++ c ∷ []) (ground arith)
        ∙ ap (λ a. split_program rest false a) (append_assoc arg (c ∷ []) s))

program_opening : (s : List ℕ) → split_program (quote_mark ∷ s) false [] ≡ split_program s true []
unfolding split_program
program_opening s = refl

program-quote_arg :
    (c : ℕ) (s rest : List ℕ)
    → has_mark (c ∷ s) ≡ false
    → ends_backslash (c ∷ s) ≡ false
    → split_program (quote_arg (c ∷ s) ++ rest) false [] ≡ split_program rest false (c ∷ s)
program-quote_arg c s rest m e = elim (Bool-cases (needs_quotes (c ∷ s))) [
  | inl q ↦
      ap (λ t. split_program (t ++ rest) false [])
        (quoted (c ∷ s) q
          ∙ ap (λ t. quote_mark ∷ (t ++ quote_mark ∷ [])) (quote_body-plain 0 c s m e))
      ∙ program_opening (((c ∷ s) ++ quote_mark ∷ []) ++ rest)
      ∙ ap (λ t. split_program t true []) (append_assoc (c ∷ s) (quote_mark ∷ []) rest)
      ∙ program_quoted (c ∷ s) rest [] m
  | inr q ↦
      ap (λ t. split_program (t ++ rest) false []) (bare (c ∷ s) q) ∙ program_bare (c ∷ s) rest [] q
]

-- What follows the program.
program_end :
    (argv : List (List ℕ)) (arg : List ℕ)
    → split_program (command_line_from 1 argv) false arg ≡ arg ∷ nonempty argv
unfolding split_program command_line_from nonempty
program_end [] arg = refl
program_end (a ∷ argv) arg =
    ap (λ l. arg ∷ l)
      (sym (split-space (quote_arg a ++ command_line_from 2 argv) false 0 [])
        ∙ command_line-Ends (a ∷ argv) 0 false 0 [])

-- A program that splits the command line by the documented rules gets its own name and the other
-- arguments of the spawn that are not empty, each of them whole and in order, whatever blanks,
-- quotation marks and backslashes they hold; an empty argument is lost. The name is not empty, has no
-- quotation mark and does not end in a backslash.
pub arguments-command_line :
    (c : ℕ) (name : List ℕ) (argv : List (List ℕ))
    → has_mark (c ∷ name) ≡ false
    → ends_backslash (c ∷ name) ≡ false
    → arguments (command_line ((c ∷ name) ∷ argv)) ≡ (c ∷ name) ∷ nonempty argv
unfolding arguments command_line command_line_from
arguments-command_line c name argv m e =
    program-quote_arg c name (command_line_from 1 argv) m e ∙ program_end argv (c ∷ name)
