-- ===== src/Windows/CommandLine.antt =====
-- src/platform/subprocess_win32.cpp: how `process::spawn` joins its arguments to a command line; the
-- same code stands in examples/process.hpp. The text is that before the NUL that ends it.
use xproc.Prelude.{
  ℕ, suc, ◌+◌, ◌*◌, Bool, true, false, ◌||◌, List, [], ◌∷◌, ◌++◌, replicate, ◌==◌, if◌then◌else◌,
}

abbrev pub backslash : ℕ
backslash = b'\\'

abbrev pub quote_mark : ℕ
quote_mark = b'"'

abbrev pub space : ℕ
space = b' '

abbrev pub tab : ℕ
tab = 9

-- `arg.find_first_of(" \t\"") != npos`
unfoldable pub needs_quotes : List ℕ → Bool
needs_quotes [] = false
needs_quotes (c ∷ s) = c == space || c == tab || c == quote_mark || needs_quotes s

-- The loop over the characters with `backslashes` of them not yet written, and what follows it.
unfoldable pub quote_body : ℕ → List ℕ → List ℕ
quote_body backslashes [] = replicate (backslashes * 2) backslash
quote_body backslashes (c ∷ s) = elim (c == backslash) [
  | true ↦ quote_body (suc backslashes) s
  | false ↦ elim (c == quote_mark) [
    | true ↦ replicate (backslashes * 2 + 1) backslash ++ quote_mark ∷ quote_body 0 s
    | false ↦ replicate backslashes backslash ++ c ∷ quote_body 0 s
  ]
]

unfoldable pub quote_arg : List ℕ → List ℕ
quote_arg arg = if needs_quotes arg then quote_mark ∷ (quote_body 0 arg ++ quote_mark ∷ []) else arg

-- The loop over the arguments from the i-th on.
unfoldable pub command_line_from : ℕ → List (List ℕ) → List ℕ
command_line_from i [] = []
command_line_from i (arg ∷ argv) =
    (if i == 0 then [] else space ∷ []) ++ quote_arg arg ++ command_line_from (suc i) argv

unfoldable pub command_line : List (List ℕ) → List ℕ
command_line argv = command_line_from 0 argv
