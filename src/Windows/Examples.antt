-- ===== src/Windows/Examples.antt =====
-- A command line with blanks, marks and backslashes, and two objects on one view.
use xproc.Prelude.{ℕ, ◌≡◌, refl, false, List, [], ◌∷◌, ◌++◌, none, bytes}
use xproc.Shm.{create, gives}
use xproc.Windows.CommandLine.{command_line, command_line_from, quote_arg, quote_body, needs_quotes}
use xproc.Windows.Splitting.{arguments, split_program, nonempty}
use xproc.Windows.Program.{arguments-command_line}
use xproc.Windows.Names.{
  mapping_name_from_path, view_registry_key, same_text, hex_digits, fnv1a64, fnv1a64_from,
  sanitized, is_alnum,
}
use xproc.Windows.Safe.{SafeName, mapping_name_from_path-SafeName}
use xproc.Windows.Views.{
  Kernel, Registry, WinOpened, empty_win_shm, open_win, detach_win, obtain_handle, map_handle,
  map_new_view, find_view, find_handle,
}
use xproc.Windows.Views.Counts.{IsCounted, Released}
use xproc.Windows.Views.Runs.{Reached, start, opening, detach_win-Released}

-- The program c:\a b\run, and its arguments: a b\, an empty one, and c"d
abbrev name : List ℕ
name = bytes ":\\a b\\run"

abbrev argv : List (List ℕ)
argv = bytes "a b\\" ∷ [] ∷ bytes "c\"d" ∷ []

command_line_text :
    command_line ((b'c' ∷ name) ∷ argv) ≡ bytes "\"c:\\a b\\run\" \"a b\\\\\"  \"c\\\"d\""
unfolding command_line command_line_from quote_arg quote_body needs_quotes
command_line_text = refl

-- The empty argument is gone.
arguments-command_line_example :
    arguments (command_line ((b'c' ∷ name) ∷ argv))
    ≡ bytes "c:\\a b\\run" ∷ bytes "a b\\" ∷ bytes "c\"d" ∷ []
unfolding nonempty
arguments-command_line_example = arguments-command_line b'c' name argv refl refl

-- A backslash at the end of the program's name is doubled, and read as two.
program_backslash : arguments (command_line (bytes "a b\\" ∷ [])) ≡ bytes "a b\\\\" ∷ []
unfolding arguments split_program command_line command_line_from quote_arg quote_body needs_quotes
program_backslash = refl

mapping_name_from_path-SafeName_example :
    SafeName (bytes "Local") (mapping_name_from_path (bytes "/a.b") (bytes "Local"))
mapping_name_from_path-SafeName_example =
    mapping_name_from_path-SafeName (bytes "/a.b") (bytes "Local")

abbrev kernel : Kernel
kernel = record {
  duplicate = gives 8;
  open_mapping = gives 8;
  create_mapping = gives 7;
  already_exists = false;
  map_view = gives 4096;
  region = gives 8192;
  section_size = none;
}

-- Every number is written as one digit.
abbrev digit : ℕ → List ℕ
digit n = b'0' ∷ []

abbrev empty_registry : Registry
empty_registry = record { views = []; canonical = [] }

abbrev first : WinOpened
first = open_win digit empty_registry kernel (bytes "/a") 80 create (bytes "Local") empty_win_shm

abbrev second : WinOpened
second = open_win digit first.registry kernel (bytes "/a") 80 create (bytes "Local") empty_win_shm

both_attached : Reached digit second.registry ([] ++ second.shm ∷ first.shm ∷ [])
unfolding open_win obtain_handle map_handle map_new_view view_registry_key find_view find_handle
    same_text mapping_name_from_path hex_digits fnv1a64 fnv1a64_from sanitized is_alnum
both_attached =
    opening
      (opening start kernel (bytes "/a") 80 create (bytes "Local") empty_win_shm refl first refl)
      kernel (bytes "/a") 80 create (bytes "Local") empty_win_shm refl second refl

detach_win-Released_example :
    IsCounted second.registry (second.shm ∷ first.shm ∷ [])
    × IsCounted (detach_win second.registry second.shm).registry (first.shm ∷ [])
    × Released second.shm (first.shm ∷ []) (detach_win second.registry second.shm)
detach_win-Released_example =
    detach_win-Released digit second.registry [] (first.shm ∷ []) second.shm both_attached
