-- ===== src/Subprocess/Child.antt =====
-- src/platform/subprocess_posix.cpp: the child's side of the fork in `process::spawn`. A descriptor
-- table maps numbers to open files of an unknown type `File`. The code does not look at
-- what ::dup2 and ::close return.
use xproc.Prelude.{
  ℕ, ◌≡◌, ◌≢◌, Bool, true, not, List, [], ◌∷◌, ◌++◌, map, Option, none, some, if◌then◌else◌,
}
use xproc.Options.{is_empty}
use xproc.Subprocess.{StdioMode, pipe, null_dev, ProcessOptions, Fds, read_end, write_end}

-- `STDIN_FILENO`, `STDOUT_FILENO` and `STDERR_FILENO`
abbrev pub stdin_fileno : ℕ
stdin_fileno = 0

abbrev pub stdout_fileno : ℕ
stdout_fileno = 1

abbrev pub stderr_fileno : ℕ
stderr_fileno = 2

-- `key + "=" + val`
abbrev env_string : List ℕ × List ℕ → List ℕ
env_string (name, val) = name ++ b'=' ∷ val

abbrev environment : List (List ℕ × List ℕ) → Option (List (List ℕ))
environment [] = none
environment (e ∷ es) = some (map env_string (e ∷ es))

-- What the child comes to: `_exit` with a code, or the new program, with its arguments, its
-- environment if that is replaced, and its descriptors.
pub data Child (File : Type 0) : Type 0 where
  exits : ℕ → Child File
  execs : List (List ℕ) → Option (List (List ℕ)) → (ℕ → Option File) → Child File

-- The calls of the kernel that change a table, and what is documented of them: ::dup2 of an open
-- number gives its file to another number, ::close frees a number, and other numbers stay.
pub record DescriptorCalls (File : Type 0) : Type 0 where
  pub dup2 : ℕ → ℕ → (ℕ → Option File) → ℕ → Option File
  pub close : ℕ → (ℕ → Option File) → ℕ → Option File
  pub dup2_same :
      (old fd : ℕ) (t : ℕ → Option File) (file : File)
      → t old ≡ some file
      → dup2 old fd t fd ≡ t old
  pub dup2_other : (old fd x : ℕ) (t : ℕ → Option File) → x ≢ fd → dup2 old fd t x ≡ t x
  pub close_same : (fd : ℕ) (t : ℕ → Option File) → close fd t fd ≡ none
  pub close_other : (fd x : ℕ) (t : ℕ → Option File) → x ≢ fd → close fd t x ≡ t x

module _ {File : Type 0} (k : DescriptorCalls File) where
  -- One of the three streams: `kept` is the end of its pipe that the child uses, `dropped` the other.
  unfoldable pub redirect :
      StdioMode → ℕ → Option ℕ → Option ℕ → Option ℕ → (ℕ → Option File) → (ℕ → Option File)
  redirect pipe std (some kept) (some dropped) null_fd t =
      k.close kept (k.dup2 kept std (k.close dropped t))
  redirect null_dev std kept dropped (some fd) t = k.dup2 fd std t
  redirect _ std kept dropped null_fd t = t

  abbrev pub close_null : Option ℕ → (ℕ → Option File) → (ℕ → Option File)
  close_null none t = t
  close_null (some fd) t = k.close fd t

  unfoldable pub child_descriptors : ProcessOptions → Fds → (ℕ → Option File) → (ℕ → Option File)
  unfolding redirect
  child_descriptors opts f t =
      let t1 : (ℕ → Option File) =
        redirect opts.stdin_mode stdin_fileno (read_end f.to_stdin) (write_end f.to_stdin)
          f.null_dev_fd t in
      let t2 : (ℕ → Option File) =
        redirect opts.stdout_mode stdout_fileno (write_end f.from_stdout) (read_end f.from_stdout)
          f.null_dev_fd t1 in
      let t3 : (ℕ → Option File) =
        redirect opts.stderr_mode stderr_fileno (write_end f.from_stderr) (read_end f.from_stderr)
          f.null_dev_fd t2 in
      close_null f.null_dev_fd t3

  -- `chdir_ok` is whether ::chdir succeeds, `exec_ok` whether ::execvp does.
  unfoldable pub child_side :
      List (List ℕ)
      → ProcessOptions
      → List ℕ
      → List (List ℕ × List ℕ)
      → Bool
      → Bool
      → Fds
      → (ℕ → Option File)
      → Child File
  unfolding child_descriptors
  child_side argv opts cwd env chdir_ok exec_ok f t =
      let changed = if is_empty cwd then true else chdir_ok in
      if not changed
      then exits 127
      else if exec_ok
      then execs argv (environment env) (child_descriptors opts f t)
      else exits 127
