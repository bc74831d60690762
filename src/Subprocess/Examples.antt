-- ===== src/Subprocess/Examples.antt =====
-- The theorems on subprocesses at concrete inputs.
use xproc.Prelude.{
  ℕ, ◌≡◌, ◌≢◌, refl, ◌==◌, if◌then◌else◌, Option, arith, false, true, List, [], ◌∷◌, none, some,
  bytes,
}
use xproc.Subprocess.{pipe, null_dev, inherit, ProcessOptions, Process, Sys, Fds, empty_process}
use xproc.Subprocess.Child.{exits, child_side, DescriptorCalls, child_descriptors}
use xproc.Subprocess.Closed.{Closed}
use xproc.Subprocess.Streams.{child_descriptors-wanted}
use xproc.Subprocess.Laws.{
  call_poll_exit, call_wait, call_terminate, call_send_signal, acts_of, ReapLast, acts_of-ReapLast,
}

abbrev arguments : List (List ℕ)
arguments = bytes "ls" ∷ []

abbrev options : ProcessOptions
options = record { stdin_mode = null_dev; stdout_mode = pipe; stderr_mode = inherit }

abbrev sys : Sys
sys = record {
  stdin_fds = none;
  stdout_fds = some (5, 6);
  stderr_fds = none;
  null_fd = some 7;
  fork = some 42;
}

-- An object that holds a pipe and a child.
abbrev parent : Process
parent = record empty_process { pid = some 41; stdin_pipe = some 9 }

acts_of-ReapLast_example : ReapLast (
    acts_of
      (call_send_signal 15
        ∷ call_poll_exit none
        ∷ call_terminate none (some 9)
        ∷ call_wait (some 0)
        ∷ [])
      (record empty_process { pid = some 42 }))
acts_of-ReapLast_example =
    acts_of-ReapLast
      (call_send_signal 15
        ∷ call_poll_exit none
        ∷ call_terminate none (some 9)
        ∷ call_wait (some 0)
        ∷ [])
      (record empty_process { pid = some 42 })

abbrev put : ℕ → Option ℕ → (ℕ → Option ℕ) → ℕ → Option ℕ
put fd file t x = if x == fd then file else t x

put_same : (fd : ℕ) (file : Option ℕ) (t : ℕ → Option ℕ) → put fd file t fd ≡ file
put_same fd file t = ground arith

put_other : (fd x : ℕ) (file : Option ℕ) (t : ℕ → Option ℕ) → x ≢ fd → put fd file t x ≡ t x
put_other fd x file t ne = ground arith

abbrev kernel : DescriptorCalls ℕ
kernel = record {
  dup2 = λ old fd t. put fd (t old) t;
  close = λ fd t. put fd none t;
  dup2_same = λ old fd t file e. put_same fd (t old) t;
  dup2_other = λ old fd x t ne. put_other fd x (t old) t ne;
  close_same = λ fd t. put_same fd none t;
  close_other = λ fd x t ne. put_other fd x none t ne;
}

abbrev fds : Fds
fds = record {
  to_stdin = none;
  from_stdout = some (5, 6);
  from_stderr = none;
  null_dev_fd = some 7;
}

-- Every number is open, as a file of that number.
abbrev files : ℕ → Option ℕ
files fd = some fd

child_descriptors-wanted_example :
    let u = child_descriptors kernel options fds files in
    (u 0 ≡ some 7) × (u 1 ≡ some 6) × (u 2 ≡ some 2) × Closed u (6 ∷ 5 ∷ 7 ∷ [])
child_descriptors-wanted_example =
    child_descriptors-wanted kernel options fds files
      ((omega arith, (6, refl)), ((omega arith, (5, refl)), ((omega arith, (7, refl)), tt)))
      ((omega arith, (omega arith, tt)), ((omega arith, tt), (tt, tt)))

-- A child without the directory that it is to change to.
no_directory : child_side kernel arguments options (bytes "/x") [] false true fds files ≡ exits 127
unfolding child_side
no_directory = refl

-- A pipe at the number of a stdin that the parent had closed is no stdin for the child.
stdin_taken :
    child_descriptors kernel
      (record options { stdin_mode = pipe })
      (record fds { to_stdin = some (0, 3) })
      files
      0
    ≡ none
unfolding child_descriptors
stdin_taken = refl
