-- ===== src/Subprocess.antt =====
-- include/xproc/platform/subprocess.hpp and src/platform/subprocess_posix.cpp: the descriptors of
-- `spawn` in the parent, and the life of a process object. The kernel's answers are arguments; what
-- a call closes, waits for and signals is a result. Child models the child's side of the fork,
-- Handles the moves and the destructor.
pub mod Laws
pub mod Handles
pub mod Child
pub mod Descriptors
pub mod Redirect
pub mod Closed
pub mod Streams
mod Examples
use xproc.Prelude.{
  ℕ, zero, suc, Bool, true, false, not, ◌||◌, List, [], ◌∷◌, ◌++◌, Option, none, some, length,
  if◌then◌else◌, ◌==◌,
}
use xproc.Errors.{
  Message, Exception, Result, ok, throw, invalid_argument, runtime_error, argv_empty, pipe_failed,
  null_device_failed, fork_failed,
}

pub data StdioMode : Type 0 where
  inherit pipe null_dev : StdioMode

pub record ProcessOptions : Type 0 where
  pub stdin_mode : StdioMode
  pub stdout_mode : StdioMode
  pub stderr_mode : StdioMode

-- `none` stands for the descriptor -1, and for a pid that is not positive.
pub record Process : Type 0 where
  pub pid : Option ℕ
  pub finished : Bool
  pub raw_status : ℕ
  pub stdin_pipe : Option ℕ
  pub stdout_pipe : Option ℕ
  pub stderr_pipe : Option ℕ

abbrev pub empty_process : Process
empty_process = record {
  pid = none;
  finished = false;
  raw_status = 0;
  stdin_pipe = none;
  stdout_pipe = none;
  stderr_pipe = none;
}

-- The answers to the three calls of ::pipe (the read end and the write end), to ::open of /dev/null
-- and to ::fork in the parent.
pub record Sys : Type 0 where
  pub stdin_fds : Option (ℕ × ℕ)
  pub stdout_fds : Option (ℕ × ℕ)
  pub stderr_fds : Option (ℕ × ℕ)
  pub null_fd : Option ℕ
  pub fork : Option ℕ

-- What spawn throws or returns, and the descriptors that it opened and closed.
pub record Spawned : Type 0 where
  pub result : Result Process
  pub opened : List ℕ
  pub closed : List ℕ

abbrev pub ends : Option (ℕ × ℕ) → List ℕ
ends none = []
ends (some (r, w)) = r ∷ w ∷ []

abbrev pub one : Option ℕ → List ℕ
one none = []
one (some fd) = fd ∷ []

abbrev pub read_end : Option (ℕ × ℕ) → Option ℕ
read_end none = none
read_end (some (r, w)) = some r

abbrev pub write_end : Option (ℕ × ℕ) → Option ℕ
write_end none = none
write_end (some (r, w)) = some w

-- The three pipes and the null device, as far as they were opened.
pub record Fds : Type 0 where
  pub to_stdin : Option (ℕ × ℕ)
  pub from_stdout : Option (ℕ × ℕ)
  pub from_stderr : Option (ℕ × ℕ)
  pub null_dev_fd : Option ℕ

abbrev pub all_fds : Fds → List ℕ
all_fds f = ends f.to_stdin ++ (ends f.from_stdout ++ (ends f.from_stderr ++ one f.null_dev_fd))

-- `cleanup_pipes(); throw std::runtime_error(...)`
abbrev pub cleanup_and_throw : Message → Fds → Spawned
cleanup_and_throw m f = record {
  result = throw (runtime_error m);
  opened = all_fds f;
  closed = all_fds f;
}

abbrev pub is_null : StdioMode → Bool
is_null null_dev = true
is_null _ = false

abbrev pub parent_side : Fds → ℕ → Spawned
parent_side f pid = record {
  result = ok (record empty_process {
    pid = some pid;
    stdin_pipe = write_end f.to_stdin;
    stdout_pipe = read_end f.from_stdout;
    stderr_pipe = read_end f.from_stderr;
  });
  opened = all_fds f;
  closed =
      one (read_end f.to_stdin)
      ++ (one (write_end f.from_stdout) ++ (one (write_end f.from_stderr) ++ one f.null_dev_fd));
}

abbrev pub after_fork : Fds → Option ℕ → Spawned
after_fork f none = cleanup_and_throw fork_failed f
after_fork f (some pid) = parent_side f pid

abbrev pub after_null : Sys → Fds → Bool → Option ℕ → Spawned
after_null sys f false answer = after_fork f sys.fork
after_null sys f true none = cleanup_and_throw null_device_failed f
after_null sys f true (some fd) = after_fork (record f { null_dev_fd = some fd }) sys.fork

abbrev pub null_stage : ProcessOptions → Sys → Fds → Spawned
null_stage opts sys f =
    after_null sys f
      (is_null opts.stdin_mode || is_null opts.stdout_mode || is_null opts.stderr_mode) sys.null_fd

abbrev pub stderr_stage : ProcessOptions → Sys → Fds → StdioMode → Option (ℕ × ℕ) → Spawned
stderr_stage opts sys f pipe none = cleanup_and_throw pipe_failed f
stderr_stage opts sys f pipe (some fds) = null_stage opts sys (record f { from_stderr = some fds })
stderr_stage opts sys f _ answer = null_stage opts sys f

abbrev pub stdout_stage : ProcessOptions → Sys → Fds → StdioMode → Option (ℕ × ℕ) → Spawned
stdout_stage opts sys f pipe none = cleanup_and_throw pipe_failed f
stdout_stage opts sys f pipe (some fds) =
    stderr_stage opts sys (record f { from_stdout = some fds }) opts.stderr_mode sys.stderr_fds
stdout_stage opts sys f _ answer = stderr_stage opts sys f opts.stderr_mode sys.stderr_fds

abbrev pub no_fds : Fds
no_fds = record { to_stdin = none; from_stdout = none; from_stderr = none; null_dev_fd = none }

abbrev pub stdin_stage : ProcessOptions → Sys → StdioMode → Option (ℕ × ℕ) → Spawned
stdin_stage opts sys pipe none = cleanup_and_throw pipe_failed no_fds
stdin_stage opts sys pipe (some fds) =
    stdout_stage opts sys (record no_fds { to_stdin = some fds }) opts.stdout_mode sys.stdout_fds
stdin_stage opts sys _ answer = stdout_stage opts sys no_fds opts.stdout_mode sys.stdout_fds

unfoldable pub spawn : List (List ℕ) → ProcessOptions → Sys → Spawned
spawn [] opts sys = record {
  result = throw (invalid_argument argv_empty);
  opened = [];
  closed = [];
}
spawn (program ∷ arguments) opts sys = stdin_stage opts sys opts.stdin_mode sys.stdin_fds

-- What a call does to the child: a ::kill, or a ::waitpid that reaps it.
pub data Act : Type 0 where
  kill : ℕ → ℕ → Act
  reap : ℕ → Act

abbrev pub sigkill : ℕ
sigkill = 9

-- The object after a call, and what the call did, in order.
pub record Acted : Type 0 where
  pub process : Process
  pub acts : List Act

abbrev pub idle : Process → Acted
idle p = record { process = p; acts = [] }

abbrev pub reaped : Process → ℕ → ℕ → Acted
reaped p pid status = record {
  process = record p { finished = true; raw_status = status };
  acts = reap pid ∷ [];
}

-- ::waitpid with WNOHANG: the status if the child has ended.
abbrev pub poll_pid : Process → Option ℕ → Option ℕ → Acted
poll_pid p none answer = idle p
poll_pid p (some pid) none = idle p
poll_pid p (some pid) (some status) = reaped p pid status

unfoldable pub poll_exit : Option ℕ → Process → Acted
poll_exit answer p = if p.finished then idle p else poll_pid p p.pid answer

-- After a blocking ::waitpid, whose outcome the code does not look at: with a status the child is
-- reaped; where the call failed, it is not, but the object is finished all the same.
abbrev pub waited : Process → ℕ → Option ℕ → Acted
waited p pid none = idle (record p { finished = true })
waited p pid (some status) = reaped p pid status

abbrev pub wait_pid : Process → Option ℕ → Option ℕ → Acted
wait_pid p none status = idle p
wait_pid p (some pid) status = waited p pid status

-- `status` is what the blocking ::waitpid reports, if it does not fail.
unfoldable pub wait : Option ℕ → Process → Acted
wait status p = if p.finished then idle p else wait_pid p p.pid status

-- After poll_exit: SIGKILL and the blocking ::waitpid.
abbrev pub kill_pid : Process → Option ℕ → Option ℕ → Option ℕ → Acted
kill_pid p none answer status = idle p
kill_pid p (some pid) (some early) status = reaped p pid early
kill_pid p (some pid) none status =
    let r = waited p pid status in record { process = r.process; acts = kill pid sigkill ∷ r.acts }

unfoldable pub terminate : Option ℕ → Option ℕ → Process → Acted
terminate answer status p = if p.finished then idle p else kill_pid p p.pid answer status

abbrev pub signal_pid : Process → Option ℕ → ℕ → Acted
signal_pid p none sig = idle p
signal_pid p (some pid) sig = record { process = p; acts = kill pid sig ∷ [] }

unfoldable pub send_signal : ℕ → Process → Acted
send_signal sig p = if p.finished then idle p else signal_pid p p.pid sig
