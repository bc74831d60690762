-- ===== src/Subprocess/Handles.antt =====
-- include/xproc/platform/subprocess.hpp and src/platform/subprocess_posix.cpp: what moves and the
-- destructors of process objects do with their pipes and their child. A `pipe_handle` is its `fd_`,
-- `none` for -1.
use xproc.Prelude.{
  ℕ, Bool, true, false, not, ◌&&◌, List, [], ◌++◌, Option, none, some, if◌then◌else◌,
}
use xproc.Errors.{Result, ok, throw}
use xproc.Subprocess.{Process, Act, Acted, idle, one, empty_process, terminate}

-- The descriptors that the three handles of a process close.
abbrev pub close_pipes : Process → List ℕ
close_pipes p = one p.stdin_pipe ++ (one p.stdout_pipe ++ one p.stderr_pipe)

-- An object after `reset`, the descriptors closed, and what was done to the child.
pub record Disposed : Type 0 where
  pub process : Process
  pub closed : List ℕ
  pub acts : List Act

abbrev valid_pid : Option ℕ → Bool
valid_pid none = false
valid_pid (some pid) = true

abbrev pub valid : Process → Bool
valid p = valid_pid p.pid

abbrev pub ended : Option ℕ → Option ℕ → Process → Acted
ended answer status p = if valid p && not p.finished then terminate answer status p else idle p

-- `answer` and `status` are what ::waitpid reports to `terminate`.
unfoldable pub reset : Option ℕ → Option ℕ → Process → Disposed
reset answer status p =
    let e = ended answer status p in
    record { process = empty_process; closed = close_pipes e.process; acts = e.acts }

-- Two objects after a move from the second to the first.
pub record Moved : Type 0 where
  pub target : Process
  pub source : Process
  pub closed : List ℕ
  pub acts : List Act

-- The assignment of a `pipe_handle` closes the target's own descriptor first.
unfoldable pub move_from : Process → Process → Moved
move_from target source = record {
  target = source;
  source = empty_process;
  closed = close_pipes target;
  acts = [];
}

-- `operator=`; `same` is whether the two are one object.
unfoldable pub assign : Bool → Option ℕ → Option ℕ → Process → Process → Moved
unfolding reset move_from
assign true answer status target source = record {
  target = target;
  source = source;
  closed = [];
  acts = [];
}
assign false answer status target source =
    let r = reset answer status target in
    let m = move_from r.process source in
    record m { closed = r.closed ++ m.closed; acts = r.acts ++ m.acts }

-- The object that the caller of spawn has.
abbrev pub object : Result Process → Process
object (throw e) = empty_process
object (ok p) = p
