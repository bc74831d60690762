-- ===== src/Subprocess/Laws.antt =====
-- No descriptor of `spawn` is lost, and no signal goes to a process that was reaped.
use xproc.Prelude.{
  ℕ, suc, ◌+◌, ◌≡◌, refl, sym, ap, subst, ◌∙◌, Bool, true, false, List, [], ◌∷◌, ◌++◌, Option, none,
  some, arith, ◌==◌, if◌then◌else◌, inl, inr, Bool-cases,
}
use xproc.Errors.{Result, ok, throw}
use xproc.Subprocess.{
  StdioMode, inherit, pipe, null_dev, ProcessOptions, Process, Sys, Spawned, Fds, no_fds, ends, one,
  read_end, write_end, after_fork, after_null, stderr_stage, stdout_stage, stdin_stage, spawn, Act,
  kill, reap, Acted, idle, poll_pid, wait_pid, kill_pid, signal_pid, poll_exit, wait, terminate,
  send_signal,
}

abbrev pub count : ℕ → List ℕ → ℕ
count d [] = 0
count d (x ∷ xs) = if d == x then suc (count d xs) else count d xs

pub count-append : (d : ℕ) (xs ys : List ℕ) → count d (xs ++ ys) ≡ count d xs + count d ys
count-append d [] ys = omega arith
count-append d (x ∷ xs) ys = ground (arith, count-append d xs ys)

-- The descriptors that a result holds.
abbrev pub held : Result Process → List ℕ
held (throw e) = []
held (ok p) = one p.stdin_pipe ++ (one p.stdout_pipe ++ one p.stderr_pipe)

module _ (d : ℕ) where
  abbrev pub Accounts : Spawned → Type 0
  Accounts s = count d s.opened ≡ count d s.closed + count d (held s.result)

  count_three :
      (xs ys zs : List ℕ) → count d (xs ++ (ys ++ zs)) ≡ count d xs + (count d ys + count d zs)
  count_three xs ys zs = omega (arith, count-append d xs (ys ++ zs), count-append d ys zs)

  count_four :
      (xs ys zs us : List ℕ)
      → count d (xs ++ (ys ++ (zs ++ us))) ≡ count d xs + (count d ys + (count d zs + count d us))
  count_four xs ys zs us = omega (arith, count-append d xs (ys ++ (zs ++ us)), count_three ys zs us)

  ends-count :
      (e : Option (ℕ × ℕ))
      → count d (ends e) ≡ count d (one (read_end e)) + count d (one (write_end e))
  ends-count none = refl
  ends-count (some (r, w)) = ground arith

  after_fork-Accounts : (f : Fds) (pid : Option ℕ) → Accounts (after_fork f pid)
  after_fork-Accounts f none = omega arith
  after_fork-Accounts f (some pid) = omega (
    arith,
    ends-count f.to_stdin,
    ends-count f.from_stdout,
    ends-count f.from_stderr,
    count_four (ends f.to_stdin) (ends f.from_stdout) (ends f.from_stderr) (one f.null_dev_fd),
    count_four (one (read_end f.to_stdin)) (one (write_end f.from_stdout))
        (one (write_end f.from_stderr)) (one f.null_dev_fd),
    count_three (one (write_end f.to_stdin)) (one (read_end f.from_stdout))
        (one (read_end f.from_stderr)),
  )

  after_null-Accounts :
      (sys : Sys) (f : Fds) (need : Bool) (answer : Option ℕ)
      → Accounts (after_null sys f need answer)
  after_null-Accounts sys f false answer = after_fork-Accounts f sys.fork
  after_null-Accounts sys f true none = omega arith
  after_null-Accounts sys f true (some fd) =
      after_fork-Accounts (record f { null_dev_fd = some fd }) sys.fork

  stderr-Accounts :
      (opts : ProcessOptions) (sys : Sys) (f : Fds) (m : StdioMode) (answer : Option (ℕ × ℕ))
      → Accounts (stderr_stage opts sys f m answer)
  stderr-Accounts opts sys f pipe none = omega arith
  stderr-Accounts opts sys f pipe (some fds) =
      after_null-Accounts sys (record f { from_stderr = some fds }) _ sys.null_fd
  stderr-Accounts opts sys f inherit answer = after_null-Accounts sys f _ sys.null_fd
  stderr-Accounts opts sys f null_dev answer = after_null-Accounts sys f _ sys.null_fd

  stdout-Accounts :
      (opts : ProcessOptions) (sys : Sys) (f : Fds) (m : StdioMode) (answer : Option (ℕ × ℕ))
      → Accounts (stdout_stage opts sys f m answer)
  stdout-Accounts opts sys f pipe none = omega arith
  stdout-Accounts opts sys f pipe (some fds) =
      stderr-Accounts opts sys (record f { from_stdout = some fds }) opts.stderr_mode sys.stderr_fds
  stdout-Accounts opts sys f inherit answer =
      stderr-Accounts opts sys f opts.stderr_mode sys.stderr_fds
  stdout-Accounts opts sys f null_dev answer =
      stderr-Accounts opts sys f opts.stderr_mode sys.stderr_fds

  stdin-Accounts :
      (opts : ProcessOptions) (sys : Sys) (m : StdioMode) (answer : Option (ℕ × ℕ))
      → Accounts (stdin_stage opts sys m answer)
  stdin-Accounts opts sys pipe none = omega arith
  stdin-Accounts opts sys pipe (some fds) =
      stdout-Accounts opts sys (record no_fds { to_stdin = some fds }) opts.stdout_mode
        sys.stdout_fds
  stdin-Accounts opts sys inherit answer =
      stdout-Accounts opts sys no_fds opts.stdout_mode sys.stdout_fds
  stdin-Accounts opts sys null_dev answer =
      stdout-Accounts opts sys no_fds opts.stdout_mode sys.stdout_fds

-- Every descriptor that spawn opens in the parent is closed by it or held by the process that it
-- returns, and not both, however often a number occurs and whatever fails; one that throws holds
-- none.
pub spawn-held :
    (argv : List (List ℕ)) (opts : ProcessOptions) (sys : Sys) (d : ℕ)
    → let s = spawn argv opts sys in count d s.opened ≡ count d s.closed + count d (held s.result)
unfolding spawn
spawn-held [] opts sys d = refl
spawn-held (program ∷ arguments) opts sys d =
    stdin-Accounts d opts sys opts.stdin_mode sys.stdin_fds

-- A call on a process object with the kernel's answers.
pub data Call : Type 0 where
  call_poll_exit : Option ℕ → Call
  call_wait : Option ℕ → Call
  call_terminate : Option ℕ → Option ℕ → Call
  call_send_signal : ℕ → Call

abbrev pub apply_call : Call → Process → Acted
apply_call (call_poll_exit answer) p = poll_exit answer p
apply_call (call_wait status) p = wait status p
apply_call (call_terminate answer status) p = terminate answer status p
apply_call (call_send_signal sig) p = send_signal sig p

unfoldable pub acts_of : List Call → Process → List Act
acts_of [] p = []
acts_of (c ∷ cs) p = let r = apply_call c p in r.acts ++ acts_of cs r.process

-- Nothing follows a reap.
abbrev pub ReapLast : List Act → Type 0
ReapLast [] = Unit
ReapLast (kill pid sig ∷ rest) = ReapLast rest
ReapLast (reap pid ∷ rest) = rest ≡ []

pub apply_call_finished : (c : Call) (p : Process) → p.finished ≡ true → apply_call c p ≡ idle p
unfolding poll_exit wait terminate send_signal
apply_call_finished (call_poll_exit answer) p f = ground arith
apply_call_finished (call_wait status) p f = ground arith
apply_call_finished (call_terminate answer status) p f = ground arith
apply_call_finished (call_send_signal sig) p f = ground arith

-- A call on an object that has not finished.
abbrev live_call : Call → Process → Acted
live_call (call_poll_exit answer) p = poll_pid p p.pid answer
live_call (call_wait status) p = wait_pid p p.pid status
live_call (call_terminate answer status) p = kill_pid p p.pid answer status
live_call (call_send_signal sig) p = signal_pid p p.pid sig

pub apply_call_live : (c : Call) (p : Process) → p.finished ≡ false → apply_call c p ≡ live_call c p
unfolding poll_exit wait terminate send_signal
apply_call_live (call_poll_exit answer) p f = ground arith
apply_call_live (call_wait status) p f = ground arith
apply_call_live (call_terminate answer status) p f = ground arith
apply_call_live (call_send_signal sig) p f = ground arith

acts_of_finished : (cs : List Call) (p : Process) → p.finished ≡ true → acts_of cs p ≡ []
unfolding acts_of
acts_of_finished [] p f = refl
acts_of_finished (c ∷ cs) p f =
    ap (λ (r : Acted). r.acts ++ acts_of cs r.process) (apply_call_finished c p f)
    ∙ acts_of_finished cs p f

-- The acts of a call and what follows them: nothing, where the call has finished the object.
module _ (p : Process) (rest : Process → List Act) (more : (q : Process) → ReapLast (rest q))
    (done : (q : Process) → q.finished ≡ true → rest q ≡ []) where
  abbrev Followed : Acted → Type 0
  Followed r = ReapLast (r.acts ++ rest r.process)

  poll-Followed : (pid answer : Option ℕ) → Followed (poll_pid p pid answer)
  poll-Followed none answer = more p
  poll-Followed (some pid) none = more p
  poll-Followed (some pid) (some status) = done _ refl

  wait-Followed : (pid status : Option ℕ) → Followed (wait_pid p pid status)
  wait-Followed none status = more p
  wait-Followed (some pid) none = subst ReapLast (sym (done (record p { finished = true }) refl)) tt
  wait-Followed (some pid) (some status) = done _ refl

  kill-Followed : (pid answer status : Option ℕ) → Followed (kill_pid p pid answer status)
  kill-Followed none answer status = more p
  kill-Followed (some pid) (some early) status = done _ refl
  kill-Followed (some pid) none none =
      subst ReapLast (sym (done (record p { finished = true }) refl)) tt
  kill-Followed (some pid) none (some status) = done _ refl

  signal-Followed : (pid : Option ℕ) (sig : ℕ) → Followed (signal_pid p pid sig)
  signal-Followed none sig = more p
  signal-Followed (some pid) sig = more p

  live_call-Followed : (c : Call) → Followed (live_call c p)
  live_call-Followed (call_poll_exit answer) = poll-Followed p.pid answer
  live_call-Followed (call_wait status) = wait-Followed p.pid status
  live_call-Followed (call_terminate answer status) = kill-Followed p.pid answer status
  live_call-Followed (call_send_signal sig) = signal-Followed p.pid sig

-- Whatever calls are made on a process object, and whatever the kernel answers, the child is reaped
-- at most once, and after that nothing is sent to its pid.
pub acts_of-ReapLast : (cs : List Call) (p : Process) → ReapLast (acts_of cs p)
unfolding acts_of
acts_of-ReapLast [] p = tt
acts_of-ReapLast (c ∷ cs) p = elim (Bool-cases p.finished) [
  | inl f ↦ subst ReapLast (sym (acts_of_finished (c ∷ cs) p f)) tt
  | inr live ↦
      subst (λ (r : Acted). ReapLast (r.acts ++ acts_of cs r.process))
        (sym (apply_call_live c p live))
        (live_call-Followed p (acts_of cs) (acts_of-ReapLast cs) (acts_of_finished cs) c)
]
