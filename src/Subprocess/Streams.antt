-- ===== src/Subprocess/Streams.antt =====
-- What the standard streams of a child are after the code between fork and exec.
use xproc.Prelude.{ℕ, ◌≡◌, ◌∙◌, List, [], ◌∷◌, ◌++◌, Option, All, arith}
use xproc.Subprocess.{StdioMode, ProcessOptions, Fds, read_end, write_end, one}
use xproc.Subprocess.Child.{
  DescriptorCalls, redirect, close_null, child_descriptors, stdin_fileno, stdout_fileno,
  stderr_fileno,
}
use xproc.Subprocess.Descriptors.{
  both, Distinct, All-++, Distinct-++, Apart-++, child_fds, piped, piped-≢,
}
use xproc.Subprocess.Redirect.{
  Usable, wanted, above-≢, redirect-wanted, redirect-below, wanted-redirect, Usable-redirect,
  close_null-below,
}
use xproc.Subprocess.Closed.{
  Closed, redirect-piped, Closed-redirect, Closed-close_null, close_null-own,
}

module _ {File : Type 0} (k : DescriptorCalls File) where
  three_streams :
      (m0 m1 m2 : StdioMode) (k0 d0 k1 d1 k2 d2 n : Option ℕ) (t : ℕ → Option File)
      → All (Usable t) (both k0 d0 ++ (both k1 d1 ++ (both k2 d2 ++ one n)))
      → Distinct (both k0 d0 ++ (both k1 d1 ++ (both k2 d2 ++ one n)))
      → let u =
          close_null k n
            (redirect k m2 2 k2 d2 n (redirect k m1 1 k1 d1 n (redirect k m0 0 k0 d0 n t))) in
        (u 0 ≡ wanted m0 0 k0 d0 n t)
        × (u 1 ≡ wanted m1 1 k1 d1 n t)
        × (u 2 ≡ wanted m2 2 k2 d2 n t)
  three_streams m0 m1 m2 k0 d0 k1 d1 k2 d2 n t us ds =
      let a = both k0 d0 in
      let b = both k1 d1 in
      let c = both k2 d2 in
      let (ua, ur) = All-++ (Usable t) a (b ++ (c ++ one n)) us in
      let (ub, us2) = All-++ (Usable t) b (c ++ one n) ur in
      let (uc, un) = All-++ (Usable t) c (one n) us2 in
      let (da, dr, pa) = Distinct-++ a (b ++ (c ++ one n)) ds in
      let (db, ds2, pb) = Distinct-++ b (c ++ one n) dr in
      let (dc, dn, pc) = Distinct-++ c (one n) ds2 in
      let (pab, par) = Apart-++ a b (c ++ one n) pa in
      let (pac, pan) = Apart-++ a c (one n) par in
      let (pbc, pbn) = Apart-++ b c (one n) pb in
      let t1 = redirect k m0 0 k0 d0 n t in
      let t2 = redirect k m1 1 k1 d1 n t1 in
      let t3 = redirect k m2 2 k2 d2 n t2 in
      let ub1 = Usable-redirect k m0 0 k0 d0 n t b (omega arith) pab ub in
      let uc1 = Usable-redirect k m0 0 k0 d0 n t c (omega arith) pac uc in
      let un1 = Usable-redirect k m0 0 k0 d0 n t (one n) (omega arith) pan un in
      let uc2 = Usable-redirect k m1 1 k1 d1 n t1 c (omega arith) pbc uc1 in
      let un2 = Usable-redirect k m1 1 k1 d1 n t1 (one n) (omega arith) pbn un1 in
      let un3 = Usable-redirect k m2 2 k2 d2 n t2 (one n) (omega arith) pc un2 in
      (
        close_null-below k 0 n t3 (omega arith) un3
            ∙ redirect-below k m2 2 k2 d2 n t2 0 (omega arith) (omega arith) uc2
            ∙ redirect-below k m1 1 k1 d1 n t1 0 (omega arith) (omega arith) ub1
            ∙ redirect-wanted k m0 0 k0 d0 n t (omega arith) ua da un,
        close_null-below k 1 n t3 (omega arith) un3
            ∙ redirect-below k m2 2 k2 d2 n t2 1 (omega arith) (omega arith) uc2
            ∙ redirect-wanted k m1 1 k1 d1 n t1 (omega arith) ub1 db un1
            ∙ wanted-redirect k m0 0 k0 d0 n m1 1 k1 d1 t (omega arith) (omega arith) (omega arith)
                ua ub un pab pan,
        close_null-below k 2 n t3 (omega arith) un3
            ∙ redirect-wanted k m2 2 k2 d2 n t2 (omega arith) uc2 dc un2
            ∙ wanted-redirect k m1 1 k1 d1 n m2 2 k2 d2 t1 (omega arith) (omega arith) (omega arith)
                ub1 uc1 un1 pbc pbn
            ∙ wanted-redirect k m0 0 k0 d0 n m2 2 k2 d2 t (omega arith) (omega arith) (omega arith)
                ua uc un pac pan,
      )

  All-join :
      (t : ℕ → Option File) (xs ys : List ℕ) → Closed t xs → Closed t ys → Closed t (xs ++ ys)
  All-join t [] ys p q = q
  All-join t (x ∷ xs) ys (p, ps) q = (p, All-join t xs ys ps q)

  pipes-Closed :
      (m0 m1 m2 : StdioMode) (k0 d0 k1 d1 k2 d2 n : Option ℕ) (t : ℕ → Option File)
      → All (Usable t) (both k0 d0 ++ (both k1 d1 ++ (both k2 d2 ++ one n)))
      → Distinct (both k0 d0 ++ (both k1 d1 ++ (both k2 d2 ++ one n)))
      → Closed
          (close_null k n
            (redirect k m2 2 k2 d2 n (redirect k m1 1 k1 d1 n (redirect k m0 0 k0 d0 n t))))
          (piped m0 k0 d0 ++ (piped m1 k1 d1 ++ (piped m2 k2 d2 ++ one n)))
  pipes-Closed m0 m1 m2 k0 d0 k1 d1 k2 d2 n t us ds =
      let a = both k0 d0 in
      let b = both k1 d1 in
      let c = both k2 d2 in
      let (ua, ur) = All-++ (Usable t) a (b ++ (c ++ one n)) us in
      let (ub, us2) = All-++ (Usable t) b (c ++ one n) ur in
      let (uc, un) = All-++ (Usable t) c (one n) us2 in
      let (da, dr, pa) = Distinct-++ a (b ++ (c ++ one n)) ds in
      let (db, ds2, pb) = Distinct-++ b (c ++ one n) dr in
      let (pab, par) = Apart-++ a b (c ++ one n) pa in
      let (pac, pan) = Apart-++ a c (one n) par in
      let (pbc, pbn) = Apart-++ b c (one n) pb in
      let t1 = redirect k m0 0 k0 d0 n t in
      let t2 = redirect k m1 1 k1 d1 n t1 in
      let t3 = redirect k m2 2 k2 d2 n t2 in
      let ub1 = Usable-redirect k m0 0 k0 d0 n t b (omega arith) pab ub in
      let uc1 = Usable-redirect k m0 0 k0 d0 n t c (omega arith) pac uc in
      let uc2 = Usable-redirect k m1 1 k1 d1 n t1 c (omega arith) pbc uc1 in
      let not1 = piped-≢ m0 k0 d0 1 (above-≢ 1 t a (omega arith) ua) in
      let not2 = piped-≢ m0 k0 d0 2 (above-≢ 2 t a (omega arith) ua) in
      let not2b = piped-≢ m1 k1 d1 2 (above-≢ 2 t b (omega arith) ub) in
      let c0 = Closed-redirect k m2 2 k2 d2 n t2 (piped m0 k0 d0) not2 (
        Closed-redirect k m1 1 k1 d1 n t1 (piped m0 k0 d0) not1
          (redirect-piped k m0 0 k0 d0 n t (omega arith) ua)) in
      let c1 =
        Closed-redirect k m2 2 k2 d2 n t2 (piped m1 k1 d1) not2b
          (redirect-piped k m1 1 k1 d1 n t1 (omega arith) ub1) in
      let c2 = redirect-piped k m2 2 k2 d2 n t2 (omega arith) uc2 in
      let u = close_null k n t3 in
      All-join u (piped m0 k0 d0) (piped m1 k1 d1 ++ (piped m2 k2 d2 ++ one n))
        (Closed-close_null k n t3 (piped m0 k0 d0) c0)
        (All-join u (piped m1 k1 d1) (piped m2 k2 d2 ++ one n)
          (Closed-close_null k n t3 (piped m1 k1 d1) c1)
          (All-join u (piped m2 k2 d2) (one n) (Closed-close_null k n t3 (piped m2 k2 d2) c2)
            (close_null-own k n t3)))

  -- When the descriptors that spawn opened for the child are open, different and above the standard
  -- ones, then before exec each of the child's three streams is the end of its pipe that the child
  -- uses, the null device or the parent's stream, as its mode says, and both ends of every such pipe
  -- and the null device are closed.
  pub child_descriptors-wanted :
      (opts : ProcessOptions) (f : Fds) (t : ℕ → Option File)
      → All (Usable t) (child_fds f)
      → Distinct (child_fds f)
      → let u = child_descriptors k opts f t in
        (u stdin_fileno
          ≡ wanted opts.stdin_mode stdin_fileno
              (read_end f.to_stdin)
              (write_end f.to_stdin)
              f.null_dev_fd
              t)
        × (u stdout_fileno
            ≡ wanted opts.stdout_mode stdout_fileno
                (write_end f.from_stdout)
                (read_end f.from_stdout)
                f.null_dev_fd
                t)
        × (u stderr_fileno
            ≡ wanted opts.stderr_mode stderr_fileno
                (write_end f.from_stderr)
                (read_end f.from_stderr)
                f.null_dev_fd
                t)
        × Closed u (
            piped opts.stdin_mode (read_end f.to_stdin) (write_end f.to_stdin)
            ++ (piped opts.stdout_mode (write_end f.from_stdout) (read_end f.from_stdout)
                ++ (piped opts.stderr_mode (write_end f.from_stderr) (read_end f.from_stderr)
                    ++ one f.null_dev_fd)))
  unfolding child_descriptors
  child_descriptors-wanted opts f t us ds =
      let (at0, at1, at2) =
        three_streams opts.stdin_mode opts.stdout_mode opts.stderr_mode (read_end f.to_stdin)
          (write_end f.to_stdin) (write_end f.from_stdout) (read_end f.from_stdout)
          (write_end f.from_stderr) (read_end f.from_stderr) f.null_dev_fd t us ds in
      (
        at0,
        at1,
        at2,
        pipes-Closed opts.stdin_mode opts.stdout_mode opts.stderr_mode (read_end f.to_stdin)
            (write_end f.to_stdin) (write_end f.from_stdout) (read_end f.from_stdout)
            (write_end f.from_stderr) (read_end f.from_stderr) f.null_dev_fd t us ds,
      )
