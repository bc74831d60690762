-- ===== src/Subprocess/Redirect.antt =====
-- What one of the child's redirections does to its table of descriptors.
use xproc.Prelude.{
  ℕ, ◌≤◌, ◌<◌, ◌≡◌, refl, sym, ◌∙◌, ◌≢◌, List, [], ◌∷◌, Option, none, some, All, arith,
}
use xproc.Subprocess.{StdioMode, pipe, null_dev, one}
use xproc.Subprocess.Child.{DescriptorCalls, redirect, close_null}
use xproc.Subprocess.Descriptors.{both, Apart, Distinct, Apart-∷}

module _ {File : Type 0} where
  -- A descriptor above the standard ones that is open.
  abbrev pub Usable : (ℕ → Option File) → ℕ → Type 0
  Usable t fd = (3 ≤ fd) × ((file : File) × (t fd ≡ some file))

  -- The file that a stream is to be.
  abbrev pub wanted :
      StdioMode → ℕ → Option ℕ → Option ℕ → Option ℕ → (ℕ → Option File) → Option File
  wanted pipe std (some kept) (some dropped) null_fd t = t kept
  wanted null_dev std kept dropped (some fd) t = t fd
  wanted _ std kept dropped null_fd t = t std

  pub above-≢ :
      (x : ℕ) (t : ℕ → Option File) (ys : List ℕ) → x < 3 → All (Usable t) ys → All (λ y. y ≢ x) ys
  above-≢ x t [] b p = tt
  above-≢ x t (y ∷ ys) b ((a, e), p) = (omega arith, above-≢ x t ys b p)

  -- Tables that agree on a list.
  abbrev Agree : (ℕ → Option File) → (ℕ → Option File) → List ℕ → Type 0
  Agree u t ys = All (λ y. u y ≡ t y) ys

  Usable-Agree :
      (u t : ℕ → Option File) (ys : List ℕ) → Agree u t ys → All (Usable t) ys → All (Usable u) ys
  Usable-Agree u t [] a p = tt
  Usable-Agree u t (y ∷ ys) (e, a) ((above, (file, is)), p) =
      ((above, (file, e ∙ is)), Usable-Agree u t ys a p)

  wanted-Agree :
      (mode : StdioMode) (std : ℕ) (kept dropped null_fd : Option ℕ) (u t : ℕ → Option File)
      → u std ≡ t std
      → Agree u t (both kept dropped)
      → Agree u t (one null_fd)
      → wanted mode std kept dropped null_fd u ≡ wanted mode std kept dropped null_fd t
  wanted-Agree pipe std (some kept) (some dropped) null_fd u t e (k, d) n = k
  wanted-Agree null_dev std kept dropped (some fd) u t e p (k, n) = k
  wanted-Agree _ std kept dropped null_fd u t e p n = e

module _ {File : Type 0} (k : DescriptorCalls File) where
  -- A number that is neither the stream nor an end of its pipe is as before.
  redirect-other :
      (mode : StdioMode) (std : ℕ) (kept dropped null_fd : Option ℕ) (t : ℕ → Option File) (x : ℕ)
      → x ≢ std
      → All (λ y. y ≢ x) (both kept dropped)
      → redirect k mode std kept dropped null_fd t x ≡ t x
  unfolding redirect
  redirect-other pipe std (some kept) (some dropped) null_fd t x ne (a, (b, c)) = rw (
    k.close_other kept x (k.dup2 kept std (k.close dropped t)) (λ e. a (sym e)),
    k.dup2_other kept std x (k.close dropped t) ne,
    k.close_other dropped x t (λ e. b (sym e)),
  )
  redirect-other null_dev std kept dropped (some fd) t x ne a = k.dup2_other fd std x t ne
  redirect-other _ std kept dropped null_fd t x ne a = refl

  pub redirect-wanted :
      (mode : StdioMode) (std : ℕ) (kept dropped null_fd : Option ℕ) (t : ℕ → Option File)
      → std < 3
      → All (Usable t) (both kept dropped)
      → Distinct (both kept dropped)
      → All (Usable t) (one null_fd)
      → redirect k mode std kept dropped null_fd t std ≡ wanted mode std kept dropped null_fd t
  unfolding redirect
  redirect-wanted pipe std (some kept) (some dropped) null_fd t b
        ((ka, (file, ke)), ((da, de), tail)) ((kd, more), rest) n =
      let kept_open : k.close dropped t kept ≡ t kept = k.close_other dropped kept t kd in
      k.close_other kept std (k.dup2 kept std (k.close dropped t)) (omega arith)
      ∙ k.dup2_same kept std (k.close dropped t) file (kept_open ∙ ke)
      ∙ kept_open
  redirect-wanted null_dev std kept dropped (some fd) t b us ds ((above, (file, e)), rest) =
      k.dup2_same fd std t file e
  redirect-wanted _ std kept dropped null_fd t b us ds n = refl

  redirect-Agree :
      (mode : StdioMode) (std : ℕ) (kept dropped null_fd : Option ℕ) (t : ℕ → Option File)
      (ys : List ℕ)
      → std < 3
      → Apart (both kept dropped) ys
      → All (Usable t) ys
      → Agree (redirect k mode std kept dropped null_fd t) t ys
  redirect-Agree mode std kept dropped null_fd t [] b p us = tt
  redirect-Agree mode std kept dropped null_fd t (y ∷ ys) b p ((above, is_open), us) =
      let (q, r) = Apart-∷ (both kept dropped) y ys p in
      (
        redirect-other mode std kept dropped null_fd t y (omega arith) q,
        redirect-Agree mode std kept dropped null_fd t ys b r us,
      )

  pub close_null-below :
      (x : ℕ) (null_fd : Option ℕ) (t : ℕ → Option File)
      → x < 3
      → All (Usable t) (one null_fd)
      → close_null k null_fd t x ≡ t x
  close_null-below x none t b p = refl
  close_null-below x (some fd) t b ((above, is), p) = k.close_other fd x t (omega arith)

  pub redirect-below :
      (mode : StdioMode) (std : ℕ) (kept dropped null_fd : Option ℕ) (t : ℕ → Option File) (x : ℕ)
      → x < 3
      → x ≢ std
      → All (Usable t) (both kept dropped)
      → redirect k mode std kept dropped null_fd t x ≡ t x
  redirect-below mode std kept dropped null_fd t x b ne us =
      redirect-other mode std kept dropped null_fd t x ne (above-≢ x t (both kept dropped) b us)

  -- Two redirections one after the other, of streams with descriptors of their own, leave what the
  -- second one wants as it was before the first.
  pub wanted-redirect :
      (mode : StdioMode) (std : ℕ) (kept dropped null_fd : Option ℕ) (mode2 : StdioMode) (std2 : ℕ)
      (kept2 dropped2 : Option ℕ) (t : ℕ → Option File)
      → std < 3
      → std2 < 3
      → std2 ≢ std
      → All (Usable t) (both kept dropped)
      → All (Usable t) (both kept2 dropped2)
      → All (Usable t) (one null_fd)
      → Apart (both kept dropped) (both kept2 dropped2)
      → Apart (both kept dropped) (one null_fd)
      → wanted mode2 std2 kept2 dropped2 null_fd (redirect k mode std kept dropped null_fd t)
        ≡ wanted mode2 std2 kept2 dropped2 null_fd t
  wanted-redirect mode std kept dropped null_fd mode2 std2 kept2 dropped2 t b b2 ne us us2 un a2
        an =
      wanted-Agree mode2 std2 kept2 dropped2 null_fd (redirect k mode std kept dropped null_fd t) t
        (redirect-below mode std kept dropped null_fd t std2 b2 ne us)
        (redirect-Agree mode std kept dropped null_fd t (both kept2 dropped2) b a2 us2)
        (redirect-Agree mode std kept dropped null_fd t (one null_fd) b an un)

  pub Usable-redirect :
      (mode : StdioMode) (std : ℕ) (kept dropped null_fd : Option ℕ) (t : ℕ → Option File)
      (ys : List ℕ)
      → std < 3
      → Apart (both kept dropped) ys
      → All (Usable t) ys
      → All (Usable (redirect k mode std kept dropped null_fd t)) ys
  Usable-redirect mode std kept dropped null_fd t ys b p us =
      Usable-Agree (redirect k mode std kept dropped null_fd t) t ys
        (redirect-Agree mode std kept dropped null_fd t ys b p us) us
