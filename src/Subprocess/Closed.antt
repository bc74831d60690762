-- ===== src/Subprocess/Closed.antt =====
-- The descriptors that the child closes before exec.
use xproc.Prelude.{
  ℕ, ◌<◌, ◌≡◌, ◌∙◌, ◌≢◌, inl, inr, Bool-cases, List, [], ◌∷◌, Option, none, some, All, arith, ◌==◌,
}
use xproc.Subprocess.{StdioMode, pipe, null_dev, one}
use xproc.Subprocess.Child.{DescriptorCalls, redirect, close_null}
use xproc.Subprocess.Descriptors.{both, piped}
use xproc.Subprocess.Redirect.{Usable}

module _ {File : Type 0} where
  abbrev pub Closed : (ℕ → Option File) → List ℕ → Type 0
  Closed t ys = All (λ y. t y ≡ none) ys

module _ {File : Type 0} (k : DescriptorCalls File) where
  close-closed : (fd x : ℕ) (t : ℕ → Option File) → t x ≡ none → k.close fd t x ≡ none
  close-closed fd x t e = elim (Bool-cases (x == fd)) [
    | inl same ↦ let is_fd : x ≡ fd = ground arith in rw (is_fd, k.close_same fd t)
    | inr differ ↦ k.close_other fd x t (ground arith) ∙ e
  ]

  redirect-closed :
      (mode : StdioMode) (std : ℕ) (kept dropped null_fd : Option ℕ) (t : ℕ → Option File) (x : ℕ)
      → x ≢ std
      → t x ≡ none
      → redirect k mode std kept dropped null_fd t x ≡ none
  unfolding redirect
  redirect-closed pipe std (some kept) (some dropped) null_fd t x ne e =
      close-closed kept x (k.dup2 kept std (k.close dropped t))
        (k.dup2_other kept std x (k.close dropped t) ne ∙ close-closed dropped x t e)
  redirect-closed null_dev std kept dropped (some fd) t x ne e = k.dup2_other fd std x t ne ∙ e
  redirect-closed _ std kept dropped null_fd t x ne e = e

  close_null-closed :
      (null_fd : Option ℕ) (t : ℕ → Option File) (x : ℕ)
      → t x ≡ none
      → close_null k null_fd t x ≡ none
  close_null-closed none t x e = e
  close_null-closed (some fd) t x e = close-closed fd x t e

  pub redirect-piped :
      (mode : StdioMode) (std : ℕ) (kept dropped null_fd : Option ℕ) (t : ℕ → Option File)
      → std < 3
      → All (Usable t) (both kept dropped)
      → Closed (redirect k mode std kept dropped null_fd t) (piped mode kept dropped)
  unfolding redirect
  redirect-piped pipe std (some kept) (some dropped) null_fd t b ((ka, ke), ((da, de), tail)) = (
    k.close_same kept (k.dup2 kept std (k.close dropped t)),
    (
      close-closed kept dropped (k.dup2 kept std (k.close dropped t)) (
          k.dup2_other kept std dropped (k.close dropped t) (omega arith) ∙ k.close_same dropped t),
      tt,
    ),
  )
  redirect-piped pipe std none dropped null_fd t b us = tt
  redirect-piped pipe std (some kept) none null_fd t b us = tt
  redirect-piped _ std kept dropped null_fd t b us = tt

  pub Closed-redirect :
      (mode : StdioMode) (std : ℕ) (kept dropped null_fd : Option ℕ) (t : ℕ → Option File)
      (ys : List ℕ)
      → All (λ y. y ≢ std) ys
      → Closed t ys
      → Closed (redirect k mode std kept dropped null_fd t) ys
  Closed-redirect mode std kept dropped null_fd t [] ne c = tt
  Closed-redirect mode std kept dropped null_fd t (y ∷ ys) (ne, nes) (c, cs) = (
    redirect-closed mode std kept dropped null_fd t y ne c,
    Closed-redirect mode std kept dropped null_fd t ys nes cs,
  )

  pub Closed-close_null :
      (null_fd : Option ℕ) (t : ℕ → Option File) (ys : List ℕ)
      → Closed t ys
      → Closed (close_null k null_fd t) ys
  Closed-close_null null_fd t [] c = tt
  Closed-close_null null_fd t (y ∷ ys) (c, cs) =
      (close_null-closed null_fd t y c, Closed-close_null null_fd t ys cs)

  pub close_null-own :
      (null_fd : Option ℕ) (t : ℕ → Option File) → Closed (close_null k null_fd t) (one null_fd)
  close_null-own none t = tt
  close_null-own (some fd) t = (k.close_same fd t, tt)
