-- ===== src/Subprocess/Descriptors.antt =====
-- Lists of descriptors that differ from each other.
use xproc.Subprocess.{StdioMode, pipe, Fds, read_end, write_end, one}
use xproc.Prelude.{ℕ, ◌≢◌, List, [], ◌∷◌, ◌++◌, Option, some, All}

abbrev pub both : Option ℕ → Option ℕ → List ℕ
both (some kept) (some dropped) = kept ∷ dropped ∷ []
both _ _ = []

abbrev pub Apart : List ℕ → List ℕ → Type 0
Apart xs ys = All (λ x. All (λ y. x ≢ y) ys) xs

abbrev pub Distinct : List ℕ → Type 0
Distinct [] = Unit
Distinct (x ∷ xs) = All (λ y. x ≢ y) xs × Distinct xs

pub All-++ : (P : ℕ → Type 0) (xs ys : List ℕ) → All P (xs ++ ys) → All P xs × All P ys
All-++ P [] ys p = (tt, p)
All-++ P (x ∷ xs) ys (p, q) = let (l, r) = All-++ P xs ys q in ((p, l), r)

pub Distinct-++ : (xs ys : List ℕ) → Distinct (xs ++ ys) → Distinct xs × Distinct ys × Apart xs ys
Distinct-++ [] ys d = (tt, d, tt)
Distinct-++ (x ∷ xs) ys (a, d) =
    let (l, r, m) = Distinct-++ xs ys d in
    let (b, c) = All-++ (λ y. x ≢ y) xs ys a in ((b, l), r, (c, m))

pub Apart-∷ :
    (xs : List ℕ) (y : ℕ) (ys : List ℕ) → Apart xs (y ∷ ys) → All (λ x. x ≢ y) xs × Apart xs ys
Apart-∷ [] y ys p = (tt, tt)
Apart-∷ (x ∷ xs) y ys ((p, q), r) = let (l, m) = Apart-∷ xs y ys r in ((p, l), (q, m))

pub Apart-++ : (xs ys zs : List ℕ) → Apart xs (ys ++ zs) → Apart xs ys × Apart xs zs
Apart-++ [] ys zs p = (tt, tt)
Apart-++ (x ∷ xs) ys zs (p, q) =
    let (l, r) = All-++ (λ y. x ≢ y) ys zs p in let (m, n) = Apart-++ xs ys zs q in ((l, m), (r, n))

-- The descriptors of the three pipes, for each the end first that the child keeps, and the null
-- device.
abbrev pub child_fds : Fds → List ℕ
child_fds f =
    both (read_end f.to_stdin) (write_end f.to_stdin)
    ++ (both (write_end f.from_stdout) (read_end f.from_stdout)
        ++ (both (write_end f.from_stderr) (read_end f.from_stderr) ++ one f.null_dev_fd))

-- The ends of a stream's pipe.
abbrev pub piped : StdioMode → Option ℕ → Option ℕ → List ℕ
piped pipe kept dropped = both kept dropped
piped _ kept dropped = []

pub piped-≢ :
    (mode : StdioMode) (kept dropped : Option ℕ) (x : ℕ)
    → All (λ y. y ≢ x) (both kept dropped)
    → All (λ y. y ≢ x) (piped mode kept dropped)
piped-≢ pipe kept dropped x p = p
piped-≢ _ kept dropped x p = tt
