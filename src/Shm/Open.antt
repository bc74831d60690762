-- ===== src/Shm/Open.antt =====
-- shm::open and shm::detach: what a call leaves open, and what size is mapped.
use xproc.Prelude.{
  ℕ, ◌≤◌, ◌<◌, ◌≡◌, refl, ◌≢◌, ◌⊎◌, inl, inr, Bool, true, false, List, [], ◌∷◌, ◌++◌, none, some,
  arith, Bool-cases, ltb, ◌==◌,
}
use xproc.Shm.{
  ShmOpenMode, Sys, fails, gives, Shm, Kernel, Opening, refused, opened, Opened, open_descriptor,
  map_segment, size_segment, size_created, size_existing, close_and_fail, einval, after_open,
  open_segment, descriptors,
}

-- The descriptor that the call got from the kernel, if any.
abbrev pub obtained : Opening → List ℕ
obtained refused = []
obtained (opened (fails e) created) = []
obtained (opened (gives fd) created) = fd ∷ []

-- A successful `open` maps the size asked for, or the size of the existing segment if none was
-- stated, which is then not 0; an existing segment is at least as long as what is mapped.
pub record Attached (k : Kernel) (size : ℕ) (s : Shm) : Type 0 where
  pub mapped : s.addr ≢ none
  pub nonempty : 0 < s.size
  pub stated : size ≢ 0 → s.size ≡ size
  pub fits : (n : ℕ) → k.stat ≡ gives n → s.created_this_open ≡ false → s.size ≤ n
  pub no_os_error : s.last_os_error ≡ 0

-- What an object that had no mapping, and was given the descriptors `fds`, is left with.
abbrev pub Leaves : Kernel → ℕ → List ℕ → Opened → Type 0
Leaves k size fds r =
    ((r.result ≡ true → Attached k size r.shm)
      × (r.result ≡ false → (r.shm.addr ≡ none) × (r.shm.fd ≡ none)))
    × (fds ≡ r.closed ++ descriptors r.shm.fd)

map_segment-Leaves :
    (k : Kernel) (size fd : ℕ) (s : Shm)
    → s.addr ≡ none
    → s.fd ≡ some fd
    → s.last_os_error ≡ 0
    → (size ≢ 0 → s.size ≡ size)
    → ((n : ℕ) → k.stat ≡ gives n → s.created_this_open ≡ false → s.size ≤ n)
    → Leaves k size (fd ∷ []) (map_segment k s)
unfolding map_segment
map_segment-Leaves k size fd s a f z e n = (
  (
    λ h. record {
      mapped = ground arith;
      nonempty = ground arith;
      stated = λ t. let q = e t in ground arith;
      fits = λ m p c. let q = n m p in ground arith;
      no_os_error = ground arith;
    },
    λ h. ground arith,
  ),
  ground arith,
)

close_and_fail-Leaves :
    (k : Kernel) (size fd err : ℕ) (s : Shm)
    → s.addr ≡ none
    → s.fd ≡ some fd
    → Leaves k size (fd ∷ []) (close_and_fail s err)
close_and_fail-Leaves k size fd err s a f = ((λ h. cc, λ h. (a, refl)), ground arith)

size_existing-Leaves :
    (k : Kernel) (size fd : ℕ) (st : Sys) (s : Shm)
    → k.stat ≡ st
    → s.addr ≡ none
    → s.fd ≡ some fd
    → s.last_os_error ≡ 0
    → s.size ≡ size
    → Leaves k size (fd ∷ []) (size_existing st k s)
unfolding size_existing
size_existing-Leaves k size fd (fails e) s q a f z same = close_and_fail-Leaves k size fd e s a f
size_existing-Leaves k size fd (gives existing) s q a f z same = elim (Bool-cases (s.size == 0)) [
  | inl inferred ↦ rw inferred (
      map_segment-Leaves k size fd (record s { size = existing }) a f z
        (λ t. absurd (t (ground arith))) (λ n p c. ground arith))
  | inr stated ↦ rw stated (elim (Bool-cases (ltb existing s.size)) [
    | inl short ↦ rw short (close_and_fail-Leaves k size fd einval s a f)
    | inr long ↦ rw long (map_segment-Leaves k size fd s a f z (λ t. same) (λ n p c. ground arith))
  ])
]

size_segment-Leaves :
    (k : Kernel) (size fd : ℕ) (created : Bool) (s : Shm)
    → s.created_this_open ≡ created
    → s.addr ≡ none
    → s.fd ≡ some fd
    → s.last_os_error ≡ 0
    → s.size ≡ size
    → Leaves k size (fd ∷ []) (size_segment created k s)
unfolding size_segment
size_segment-Leaves k size fd true s c a f z e = size_created-Leaves k.truncate
  where
    size_created-Leaves : (t : Sys) → Leaves k size (fd ∷ []) (size_created t k s)
    size_created-Leaves (fails x) = unfold size_created in close_and_fail-Leaves k size fd x s a f
    size_created-Leaves (gives v) =
        unfold size_created in map_segment-Leaves k size fd s a f z (λ t. e) (λ n p q. cc)
size_segment-Leaves k size fd false s c a f z e =
    size_existing-Leaves k size fd k.stat s refl a f z e

after_open-Leaves :
    (k : Kernel) (size : ℕ) (s : Shm) (o : Opening)
    → s.addr ≡ none
    → s.fd ≡ none
    → s.last_os_error ≡ 0
    → s.size ≡ size
    → Leaves k size (obtained o) (after_open k s o)
unfolding after_open
after_open-Leaves k size s refused a f z e = ((λ h. cc, λ h. (a, f)), rw f)
after_open-Leaves k size s (opened (fails x) created) a f z e = ((λ h. cc, λ h. (a, refl)), refl)
after_open-Leaves k size s (opened (gives fd) created) a f z e =
    size_segment-Leaves k size fd created (record s { fd = some fd; created_this_open = created })
      refl a refl z e

pub open_outcome :
    (k : Kernel) (name : List ℕ) (size : ℕ) (mode : ShmOpenMode) (s : Shm)
    → s.addr ≡ none
    → s.fd ≡ none
    → let r = open_segment k name size mode s in
      (((r.result ≡ true) × Attached k size r.shm)
        ⊎ ((r.result ≡ false) × (r.shm.addr ≡ none) × (r.shm.fd ≡ none)))
      × (obtained (open_descriptor mode size k) ≡ r.closed ++ descriptors r.shm.fd)
unfolding open_segment
open_outcome k name size mode s a f =
    let s' : Shm = record s {
      last_os_error = 0;
      created_this_open = false;
      name = name;
      size = size;
    } in
    let r = after_open k s' (open_descriptor mode size k) in
    let ((good, bad), kept) =
      after_open-Leaves k size s' (open_descriptor mode size k) a f refl refl in
    (
      elim (Bool-cases r.result) [
        | inl t ↦ inl (t, good t)
        | inr t ↦ let (unmapped, shut) = bad t in inr (t, unmapped, shut)
      ],
      kept,
    )

pub open_segment-Attached :
    (k : Kernel) (name : List ℕ) (size : ℕ) (mode : ShmOpenMode) (s : Shm)
    → s.addr ≡ none
    → s.fd ≡ none
    → (open_segment k name size mode s).result ≡ true
    → Attached k size (open_segment k name size mode s).shm
open_segment-Attached k name size mode s a f h = elim (open_outcome k name size mode s a f).0 [
  | inl (_, attached) ↦ attached
  | inr (failed, _, _) ↦ cc
]
