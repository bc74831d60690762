-- ===== src/Shm.antt =====
-- include/xproc/core/shm.hpp, shm_open_mode.hpp and src/core/shm_posix.cpp: one mapping of a named
-- segment. The kernel's answers are arguments; the descriptors that a call closes are a result. The
-- name of the segment for the kernel is the user's (`#ifdef __APPLE__` is not compiled).
pub mod Open
pub mod Read
use xproc.Prelude.{
  ℕ, ◌≡◌, Bool, true, false, List, [], ◌∷◌, ◌++◌, Option, none, some, ltb, ◌==◌, if◌then◌else◌,
}

pub data ShmOpenMode : Type 0 where
  create open_create open_existing read : ShmOpenMode

-- The answer of a system call: an errno, or a value.
pub data Sys : Type 0 where
  fails : ℕ → Sys
  gives : ℕ → Sys

pub record Shm : Type 0 where
  pub addr : Option ℕ
  pub size : ℕ
  pub last_os_error : ℕ
  pub created_this_open : Bool
  pub fd : Option ℕ
  pub name : List ℕ

abbrev pub empty_shm : Shm
empty_shm = record {
  addr = none;
  size = 0;
  last_os_error = 0;
  created_this_open = false;
  fd = none;
  name = [];
}

-- The system calls of one `open`, in the order in which it can make them: shm_open with O_RDWR,
-- with O_CREAT | O_EXCL, with O_RDWR again, with O_RDONLY; ftruncate, fstat, mmap.
pub record Kernel : Type 0 where
  pub open_rdwr : Sys
  pub open_excl : Sys
  pub reopen_rdwr : Sys
  pub open_rdonly : Sys
  pub truncate : Sys
  pub stat : Sys
  pub map : Sys

abbrev pub einval : ℕ
einval = 22

abbrev pub eexist : ℕ
eexist = 17

pub data Opening : Type 0 where
  refused : Opening
  opened : Sys → Bool → Opening

abbrev pub gave : Sys → Bool
gave (fails e) = false
gave (gives v) = true

-- The open after an O_EXCL creation, which fails if another process created the segment first.
abbrev pub reopen : Sys → Sys → Opening
reopen (gives fd) again = opened (gives fd) true
reopen (fails e) again = if e == eexist then opened again false else opened (fails e) false

-- The descriptor, and whether this call created the segment; `refused` is the return with EINVAL.
unfoldable pub open_descriptor : ShmOpenMode → ℕ → Kernel → Opening
open_descriptor create size k = if size == 0 then refused else opened k.open_excl (gave k.open_excl)
open_descriptor open_existing size k = opened k.open_rdwr false
open_descriptor open_create size k = elim (k.open_rdwr) [
  | gives fd ↦ opened (gives fd) false
  | fails e ↦ if size == 0 then refused else reopen k.open_excl k.reopen_rdwr
]
open_descriptor read size k = opened k.open_rdonly false

-- The mapping after a call, the descriptors that it closed, and what it returned.
pub record Opened : Type 0 where
  pub shm : Shm
  pub closed : List ℕ
  pub result : Bool

abbrev pub descriptors : Option ℕ → List ℕ
descriptors none = []
descriptors (some fd) = fd ∷ []

abbrev pub close_and_fail : Shm → ℕ → Opened
close_and_fail s err = record {
  shm = record s { last_os_error = err; fd = none };
  closed = descriptors s.fd;
  result = false;
}

unfoldable pub map_segment : Kernel → Shm → Opened
map_segment k s = if s.size == 0 then close_and_fail s einval else elim (k.map) [
  | fails e ↦ close_and_fail (record s { addr = none }) e
  | gives a ↦ record { shm = record s { addr = some a }; closed = []; result = true }
]

-- After ftruncate, of a segment that this call created.
size_created : Sys → Kernel → Shm → Opened
size_created (fails e) k s = close_and_fail s e
size_created (gives v) k s = map_segment k s

-- After fstat, of an existing segment.
size_existing : Sys → Kernel → Shm → Opened
size_existing (fails e) k s = close_and_fail s e
size_existing (gives existing) k s =
    if s.size == 0
    then map_segment k (record s { size = existing })
    else if ltb existing s.size
    then close_and_fail s einval
    else map_segment k s

size_segment : Bool → Kernel → Shm → Opened
size_segment true k s = size_created k.truncate k s
size_segment false k s = size_existing k.stat k s

after_open : Kernel → Shm → Opening → Opened
after_open k s refused = record {
  shm = record s { last_os_error = einval };
  closed = [];
  result = false;
}
after_open k s (opened (fails e) created) = record {
  shm = record s { fd = none; created_this_open = created; last_os_error = e };
  closed = [];
  result = false;
}
after_open k s (opened (gives fd) created) =
    size_segment created k (record s { fd = some fd; created_this_open = created })

unfoldable pub open_segment : Kernel → List ℕ → ℕ → ShmOpenMode → Shm → Opened
unfolding after_open size_segment size_created size_existing
open_segment k name size mode s =
    let s' : Shm = record s {
      last_os_error = 0;
      created_this_open = false;
      name = name;
      size = size;
    } in
    after_open k s' (open_descriptor mode size k)

-- The mapping after `detach`, the address and length that it unmapped, the descriptors it closed.
pub record Detached : Type 0 where
  pub shm : Shm
  pub unmapped : List (ℕ × ℕ)
  pub closed : List ℕ

abbrev pub mappings : Option ℕ → ℕ → List (ℕ × ℕ)
mappings none size = []
mappings (some a) size = (a, size) ∷ []

unfoldable pub detach : Shm → Detached
detach s = record {
  shm = record s { addr = none; fd = none; created_this_open = false };
  unmapped = mappings s.addr s.size;
  closed = descriptors s.fd;
}

-- Move assignment from another object: what `this` held is released, and what it has taken is no
-- longer the other's. The moved-from name is left unspecified by C++; it is empty here.
unfoldable pub move_assign : Shm → Shm → Detached × Shm
unfolding detach
move_assign this other = (
  record (detach this) { shm = other },
  record other {
    addr = none;
    size = 0;
    fd = none;
    last_os_error = 0;
    created_this_open = false;
    name = [];
  },
)
