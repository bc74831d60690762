-- ===== src/Windows/Views.antt =====
-- src/core/shm_win32.cpp: the objects of class shm on Windows and the registries of the process. The
-- answers of the system calls are arguments; the handles that a call closes and the views that it
-- unmaps are a result. The mutex makes each access of the registries one step.

pub mod Lookup
pub mod Counts
pub mod Runs
use xproc.Prelude.{
  ℕ, ◌+◌, ◌-◌, Bool, true, false, not, ◌&&◌, List, [], ◌∷◌, ◌++◌, Option, none, some, ltb, ◌==◌,
  if◌then◌else◌,
}
use xproc.Options.{is_empty}
use xproc.Shm.{
  ShmOpenMode, create, open_create, open_existing, read, Sys, fails, gives, mappings, descriptors,
}
use xproc.Windows.Names.{same_text, mapping_name_from_path, view_registry_key}

-- `ProcessViewEntry`, with its key in g_process_views. A reference count stays in the range of an int.
pub record ProcessViewEntry : Type 0 where
  pub key : List ℕ
  pub addr : ℕ
  pub section_handle : ℕ
  pub refcount : ℕ

-- `g_process_views` and `g_canonical_shm_handle`
pub record Registry : Type 0 where
  pub views : List ProcessViewEntry
  pub canonical : List (List ℕ × ℕ)

-- class shm. An empty key is no key.
pub record WinShm : Type 0 where
  pub addr : Option ℕ
  pub size : ℕ
  pub last_os_error : ℕ
  pub created_this_open : Bool
  pub mapping : Option ℕ
  pub win32_view_key : List ℕ
  pub name : List ℕ

abbrev pub empty_win_shm : WinShm
empty_win_shm = record {
  addr = none;
  size = 0;
  last_os_error = 0;
  created_this_open = false;
  mapping = none;
  win32_view_key = [];
  name = [];
}

unfoldable pub find_view : List ℕ → List ProcessViewEntry → Option ProcessViewEntry
find_view key [] = none
find_view key (e ∷ es) = if same_text e.key key then some e else find_view key es

-- `it->second.refcount = ...` of the entry with the key.
unfoldable pub set_refcount : List ℕ → (ℕ → ℕ) → List ProcessViewEntry → List ProcessViewEntry
set_refcount key f [] = []
set_refcount key f (e ∷ es) =
    if same_text e.key key
    then record e { refcount = f e.refcount } ∷ es
    else e ∷ set_refcount key f es

-- A key has one entry.
unfoldable pub erase_view : List ℕ → List ProcessViewEntry → List ProcessViewEntry
erase_view key [] = []
erase_view key (e ∷ es) =
    let rest = erase_view key es in if same_text e.key key then rest else e ∷ rest

unfoldable pub find_handle : List ℕ → List (List ℕ × ℕ) → Option ℕ
find_handle name [] = none
find_handle name ((n, h) ∷ l) = if same_text n name then some h else find_handle name l

unfoldable pub erase_handle : List ℕ → List (List ℕ × ℕ) → List (List ℕ × ℕ)
erase_handle name [] = []
erase_handle name ((n, h) ∷ l) = if same_text n name then l else (n, h) ∷ erase_handle name l

-- `if (register_canonical && find(name) == end()) g_canonical_shm_handle[name] = h;`
abbrev pub register_handle : Bool → List ℕ → ℕ → List (List ℕ × ℕ) → List (List ℕ × ℕ)
register_handle register name h l = elim (find_handle name l) [
  | none ↦ if register then (name, h) ∷ l else l
  | some _ ↦ l
]

-- `if (cit != end() && cit->second == h) g_canonical_shm_handle.erase(cit);`
abbrev pub forget_handle : List ℕ → ℕ → List (List ℕ × ℕ) → List (List ℕ × ℕ)
forget_handle name h l = elim (find_handle name l) [
  | none ↦ l
  | some g ↦ if g == h then erase_handle name l else l
]

-- The answers to the calls of one `open`: DuplicateHandle, OpenFileMappingW, CreateFileMappingW and
-- whether it found an object of that name; MapViewOfFile, VirtualQuery (the size of the region), and
-- the size of the section, if NtQuerySection tells it.
pub record Kernel : Type 0 where
  pub duplicate : Sys
  pub open_mapping : Sys
  pub create_mapping : Sys
  pub already_exists : Bool
  pub map_view : Sys
  pub region : Sys
  pub section_size : Option ℕ

abbrev pub error_invalid_parameter : ℕ
error_invalid_parameter = 87

abbrev pub error_insufficient_buffer : ℕ
error_insufficient_buffer = 122

pub data HandleStage : Type 0 where
  no_handle : ℕ → HandleStage
  handle : ℕ → Bool → Bool → HandleStage

-- The handle, whether this call created the object, and `register_canonical`.
abbrev pub created_handle : Sys → Bool → HandleStage
created_handle (fails e) exists_already = no_handle e
created_handle (gives h) exists_already = handle h (not exists_already) true

abbrev pub opened_handle : Sys → HandleStage
opened_handle (fails e) = no_handle e
opened_handle (gives h) = handle h false false

unfoldable pub obtain_handle : Registry → Kernel → ShmOpenMode → ℕ → List ℕ → HandleStage
obtain_handle g k create size name =
    if size == 0
    then no_handle error_invalid_parameter
    else created_handle k.create_mapping k.already_exists
obtain_handle g k open_create size name = elim (k.open_mapping) [
  | gives h ↦ handle h false true
  | fails e ↦
      if size == 0
      then no_handle error_invalid_parameter
      else created_handle k.create_mapping k.already_exists
]
obtain_handle g k _ size name = elim (find_handle name g.canonical) [
  | some source ↦ opened_handle k.duplicate
  | none ↦ opened_handle k.open_mapping
]

-- What an `open` leaves.
pub record WinOpened : Type 0 where
  pub shm : WinShm
  pub registry : Registry
  pub closed : List ℕ
  pub unmapped : List ℕ
  pub result : Bool

-- Sharing a view that is registered under `key`: the handle `h` is closed, and a view of its own that
-- the call has mapped is unmapped.
abbrev pub share_view :
    Registry → WinShm → List ℕ → Bool → ℕ → List ℕ → ProcessViewEntry → WinOpened
share_view g s key register h unmapped e = record {
  shm = record s { addr = some e.addr; mapping = none; win32_view_key = key };
  registry = record {
    views = set_refcount key (λ n. n + 1) g.views;
    canonical = register_handle register s.name e.section_handle g.canonical;
  };
  closed = h ∷ [];
  unmapped = unmapped;
  result = true;
}

abbrev pub failed_open : Registry → WinShm → ℕ → List ℕ → List ℕ → WinOpened
failed_open g s err closed unmapped = record {
  shm = record s { last_os_error = err };
  registry = g;
  closed = closed;
  unmapped = unmapped;
  result = false;
}

-- With the view at `p` mapped and measured; `key` is `actual_vkey`.
abbrev pub register_view : Registry → WinShm → List ℕ → Bool → ℕ → ℕ → WinOpened
register_view g s key register h p = elim (find_view key g.views) [
  | some e ↦ share_view g s key register h (p ∷ []) e
  | none ↦ record {
    shm = record s { addr = some p; mapping = some h; win32_view_key = key };
    registry = record {
      views = record { key = key; addr = p; section_handle = h; refcount = 1 } ∷ g.views;
      canonical = register_handle register s.name h g.canonical;
    };
    closed = [];
    unmapped = [];
    result = true;
  }
]

-- The access rights, as the number of FILE_MAP_READ or of FILE_MAP_WRITE | FILE_MAP_READ.
abbrev pub map_access : ShmOpenMode → ℕ
map_access read = 4
map_access _ = 6

abbrev pub measured : Kernel → WinShm → ℕ → WinShm
measured k s region =
    if s.size == 0
    then record s { size = elim (k.section_size) [ some n ↦ n | none ↦ region ] }
    else s

module _ (to_string : ℕ → List ℕ) where
  -- map_and_verify_size, and what follows it.
  unfoldable pub map_new_view : Registry → Kernel → WinShm → ShmOpenMode → Bool → ℕ → WinOpened
  map_new_view g k s mode register h = elim (k.map_view) [
    | fails e ↦ failed_open g s e (h ∷ []) []
    | gives p ↦ elim (k.region) [
      | fails e ↦ failed_open g s e (h ∷ []) (p ∷ [])
      | gives region ↦
          let s' : WinShm = measured k s region in
          if ltb region s.size
          then failed_open g s error_insufficient_buffer (h ∷ []) (p ∷ [])
          else register_view g s' (view_registry_key to_string s.name (map_access mode) s'.size)
              register h p
    ]
  ]

  -- With the handle: a view of the stated size that the process has mapped already is shared.
  unfoldable pub map_handle : Registry → Kernel → WinShm → ShmOpenMode → HandleStage → WinOpened
  unfolding map_new_view
  map_handle g k s mode (no_handle err) = failed_open g s err [] []
  map_handle g k s mode (handle h created register) =
      let s' : WinShm = record s { created_this_open = created } in
      let key = view_registry_key to_string s.name (map_access mode) s.size in
      elim (if s.size == 0 then none else find_view key g.views) [
        | some e ↦ share_view g s' key register h [] e
        | none ↦ map_new_view g k s' mode register h
      ]

  -- shm::open
  unfoldable pub open_win :
      Registry → Kernel → List ℕ → ℕ → ShmOpenMode → List ℕ → WinShm → WinOpened
  unfolding map_handle
  open_win g k name size mode namespace s =
      let internal : List ℕ = mapping_name_from_path name namespace in
      let s' : WinShm = record s {
        last_os_error = 0;
        created_this_open = false;
        name = internal;
      } in
      if is_empty internal
      then failed_open g s' error_invalid_parameter [] []
      else map_handle g k (record s' { size = size }) mode (obtain_handle g k mode size internal)

-- What a `detach` leaves.
pub record WinDetached : Type 0 where
  pub shm : WinShm
  pub registry : Registry
  pub closed : List ℕ
  pub unmapped : List ℕ

abbrev pub detached_shm : WinShm → WinShm
detached_shm s = record {
  addr = none;
  size = 0;
  last_os_error = s.last_os_error;
  created_this_open = false;
  mapping = none;
  win32_view_key = [];
  name = [];
}

-- The reference of an object under its key is dropped.
abbrev pub release_view : Registry → WinShm → Option ProcessViewEntry → WinDetached
release_view g s none = record { shm = detached_shm s; registry = g; closed = []; unmapped = [] }
release_view g s (some e) =
    if e.refcount - 1 == 0
    then record {
      shm = detached_shm s;
      registry = record {
        views = erase_view s.win32_view_key g.views;
        canonical = forget_handle s.name e.section_handle g.canonical;
      };
      closed = e.section_handle ∷ [];
      unmapped = e.addr ∷ [];
    }
    else record {
      shm = detached_shm s;
      registry = record g { views = set_refcount s.win32_view_key (λ n. n - 1) g.views };
      closed = [];
      unmapped = [];
    }

-- shm::detach. An object without a key releases its own view and handle.
unfoldable pub detach_win : Registry → WinShm → WinDetached
detach_win g s =
    if is_empty s.win32_view_key
    then record {
      shm = detached_shm s;
      registry = elim (s.mapping) [
        | none ↦ g
        | some h ↦ record g { canonical = forget_handle s.name h g.canonical }
      ];
      closed = descriptors s.mapping;
      unmapped = descriptors s.addr;
    }
    else release_view g s (find_view s.win32_view_key g.views)
