-- ===== src/Windows/Views/Runs.antt =====
-- Objects that are opened and detached in any order in one process.
use xproc.Prelude.{
  ℕ, ◌+◌, ◌≡◌, refl, sym, ◌∙◌, subst, ◌≢◌, ◌⊎◌, inl, inr, Bool, true, false, List, [], ◌∷◌, ◌++◌,
  Option, none, some, All, arith, Bool-cases, Option-cases, ltb, ◌==◌, if◌then◌else◌, bytes,
}
use xproc.Options.{is_empty}
use xproc.Shm.{ShmOpenMode, Sys, fails, gives}
use xproc.Windows.Names.{mapping_name_from_path, view_registry_key}
use xproc.Windows.Views.{
  ProcessViewEntry, Registry, WinShm, Kernel, HandleStage, no_handle, handle, WinOpened, find_view,
  set_refcount, register_view, map_new_view, map_handle, obtain_handle, open_win, detach_win,
  measured, map_access,
}
use xproc.Windows.Views.Lookup.{find_view-nil}
use xproc.Windows.Views.Counts.{
  IsCounted, CountsUsers, SeesAt, Released, users, shared-CountsUsers, new-CountsUsers,
  release_view-IsCounted,
}

-- The three ends of an `open`: it fails and leaves the registry of views alone; it shares a view that
-- is registered; or it registers a new one.
pub data Ending (g : Registry) (o : WinOpened) : Type 0 where
  failing : o.result ≡ false → o.registry ≡ g → Ending g o
  sharing :
      (e : ProcessViewEntry)
      → o.result ≡ true
      → o.shm.win32_view_key ≢ []
      → find_view o.shm.win32_view_key g.views ≡ some e
      → o.shm.addr ≡ some e.addr
      → o.registry.views ≡ set_refcount o.shm.win32_view_key (λ n. n + 1) g.views
      → Ending g o
  registering :
      (e : ProcessViewEntry)
      → o.result ≡ true
      → o.shm.win32_view_key ≢ []
      → find_view o.shm.win32_view_key g.views ≡ none
      → e.key ≡ o.shm.win32_view_key
      → e.refcount ≡ 1
      → o.shm.addr ≡ some e.addr
      → o.registry.views ≡ e ∷ g.views
      → Ending g o

append-nonempty : (s t : List ℕ) → s ≢ [] → s ++ t ≢ []
append-nonempty [] t h e = h refl
append-nonempty (c ∷ s) t h e = ground arith

view_registry_key-nonempty :
    (to_string : ℕ → List ℕ) (name : List ℕ) (access size : ℕ)
    → name ≢ []
    → view_registry_key to_string name access size ≢ []
unfolding view_registry_key
view_registry_key-nonempty to_string name access size h = append-nonempty _ (to_string size) (
    append-nonempty _ (bytes "|")
      (append-nonempty _ (to_string access) (append-nonempty name (bytes "|") h)))

Sys-cases : (a : Sys) → ((e : ℕ) × (a ≡ fails e)) ⊎ ((v : ℕ) × (a ≡ gives v))
Sys-cases (fails e) = inl (e, refl)
Sys-cases (gives v) = inr (v, refl)

module _ (g : Registry) (register : Bool) where
  register_view-Ending :
      (s : WinShm) (key : List ℕ) (h p : ℕ)
      → key ≢ []
      → Ending g (register_view g s key register h p)
  register_view-Ending s key h p k = elim (Option-cases (find_view key g.views)) [
    | inl missing ↦
        rw (missing, register_view)
          (registering (record { key = key; addr = p; section_handle = h; refcount = 1 }) refl k
            missing refl refl refl refl)
    | inr (e, found) ↦ rw (found, register_view) (sharing e refl k found refl refl)
  ]

  module _ (to_string : ℕ → List ℕ) (k : Kernel) (mode : ShmOpenMode) where
    map_new_view-Ending :
        (s : WinShm) (h : ℕ) → s.name ≢ [] → Ending g (map_new_view to_string g k s mode register h)
    unfolding map_new_view
    map_new_view-Ending s h n = elim (Sys-cases k.map_view) [
      | inl (e, q) ↦ rw (q, map_new_view) (failing refl refl)
      | inr (p, q) ↦ elim (Sys-cases k.region) [
        | inl (e, r) ↦ rw (q, r, map_new_view) (failing refl refl)
        | inr (region, r) ↦ elim (Bool-cases (ltb region s.size)) [
          | inl short ↦ rw (q, r, short, map_new_view) (failing refl refl)
          | inr enough ↦
              rw (q, r, enough, map_new_view)
                (register_view-Ending (measured k s region)
                  (view_registry_key to_string s.name (map_access mode) (measured k s region).size)
                  h p
                  (view_registry_key-nonempty to_string s.name (map_access mode)
                    (measured k s region).size n))
        ]
      ]
    ]

found_if :
    (b : Bool) (o : Option ProcessViewEntry) (e : ProcessViewEntry)
    → (if b then none else o) ≡ some e
    → o ≡ some e
found_if true o e q = cc
found_if false o e q = q

module _ (g : Registry) (to_string : ℕ → List ℕ) (k : Kernel) (mode : ShmOpenMode) where
  map_handle-Ending :
      (s : WinShm)
      → s.name ≢ []
      → (stage : HandleStage) → Ending g (map_handle to_string g k s mode stage)
  unfolding map_handle
  map_handle-Ending s n (no_handle err) = failing refl refl
  map_handle-Ending s n (handle h created register) =
      let key = view_registry_key to_string s.name (map_access mode) s.size in
      elim (Option-cases (if s.size == 0 then none else find_view key g.views)) [
        | inl missing ↦
            rw (missing, map_handle)
              (map_new_view-Ending g register to_string k mode
                (record s { created_this_open = created }) h n)
        | inr (e, found) ↦
            rw (found, map_handle)
              (sharing e refl
                (view_registry_key-nonempty to_string s.name (map_access mode) s.size n)
                (found_if (s.size == 0) (find_view key g.views) e found) refl refl)
      ]

  pub open_win-Ending :
      (name : List ℕ) (size : ℕ) (namespace : List ℕ) (s : WinShm)
      → Ending g (open_win to_string g k name size mode namespace s)
  unfolding open_win
  open_win-Ending name size namespace s = go (mapping_name_from_path name namespace) refl
    where
      go :
          (internal : List ℕ)
          → mapping_name_from_path name namespace ≡ internal
          → Ending g (open_win to_string g k name size mode namespace s)
      go [] e = rw (e, open_win) (failing refl refl)
      go (c ∷ internal) e =
          rw (e, open_win)
            (map_handle-Ending
              (record s {
                last_os_error = 0;
                created_this_open = false;
                name = c ∷ internal;
                size = size;
              })
              (ground arith) (obtain_handle g k mode size (c ∷ internal)))

-- An object joins those that are attached if its `open` succeeds.
abbrev pub joined : WinOpened → List WinShm → List WinShm
joined o objs = if o.result then o.shm ∷ objs else objs

open_win-IsCounted :
    (g : Registry) (o : WinOpened) (objs : List WinShm)
    → IsCounted g objs
    → Ending g o
    → IsCounted o.registry (joined o objs)
open_win-IsCounted g o objs c (failing r same) = rw (r, same) c
open_win-IsCounted g o objs c (sharing e r named found at views) = rw r (record {
  counts = rw views (shared-CountsUsers g objs c o.shm named e found at);
  attached = (named, c.attached);
})
open_win-IsCounted g o objs c (registering e r named missing keyed one at views) = rw r (record {
  counts = rw views (new-CountsUsers g objs c o.shm named e missing keyed one at);
  attached = (named, c.attached);
})

-- The attached objects in another order.
module _ (s : WinShm) where
  users-front :
      (key : List ℕ) (xs ys : List WinShm) → users key (xs ++ s ∷ ys) ≡ users key (s ∷ xs ++ ys)
  unfolding users
  users-front key [] ys = refl
  users-front key (x ∷ xs) ys =
      let rest : users key (xs ++ s ∷ ys) ≡ users key (s ∷ xs ++ ys) = users-front key xs ys in
      ground arith

  All-front {κ} :
      (P : WinShm → Type κ) (xs ys : List WinShm) → All P (xs ++ s ∷ ys) → All P (s ∷ xs ++ ys)
  All-front P [] ys a = a
  All-front P (x ∷ xs) ys (p, a) = let (q, rest) = All-front P xs ys a in (q, (p, rest))

  CountsUsers-front :
      (key : List ℕ) (xs ys : List WinShm) (o : Option ProcessViewEntry)
      → CountsUsers key (xs ++ s ∷ ys) o
      → CountsUsers key (s ∷ xs ++ ys) o
  CountsUsers-front key xs ys none c = sym (users-front key xs ys) ∙ c
  CountsUsers-front key xs ys (some e) (n, p, sees) =
      (n ∙ users-front key xs ys, p, All-front (SeesAt key e.addr) xs ys sees)

  IsCounted-front :
      (g : Registry) (xs ys : List WinShm) → IsCounted g (xs ++ s ∷ ys) → IsCounted g (s ∷ xs ++ ys)
  IsCounted-front g xs ys c = record {
    counts = λ key. CountsUsers-front key xs ys (find_view key g.views) (c.counts key);
    attached = All-front (λ x. x.win32_view_key ≢ []) xs ys c.attached;
  }

detach_win-IsCounted :
    (g : Registry) (s : WinShm) (objs : List WinShm)
    → IsCounted g (s ∷ objs)
    → IsCounted (detach_win g s).registry objs × Released s objs (detach_win g s)
unfolding detach_win
detach_win-IsCounted g s objs c =
    let keyed : is_empty s.win32_view_key ≡ false = not_empty s.win32_view_key c.attached.0 in
    rw (keyed, detach_win)
      (release_view-IsCounted g s objs c (find_view s.win32_view_key g.views) refl)
  where
    not_empty : (t : List ℕ) → t ≢ [] → is_empty t ≡ false
    not_empty [] h = absurd (h refl)
    not_empty (b ∷ t) h = refl

-- What a process can come to: an object that is not attached is opened, or one of those that are
-- attached is detached.
pub data Reached (to_string : ℕ → List ℕ) : Registry → List WinShm → Type 0 where
  start : Reached to_string (record { views = []; canonical = [] }) []
  opening :
      {g : Registry} {objs : List WinShm}
      → Reached to_string g objs
      → (k : Kernel) (name : List ℕ) (size : ℕ) (mode : ShmOpenMode) (namespace : List ℕ)
        (s : WinShm)
      → s.win32_view_key ≡ []
      → (o : WinOpened) → open_win to_string g k name size mode namespace s ≡ o
      → Reached to_string o.registry (joined o objs)
  detaching :
      {g : Registry} (xs ys : List WinShm) (s : WinShm)
      → Reached to_string g (xs ++ s ∷ ys)
      → Reached to_string (detach_win g s).registry (xs ++ ys)

no_objects : (key : List ℕ) → users key [] ≡ 0
unfolding users
no_objects key = refl

Reached-IsCounted :
    (to_string : ℕ → List ℕ) {g : Registry} {objs : List WinShm}
    → Reached to_string g objs
    → IsCounted g objs
Reached-IsCounted to_string start = record { counts = λ key. nothing key; attached = tt }
  where
    nothing : (key : List ℕ) → CountsUsers key [] (find_view key [])
    nothing key = subst (CountsUsers key []) (sym (find_view-nil key)) (no_objects key)
Reached-IsCounted to_string
      (opening {g = g} {objs = objs} r k name size mode namespace s fresh o made) =
    open_win-IsCounted g o objs (Reached-IsCounted to_string r)
      (subst (Ending g) made (open_win-Ending g to_string k mode name size namespace s))
Reached-IsCounted to_string (detaching xs ys s r) =
    (detach_win-IsCounted _ s (xs ++ ys)
      (IsCounted-front s _ xs ys (Reached-IsCounted to_string r))).0

-- Whatever objects a process opens and detaches, in whatever order: a registered view counts the
-- attached objects that use it, is used by at least one, and is where each of them looks; a key
-- without users has no view; and the detach of an object unmaps the view exactly if no other attached
-- object uses it.
pub detach_win-Released :
    (to_string : ℕ → List ℕ) (g : Registry) (xs ys : List WinShm) (s : WinShm)
    → Reached to_string g (xs ++ s ∷ ys)
    → IsCounted g (xs ++ s ∷ ys)
      × IsCounted (detach_win g s).registry (xs ++ ys)
      × Released s (xs ++ ys) (detach_win g s)
detach_win-Released to_string g xs ys s r =
    let c = Reached-IsCounted to_string r in
    let (after, released) = detach_win-IsCounted g s (xs ++ ys) (IsCounted-front s g xs ys c) in
    (c, after, released)
