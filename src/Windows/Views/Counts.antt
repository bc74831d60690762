-- ===== src/Windows/Views/Counts.antt =====
-- The reference counts of the mapped views of a process.
use xproc.Prelude.{
  ℕ, ◌+◌, ◌-◌, ◌<◌, ◌≡◌, refl, sym, ap, ◌∙◌, subst, ◌≢◌, inl, inr, true, false, List, [], ◌∷◌,
  Option, none, some, All, arith, Bool-cases, ◌==◌, if◌then◌else◌,
}
use xproc.Shm.{descriptors}
use xproc.Windows.Names.{same_text}
use xproc.Windows.Views.{
  ProcessViewEntry, Registry, WinShm, WinDetached, find_view, set_refcount, erase_view,
  release_view,
}
use xproc.Windows.Views.Lookup.{
  same_text_refl, text_cases, find_view-set_refcount, find_view-set_refcount_other,
  find_view-erase_view, find_view-erase_view_other, find_view-new, find_view-new_other,
}

-- The objects among `objs` that are attached to the view registered under `key`.
unfoldable pub users : List ℕ → List WinShm → ℕ
users key [] = 0
users key (s ∷ objs) =
    let rest = users key objs in if same_text s.win32_view_key key then rest + 1 else rest

-- An object with this key sees the view at the address.
pub record SeesAt (key : List ℕ) (addr : ℕ) (s : WinShm) : Type 0 where
  pub sees : same_text s.win32_view_key key ≡ true → s.addr ≡ some addr

-- The entry of a key counts the objects that use it, and they see its view; without users there is
-- no entry.
abbrev pub CountsUsers : List ℕ → List WinShm → Option ProcessViewEntry → Type 0
CountsUsers key objs none = users key objs ≡ 0
CountsUsers key objs (some e) =
    (e.refcount ≡ users key objs) × (0 < e.refcount) × All (SeesAt key e.addr) objs

pub record IsCounted (g : Registry) (objs : List WinShm) : Type 0 where
  pub counts : (key : List ℕ) → CountsUsers key objs (find_view key g.views)
  pub attached : All (λ s. s.win32_view_key ≢ []) objs

pub users-cons_same :
    (key : List ℕ) (s : WinShm) (objs : List WinShm)
    → s.win32_view_key ≡ key
    → users key (s ∷ objs) ≡ users key objs + 1
unfolding users
users-cons_same key s objs e =
    let t : same_text s.win32_view_key key ≡ true = rw e (same_text_refl key) in rw (t, users)

pub users-cons_other :
    (key : List ℕ) (s : WinShm) (objs : List WinShm)
    → same_text s.win32_view_key key ≡ false
    → users key (s ∷ objs) ≡ users key objs
unfolding users
users-cons_other key s objs e = rw (e, users)

no_users :
    (key : List ℕ) (addr : ℕ) (objs : List WinShm) → users key objs ≡ 0 → All (SeesAt key addr) objs
unfolding users
no_users key addr [] e = tt
no_users key addr (s ∷ objs) e = elim (Bool-cases (same_text s.win32_view_key key)) [
  | inl t ↦ absurd (ground arith)
  | inr t ↦ (record { sees = λ u. absurd (ground arith) }, no_users key addr objs (ground arith))
]

-- An object on another view does not matter.
module _ (q : List ℕ) (s : WinShm) (objs : List WinShm)
    (other : same_text s.win32_view_key q ≡ false) where
  other_joins : (o : Option ProcessViewEntry) → CountsUsers q objs o → CountsUsers q (s ∷ objs) o
  other_joins none c = users-cons_other q s objs other ∙ c
  other_joins (some e) (n, p, sees) = (
    n ∙ sym (users-cons_other q s objs other),
    p,
    (record { sees = λ t. absurd (ground arith) }, sees),
  )

  other_leaves : (o : Option ProcessViewEntry) → CountsUsers q (s ∷ objs) o → CountsUsers q objs o
  other_leaves none c = sym (users-cons_other q s objs other) ∙ c
  other_leaves (some e) (n, p, sees) = (n ∙ users-cons_other q s objs other, p, sees.1)

-- One more object on a view that is there, or on a new one; one object less.
module _ (g : Registry) (objs : List WinShm) (counted : IsCounted g objs) (s : WinShm)
    (named : s.win32_view_key ≢ []) where
  pub shared-CountsUsers :
      (e : ProcessViewEntry)
      → find_view s.win32_view_key g.views ≡ some e
      → s.addr ≡ some e.addr
      → (q : List ℕ)
      → CountsUsers q (s ∷ objs) (find_view q (set_refcount s.win32_view_key (λ n. n + 1) g.views))
  shared-CountsUsers e found at q = elim (text_cases s.win32_view_key q) [
    | inl same ↦
        subst
          (λ k.
            CountsUsers k (s ∷ objs)
              (find_view k (set_refcount s.win32_view_key (λ n. n + 1) g.views)))
          same
          (rw (find_view-set_refcount s.win32_view_key (λ n. n + 1) g.views e found) (
            let here : CountsUsers s.win32_view_key objs (some e) =
              subst (CountsUsers s.win32_view_key objs) found (counted.counts s.win32_view_key) in
            let more = users-cons_same s.win32_view_key s objs refl in
            (omega (arith, here.0, more), omega arith, (record { sees = λ t. at }, here.2))))
    | inr (other, _) ↦
        rw (find_view-set_refcount_other s.win32_view_key (λ n. n + 1) q g.views other)
          (other_joins q s objs other (find_view q g.views) (counted.counts q))
  ]

  pub new-CountsUsers :
      (e : ProcessViewEntry)
      → find_view s.win32_view_key g.views ≡ none
      → e.key ≡ s.win32_view_key
      → e.refcount ≡ 1
      → s.addr ≡ some e.addr
      → (q : List ℕ) → CountsUsers q (s ∷ objs) (find_view q (e ∷ g.views))
  new-CountsUsers e missing keyed one at q = elim (text_cases s.win32_view_key q) [
    | inl same ↦
        subst (λ k. CountsUsers k (s ∷ objs) (find_view k (e ∷ g.views))) same
          (rw (find_view-new s.win32_view_key e g.views keyed) (
            let unused : users s.win32_view_key objs ≡ 0 =
              subst (CountsUsers s.win32_view_key objs) missing (counted.counts s.win32_view_key) in
            let more = users-cons_same s.win32_view_key s objs refl in
            (
              omega arith,
              omega arith,
              (record { sees = λ t. at }, no_users s.win32_view_key e.addr objs unused),
            )))
    | inr (other, _) ↦
        rw (find_view-new_other s.win32_view_key q e g.views keyed other)
          (other_joins q s objs other (find_view q g.views) (counted.counts q))
  ]

-- What a `detach` of an attached object does to its view: the last user unmaps it and closes its
-- section, and any other leaves it.
pub data Released (s : WinShm) (others : List WinShm) (d : WinDetached) : Type 0 where
  last_user :
      users s.win32_view_key others ≡ 0 → d.unmapped ≡ descriptors s.addr → Released s others d
  others_left :
      0 < users s.win32_view_key others → d.unmapped ≡ [] → d.closed ≡ [] → Released s others d

module _ (g : Registry) (s : WinShm) (objs : List WinShm) (counted : IsCounted g (s ∷ objs)) where
  erased-CountsUsers :
      users s.win32_view_key objs ≡ 0
      → (q : List ℕ) → CountsUsers q objs (find_view q (erase_view s.win32_view_key g.views))
  erased-CountsUsers unused q = elim (text_cases s.win32_view_key q) [
    | inl same ↦
        subst (λ k. CountsUsers k objs (find_view k (erase_view s.win32_view_key g.views))) same
          (rw (find_view-erase_view s.win32_view_key g.views) unused)
    | inr (other, _) ↦
        rw (find_view-erase_view_other s.win32_view_key q g.views other)
          (other_leaves q s objs other (find_view q g.views) (counted.counts q))
  ]

  dropped-CountsUsers :
      (e : ProcessViewEntry)
      → find_view s.win32_view_key g.views ≡ some e
      → 0 < users s.win32_view_key objs
      → (q : List ℕ)
      → CountsUsers q objs (find_view q (set_refcount s.win32_view_key (λ n. n - 1) g.views))
  dropped-CountsUsers e found used q = elim (text_cases s.win32_view_key q) [
    | inl same ↦
        subst
          (λ k.
            CountsUsers k objs (find_view k (set_refcount s.win32_view_key (λ n. n - 1) g.views)))
          same
          (rw (find_view-set_refcount s.win32_view_key (λ n. n - 1) g.views e found) (
            let here : CountsUsers s.win32_view_key (s ∷ objs) (some e) =
              subst (CountsUsers s.win32_view_key (s ∷ objs)) found
                (counted.counts s.win32_view_key) in
            let more = users-cons_same s.win32_view_key s objs refl in
            (omega (arith, here.0), omega (arith, here.0), here.2.1)))
    | inr (other, _) ↦
        rw (find_view-set_refcount_other s.win32_view_key (λ n. n - 1) q g.views other)
          (other_leaves q s objs other (find_view q g.views) (counted.counts q))
  ]

  pub release_view-IsCounted :
      (o : Option ProcessViewEntry)
      → find_view s.win32_view_key g.views ≡ o
      → let d = release_view g s o in IsCounted d.registry objs × Released s objs d
  release_view-IsCounted none missing =
      let none_ : users s.win32_view_key (s ∷ objs) ≡ 0 =
        subst (CountsUsers s.win32_view_key (s ∷ objs)) missing (counted.counts s.win32_view_key) in
      absurd (omega (arith, users-cons_same s.win32_view_key s objs refl))
  release_view-IsCounted (some e) found =
      let here : CountsUsers s.win32_view_key (s ∷ objs) (some e) =
        subst (CountsUsers s.win32_view_key (s ∷ objs)) found (counted.counts s.win32_view_key) in
      let more = users-cons_same s.win32_view_key s objs refl in
      elim (Bool-cases (e.refcount - 1 == 0)) [
        | inl zero_left ↦
            let unused : users s.win32_view_key objs ≡ 0 = ground (arith, here.0, here.1) in
            let at = here.2.0.sees (same_text_refl s.win32_view_key) in
            rw zero_left (
              record { counts = erased-CountsUsers unused; attached = counted.attached.1 },
              last_user unused (ap descriptors (sym at)),
            )
        | inr some_left ↦
            let used : 0 < users s.win32_view_key objs = ground (arith, here.0, here.1) in
            rw some_left (
              record { counts = dropped-CountsUsers e found used; attached = counted.attached.1 },
              others_left used refl refl,
            )
      ]
