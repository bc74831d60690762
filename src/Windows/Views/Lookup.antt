-- ===== src/Windows/Views/Lookup.antt =====
-- The registry of views as a map from keys to entries.
use xproc.Prelude.{
  ℕ, ◌≡◌, refl, sym, ap, ◌∙◌, ◌⊎◌, inl, inr, true, false, List, [], ◌∷◌, none, some, arith,
  Bool-cases, ◌==◌,
}
use xproc.Windows.Names.{same_text}
use xproc.Windows.Views.{ProcessViewEntry, find_view, set_refcount, erase_view}

pub same_text_refl : (s : List ℕ) → same_text s s ≡ true
unfolding same_text
same_text_refl [] = refl
same_text_refl (c ∷ s) = let here : (c == c) ≡ true = ground arith in rw (here, same_text_refl s)

pub same_text_sound : (s t : List ℕ) → same_text s t ≡ true → s ≡ t
unfolding same_text
same_text_sound [] [] e = refl
same_text_sound [] (d ∷ t) e = ground arith
same_text_sound (c ∷ s) [] e = ground arith
same_text_sound (c ∷ s) (d ∷ t) e =
    let rest = same_text_sound s t (ground arith) in
    let here : c ≡ d = ground arith in rw (here, rest)

-- Two texts are equal, or the test tells them apart, in either order.
pub text_cases : (s t : List ℕ) → (s ≡ t) ⊎ ((same_text s t ≡ false) × (same_text t s ≡ false))
text_cases s t = elim (Bool-cases (same_text s t)) [
  | inl e ↦ inl (same_text_sound s t e)
  | inr e ↦ inr (e, backward e (Bool-cases (same_text t s)))
]
  where
    backward :
        same_text s t ≡ false
        → (same_text t s ≡ true) ⊎ (same_text t s ≡ false)
        → same_text t s ≡ false
    backward e (inl b) =
        let same = same_text_sound t s b in
        let equal : same_text s t ≡ true = rw same (same_text_refl s) in cc
    backward e (inr b) = b

-- One entry of the registry.
module _ (key : List ℕ) (x : ProcessViewEntry) (es : List ProcessViewEntry) where
  find_here : same_text x.key key ≡ true → find_view key (x ∷ es) ≡ some x
  unfolding find_view
  find_here s = rw (s, find_view)

  find_next : same_text x.key key ≡ false → find_view key (x ∷ es) ≡ find_view key es
  unfolding find_view
  find_next s = rw (s, find_view)

  set_here :
      (f : ℕ → ℕ)
      → same_text x.key key ≡ true
      → set_refcount key f (x ∷ es) ≡ record x { refcount = f x.refcount } ∷ es
  unfolding set_refcount
  set_here f s = rw (s, set_refcount)

  set_next :
      (f : ℕ → ℕ)
      → same_text x.key key ≡ false
      → set_refcount key f (x ∷ es) ≡ x ∷ set_refcount key f es
  unfolding set_refcount
  set_next f s = rw (s, set_refcount)

  erase_here : same_text x.key key ≡ true → erase_view key (x ∷ es) ≡ erase_view key es
  unfolding erase_view
  erase_here s = rw (s, erase_view)

  erase_next : same_text x.key key ≡ false → erase_view key (x ∷ es) ≡ x ∷ erase_view key es
  unfolding erase_view
  erase_next s = rw (s, erase_view)

pub find_view-nil : (key : List ℕ) → find_view key [] ≡ none
unfolding find_view
find_view-nil key = refl

set_refcount-nil : (key : List ℕ) (f : ℕ → ℕ) → set_refcount key f [] ≡ []
unfolding set_refcount
set_refcount-nil key f = refl

erase_view-nil : (key : List ℕ) → erase_view key [] ≡ []
unfolding erase_view
erase_view-nil key = refl

abbrev counted_by : (ℕ → ℕ) → ProcessViewEntry → ProcessViewEntry
counted_by f e = record e { refcount = f e.refcount }

module _ (key : List ℕ) (f : ℕ → ℕ) where
  pub find_view-set_refcount :
      (es : List ProcessViewEntry) (e : ProcessViewEntry)
      → find_view key es ≡ some e
      → find_view key (set_refcount key f es) ≡ some (record e { refcount = f e.refcount })
  find_view-set_refcount [] e h = let nothing = find_view-nil key in cc
  find_view-set_refcount (x ∷ es) e h = elim (Bool-cases (same_text x.key key)) [
    | inl s ↦
        let same : x ≡ e = first (sym (find_here key x es s) ∙ h) in
        ap (find_view key) (set_here key x es f s)
        ∙ find_here key (counted_by f x) es s
        ∙ ap (λ a. some (counted_by f a)) same
    | inr s ↦
        ap (find_view key) (set_next key x es f s)
        ∙ find_next key x (set_refcount key f es) s
        ∙ find_view-set_refcount es e (sym (find_next key x es s) ∙ h)
  ]
    where
      first : some x ≡ some e → x ≡ e
      first p = cc

  pub find_view-set_refcount_other :
      (q : List ℕ) (es : List ProcessViewEntry)
      → same_text key q ≡ false
      → find_view q (set_refcount key f es) ≡ find_view q es
  find_view-set_refcount_other q [] h = ap (find_view q) (set_refcount-nil key f)
  find_view-set_refcount_other q (x ∷ es) h = elim (text_cases x.key key) [
    | inl s ↦
        let here : same_text x.key key ≡ true = rw s (same_text_refl key) in
        let other : same_text x.key q ≡ false = rw s h in
        ap (find_view q) (set_here key x es f here)
        ∙ find_next q (counted_by f x) es other
        ∙ sym (find_next q x es other)
    | inr (s, t) ↦
        ap (find_view q) (set_next key x es f s) ∙ elim (Bool-cases (same_text x.key q)) [
          | inl u ↦ find_here q x (set_refcount key f es) u ∙ sym (find_here q x es u)
          | inr u ↦
              find_next q x (set_refcount key f es) u
              ∙ find_view-set_refcount_other q es h
              ∙ sym (find_next q x es u)
        ]
  ]

module _ (key : List ℕ) where
  pub find_view-erase_view : (es : List ProcessViewEntry) → find_view key (erase_view key es) ≡ none
  find_view-erase_view [] = ap (find_view key) (erase_view-nil key) ∙ find_view-nil key
  find_view-erase_view (x ∷ es) = elim (Bool-cases (same_text x.key key)) [
    | inl s ↦ ap (find_view key) (erase_here key x es s) ∙ find_view-erase_view es
    | inr s ↦
        ap (find_view key) (erase_next key x es s)
        ∙ find_next key x (erase_view key es) s
        ∙ find_view-erase_view es
  ]

  pub find_view-erase_view_other :
      (q : List ℕ) (es : List ProcessViewEntry)
      → same_text key q ≡ false
      → find_view q (erase_view key es) ≡ find_view q es
  find_view-erase_view_other q [] h = ap (find_view q) (erase_view-nil key)
  find_view-erase_view_other q (x ∷ es) h = elim (text_cases x.key key) [
    | inl s ↦
        let here : same_text x.key key ≡ true = rw s (same_text_refl key) in
        let other : same_text x.key q ≡ false = rw s h in
        ap (find_view q) (erase_here key x es here)
        ∙ find_view-erase_view_other q es h
        ∙ sym (find_next q x es other)
    | inr (s, t) ↦
        ap (find_view q) (erase_next key x es s) ∙ elim (Bool-cases (same_text x.key q)) [
          | inl u ↦ find_here q x (erase_view key es) u ∙ sym (find_here q x es u)
          | inr u ↦
              find_next q x (erase_view key es) u
              ∙ find_view-erase_view_other q es h
              ∙ sym (find_next q x es u)
        ]
  ]

  -- A new entry is found under its key, and hides no other.
  pub find_view-new :
      (e : ProcessViewEntry) (es : List ProcessViewEntry)
      → e.key ≡ key
      → find_view key (e ∷ es) ≡ some e
  find_view-new e es same = find_here key e es (rw same (same_text_refl key))

  pub find_view-new_other :
      (q : List ℕ) (e : ProcessViewEntry) (es : List ProcessViewEntry)
      → e.key ≡ key
      → same_text key q ≡ false
      → find_view q (e ∷ es) ≡ find_view q es
  find_view-new_other q e es same h = find_next q e es (rw same h)
