-- ===== src/Runtime/Copies.antt =====
-- What the handler sees under each copy policy, at once and later.
use xproc.Prelude.{
  ℕ, zero, suc, ◌-◌, ◌≤◌, ◌≡◌, refl, sym, ap, ◌∙◌, inl, inr, List, [], ◌∷◌, ◌++◌, arith, length,
  take, drop, replicate, Bool-cases, ltb, leb, if◌then◌else◌, take-append_length,
  drop-append_length, take_all, length-append, length-drop,
}
use xproc.Runtime.{
  CopyPolicy, reuse_buffer, zero_copy, sbo, sbo_threshold, in_array, in_vector, Memory,
  copy_to_reuse, bytes_at, dispatch, call,
}

take_front : (n : ℕ) (xs ys : List ℕ) → n ≤ length xs → take n (xs ++ ys) ≡ take n xs
take_front zero xs ys h = refl
take_front (suc n) [] ys h = absurd (omega arith)
take_front (suc n) (x ∷ xs) ys h = ap (◌∷◌ x) (take_front n xs ys (omega arith))

length-copy_to_reuse : (buf payload : List ℕ) → length buf ≤ length (copy_to_reuse buf payload)
unfolding copy_to_reuse
length-copy_to_reuse buf payload =
    let n : ℕ = length payload in
    let grown : List ℕ = if ltb (length buf) n then buf ++ replicate (n - length buf) 0 else buf in
    let size : length buf ≤ length grown =
      ground (arith, length-append buf (replicate (n - length buf) 0)) in
    omega (arith, length-append payload (drop n grown), length-drop n grown)

sbo-call :
    (payload : List ℕ) (n : ℕ) (mem : Memory)
    → length payload ≡ n
    → call
        (if leb n sbo_threshold
          then in_array (payload ++ replicate (sbo_threshold - n) 0) n
          else in_vector payload)
        mem
      ≡ payload
unfolding call
sbo-call payload n mem e = elim (Bool-cases (leb n sbo_threshold)) [
  | inl small ↦ rw (small, ← e) (take-append_length payload _)
  | inr large ↦ rw large
]

-- The message `p` stands at `ptr` in the ring.
abbrev pub Stands : List ℕ → ℕ → Memory → Type 0
Stands p ptr mem =
    (before : List ℕ) × (after : List ℕ) × (length before ≡ ptr)
    × (mem.ring ≡ before ++ (p ++ after))

Stands-take :
    (n : ℕ) (p : List ℕ) (ptr : ℕ) (mem : Memory)
    → Stands p ptr mem
    → n ≤ length p
    → bytes_at ptr n mem ≡ take n p
Stands-take n p ptr mem (before, after, at, e) h =
    ap (λ l. take n (drop ptr l)) e
    ∙ ap (λ i. take n (drop i (before ++ (p ++ after)))) (sym at)
    ∙ ap (take n) (drop-append_length before (p ++ after))
    ∙ take_front n p after h

Stands-bytes_at :
    (p : List ℕ) (ptr : ℕ) (mem : Memory) → Stands p ptr mem → bytes_at ptr (length p) mem ≡ p
Stands-bytes_at p ptr mem at =
    Stands-take (length p) p ptr mem at (omega arith) ∙ take_all (length p) p (omega arith)

-- An executor that runs the callable at once hands the handler exactly the message, under every
-- policy; the reuse buffer never shrinks.
pub dispatch-call :
    (policy : CopyPolicy) (p : List ℕ) (ptr : ℕ) (mem : Memory)
    → Stands p ptr mem
    → let (mem', task) = dispatch policy ptr (length p) mem in
      (call task mem' ≡ p) × (length mem.reuse_buf ≤ length mem'.reuse_buf)
unfolding dispatch call copy_to_reuse
dispatch-call reuse_buffer p ptr mem at =
    rw (Stands-bytes_at p ptr mem at) (take-append_length p _, length-copy_to_reuse mem.reuse_buf p)
dispatch-call zero_copy p ptr mem at = (Stands-bytes_at p ptr mem at, omega arith)
dispatch-call sbo p ptr mem at =
    let e = Stands-bytes_at p ptr mem at in
    (sbo-call (bytes_at ptr (length p) mem) (length p) mem (ap length e) ∙ e, omega arith)

-- What a callable does that runs late, over a memory `later` that anything may have happened to.
-- Under sbo it hands the handler the message p, whatever `later` is. Under zero_copy it hands over p
-- as long as p still stands at its position in the ring, and the first bytes of whatever else stands
-- there then, if that is at least as long. Under reuse_buffer it hands over, after the dispatch of
-- another message q that is at least as long and fits the buffer (which is else reallocated), the first
-- bytes of q.
pub dispatch_deferred :
    (p q r : List ℕ) (ptr ptr2 : ℕ) (mem refilled later : Memory)
    → Stands p ptr mem
    → length p ≤ length q
    → length p ≤ length r
    → refilled.reuse_buf ≡ (dispatch reuse_buffer ptr (length p) mem).0.reuse_buf
    → Stands q ptr2 refilled
    → length q ≤ length refilled.reuse_buf
    → Stands r ptr later
    → (call (dispatch sbo ptr (length p) mem).1 later ≡ p)
      × (call (dispatch zero_copy ptr (length p) mem).1 later ≡ take (length p) r)
      × (call
            (dispatch reuse_buffer ptr (length p) mem).1
            (dispatch reuse_buffer ptr2 (length q) refilled).0
          ≡ take (length p) q)
unfolding dispatch call copy_to_reuse
dispatch_deferred p q r ptr ptr2 mem refilled later at long longer same at2 fits at3 =
    let e = Stands-bytes_at p ptr mem at in
    (
      sbo-call (bytes_at ptr (length p) mem) (length p) later (ap length e) ∙ e,
      Stands-take (length p) r ptr later at3 longer,
      ap (λ b. take (length p) (copy_to_reuse refilled.reuse_buf b))
            (Stands-bytes_at q ptr2 refilled at2)
          ∙ take_front (length p) q _ long,
    )
