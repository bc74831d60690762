-- ===== src/Socket/Frames.antt =====
-- The reads of socket_consumer against the frames of socket_producer.
use xproc.Prelude.{
  ℕ, zero, suc, ◌+◌, ◌/◌, ◌%◌, ◌≤◌, ◌<◌, ◌≡◌, refl, sym, ap, ◌∙◌, inl, inr, false, List, [], ◌∷◌,
  ◌++◌, arith, length, replicate, take, drop, All, Bool-cases, ltb, ◌==◌, length-append,
  length-take, take-append_length, drop-append_length, take-append-drop, length-replicate,
}
use mathlib.Core.List.{append_assoc}
use xproc.Options.{fixed, varlen}
use xproc.Socket.Wire.{
  k_max_varlen, IsByte, store_le32, load_le32, store_le32_lem, load-store_le32, store-load_le32,
}
use xproc.Socket.Stream.{
  done, Received, AllMove, read_exact_sock, read_exact_sock_done, read_exact_sock_ends,
  read_exact_sock_script,
}
use xproc.Socket.Sends.{varlen_frame}
use xproc.Socket.Consumer.{Read, got, broken, as_read, read_payload, prefix_length, read_message}

pub as_read_got :
    (r : Received) (p rest : List ℕ)
    → as_read r ≡ got p rest
    → (r.outcome ≡ done) × (r.payload ≡ p) × (r.incoming ≡ rest)
as_read_got r p rest h = ground arith

read_exact_got :
    (script incoming : List ℕ) (len : ℕ) (p rest : List ℕ)
    → as_read (read_exact_sock script incoming len) ≡ got p rest
    → (incoming ≡ p ++ rest) × (length p ≡ len)
read_exact_got script incoming len p rest h =
    let (o, e, f) = as_read_got (read_exact_sock script incoming len) p rest h in
    let (got_p, left, enough) = read_exact_sock_done script incoming len o in
    let first : p ≡ take len incoming = sym e ∙ got_p in
    let second : rest ≡ drop len incoming = sym f ∙ left in
    (
      rw (first, second) (sym (take-append-drop len incoming)),
      rw first (length-take len incoming ∙ omega arith),
    )

read_payload_got :
    (len : ℕ) (script incoming p rest : List ℕ)
    → read_payload len script incoming ≡ got p rest
    → (incoming ≡ p ++ rest) × (length p ≡ len) × (len ≤ k_max_varlen)
unfolding read_payload
read_payload_got len script incoming p rest h = elim (Bool-cases (len == 0)) [
  | inl empty ↦ ground arith
  | inr more ↦
      let inner : as_read (read_exact_sock script incoming len) ≡ got p rest = ground arith in
      let (e, l) = read_exact_got script incoming len p rest inner in (e, l, ground arith)
]

split_prefix :
    (incoming script p rest : List ℕ)
    → All IsByte incoming
    → 4 ≤ length incoming
    → read_payload (prefix_length (take 4 incoming)) script (drop 4 incoming) ≡ got p rest
    → (incoming ≡ varlen_frame p ++ rest) × (length p ≤ k_max_varlen)
split_prefix [] script p rest b e q = absurd (omega arith)
split_prefix (b0 ∷ []) script p rest b e q = absurd (omega arith)
split_prefix (b0 ∷ b1 ∷ []) script p rest b e q = absurd (omega arith)
split_prefix (b0 ∷ b1 ∷ b2 ∷ []) script p rest b e q = absurd (omega arith)
split_prefix (b0 ∷ b1 ∷ b2 ∷ b3 ∷ tail) script p rest (i0, (i1, (i2, (i3, i)))) e q =
    let (whole, l, small) = read_payload_got (load_le32 b0 b1 b2 b3) script tail p rest q in
    (rw (l, store-load_le32 b0 b1 b2 b3 i0 i1 i2 i3, whole), omega arith)

-- A message that is read off a stream of bytes is the payload of a whole frame at its front, and
-- the rest of the stream is left.
pub read_varlen_got :
    (n : ℕ) (script incoming p rest : List ℕ)
    → All IsByte incoming
    → read_message varlen n script incoming ≡ got p rest
    → (incoming ≡ varlen_frame p ++ rest) × (length p ≤ k_max_varlen)
unfolding read_message
read_varlen_got n script incoming p rest bytes h =
    let r = read_exact_sock script incoming 4 in
    let o : r.outcome ≡ done = ground arith in
    let inner : read_payload (prefix_length r.payload) r.script r.incoming ≡ got p rest =
      ground arith in
    let (taken, left, enough) = read_exact_sock_done script incoming 4 o in
    split_prefix incoming r.script p rest bytes enough (rw (taken, left) at inner)

-- The same for a fixed channel: the message has item_size bytes.
pub read_fixed_got :
    (n : ℕ) (script incoming p rest : List ℕ)
    → read_message fixed n script incoming ≡ got p rest
    → (incoming ≡ p ++ rest) × (length p ≡ n)
unfolding read_message
read_fixed_got n script incoming p rest h = read_exact_got script incoming n p rest h

-- A read of the whole of `p` off a stream that begins with it.
read_exact_ends :
    (script p rest : List ℕ)
    → AllMove script
    → length p ≤ length script
    → as_read (read_exact_sock script (p ++ rest) (length p)) ≡ got p rest
read_exact_ends script p rest m h =
    let o =
      read_exact_sock_ends script (p ++ rest) (length p) m h
        (omega (arith, length-append p rest)) in
    let (taken, left, _) = read_exact_sock_done script (p ++ rest) (length p) o in
    rw o (rw (taken, left, take-append_length, drop-append_length))

read_payload_ends :
    (script p rest : List ℕ)
    → AllMove script
    → length p ≤ length script
    → length p ≤ k_max_varlen
    → read_payload (length p) script (p ++ rest) ≡ got p rest
unfolding read_payload
read_payload_ends script [] rest m h s = refl
read_payload_ends script (b ∷ bs) rest m h s =
    let small : ltb k_max_varlen (length (b ∷ bs)) ≡ false = ground arith in
    let more : length (b ∷ bs) == 0 ≡ false = ground arith in
    rw (small, more) (read_exact_ends script (b ∷ bs) rest m h)

read_prefixed :
    (n b0 b1 b2 b3 len : ℕ) (script tail : List ℕ) (done_read : Read)
    → AllMove script
    → 4 ≤ length script
    → load_le32 b0 b1 b2 b3 ≡ len
    → ((script' : List ℕ)
        → AllMove script'
        → length script ≤ length script' + 4
        → read_payload len script' tail ≡ done_read)
    → read_message varlen n script (b0 ∷ b1 ∷ b2 ∷ b3 ∷ tail) ≡ done_read
unfolding read_message
read_prefixed n b0 b1 b2 b3 len script tail done_read m h l k =
    let incoming : List ℕ = b0 ∷ b1 ∷ b2 ∷ b3 ∷ tail in
    let o = read_exact_sock_ends script incoming 4 m h (omega arith) in
    let (taken, left, _) = read_exact_sock_done script incoming 4 o in
    let (moves, used) = read_exact_sock_script script incoming 4 m h (omega arith) in
    rw (o, read_message)
      (rw (taken, left, l) (k (read_exact_sock script incoming 4).script moves used))

-- The frame of an allowed message at the front of the stream is read whole, if every ::recv moves a
-- byte and there are as many as the frame has bytes.
pub read_varlen_ends :
    (n : ℕ) (script p rest : List ℕ)
    → AllMove script
    → length (varlen_frame p) ≤ length script
    → length p ≤ k_max_varlen
    → read_message varlen n script (varlen_frame p ++ rest) ≡ got p rest
read_varlen_ends n script p rest m h s =
    let l : ℕ = length p in
    let four : length (store_le32 l) ≡ 4 = rw (store_le32_lem l) in
    let total = length-append (store_le32 l) p in
    rw (append_assoc, store_le32_lem l)
      (read_prefixed n (l % 256) (l / 256 % 256) (l / 65536 % 256) (l / 16777216 % 256) l script
        (p ++ rest) (got p rest) m (omega arith) (load-store_le32 l (omega arith))
        (λ script' m' u. read_payload_ends script' p rest m' (omega arith) s))

pub read_fixed_ends :
    (script p rest : List ℕ)
    → AllMove script
    → length p ≤ length script
    → read_message fixed (length p) script (p ++ rest) ≡ got p rest
unfolding read_message
read_fixed_ends script p rest m h = read_exact_ends script p rest m h

-- A length above k_max_varlen in the prefix breaks the connection, whatever follows.
pub read_varlen_too_large :
    (n b0 b1 b2 b3 : ℕ) (script tail : List ℕ)
    → AllMove script
    → 4 ≤ length script
    → k_max_varlen < load_le32 b0 b1 b2 b3
    → read_message varlen n script (b0 ∷ b1 ∷ b2 ∷ b3 ∷ tail) ≡ broken tail
read_varlen_too_large n b0 b1 b2 b3 script tail m h big =
    read_prefixed n b0 b1 b2 b3 (load_le32 b0 b1 b2 b3) script tail (broken tail) m h refl
      (λ script' m' u. unfold read_payload in ground arith)

ones : ℕ → List ℕ
ones n = replicate n 1

ones-AllMove : (n : ℕ) → AllMove (ones n)
unfolding ones
ones-AllMove zero = tt
ones-AllMove (suc n) = (omega arith, ones-AllMove n)

length-ones : (n : ℕ) → length (ones n) ≡ n
unfolding ones
length-ones n = length-replicate n 1

-- No frame is a prefix of another one: a stream splits into a first frame and a rest in one way.
pub varlen_frame-injective :
    (p q rest rest' : List ℕ)
    → length p ≤ k_max_varlen
    → length q ≤ k_max_varlen
    → varlen_frame p ++ rest ≡ varlen_frame q ++ rest'
    → (p ≡ q) × (rest ≡ rest')
varlen_frame-injective p q rest rest' hp hq e =
    let m : ℕ = length (varlen_frame p) + length (varlen_frame q) in
    let a = read_varlen_ends 0 (ones m) p rest (ones-AllMove m) (omega (arith, length-ones m)) hp in
    let b =
      read_varlen_ends 0 (ones m) q rest' (ones-AllMove m) (omega (arith, length-ones m)) hq in
    let same : got p rest ≡ got q rest' = sym a ∙ ap (read_message varlen 0 (ones m)) e ∙ b in
    (cc, cc)
