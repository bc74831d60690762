-- ===== src/Socket/Stream.antt =====
-- src/ipc/socket_channel.cpp: the loops of write_full_sock and read_exact_sock over ::send and
-- ::recv. The kernel chooses how many bytes each call moves: a script holds its choices in order, 0
-- for a result that is not positive and n + 1 for a call that moves up to n + 1 bytes, never more
-- than were asked for. A call past the script's end does not return.
use xproc.Prelude.{
  ℕ, zero, suc, ◌+◌, ◌-◌, ◌≤◌, ◌<◌, ◌≡◌, refl, ◌∙◌, List, [], ◌∷◌, ◌++◌, min, arith, length, take,
  drop, All, length-drop, take-append-drop, take-split, drop-split,
}
use mathlib.Core.List.{append_assoc}

pub data Outcome : Type 0 where
  done failed blocked : Outcome

pub record Sent : Type 0 where
  pub outcome : Outcome
  pub wire : List ℕ
  pub script : List ℕ

pub record Received : Type 0 where
  pub outcome : Outcome
  pub payload : List ℕ
  pub incoming : List ℕ
  pub script : List ℕ

abbrev pub sent_before : List ℕ → Sent → Sent
sent_before xs s = record s { wire = xs ++ s.wire }

abbrev pub received_before : List ℕ → Received → Received
received_before xs r = record r { payload = xs ++ r.payload }

-- `while (left > 0)`: a result that is not positive throws, another moves on by that many bytes.
unfoldable pub write_full_sock : List ℕ → List ℕ → Sent
write_full_sock script [] = record { outcome = done; wire = []; script = script }
write_full_sock [] (b ∷ bs) = record { outcome = blocked; wire = []; script = [] }
write_full_sock (zero ∷ script) (b ∷ bs) = record { outcome = failed; wire = []; script = script }
write_full_sock (suc n ∷ script) (b ∷ bs) =
    let r = min (suc n) (length (b ∷ bs)) in
    sent_before (take r (b ∷ bs)) (write_full_sock script (drop r (b ∷ bs)))

-- `incoming` is what the peer has sent and not yet been read; behind it the peer has closed, and
-- ::recv returns 0.
unfoldable pub read_exact_sock : List ℕ → List ℕ → ℕ → Received
read_exact_sock script incoming zero = record {
  outcome = done;
  payload = [];
  incoming = incoming;
  script = script;
}
read_exact_sock [] incoming (suc left) = record {
  outcome = blocked;
  payload = [];
  incoming = incoming;
  script = [];
}
read_exact_sock (zero ∷ script) incoming (suc left) = record {
  outcome = failed;
  payload = [];
  incoming = incoming;
  script = script;
}
read_exact_sock (suc n ∷ script) [] (suc left) = record {
  outcome = failed;
  payload = [];
  incoming = [];
  script = script;
}
read_exact_sock (suc n ∷ script) (b ∷ bs) (suc left) =
    let r = min (suc n) (min (suc left) (length (b ∷ bs))) in
    received_before (take r (b ∷ bs)) (read_exact_sock script (drop r (b ∷ bs)) (suc left - r))

-- Every call moves a byte at least.
abbrev pub AllMove : List ℕ → Type 0
AllMove = All (λ n. 0 < n)

-- What reaches the wire is a prefix of the data, in order, and all of it if the loop ends.
pub write_full_sock_prefix :
    (script bytes : List ℕ)
    → let s = write_full_sock script bytes in
      ((rest : List ℕ) × (s.wire ++ rest ≡ bytes)) × (s.outcome ≡ done → s.wire ≡ bytes)
unfolding write_full_sock
write_full_sock_prefix script [] = (([], refl), λ h. refl)
write_full_sock_prefix [] (b ∷ bs) = ((b ∷ bs, refl), λ h. cc)
write_full_sock_prefix (zero ∷ script) (b ∷ bs) = ((b ∷ bs, refl), λ h. cc)
write_full_sock_prefix (suc n ∷ script) (b ∷ bs) =
    let r = min (suc n) (length (b ∷ bs)) in
    let ((rest, prefix), whole) = write_full_sock_prefix script (drop r (b ∷ bs)) in
    (
      (rest, append_assoc (take r (b ∷ bs)) _ rest ∙ rw prefix (take-append-drop r (b ∷ bs))),
      λ h. rw (whole h) (take-append-drop r (b ∷ bs)),
    )

-- If every call moves a byte, as many calls as there are bytes are enough.
pub write_full_sock_done :
    (script bytes : List ℕ)
    → AllMove script
    → length bytes ≤ length script
    → (write_full_sock script bytes).outcome ≡ done
unfolding write_full_sock
write_full_sock_done script [] m h = refl
write_full_sock_done [] (b ∷ bs) m h = absurd (omega arith)
write_full_sock_done (zero ∷ script) (b ∷ bs) m h = absurd (omega arith)
write_full_sock_done (suc n ∷ script) (b ∷ bs) m h =
    write_full_sock_done script (drop (min (suc n) (length (b ∷ bs))) (b ∷ bs)) m.1
      (omega (arith, length-drop (min (suc n) (length (b ∷ bs))) (b ∷ bs)))

-- A read that ends has the next `len` bytes, however the kernel split them up, and leaves the rest.
pub read_exact_sock_done :
    (script incoming : List ℕ) (len : ℕ)
    → (read_exact_sock script incoming len).outcome ≡ done
    → ((read_exact_sock script incoming len).payload ≡ take len incoming)
      × ((read_exact_sock script incoming len).incoming ≡ drop len incoming)
      × (len ≤ length incoming)
unfolding read_exact_sock
read_exact_sock_done script incoming zero h = (refl, refl, omega arith)
read_exact_sock_done [] incoming (suc left) h = cc
read_exact_sock_done (zero ∷ script) incoming (suc left) h = cc
read_exact_sock_done (suc n ∷ script) [] (suc left) h = cc
read_exact_sock_done (suc n ∷ script) (b ∷ bs) (suc left) h =
    let r = min (suc n) (min (suc left) (length (b ∷ bs))) in
    let (got, left', enough) = read_exact_sock_done script (drop r (b ∷ bs)) (suc left - r) h in
    (
      rw got (take-split r (suc left) (b ∷ bs) (omega arith)),
      left' ∙ drop-split r (suc left) (b ∷ bs) (omega arith),
      omega (arith, length-drop r (b ∷ bs)),
    )

-- With enough bytes to come and calls that move, the read ends.
pub read_exact_sock_ends :
    (script incoming : List ℕ) (len : ℕ)
    → AllMove script
    → len ≤ length script
    → len ≤ length incoming
    → (read_exact_sock script incoming len).outcome ≡ done
unfolding read_exact_sock
read_exact_sock_ends script incoming zero m h e = refl
read_exact_sock_ends [] incoming (suc left) m h e = absurd (omega arith)
read_exact_sock_ends (zero ∷ script) incoming (suc left) m h e = absurd (omega arith)
read_exact_sock_ends (suc n ∷ script) [] (suc left) m h e = absurd (omega arith)
read_exact_sock_ends (suc n ∷ script) (b ∷ bs) (suc left) m h e =
    let r = min (suc n) (min (suc left) (length (b ∷ bs))) in
    read_exact_sock_ends script (drop r (b ∷ bs)) (suc left - r) m.1 (omega arith)
      (omega (arith, length-drop r (b ∷ bs)))

-- The choices that a write leaves still move, and it uses at most one for each byte.
pub write_full_sock_script :
    (script bytes : List ℕ)
    → AllMove script
    → length bytes ≤ length script
    → AllMove (write_full_sock script bytes).script
      × (length script ≤ length (write_full_sock script bytes).script + length bytes)
unfolding write_full_sock
write_full_sock_script script [] m h = (m, omega arith)
write_full_sock_script [] (b ∷ bs) m h = absurd (omega arith)
write_full_sock_script (zero ∷ script) (b ∷ bs) m h = absurd (omega arith)
write_full_sock_script (suc n ∷ script) (b ∷ bs) m h =
    let r = min (suc n) (length (b ∷ bs)) in
    let (moves, used) =
      write_full_sock_script script (drop r (b ∷ bs)) m.1 (omega (arith, length-drop r (b ∷ bs))) in
    (moves, omega (arith, length-drop r (b ∷ bs)))

-- The choices that a read leaves still move, and it uses at most one for each byte.
pub read_exact_sock_script :
    (script incoming : List ℕ) (len : ℕ)
    → AllMove script
    → len ≤ length script
    → len ≤ length incoming
    → AllMove (read_exact_sock script incoming len).script
      × (length script ≤ length (read_exact_sock script incoming len).script + len)
unfolding read_exact_sock
read_exact_sock_script script incoming zero m h e = (m, omega arith)
read_exact_sock_script [] incoming (suc left) m h e = absurd (omega arith)
read_exact_sock_script (zero ∷ script) incoming (suc left) m h e = absurd (omega arith)
read_exact_sock_script (suc n ∷ script) [] (suc left) m h e = absurd (omega arith)
read_exact_sock_script (suc n ∷ script) (b ∷ bs) (suc left) m h e =
    let r = min (suc n) (min (suc left) (length (b ∷ bs))) in
    let (moves, used) =
      read_exact_sock_script script (drop r (b ∷ bs)) (suc left - r) m.1 (omega arith)
        (omega (arith, length-drop r (b ∷ bs))) in
    (moves, omega arith)
