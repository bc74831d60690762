-- ===== src/Socket/Sends.antt =====
-- socket_producer: what a send puts on the wire, on every outcome.
use xproc.Prelude.{
  ℕ, ◌+◌, ◌-◌, ◌≤◌, ◌≡◌, refl, sym, ap, ◌∙◌, ◌⊎◌, inl, inr, true, false, List, [], ◌∷◌, ◌++◌, none,
  some, arith, length, replicate, Bool-cases, ltb, ◌||◌, if◌then◌else◌, length-append,
}
use mathlib.Core.List.{append_assoc, append-nil}
use xproc.Errors.{ok, throw, runtime_error, send_failed}
use xproc.Options.{fixed, varlen, is_empty, is_fixed}
use xproc.Socket.Wire.{k_max_varlen, store_le32}
use xproc.Socket.Stream.{
  Outcome, done, failed, blocked, AllMove, write_full_sock, write_full_sock_prefix,
  write_full_sock_done, write_full_sock_script,
}
use xproc.Socket.Producer.{
  SocketProducer, Run, finish_write, continue, write_full, send_fixed_bytes, send_fixed_sized,
  send_varlen,
}

-- The frame of a message: its length and its bytes, or its bytes padded to the item size.
abbrev pub varlen_frame : List ℕ → List ℕ
varlen_frame payload = store_le32 (length payload) ++ payload

abbrev pub fixed_frame : ℕ → List ℕ → List ℕ
fixed_frame item_size payload = payload ++ replicate (item_size - length payload) 0

abbrev pub IsPrefix : List ℕ → List ℕ → Type 0
IsPrefix xs ys = (rest : List ℕ) × (xs ++ rest ≡ ys)

-- What a call that writes `frame` did: it put a prefix of the frame on the wire behind what was
-- there. If it returned, that is the whole frame and the socket is as it was; if it threw, the
-- error is that of a failed send and the socket is closed; else it still waits.
pub record Wrote (p : SocketProducer) (frame : List ℕ) (r : Run) : Type 0 where
  pub part : List ℕ
  pub appended : r.producer.wire ≡ p.wire ++ part
  pub in_order : IsPrefix part frame
  pub same_opts : r.producer.opts ≡ p.opts
  pub outcome :
      ((r.result ≡ some (ok tt)) × (part ≡ frame) × (r.producer.sock ≡ p.sock))
      ⊎ ((r.result ≡ some (throw (runtime_error send_failed))) × (r.producer.sock ≡ false))
      ⊎ ((r.result ≡ none) × (r.producer.sock ≡ p.sock))

finish_write-Wrote :
    (p : SocketProducer) (frame wire script : List ℕ) (o : Outcome)
    → IsPrefix wire frame
    → (o ≡ done → wire ≡ frame)
    → Wrote p frame (finish_write o (record p { wire = p.wire ++ wire }) script)
finish_write-Wrote p frame wire script done pre whole = record {
  part = wire;
  appended = refl;
  in_order = pre;
  same_opts = refl;
  outcome = inl (refl, whole refl, refl);
}
finish_write-Wrote p frame wire script failed pre whole = record {
  part = wire;
  appended = refl;
  in_order = pre;
  same_opts = refl;
  outcome = inr (inl (refl, refl));
}
finish_write-Wrote p frame wire script blocked pre whole = record {
  part = wire;
  appended = refl;
  in_order = pre;
  same_opts = refl;
  outcome = inr (inr (refl, refl));
}

pub write_full-Wrote :
    (p : SocketProducer) (script bytes : List ℕ) → Wrote p bytes (write_full p script bytes)
unfolding write_full
write_full-Wrote p script bytes = elim (Bool-cases (p.sock || is_empty bytes)) [
  | inl open_sock ↦
      let (pre, whole) = write_full_sock_prefix script bytes in
      rw open_sock (
        finish_write-Wrote p bytes (write_full_sock script bytes).wire
          (write_full_sock script bytes).script (write_full_sock script bytes).outcome pre whole)
  | inr shut ↦ rw shut (record {
    part = [];
    appended = sym (append-nil p.wire);
    in_order = (bytes, refl);
    same_opts = refl;
    outcome = inr (inl (refl, refl));
  })
]

continue-eq-second :
    (first second : Run) → first.result ≡ some (ok tt) → continue first.result first second ≡ second
continue-eq-second first second e = ground arith

continue-eq-first :
    (first second : Run)
    → (first.result ≡ some (throw (runtime_error send_failed))) ⊎ (first.result ≡ none)
    → continue first.result first second ≡ first
continue-eq-first first second e = ground arith

-- Two writes in a row write the two frames in a row.
both-Wrote :
    (p : SocketProducer) (front back : List ℕ) (first second : Run)
    → Wrote p front first
    → Wrote first.producer back second
    → Wrote p (front ++ back) (continue first.result first second)
both-Wrote p front back first second a b = elim a.outcome [
  | inl (e, whole, same) ↦ rw (continue-eq-second first second e) (record {
    part = front ++ b.part;
    appended = b.appended ∙ rw (a.appended, whole) (append_assoc p.wire front b.part);
    in_order =
        let (rest, q) = b.in_order in
        (rest, append_assoc front b.part rest ∙ ap (λ l. front ++ l) q);
    same_opts = b.same_opts ∙ a.same_opts;
    outcome = elim b.outcome [
      | inl (r, w, k) ↦ inl (r, ap (λ l. front ++ l) w, k ∙ same)
      | inr (inl q) ↦ inr (inl q)
      | inr (inr (r, k)) ↦ inr (inr (r, k ∙ same))
    ];
  })
  | inr (inl (e, shut)) ↦
      rw (continue-eq-first first second (inl e)) (stopped (inr (inl (e, shut))))
  | inr (inr (e, same)) ↦
      rw (continue-eq-first first second (inr e)) (stopped (inr (inr (e, same))))
]
  where
    stopped :
        ((first.result ≡ some (ok tt)) × (a.part ≡ front ++ back) × (first.producer.sock ≡ p.sock))
          ⊎ ((first.result ≡ some (throw (runtime_error send_failed)))
              × (first.producer.sock ≡ false))
          ⊎ ((first.result ≡ none) × (first.producer.sock ≡ p.sock))
        → Wrote p (front ++ back) first
    stopped o = record {
      part = a.part;
      appended = a.appended;
      in_order =
          let (rest, q) = a.in_order in
          (rest ++ back, sym (append_assoc a.part rest back) ∙ ap (λ l. l ++ back) q);
      same_opts = a.same_opts;
      outcome = o;
    }

skip-Wrote :
    (p : SocketProducer) (front : List ℕ) (first : Run)
    → Wrote p front first
    → Wrote p (front ++ []) (continue first.result first first)
skip-Wrote p front first a = rw append-nil (rw (continue_same first) a)
  where
    continue_same : (r : Run) → continue r.result r r ≡ r
    continue_same r = ground arith

varlen_write-Wrote :
    (p : SocketProducer) (script payload : List ℕ)
    → let first = write_full p script (store_le32 (length payload)) in
      Wrote p (varlen_frame payload) (
        continue first.result first
          (if is_empty payload then first else write_full first.producer first.script payload))
varlen_write-Wrote p script [] =
    let first = write_full p script (store_le32 0) in
    skip-Wrote p (store_le32 0) first (write_full-Wrote p script (store_le32 0))
varlen_write-Wrote p script (b ∷ bs) =
    let prefix : List ℕ = store_le32 (length (b ∷ bs)) in
    let first = write_full p script prefix in
    both-Wrote p prefix (b ∷ bs) first (write_full first.producer first.script (b ∷ bs))
      (write_full-Wrote p script prefix) (write_full-Wrote first.producer first.script (b ∷ bs))

-- A variable-length send on a varlen producer, of a message of at most k_max_varlen bytes, writes
-- the frame of the message or a prefix of it: all of it if it returns, and if it throws the socket
-- is closed, so that nothing can follow a torn frame.
pub send_varlen-Wrote :
    (p : SocketProducer) (script payload : List ℕ)
    → p.opts.type ≡ varlen
    → length payload ≤ k_max_varlen
    → Wrote p (varlen_frame payload) (send_varlen p script payload)
unfolding send_varlen
send_varlen-Wrote p script payload v h =
    let small : ltb k_max_varlen (length payload) ≡ false = ground arith in
    let kind : is_fixed p.opts.type ≡ false = ap is_fixed v in
    rw (kind, small) (varlen_write-Wrote p script payload)

-- Both fixed sends on a fixed producer, of a payload of at most item_size bytes, write the payload
-- padded with zeros to item_size bytes, or a prefix of that, as for a variable-length send.
pub send_fixed-Wrote :
    (p : SocketProducer) (script payload : List ℕ)
    → p.opts.type ≡ fixed
    → length payload ≤ p.opts.item_size
    → Wrote p (fixed_frame p.opts.item_size payload) (send_fixed_bytes p script payload)
      × Wrote p (fixed_frame p.opts.item_size payload) (send_fixed_sized p script payload)
unfolding send_fixed_bytes send_fixed_sized
send_fixed-Wrote p script payload f h =
    let fits : ltb p.opts.item_size (length payload) ≡ false = ground arith in
    let kind : is_fixed p.opts.type ≡ true = ap is_fixed f in
    rw (kind, fits)
      (
        write_full-Wrote p script (fixed_frame p.opts.item_size payload),
        write_full-Wrote p script (fixed_frame p.opts.item_size payload),
      )

write_full_done :
    (p : SocketProducer) (script bytes : List ℕ)
    → p.sock ≡ true
    → AllMove script
    → length bytes ≤ length script
    → let r = write_full p script bytes in
      (r.result ≡ some (ok tt))
      × (r.producer.sock ≡ true)
      × AllMove r.script
      × (length script ≤ length r.script + length bytes)
unfolding write_full
write_full_done p script bytes s m h =
    let open_sock : p.sock || is_empty bytes ≡ true = ground arith in
    let ends = write_full_sock_done script bytes m h in
    let (moves, used) = write_full_sock_script script bytes m h in
    rw (open_sock, ends) (refl, s, moves, used)

-- On a connected producer a variable-length send of an allowed message returns, if every ::send
-- moves a byte, after at most as many of them as the frame has bytes; the socket stays connected.
pub send_varlen_returns :
    (p : SocketProducer) (script payload : List ℕ)
    → p.opts.type ≡ varlen
    → p.sock ≡ true
    → length payload ≤ k_max_varlen
    → AllMove script
    → length (varlen_frame payload) ≤ length script
    → ((send_varlen p script payload).result ≡ some (ok tt))
      × ((send_varlen p script payload).producer.sock ≡ true)
unfolding send_varlen
send_varlen_returns p script payload v s h m enough =
    let kind : is_fixed p.opts.type ≡ false = ap is_fixed v in
    let small : ltb k_max_varlen (length payload) ≡ false = ground arith in
    let prefix : List ℕ = store_le32 (length payload) in
    let total = length-append prefix payload in
    let (r, k, moves, used) = write_full_done p script prefix s m (omega arith) in
    rw (kind, small)
      (rw (continue-eq-second (write_full p script prefix) _ r)
        (second payload (write_full p script prefix) r k moves (omega arith)))
  where
    second :
        (payload : List ℕ) (first : Run)
        → first.result ≡ some (ok tt)
        → first.producer.sock ≡ true
        → AllMove first.script
        → length payload ≤ length first.script
        → let last =
            if is_empty payload then first else write_full first.producer first.script payload in
          (last.result ≡ some (ok tt)) × (last.producer.sock ≡ true)
    second [] first r k moves e = (r, k)
    second (b ∷ bs) first r k moves e =
        let (r', k', _, _) = write_full_done first.producer first.script (b ∷ bs) k moves e in
        (r', k')
