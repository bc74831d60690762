-- ===== src/Socket/Delivery.antt =====
-- From the calls of a socket_producer to the handler of a socket_consumer, over one connection.
use xproc.Prelude.{
  ℕ, ◌≤◌, ◌≡◌, refl, sym, ap, ◌∙◌, ◌⊎◌, inl, inr, Bool, true, false, List, [], ◌∷◌, ◌++◌, none,
  some, arith, length, All, Option-cases, length-append,
}
use mathlib.Core.List.{append_assoc, append-nil}
use xproc.Errors.{
  Exception, ok, throw, runtime_error, layout_exception, logic_error, invalid_argument,
}
use xproc.Options.{varlen, TransportOptions}
use xproc.Socket.Wire.{k_max_varlen, IsByte}
use xproc.Socket.Stream.{AllMove}
use xproc.Socket.Producer.{SocketProducer, Run, send_varlen}
use xproc.Socket.Sends.{varlen_frame, Wrote, send_varlen-Wrote, send_varlen_returns}
use xproc.Socket.Consumer.{
  SocketConsumer, Polled, Kernel, Handler, Read, got, broken, waiting, read_message, poll_impl,
}
use xproc.Socket.Frames.{read_varlen_got, read_varlen_ends, varlen_frame-injective}

-- A send: the kernel's choices for it, and the message.
pub record Send : Type 0 where
  pub script : List ℕ
  pub payload : List ℕ

abbrev pub frames : List (List ℕ) → List ℕ
frames [] = []
frames (m ∷ ms) = varlen_frame m ++ frames ms

-- The sends in turn, and whether all of them returned.
unfoldable pub send_all : SocketProducer → List Send → SocketProducer × Bool
send_all p [] = (p, true)
send_all p (s ∷ rest) =
    let r = send_varlen p s.script s.payload in
    let after = send_all r.producer rest in
    elim (r.result) [ some (ok u) ↦ after | _ ↦ (r.producer, false) ]

abbrev pub payloads : List Send → List (List ℕ)
payloads [] = []
payloads (s ∷ rest) = s.payload ∷ payloads rest

-- Every message is allowed, and the kernel takes its frame.
abbrev pub Sendable : Send → Type 0
Sendable s =
    (length s.payload ≤ k_max_varlen)
    × AllMove s.script
    × (length (varlen_frame s.payload) ≤ length s.script)

-- One poll for each message: it is readable, and the kernel hands its frame over.
abbrev pub Serves : List Kernel → List (List ℕ) → Type 0
Serves [] [] = Unit
Serves (k ∷ ks) (m ∷ ms) =
    (k.readable ≡ true)
    × AllMove k.script
    × (length (varlen_frame m) ≤ length k.script)
    × Serves ks ms
Serves _ _ = ⊥

-- The polls in turn, and the messages that the handler was called with.
unfoldable pub poll_all : List Kernel → Handler → SocketConsumer → SocketConsumer × List (List ℕ)
poll_all [] handler c = (c, [])
poll_all (k ∷ ks) handler c =
    let r = poll_impl k handler c in
    let (c', ms) = poll_all ks handler r.consumer in
    (c', elim (r.delivered) [ none ↦ ms | some m ↦ m ∷ ms ])

-- Every send of allowed messages on a connected varlen producer returns if the kernel takes the
-- bytes, and the wire then holds the frames of the messages in order.
pub send_all-frames :
    (p : SocketProducer) (sends : List Send)
    → p.opts.type ≡ varlen
    → p.sock ≡ true
    → All Sendable sends
    → ((send_all p sends).1 ≡ true)
      × ((send_all p sends).0.wire ≡ p.wire ++ frames (payloads sends))
unfolding send_all
send_all-frames p [] v s h = (refl, sym (append-nil p.wire))
send_all-frames p (m ∷ ms) v s ((small, moves, enough), rest) =
    let r : Run = send_varlen p m.script m.payload in
    let (returns, connected) = send_varlen_returns p m.script m.payload v s small moves enough in
    let w : Wrote p (varlen_frame m.payload) r = send_varlen-Wrote p m.script m.payload v small in
    let kind : r.producer.opts.type ≡ varlen =
      ap (λ (o : TransportOptions). o.type) w.same_opts ∙ v in
    let (all, wire) = send_all-frames r.producer ms kind connected rest in
    let here : r.producer.wire ≡ p.wire ++ varlen_frame m.payload = wrote_all returns w in
    rw (returns, send_all)
      (
        all,
        wire
            ∙ ap (λ l. l ++ frames (payloads ms)) here
            ∙ append_assoc p.wire (varlen_frame m.payload) (frames (payloads ms)),
      )
  where
    wrote_all :
        {p : SocketProducer} {frame : List ℕ} {r : Run}
        → r.result ≡ some (ok tt)
        → Wrote p frame r
        → r.producer.wire ≡ p.wire ++ frame
    wrote_all {p} e w = elim w.outcome [
      | inl (_, whole, _) ↦ w.appended ∙ ap (λ l. p.wire ++ l) whole
      | inr (inl (q, _)) ↦ cc
      | inr (inr (q, _)) ↦ cc
    ]

-- A poll of a connected varlen consumer that finds the frame of an allowed message calls the
-- handler with the message, and what followed the frame stays for the next poll.
pub poll_impl_delivers :
    (k : Kernel) (handler : Handler) (c : SocketConsumer) (m rest : List ℕ)
    → c.opts.type ≡ varlen
    → c.sock ≡ some (varlen_frame m ++ rest)
    → k.readable ≡ true
    → AllMove k.script
    → length (varlen_frame m) ≤ length k.script
    → length m ≤ k_max_varlen
    → handler m ≡ ok tt
    → poll_impl k handler c ≡ record {
      consumer = record c { sock = some rest };
      delivered = some m;
      result = some (ok true);
    }
unfolding poll_impl
poll_impl_delivers k handler c m rest v s r moves enough small h =
    let read = read_varlen_ends c.opts.item_size k.script m rest moves enough small in ground arith

-- How a poll ends whose handler threw on a message, with `rest` still to be read: a runtime_error,
-- and a layout_exception, which is one, are caught and drop the connection; others are passed on.
abbrev pub Threw : Exception → List ℕ → Polled → Type 0
Threw (runtime_error m) rest r = (r.result ≡ some (ok false)) × (r.consumer.sock ≡ none)
Threw (layout_exception l) rest r = (r.result ≡ some (ok false)) × (r.consumer.sock ≡ none)
Threw (logic_error m) rest r =
    (r.result ≡ some (throw (logic_error m))) × (r.consumer.sock ≡ some rest)
Threw (invalid_argument m) rest r =
    (r.result ≡ some (throw (invalid_argument m))) × (r.consumer.sock ≡ some rest)

-- A handler that throws on a message that a poll of a connected varlen consumer has read: a
-- runtime_error or a layout_exception is caught, the poll returns false and drops the connection
-- with what followed the message; a logic_error or invalid_argument is passed on and the connection
-- stays.
pub poll_impl_throws :
    (k : Kernel) (handler : Handler) (c : SocketConsumer) (m rest : List ℕ) (e : Exception)
    → c.opts.type ≡ varlen
    → c.sock ≡ some (varlen_frame m ++ rest)
    → k.readable ≡ true
    → AllMove k.script
    → length (varlen_frame m) ≤ length k.script
    → length m ≤ k_max_varlen
    → handler m ≡ throw e
    → let r = poll_impl k handler c in (r.delivered ≡ some m) × Threw e rest r
unfolding poll_impl
poll_impl_throws k handler c m rest (runtime_error x) v s r moves enough small h =
    let read = read_varlen_ends c.opts.item_size k.script m rest moves enough small in
    (ground arith, (ground arith, ground arith))
poll_impl_throws k handler c m rest (layout_exception x) v s r moves enough small h =
    let read = read_varlen_ends c.opts.item_size k.script m rest moves enough small in
    (ground arith, (ground arith, ground arith))
poll_impl_throws k handler c m rest (logic_error x) v s r moves enough small h =
    let read = read_varlen_ends c.opts.item_size k.script m rest moves enough small in
    (ground arith, (ground arith, ground arith))
poll_impl_throws k handler c m rest (invalid_argument x) v s r moves enough small h =
    let read = read_varlen_ends c.opts.item_size k.script m rest moves enough small in
    (ground arith, (ground arith, ground arith))

poll_all-frames :
    (ks : List Kernel) (handler : Handler) (c : SocketConsumer) (ms : List (List ℕ))
    → ((m : List ℕ) → handler m ≡ ok tt)
    → c.opts.type ≡ varlen
    → All (λ m. length m ≤ k_max_varlen) ms
    → c.sock ≡ some (frames ms)
    → Serves ks ms
    → (poll_all ks handler c).1 ≡ ms
unfolding poll_all
poll_all-frames [] handler c [] h v small s served = refl
poll_all-frames [] handler c (m ∷ ms) h v small s served = absurd served
poll_all-frames (k ∷ ks) handler c [] h v small s served = absurd served
poll_all-frames (k ∷ ks) handler c (m ∷ ms) h v (sm, small) s (r, moves, enough, served) =
    let polled = poll_impl_delivers k handler c m (frames ms) v s r moves enough sm (h m) in
    rw (polled, poll_all)
      (rw polled (
        ap (◌∷◌ m) (
          poll_all-frames ks handler (record c { sock = some (frames ms) }) ms h v small refl
            served)))

Sendable-small :
    (sends : List Send) → All Sendable sends → All (λ m. length m ≤ k_max_varlen) (payloads sends)
Sendable-small [] h = tt
Sendable-small (s ∷ rest) (a, h) = (a.0, Sendable-small rest h)

-- Over a fresh connection, what a varlen producer sent is what a varlen consumer's handler gets:
-- the same messages, in the same order, none lost and none added. The sends are of allowed
-- messages, the kernel takes and hands over the bytes in pieces of its own choice, and the handler
-- throws nothing.
pub delivery :
    (p : SocketProducer) (sends : List Send) (ks : List Kernel) (handler : Handler)
    (c : SocketConsumer)
    → p.opts.type ≡ varlen
    → p.sock ≡ true
    → p.wire ≡ []
    → All Sendable sends
    → ((m : List ℕ) → handler m ≡ ok tt)
    → c.opts.type ≡ varlen
    → c.sock ≡ some (send_all p sends).0.wire
    → Serves ks (payloads sends)
    → (poll_all ks handler c).1 ≡ payloads sends
delivery p sends ks handler c v s fresh h quiet v' arrived served =
    let (_, wire) = send_all-frames p sends v s h in
    let here : c.sock ≡ some (frames (payloads sends)) =
      arrived ∙ ap some (wire ∙ ap (λ l. l ++ frames (payloads sends)) fresh) in
    poll_all-frames ks handler c (payloads sends) quiet v' (Sendable-small sends h) here served

-- Where a poll of a connected consumer delivers, it has read the message off the stream.
pub poll_impl_delivered :
    (k : Kernel) (handler : Handler) (c : SocketConsumer) (incoming p : List ℕ)
    → c.sock ≡ some incoming
    → (poll_impl k handler c).delivered ≡ some p
    → (rest : List ℕ) × (read_message c.opts.type c.opts.item_size k.script incoming ≡ got p rest)
unfolding poll_impl
poll_impl_delivered k handler c incoming p s d =
    elim (Read-cases (read_message c.opts.type c.opts.item_size k.script incoming)) [
      | inl (q, rest, r) ↦ let same : q ≡ p = ground arith in (rest, rw (← same) r)
      | inr other ↦ absurd (ground arith)
    ]
  where
    Read-cases :
        (r : Read)
        → ((q : List ℕ) × (rest : List ℕ) × (r ≡ got q rest))
          ⊎ ((rest : List ℕ) × ((r ≡ broken rest) ⊎ (r ≡ waiting rest)))
    Read-cases (got q rest) = inl (q, rest, refl)
    Read-cases (broken rest) = inr (rest, inl refl)
    Read-cases (waiting rest) = inr (rest, inr refl)

-- The end of a connection inside a frame: whatever the kernel does, a poll of a varlen consumer
-- never calls the handler with a message of a proper prefix of the frame of an allowed message.
pub poll_impl_torn :
    (k : Kernel) (handler : Handler) (c : SocketConsumer) (m incoming more : List ℕ) (x : ℕ)
    → c.opts.type ≡ varlen
    → c.sock ≡ some incoming
    → length m ≤ k_max_varlen
    → All IsByte incoming
    → incoming ++ (x ∷ more) ≡ varlen_frame m
    → (poll_impl k handler c).delivered ≡ none
unfolding poll_impl
poll_impl_torn k handler c m incoming more x v s small b e =
    elim (Option-cases ((poll_impl k handler c).delivered)) [
      | inl quiet ↦ quiet
      | inr (p, d) ↦ absurd (whole_frame p (poll_impl_delivered k handler c incoming p s d))
    ]
  where
    whole_frame :
        (p : List ℕ)
        → (rest : List ℕ) × (read_message c.opts.type c.opts.item_size k.script incoming
            ≡ got p rest)
        → ⊥
    whole_frame p (rest, r) =
        let r' : read_message varlen c.opts.item_size k.script incoming ≡ got p rest = rw v at r in
        let (front, allowed) = read_varlen_got c.opts.item_size k.script incoming p rest b r' in
        let (_, none_left) = varlen_frame-injective p m (rest ++ (x ∷ more)) [] allowed small (
          sym (append_assoc (varlen_frame p) rest (x ∷ more))
          ∙ ap (λ l. l ++ (x ∷ more)) (sym front)
          ∙ e
          ∙ sym (append-nil (varlen_frame m))) in
        omega (arith, ap (length {A = ℕ}) none_left, length-append rest (x ∷ more))
