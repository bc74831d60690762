-- ===== src/Channel/Examples.antt =====
-- The theorems on the channel and the observer at concrete inputs, over a ring that is a list of at
-- most two entries.
use xproc.Prelude.{
  ℕ, ◌*◌, ◌≡◌, refl, ◌≢◌, ◌⊎◌, Bool, true, false, List, [], ◌∷◌, ◌++◌, Option, none, some, arith,
  length, ltb, if◌then◌else◌,
}
use xproc.Errors.{Result, ok, throw, runtime_error, recv_failed}
use xproc.Options.{TransportOptions, varlen, default_options}
use xproc.SendResult.{SendResult, MessageMeta, empty_meta}
use xproc.Ring.{reserved, full, Entry, Visitor, Visit, Ring, RingLaw}
use xproc.Endpoint.{Role, producer}
use xproc.Channel.{Channel, Handler, try_send_varlen, send_fixed_sized_for, send_varlen_for}
use xproc.Channel.Sends.{Appends, Keeps, stamped, stamped_meta, try_send_varlen-queue}
use xproc.Channel.Waits.{EndsFixed, EndsVarlen}
use xproc.Channel.Deadline.{send_fixed_sized_for_returns, send_varlen_for_returns}
use xproc.Channel.Poll.{Event, send, receive, exchange, exchange-queue}
use xproc.Observer.{RingSnapshot}

abbrev visit_front : Entry → List Entry → Result Bool → Visit (List Entry)
visit_front e q (ok true) = record { seen = some e; result = ok true; ring = q }
visit_front e q (ok false) = record { seen = some e; result = ok false; ring = e ∷ q }
visit_front e q (throw x) = record { seen = some e; result = throw x; ring = e ∷ q }

abbrev visit : Visitor → List Entry → Visit (List Entry)
visit f [] = record { seen = none; result = ok false; ring = [] }
visit f (e ∷ q) = visit_front e q (f e.0 e.1)

abbrev front_bytes : List Entry → Option (List ℕ)
front_bytes [] = none
front_bytes (e ∷ q) = some e.1

abbrev rest_of : List Entry → List Entry
rest_of [] = []
rest_of (e ∷ q) = q

-- The state is the queue and the metadata of the reservation.
abbrev pub State : Type 0
State = List Entry × MessageMeta

abbrev visit_state : Visitor → State → Visit State
visit_state f s =
    let v = visit f s.0 in record { seen = v.seen; result = v.result; ring = (v.ring, s.1) }

abbrev pub ring : Ring State
ring = record {
  fixed_try_reserve = λ s. (ltb (length s.0) 2, s);
  fixed_spin_until_reserve = λ s. (if ltb (length s.0) 2 then s.0 else rest_of s.0, s.1);
  fixed_commit = λ bytes s. (s.0 ++ ((empty_meta, bytes) ∷ []), s.1);
  varlen_try_reserve = λ n m s. (if ltb (length s.0) 2 then reserved else full, (s.0, m));
  varlen_commit = λ bytes s. (s.0 ++ ((s.1, bytes) ∷ []), s.1);
  fixed_try_read = λ s. front_bytes s.0;
  fixed_read_advance = λ s. (rest_of s.0, s.1);
  varlen_read = visit_state;
}

pub spin-split :
    (q : List Entry) (b : Bool)
    → (taken : List Entry) × (left : List Entry) × (q ≡ taken ++ left)
      × ((if b then q else rest_of q) ≡ left)
spin-split q true = ([], q, refl, refl)
spin-split [] false = ([], [], refl, refl)
spin-split (e ∷ q) false = (e ∷ [], q, refl, refl)

pub visit_front-RingLaw :
    (e : Entry) (q : List Entry) (o : Result Bool)
    → ((visit_front e q o).seen ≡ some e)
      × ((visit_front e q o).result ≡ o)
      × (o ≡ ok true → (visit_front e q o).ring ≡ q)
      × (o ≢ ok true → (visit_front e q o).ring ≡ e ∷ q)
visit_front-RingLaw e q (ok true) = (refl, refl, λ h. refl, λ h. absurd (h refl))
visit_front-RingLaw e q (ok false) = (refl, refl, λ h. cc, λ h. refl)
visit_front-RingLaw e q (throw x) = (refl, refl, λ h. cc, λ h. refl)

abbrev pub ring_law : RingLaw State ring
ring_law = record {
  queue = λ s. s.0;
  fixed_reserve = λ r. refl;
  fixed_commit = λ r bytes h. refl;
  fixed_spin = λ r bytes.
      let (taken, left, split, same) = spin-split r.0 (ltb (length r.0) 2) in
      (taken, left, split, rw same);
  varlen_reserve = λ r n m. refl;
  varlen_commit = λ r n m bytes h. refl;
  fixed_empty = λ r h. rw h;
  fixed_front = λ r e q h. rw h;
  fixed_advance = λ r e q h. rw h;
  varlen_empty = λ r f h. rw h (refl, refl, refl);
  varlen_front = λ r f e q h. rw h (visit_front-RingLaw e q (f e.0 e.1));
}

abbrev pub varlen_options : TransportOptions
varlen_options = record default_options { type = varlen }

abbrev fixed_options : TransportOptions
fixed_options = record default_options { item_size = 4 }

abbrev end : Role → TransportOptions → List Entry → Channel State
end role opts q = record { role = role; opts = opts; ring = (q, empty_meta) }

abbrev pub message : List ℕ
message = 5 ∷ 6 ∷ []

abbrev pub first_entry : Entry
first_entry = (record empty_meta { timestamp_ns = 12 }, message)

try_send_varlen-queue_example :
    let (c', r) = try_send_varlen ring 12 (end producer varlen_options []) message empty_meta in
    ((r ≡ ok SendResult.ok)
      × Appends ring ring_law (stamped 12 empty_meta message) (end producer varlen_options []) c')
    ⊎ ((s : SendResult) × (s ≢ SendResult.ok)
        × (r ≡ ok s)
        × Keeps ring ring_law (end producer varlen_options []) c')
try_send_varlen-queue_example =
    try_send_varlen-queue ring ring_law 12 (end producer varlen_options []) message empty_meta refl
      refl

-- After the first round the consumer takes an entry.
abbrev take_one : ℕ → State → State
take_one i s = (rest_of s.0, s.1)

abbrev clock : ℕ → ℕ
clock i = 10 * i

send_fixed_sized_for_returns_example :
    (s : SendResult) × ((send_fixed_sized_for ring 4 take_one clock 25
        (end producer fixed_options (first_entry ∷ first_entry ∷ []))
        message).1
      ≡ some (ok s))
    × EndsFixed ring ring_law take_one clock 25 0
        (end producer fixed_options (first_entry ∷ first_entry ∷ [])).ring
        4
        message
        (send_fixed_sized_for ring 4 take_one clock 25
          (end producer fixed_options (first_entry ∷ first_entry ∷ []))
          message).0
        (some s)
send_fixed_sized_for_returns_example =
    send_fixed_sized_for_returns ring ring_law 4 take_one clock 25 3
      (end producer fixed_options (first_entry ∷ first_entry ∷ [])) message refl refl (omega arith)
      (omega arith) (omega arith)

send_varlen_for_returns_example :
    (s : SendResult) × ((send_varlen_for ring 4 take_one clock clock 25
        (end producer varlen_options (first_entry ∷ first_entry ∷ []))
        message
        empty_meta).1
      ≡ some (ok s))
    × EndsVarlen ring ring_law take_one clock
        (λ i. stamped_meta (clock i) empty_meta)
        25
        0
        (end producer varlen_options (first_entry ∷ first_entry ∷ [])).ring
        message
        (send_varlen_for ring 4 take_one clock clock 25
          (end producer varlen_options (first_entry ∷ first_entry ∷ []))
          message
          empty_meta).0
        (some s)
send_varlen_for_returns_example =
    send_varlen_for_returns ring ring_law 4 take_one clock clock 25 3
      (end producer varlen_options (first_entry ∷ first_entry ∷ [])) message empty_meta refl refl
      (omega arith) (omega arith)

abbrev accepts_all : Handler
accepts_all m payload = ok tt

abbrev refuses : Handler
refuses m payload = throw (runtime_error recv_failed)

-- Two sends fit, the third does not; the polls get the first two.
abbrev events : List Event
events =
    send 12 message empty_meta
    ∷ receive
    ∷ send 13 message empty_meta
    ∷ send 14 [] empty_meta
    ∷ send 15 message empty_meta
    ∷ receive
    ∷ []

exchange-queue_example :
    let x = exchange ring varlen_options accepts_all events ([], empty_meta) in
    x.received ++ x.ring.0 ≡ x.accepted
unfolding exchange
exchange-queue_example =
    exchange-queue ring ring_law varlen_options accepts_all events ([], empty_meta) refl
      (λ m payload. refl)

abbrev at_rest : RingSnapshot
at_rest = record {
  write_pos = 8;
  read_pos = 8;
  commit_pos = 8;
  commit_seq = 1;
  read_wake_seq = 1;
  attach_count = 2;
  producer_pid = 42;
}
