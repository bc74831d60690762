-- ===== src/Channel/Sends.antt =====
-- What the sends of a channel do to the queue of the ring.
use xproc.Prelude.{
  ℕ, ◌≤◌, ◌≡◌, refl, ap, ◌∙◌, ◌≢◌, ◌⊎◌, inl, inr, Bool, true, false, List, [], ◌∷◌, ◌++◌, arith,
  length, ltb, Bool-cases, ◌==◌, if◌then◌else◌,
}
use xproc.Errors.{ok}
use xproc.Options.{fixed, varlen, is_fixed}
use xproc.SendResult.{SendResult, MessageMeta, empty_meta, to_spscring_meta}
use xproc.Ring.{ReserveStatus, reserved, Entry, Ring, RingLaw}
use xproc.Endpoint.{producer, is_producer}
use xproc.Channel.{
  Channel, padded, map_reserve_status, commit_fixed, commit_varlen, send_fixed_sized,
  send_fixed_bytes, try_send_fixed_sized, try_send_varlen,
}

abbrev pub IsProducer : {R : Type 0} → Channel R → Type 0
IsProducer c = c.role ≡ producer

-- The caller's metadata, with the time of the send where the caller set none.
abbrev pub stamped_meta : ℕ → MessageMeta → MessageMeta
stamped_meta now meta = record {
  user_data = meta.user_data;
  timestamp_ns = if meta.timestamp_ns == 0 then now else meta.timestamp_ns;
  schema_id = meta.schema_id;
  flags = meta.flags;
}

-- The entry of a message.
abbrev pub stamped : ℕ → MessageMeta → List ℕ → Entry
stamped now meta payload = (stamped_meta now meta, payload)

timed :
    (unset : Bool) (now : ℕ) (meta : MessageMeta)
    → (if unset then record meta { timestamp_ns = now } else meta)
      ≡ record meta { timestamp_ns = if unset then now else meta.timestamp_ns }
timed true now meta = refl
timed false now meta = refl

pub to_spscring_meta-stamped :
    (now : ℕ) (meta : MessageMeta) → to_spscring_meta now meta ≡ stamped_meta now meta
unfolding to_spscring_meta
to_spscring_meta-stamped now meta = timed (meta.timestamp_ns == 0) now meta

module _ {R : Type 0} (ops : Ring R) (law : RingLaw R ops) where
  abbrev pub Appends : Entry → Channel R → Channel R → Type 0
  Appends e c c' = law.queue c'.ring ≡ law.queue c.ring ++ (e ∷ [])

  abbrev pub Keeps : Channel R → Channel R → Type 0
  Keeps c c' = law.queue c'.ring ≡ law.queue c.ring

  pub commit_fixed-queue :
      (c : Channel R) (payload : List ℕ) (t : Bool × R)
      → ops.fixed_try_reserve c.ring ≡ t
      → ((commit_fixed ops c payload t).1 ≡ true
          → Appends
              (empty_meta, padded c.opts.item_size payload)
              c
              (commit_fixed ops c payload t).0)
        × ((commit_fixed ops c payload t).1 ≡ false → Keeps c (commit_fixed ops c payload t).0)
  commit_fixed-queue c payload (true, r) e =
      let kept = law.fixed_reserve c.ring in
      let grown = law.fixed_commit c.ring (padded c.opts.item_size payload) (rw e) in
      (
        λ h.
            (rw e at
              (grown ∙ ap (λ q. q ++ ((empty_meta, padded c.opts.item_size payload) ∷ [])) kept)),
        λ h. cc,
      )
  commit_fixed-queue c payload (false, r) e = (λ h. cc, λ h. (rw e at (law.fixed_reserve c.ring)))

  pub commit_varlen-queue :
      (c : Channel R) (payload : List ℕ) (meta : MessageMeta) (t : ReserveStatus × R)
      → ops.varlen_try_reserve (length payload) meta c.ring ≡ t
      → ((commit_varlen ops c payload t).1 ≡ t.0)
        × (t.0 ≡ reserved → Appends (meta, payload) c (commit_varlen ops c payload t).0)
        × (t.0 ≢ reserved → Keeps c (commit_varlen ops c payload t).0)
  commit_varlen-queue c payload meta (reserved, r) e =
      let kept = law.varlen_reserve c.ring (length payload) meta in
      let grown = law.varlen_commit c.ring (length payload) meta payload (rw e) in
      (
        refl,
        λ h. (rw e at (grown ∙ ap (λ q. q ++ ((meta, payload) ∷ [])) kept)),
        λ h. absurd (h refl),
      )
  commit_varlen-queue c payload meta (_, r) e =
      (refl, λ h. cc, λ h. (rw e at (law.varlen_reserve c.ring (length payload) meta)))

  -- A try_send of a fixed producer, of a payload of at most item_size bytes, either returns ok and
  -- has appended the payload, padded with zeros to item_size bytes, to the queue of the ring, or
  -- returns full and has changed nothing in it.
  pub try_send_fixed_sized-queue :
      (c : Channel R) (payload : List ℕ)
      → IsProducer c
      → c.opts.type ≡ fixed
      → length payload ≤ c.opts.item_size
      → let (c', r) = try_send_fixed_sized ops c payload in
        ((r ≡ ok SendResult.ok) × Appends (empty_meta, padded c.opts.item_size payload) c c')
        ⊎ ((r ≡ ok SendResult.full) × Keeps c c')
  unfolding try_send_fixed_sized
  try_send_fixed_sized-queue c payload p f h =
      let fits : ltb c.opts.item_size (length payload) ≡ false = ground arith in
      let kind : is_fixed c.opts.type ≡ true = ap is_fixed f in
      let role : is_producer c.role ≡ true = ap is_producer p in
      let (grown, kept) = commit_fixed-queue c payload (ops.fixed_try_reserve c.ring) refl in
      rw (role, kind, fits)
        (elim (Bool-cases ((commit_fixed ops c payload (ops.fixed_try_reserve c.ring)).1)) [
          | inl done ↦ inl (rw done, grown done)
          | inr none_free ↦ inr (rw none_free, kept none_free)
        ])

  reserved-cases :
      (s : ReserveStatus) → (s ≡ reserved) ⊎ (s ≢ reserved) × (map_reserve_status s ≢ SendResult.ok)
  unfolding map_reserve_status
  reserved-cases reserved = inl refl
  reserved-cases _ = inr (λ h. cc, λ h. cc)

  -- A try_send of a varlen producer either returns ok and has appended the payload, with the
  -- metadata of the call and the time of the send where the caller set none, to the queue of the
  -- ring, or returns another result and has changed nothing in it.
  pub try_send_varlen-queue :
      (now : ℕ) (c : Channel R) (payload : List ℕ) (meta : MessageMeta)
      → IsProducer c
      → c.opts.type ≡ varlen
      → let (c', r) = try_send_varlen ops now c payload meta in
        ((r ≡ ok SendResult.ok) × Appends (stamped now meta payload) c c')
        ⊎ ((s : SendResult) × (s ≢ SendResult.ok) × (r ≡ ok s) × Keeps c c')
  unfolding try_send_varlen
  try_send_varlen-queue now c payload meta p v =
      let kind : is_fixed c.opts.type ≡ false = ap is_fixed v in
      let role : is_producer c.role ≡ true = ap is_producer p in
      let m : MessageMeta = stamped_meta now meta in
      let t = ops.varlen_try_reserve (length payload) m c.ring in
      let (same, grown, kept) = commit_varlen-queue c payload m t refl in
      rw (role, kind, to_spscring_meta-stamped now meta, same)
        (elim (reserved-cases t.0) [
          | inl q ↦ inl (rw q (unfold map_reserve_status in refl), grown q)
          | inr (q, not_ok) ↦ inr (map_reserve_status t.0, not_ok, refl, kept q)
        ])

  -- The blocking fixed sends of a producer return, for a payload of at most item_size bytes, and
  -- have appended it, padded with zeros, behind what the consumer has left in the meantime.
  pub send_fixed-queue :
      (c : Channel R) (payload : List ℕ)
      → IsProducer c
      → c.opts.type ≡ fixed
      → length payload ≤ c.opts.item_size
      → (send_fixed_bytes ops c payload ≡ send_fixed_sized ops c payload)
        × ((send_fixed_sized ops c payload).1 ≡ ok tt)
        × ((taken : List Entry) × (left : List Entry) × (law.queue c.ring ≡ taken ++ left)
            × (law.queue (send_fixed_sized ops c payload).0.ring
                ≡ left ++ ((empty_meta, padded c.opts.item_size payload) ∷ [])))
  unfolding send_fixed_bytes send_fixed_sized
  send_fixed-queue c payload p f h =
      let fits : ltb c.opts.item_size (length payload) ≡ false = ground arith in
      let kind : is_fixed c.opts.type ≡ true = ap is_fixed f in
      let role : is_producer c.role ≡ true = ap is_producer p in
      rw (role, kind, fits) (refl, refl, law.fixed_spin c.ring (padded c.opts.item_size payload))
