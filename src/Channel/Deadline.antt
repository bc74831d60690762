-- ===== src/Channel/Deadline.antt =====
-- The sends of a channel that are bounded in time: they return, and what they have then done.
use xproc.Prelude.{
  ℕ, ◌≤◌, ◌<◌, ◌≡◌, refl, ap, subst, inl, inr, true, false, List, some, arith, length, ltb,
}
use xproc.Errors.{ok}
use xproc.Options.{fixed, varlen, is_fixed}
use xproc.SendResult.{SendResult, MessageMeta}
use xproc.Ring.{Ring, RingLaw}
use xproc.Endpoint.{is_producer}
use xproc.Channel.{Channel, send_fixed_sized_for, varlen_rounds, send_varlen_for}
use xproc.Channel.Sends.{IsProducer, stamped_meta, to_spscring_meta-stamped}
use xproc.Channel.Waits.{EndsFixed, EndsVarlen}
use xproc.Channel.Rounds.{fixed_rounds_end, varlen_rounds_end}

module _ {R : Type 0} (ops : Ring R) (law : RingLaw R ops) where
  -- A bounded fixed send of a producer, of a payload of at most item_size bytes, returns once a
  -- round has read a time that is not before the deadline, whatever the consumer does in between.
  -- The rounds before the last find no room before the deadline and append nothing. The last one
  -- finds room, appends the padded payload once and returns ok, or it finds none, not before the
  -- deadline, appends nothing and returns timeout.
  pub send_fixed_sized_for_returns :
      (fuel : ℕ) (meanwhile : ℕ → R → R) (clock : ℕ → ℕ) (deadline j : ℕ) (c : Channel R)
      (payload : List ℕ)
      → IsProducer c
      → c.opts.type ≡ fixed
      → length payload ≤ c.opts.item_size
      → j < fuel
      → deadline ≤ clock j
      → (s : SendResult) × ((send_fixed_sized_for ops fuel meanwhile clock deadline c payload).1
          ≡ some (ok s))
        × EndsFixed ops law meanwhile clock deadline 0 c.ring c.opts.item_size payload
            (send_fixed_sized_for ops fuel meanwhile clock deadline c payload).0
            (some s)
  unfolding send_fixed_sized_for
  send_fixed_sized_for_returns fuel meanwhile clock deadline j c payload p f h b d =
      let fits : ltb c.opts.item_size (length payload) ≡ false = ground arith in
      let kind : is_fixed c.opts.type ≡ true = ap is_fixed f in
      let role : is_producer c.role ≡ true = ap is_producer p in
      let ends =
        fixed_rounds_end ops law fuel meanwhile clock deadline 0 j c payload c.opts.item_size refl
          (omega arith) (omega arith) d in
      rw (role, kind, fits)
        (let (k, b', w, e) = ends in
          elim e [
            | inl (r, room, grown) ↦ rw r (SendResult.ok, refl, (k, b', w, inl (refl, room, grown)))
            | inr (r, room, late, kept) ↦
                rw r (SendResult.timeout, refl, (k, b', w, inr (refl, room, late, kept)))
          ])

  -- A bounded variable-length send of a producer returns once a round has read a time that is not
  -- before the deadline, whatever the consumer does in between. The rounds before the last find no
  -- room before the deadline and append nothing. The last one appends the message once, with the
  -- metadata of the call and the time of that round where the caller set none, and returns ok; or
  -- its reservation fails, it appends nothing and returns what that failure means, timeout for a
  -- full ring only if the time is not before the deadline.
  pub send_varlen_for_returns :
      (fuel : ℕ) (meanwhile : ℕ → R → R) (clock stamps : ℕ → ℕ) (deadline j : ℕ) (c : Channel R)
      (payload : List ℕ) (meta : MessageMeta)
      → IsProducer c
      → c.opts.type ≡ varlen
      → j < fuel
      → deadline ≤ clock j
      → (s : SendResult) × ((send_varlen_for ops fuel meanwhile clock stamps deadline c payload
            meta).1
          ≡ some (ok s))
        × EndsVarlen ops law meanwhile clock
            (λ i. stamped_meta (stamps i) meta)
            deadline
            0
            c.ring
            payload
            (send_varlen_for ops fuel meanwhile clock stamps deadline c payload meta).0
            (some s)
  unfolding send_varlen_for
  send_varlen_for_returns fuel meanwhile clock stamps deadline j c payload meta p v b d =
      let kind : is_fixed c.opts.type ≡ false = ap is_fixed v in
      let role : is_producer c.role ≡ true = ap is_producer p in
      let (c', r) = varlen_rounds ops fuel meanwhile clock stamps deadline 0 c payload meta in
      let ends =
        subst (λ metas. EndsVarlen ops law meanwhile clock metas deadline 0 c.ring payload c' r)
          (λ x i. to_spscring_meta-stamped (stamps i) meta x)
          (varlen_rounds_end ops law fuel meanwhile clock stamps deadline 0 j c payload meta
            (omega arith) (omega arith) d) in
      rw (role, kind)
        (let (k, b', w, e) = ends in
          elim e [
            | inl (r, room, grown) ↦ rw r (SendResult.ok, refl, (k, b', w, inl (refl, room, grown)))
            | inr (s, r, why, kept) ↦ rw r (s, refl, (k, b', w, inr (s, refl, why, kept)))
          ])
