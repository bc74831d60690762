-- ===== src/Channel/Rounds.antt =====
-- The rounds of a bounded send end as Waits says.
use xproc.Prelude.{
  ℕ, zero, suc, ◌+◌, ◌≤◌, ◌<◌, ◌≡◌, refl, sym, ap, ◌∙◌, subst, ◌≢◌, ◌⊎◌, inl, inr, Bool, true,
  false, not, List, arith, length, leb, Bool-cases,
}
use xproc.Options.{TransportOptions}
use xproc.SendResult.{SendResult, MessageMeta, to_spscring_meta}
use xproc.Ring.{ReserveStatus, reserved, full, timed_out, too_large, other, Ring, RingLaw}
use xproc.Channel.{
  Channel, map_reserve_status, with_ring, commit_fixed, commit_varlen, fixed_rounds, varlen_rounds,
}
use xproc.Channel.Sends.{commit_fixed-queue, commit_varlen-queue}
use xproc.Channel.Waits.{
  Waits, at_once, busy, fixed_attempt, varlen_attempt, is_full, Refused, EndsFixed, EndsVarlen,
}

module _ {R : Type 0} (ops : Ring R) (law : RingLaw R ops) where
  commit_fixed-reserved :
      (c : Channel R) (payload : List ℕ) (t : Bool × R) → (commit_fixed ops c payload t).1 ≡ t.0
  commit_fixed-reserved c payload (true, r) = refl
  commit_fixed-reserved c payload (false, r) = refl

  commit_fixed-left :
      (c : Channel R) (payload : List ℕ) (t : Bool × R)
      → t.0 ≡ false
      → (commit_fixed ops c payload t).0.ring ≡ t.1
  commit_fixed-left c payload (true, r) e = cc
  commit_fixed-left c payload (false, r) e = refl

  commit_fixed-opts :
      (c : Channel R) (payload : List ℕ) (t : Bool × R)
      → (commit_fixed ops c payload t).0.opts ≡ c.opts
  commit_fixed-opts c payload (true, r) = refl
  commit_fixed-opts c payload (false, r) = refl

  -- A round before the deadline is not the last one.
  before_deadline :
      (clock : ℕ → ℕ) (deadline i j : ℕ)
      → i ≤ j
      → deadline ≤ clock j
      → leb deadline (clock i) ≡ false
      → i < j
  before_deadline clock deadline i j a d early = elim (order a) [
    | inl same ↦ let e : clock i ≡ clock j = ap clock same in absurd (ground arith)
    | inr l ↦ l
  ]
    where
      order : i ≤ j → (i ≡ j) ⊎ (i < j)
      order h = omega arith

  pub fixed_rounds_end :
      (fuel : ℕ) (meanwhile : ℕ → R → R) (clock : ℕ → ℕ) (deadline i j : ℕ) (c : Channel R)
      (payload : List ℕ) (n : ℕ)
      → c.opts.item_size ≡ n
      → i ≤ j
      → j < i + fuel
      → deadline ≤ clock j
      → let (c', r) = fixed_rounds ops fuel meanwhile clock deadline i c payload in
        EndsFixed ops law meanwhile clock deadline i c.ring n payload c' r
  unfolding fixed_rounds
  fixed_rounds_end zero meanwhile clock deadline i j c payload n s a b d = absurd (omega arith)
  fixed_rounds_end (suc fuel) meanwhile clock deadline i j c payload n s a b d =
      let t = ops.fixed_try_reserve c.ring in
      let (grown, kept) = commit_fixed-queue ops law c payload t refl in
      let same = commit_fixed-reserved c payload t in
      let c' = (commit_fixed ops c payload t).0 in
      elim (Bool-cases ((commit_fixed ops c payload t).1)) [
        | inl done ↦ rw (done, ← s) (i, c.ring, at_once, inl (refl, sym same ∙ done, grown done))
        | inr busied ↦ rw busied (elim (Bool-cases (leb deadline (clock i))) [
          | inl late ↦
              rw late (i, c.ring, at_once, inr (refl, sym same ∙ busied, ground arith, kept busied))
          | inr early ↦
              let l = before_deadline clock deadline i j a d early in
              let full = sym same ∙ busied in
              let left = commit_fixed-left c payload t full in
              rw (early, fixed_rounds)
                (let (k, b', w, e) =
                    fixed_rounds_end fuel meanwhile clock deadline (suc i) j
                      (with_ring ops c' (meanwhile i c'.ring)) payload n
                      (ap (λ (o : TransportOptions). o.item_size) (commit_fixed-opts c payload t)
                        ∙ s)
                      l (omega arith) d in
                  let w' =
                    subst
                      (λ x.
                        Waits ops law (fixed_attempt ops law) meanwhile clock deadline k b' (suc i)
                          (meanwhile i x))
                      left w in
                  (k, b', busy (ap not full) (law.fixed_reserve c.ring) (ground arith) w', e))
        ])
      ]

  status-cases :
      (s : ReserveStatus)
      → (s ≡ reserved) ⊎ (s ≡ full) ⊎ (s ≡ timed_out) ⊎ (s ≡ too_large) ⊎ (s ≡ other)
  status-cases reserved = inl refl
  status-cases full = inr (inl refl)
  status-cases timed_out = inr (inr (inl refl))
  status-cases too_large = inr (inr (inr (inl refl)))
  status-cases other = inr (inr (inr (inr refl)))

  commit_varlen-left :
      (c : Channel R) (payload : List ℕ) (t : ReserveStatus × R)
      → t.0 ≢ reserved
      → (commit_varlen ops c payload t).0.ring ≡ t.1
  commit_varlen-left c payload (reserved, r) e = absurd (e refl)
  commit_varlen-left c payload (_, r) e = refl

  pub varlen_rounds_end :
      (fuel : ℕ) (meanwhile : ℕ → R → R) (clock stamps : ℕ → ℕ) (deadline i j : ℕ) (c : Channel R)
      (payload : List ℕ) (meta : MessageMeta)
      → i ≤ j
      → j < i + fuel
      → deadline ≤ clock j
      → let (c', r) = varlen_rounds ops fuel meanwhile clock stamps deadline i c payload meta in
        EndsVarlen ops law meanwhile clock
          (λ q. to_spscring_meta (stamps q) meta)
          deadline
          i
          c.ring
          payload
          c'
          r
  unfolding varlen_rounds
  varlen_rounds_end zero meanwhile clock stamps deadline i j c payload meta a b d =
      absurd (omega arith)
  varlen_rounds_end (suc fuel) meanwhile clock stamps deadline i j c payload meta a b d =
      let m : MessageMeta = to_spscring_meta (stamps i) meta in
      let t = ops.varlen_try_reserve (length payload) m c.ring in
      let (same, grown, kept) = commit_varlen-queue ops law c payload m t refl in
      let c' = (commit_varlen ops c payload t).0 in
      (elim (status-cases t.0) [
        | inl got ↦
            rw (same, got, varlen_rounds)
              (unfold map_reserve_status in (i, c.ring, at_once, inl (refl, got, grown got)))
        | inr (inl busied) ↦
            let left = commit_varlen-left c payload t (λ h. cc) in
            rw (same, busied, varlen_rounds)
              (elim (Bool-cases (leb deadline (clock i))) [
                | inl late ↦ rw late (
                  i,
                  c.ring,
                  at_once,
                  inr (
                    SendResult.timeout,
                    refl,
                    subst (λ x. Refused x (leb deadline (clock i)) SendResult.timeout) (sym busied)
                        (late, refl),
                    kept (λ h. cc),
                  ),
                )
                | inr early ↦
                    let l = before_deadline clock deadline i j a d early in
                    rw (early, varlen_rounds)
                      (let (k, b', w, e) =
                          varlen_rounds_end fuel meanwhile clock stamps deadline (suc i) j
                            (with_ring ops c' (meanwhile i c'.ring)) payload meta l (omega arith)
                            d in
                        let w' =
                          subst
                            (λ x.
                              Waits ops law
                                (varlen_attempt ops law (λ q. to_spscring_meta (stamps q) meta)
                                  payload)
                                meanwhile clock deadline k b' (suc i) (meanwhile i x))
                            left w in
                        (
                          k,
                          b',
                          busy (ap is_full busied) (law.varlen_reserve c.ring (length payload) m)
                              (ground arith) w',
                          e,
                        ))
              ])
        | inr (inr (inl q)) ↦
            rw (same, q, varlen_rounds)
              (unfold map_reserve_status in
                (
                  i,
                  c.ring,
                  at_once,
                  inr (
                    SendResult.timeout,
                    refl,
                    subst (λ x. Refused x (leb deadline (clock i)) SendResult.timeout) (sym q) refl,
                    kept (λ h. cc),
                  ),
                ))
        | inr (inr (inr (inl q))) ↦
            rw (same, q, varlen_rounds)
              (unfold map_reserve_status in
                (
                  i,
                  c.ring,
                  at_once,
                  inr (
                    SendResult.message_too_large,
                    refl,
                    subst (λ x. Refused x (leb deadline (clock i)) SendResult.message_too_large)
                        (sym q) refl,
                    kept (λ h. cc),
                  ),
                ))
        | inr (inr (inr (inr q))) ↦
            rw (same, q, varlen_rounds)
              (unfold map_reserve_status in
                (
                  i,
                  c.ring,
                  at_once,
                  inr (
                    SendResult.invalid_argument,
                    refl,
                    subst (λ x. Refused x (leb deadline (clock i)) SendResult.invalid_argument)
                        (sym q) refl,
                    kept (λ h. cc),
                  ),
                ))
      ])
