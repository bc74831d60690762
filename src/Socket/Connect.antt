-- ===== src/Socket/Connect.antt =====
-- socket_producer: connect_with_retries and the two reconnects.
use xproc.Prelude.{
  ℕ, zero, suc, ◌+◌, ◌-◌, ◌≤◌, ◌<◌, ◌≡◌, refl, ◌≢◌, ◌↔◌, ◌⊎◌, inl, inr, true, false, [], arith, ℤ,
}
use xproc.Errors.{Exception, Result, ok, throw}
use xproc.Socket.Producer.{
  SocketProducer, Connecting, max_retries, connect_loop, connect_with_retries, try_reconnect,
}

abbrev pub Attempts : Type 0
Attempts = ℕ → Result (Unit {0})

-- Attempt j is the first one from `first` on that succeeds, and the connection is fresh.
pub record Connects (attempts : Attempts) (first end : ℕ) (c : Connecting) (before : ℕ)
    : Type 0 where
  pub j : ℕ
  pub from : first ≤ j
  pub within : j < end
  pub succeeds : attempts j ≡ ok tt
  pub earlier : (k : ℕ) → first ≤ k → k < j → attempts k ≢ ok tt
  pub result : c.result ≡ ok tt
  pub sleeps : c.sleeps + first ≡ before + j
  pub sock : c.producer.sock ≡ true
  pub fresh : c.producer.wire ≡ []

-- No attempt succeeds, and the last one's exception is thrown.
pub record GivesUp (attempts : Attempts) (first end : ℕ) (p : SocketProducer) (c : Connecting)
    (before : ℕ) : Type 0 where
  pub e : Exception
  pub all_fail : (k : ℕ) → first ≤ k → k < end → attempts k ≢ ok tt
  pub last : attempts (end - 1) ≡ throw e
  pub result : c.result ≡ throw e
  pub sleeps : c.sleeps + first + 1 ≡ before + end
  pub unchanged : c.producer ≡ p

module _ (attempts : Attempts) (p : SocketProducer) where
  now :
      (first end before : ℕ)
      → first < end
      → attempts first ≡ ok tt
      → Connects attempts first end
          (record {
            producer = record p { sock = true; wire = [] };
            sleeps = before;
            result = ok tt;
          })
          before
  now first end before h s = record {
    j = first;
    from = omega arith;
    within = h;
    succeeds = s;
    earlier = λ k a b. absurd (omega arith);
    result = refl;
    sleeps = refl;
    sock = refl;
    fresh = refl;
  }

  at_or_after :
      (first j : ℕ) (e : Exception)
      → attempts first ≡ throw e
      → ((k : ℕ) → suc first ≤ k → k < j → attempts k ≢ ok tt)
      → (k : ℕ) → first ≤ k
      → k < j
      → attempts k ≢ ok tt
  at_or_after first j e failed later k a b = pick (order a)
    where
      order : first ≤ k → (first ≡ k) ⊎ (first < k)
      order h = omega arith

      pick : (first ≡ k) ⊎ (first < k) → attempts k ≢ ok tt
      pick (inl same) = λ s. let q : attempts first ≡ ok tt = rw same s in cc
      pick (inr l) = later k l b

  Result-cases : (r : Result (Unit {0})) → (r ≡ ok tt) ⊎ ((e : Exception) × (r ≡ throw e))
  Result-cases (ok u) = inl refl
  Result-cases (throw e) = inr (e, refl)

  connects_later :
      {c : Connecting} (first end : ℕ) (e : Exception) (before : ℕ)
      → attempts first ≡ throw e
      → Connects attempts (suc first) end c (suc before)
      → Connects attempts first end c before
  connects_later first end e before q c = record {
    j = c.j;
    from = omega (arith, c.from);
    within = c.within;
    succeeds = c.succeeds;
    earlier = at_or_after first c.j e q c.earlier;
    result = c.result;
    sleeps = omega (arith, c.sleeps);
    sock = c.sock;
    fresh = c.fresh;
  }

  GivesUp-later :
      {c : Connecting} (first end : ℕ) (e : Exception) (before : ℕ)
      → attempts first ≡ throw e
      → GivesUp attempts (suc first) end p c (suc before)
      → GivesUp attempts first end p c before
  GivesUp-later first end e before q g = record {
    e = g.e;
    all_fail = at_or_after first end e q g.all_fail;
    last = g.last;
    result = g.result;
    sleeps = omega (arith, g.sleeps);
    unchanged = g.unchanged;
  }

  connect_loop_outcome :
      (left first sleeps end : ℕ)
      → 0 < left
      → first + left ≡ end
      → Connects attempts first end (connect_loop attempts left first p sleeps) sleeps
        ⊎ GivesUp attempts first end p (connect_loop attempts left first p sleeps) sleeps
  unfolding connect_loop
  connect_loop_outcome zero first sleeps end h e = absurd (omega arith)
  connect_loop_outcome (suc zero) first sleeps end h e = elim (Result-cases (attempts first)) [
    | inl q ↦ rw (q, connect_loop) (inl (now first end sleeps (omega arith) q))
    | inr (x, q) ↦
        rw (q, connect_loop)
          (inr (record {
            e = x;
            all_fail = at_or_after first end x q (λ k a b. absurd (omega arith));
            last = let same : end - 1 ≡ first = omega arith in rw same q;
            result = refl;
            sleeps = omega arith;
            unchanged = refl;
          }))
  ]
  connect_loop_outcome (suc (suc left)) first sleeps end h e =
      elim (Result-cases (attempts first)) [
        | inl q ↦ rw (q, connect_loop) (inl (now first end sleeps (omega arith) q))
        | inr (x, q) ↦
            rw (q, connect_loop)
              (elim (connect_loop_outcome (suc left) (suc first) (suc sleeps) end (omega arith)
                (omega arith)) [
                  | inl c ↦ inl (connects_later first end x sleeps q c)
                  | inr g ↦ inr (GivesUp-later first end x sleeps q g)
                ])
      ]

pub max_retries_pos : (r : ℤ) → 0 < max_retries r
max_retries_pos r = ground arith

pub connect_with_retries_outcome :
    (attempts : Attempts) (p : SocketProducer)
    → let limit = max_retries p.opts.socket_connect_retries in
      Connects attempts 0 limit (connect_with_retries attempts p) 0
      ⊎ GivesUp attempts 0 limit p (connect_with_retries attempts p) 0
unfolding connect_with_retries
connect_with_retries_outcome attempts p =
    let limit : ℕ = max_retries p.opts.socket_connect_retries in
    connect_loop_outcome attempts p limit 0 0 limit (max_retries_pos p.opts.socket_connect_retries)
      (omega arith)

-- Both reconnects close the old socket first. `try_reconnect` returns true exactly if some attempt
-- below the limit succeeds, and then the producer is connected to a fresh connection; else it is
-- not connected.
pub try_reconnect_outcome :
    (attempts : Attempts) (p : SocketProducer)
    → let limit = max_retries p.opts.socket_connect_retries in
      (((try_reconnect attempts p).1 ≡ true) ↔ ((j : ℕ) × (j < limit) × (attempts j ≡ ok tt)))
      × ((try_reconnect attempts p).0.sock ≡ (try_reconnect attempts p).1)
unfolding try_reconnect
try_reconnect_outcome attempts p =
    elim (connect_with_retries_outcome attempts (record p { sock = false })) [
      | inl c ↦
          rw (c.result, try_reconnect) ((λ q. (c.j, c.within, c.succeeds), λ some_j. refl), c.sock)
      | inr g ↦
          rw (g.result, try_reconnect)
            (
              (
                λ q. absurd (cc),
                λ some_j. absurd (g.all_fail some_j.0 (omega arith) some_j.1 some_j.2),
              ),
              refl,
            )
    ]
