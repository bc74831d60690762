-- ===== src/Socket/Resolve.antt =====
-- src/ipc/socket_channel.cpp: try_resolved_stream_socket, the choice among the addresses that
-- getaddrinfo returned, and what tcp_connect and tcp_listen make of it; normalize_socket_host.
use xproc.Prelude.{
  ℕ, ◌-◌, ◌≡◌, refl, sym, subst, ◌⊎◌, inl, inr, All, Option-cases, Bool-cases, ap, ◌∙◌, Bool, true,
  false, not, ◌&&◌, ◌||◌, List, [], ◌∷◌, ◌++◌, Option, none, some, arith, length, take, leb, ◌==◌,
  if◌then◌else◌, take-append_length, length-append,
}
use xproc.Errors.{Result, ok, throw, runtime_error, getaddrinfo_failed, connect_failed, bind_failed}

-- One addrinfo with the answers of the kernel: the descriptor of ::socket, if it is valid, and
-- whether the attempt (connect, or bind and listen) succeeds on it.
pub record Candidate : Type 0 where
  pub is_ipv6 : Bool
  pub handle : Option ℕ
  pub works : Bool

-- The descriptor that is returned, and those that were closed, in order.
pub record Resolved : Type 0 where
  pub chosen : Option ℕ
  pub closed : List ℕ

abbrev pub closing : ℕ → Resolved → Resolved
closing s r = record r { closed = s ∷ r.closed }

-- The body of the loop for an address that the pass does not skip; `rest` is what the later
-- addresses give.
abbrev pub try_address : Candidate → Resolved → Resolved
try_address c rest = elim (c.handle) [
  | none ↦ rest
  | some s ↦ if c.works then record { chosen = some s; closed = [] } else closing s rest
]

-- Pass 0 skips the addresses that are not IPv6, pass 1 those that are.
unfoldable pub try_pass : Bool → List Candidate → Resolved
try_pass first_pass [] = record { chosen = none; closed = [] }
try_pass first_pass (c ∷ cs) =
    let rest = try_pass first_pass cs in
    if (first_pass && not c.is_ipv6) || (not first_pass && c.is_ipv6)
    then rest
    else try_address c rest

abbrev pub or_next : Resolved → Resolved → Resolved
or_next first second = elim (first.chosen) [
  | some s ↦ first
  | none ↦ record second { closed = first.closed ++ second.closed }
]

unfoldable pub try_resolved_stream_socket : List Candidate → Resolved
try_resolved_stream_socket res = or_next (try_pass true res) (try_pass false res)

-- `none` for a failed getaddrinfo or a null list.
unfoldable pub tcp_connect : Option (List Candidate) → Result ℕ
tcp_connect none = throw (runtime_error getaddrinfo_failed)
tcp_connect (some res) = elim ((try_resolved_stream_socket res).chosen) [
  | none ↦ throw (runtime_error connect_failed)
  | some s ↦ ok s
]

-- The listening descriptor and `*out_bound_port`; `assigned` is the port that getsockname reports.
unfoldable pub tcp_listen : Option (List Candidate) → ℕ → Option ℕ → Result (ℕ × ℕ)
tcp_listen none port assigned = throw (runtime_error getaddrinfo_failed)
tcp_listen (some res) port assigned = elim ((try_resolved_stream_socket res).chosen) [
  | none ↦ throw (runtime_error bind_failed)
  | some s ↦ ok (s, if port == 0 then elim assigned [ none ↦ port | some p ↦ p ] else port)
]

abbrev pub last_byte : ℕ → List ℕ → ℕ
last_byte c [] = c
last_byte c (d ∷ s) = last_byte d s

-- `host.size() >= 2 && host.front() == '[' && host.back() == ']'`
unfoldable pub normalize_socket_host : List ℕ → List ℕ
normalize_socket_host [] = []
normalize_socket_host (c ∷ s) =
    if leb 2 (length (c ∷ s)) && c == b'[' && last_byte c s == b']'
    then take (length (c ∷ s) - 2) s
    else c ∷ s

-- The specification: the addresses in one list, each tried once.
abbrev pub probe : List Candidate → Resolved
probe [] = record { chosen = none; closed = [] }
probe (c ∷ cs) = try_address c (probe cs)

abbrev pub of_family : Bool → List Candidate → List Candidate
of_family v6 [] = []
of_family true (c ∷ cs) = if c.is_ipv6 then c ∷ of_family true cs else of_family true cs
of_family false (c ∷ cs) = if c.is_ipv6 then of_family false cs else c ∷ of_family false cs

try_pass-probe : (v6 : Bool) (cs : List Candidate) → try_pass v6 cs ≡ probe (of_family v6 cs)
unfolding try_pass
try_pass-probe v6 [] = refl
try_pass-probe true (c ∷ cs) = ground (arith, try_pass-probe true cs)
try_pass-probe false (c ∷ cs) = ground (arith, try_pass-probe false cs)

or_next_address :
    (c : Candidate) (a b : Resolved) → or_next (try_address c a) b ≡ try_address c (or_next a b)
or_next_address c a b = ground arith

or_next-probe : (cs ds : List Candidate) → or_next (probe cs) (probe ds) ≡ probe (cs ++ ds)
or_next-probe [] ds = refl
or_next-probe (c ∷ cs) ds =
    or_next_address c (probe cs) (probe ds) ∙ ap (try_address c) (or_next-probe cs ds)

try_resolved_stream_socket-probe :
    (res : List Candidate)
    → try_resolved_stream_socket res ≡ probe (of_family true res ++ of_family false res)
unfolding try_resolved_stream_socket
try_resolved_stream_socket-probe res =
    rw (try_pass-probe true res, try_pass-probe false res)
      (or_next-probe (of_family true res) (of_family false res))

-- The descriptors that ::socket gives for addresses.
abbrev pub handles : List Candidate → List ℕ
handles [] = []
handles (c ∷ cs) = elim (c.handle) [ none ↦ handles cs | some s ↦ s ∷ handles cs ]

-- No descriptor, or no connection on it.
abbrev pub Fails : Candidate → Type 0
Fails c = (c.handle ≡ none) ⊎ (c.works ≡ false)

-- What trying addresses in order gives: the first that works, the others before it closed; or none,
-- where none works, and all closed.
pub data Probed (cs : List Candidate) (r : Resolved) : Type 0 where
  found :
      (before : List Candidate) (c : Candidate) (after : List Candidate) (s : ℕ)
      → cs ≡ before ++ (c ∷ after)
      → All Fails before
      → c.handle ≡ some s
      → c.works ≡ true
      → r.chosen ≡ some s
      → r.closed ≡ handles before
      → Probed cs r
  not_found : All Fails cs → r.chosen ≡ none → r.closed ≡ handles cs → Probed cs r

-- An address that fails goes before the others.
later :
    (c : Candidate) (cs : List Candidate) (rest : Resolved)
    → Fails c
    → Probed cs rest
    → Probed (c ∷ cs) (try_address c rest)
later c cs rest f (found before d after s e fs h w p q) =
    found (c ∷ before) d after s (ap (◌∷◌ c) e) (f, fs) h w (ground arith) (ground arith)
later c cs rest f (not_found fs p q) = not_found (f, fs) (ground arith) (ground arith)

probe-Probed : (cs : List Candidate) → Probed cs (probe cs)
probe-Probed [] = not_found tt refl refl
probe-Probed (c ∷ cs) = elim (Option-cases c.handle) [
  | inl e ↦ later c cs (probe cs) (inl e) (probe-Probed cs)
  | inr (s, e) ↦ elim (Bool-cases c.works) [
    | inl w ↦ found [] c cs s refl tt e w (ground arith) (ground arith)
    | inr w ↦ later c cs (probe cs) (inr w) (probe-Probed cs)
  ]
]

-- The result is that of trying all IPv6 addresses and then all others, each group in the order of
-- getaddrinfo: the descriptor of the first on which the attempt works, with the descriptors opened
-- before it closed in order and no other; or none, with all of them closed, where none works.
pub try_resolved_stream_socket-Probed :
    (res : List Candidate)
    → Probed (of_family true res ++ of_family false res) (try_resolved_stream_socket res)
try_resolved_stream_socket-Probed res =
    subst (Probed (of_family true res ++ of_family false res))
      (sym (try_resolved_stream_socket-probe res))
      (probe-Probed (of_family true res ++ of_family false res))

last_byte-append : (c : ℕ) (s : List ℕ) (d : ℕ) → last_byte c (s ++ (d ∷ [])) ≡ d
last_byte-append c [] d = refl
last_byte-append c (x ∷ s) d = last_byte-append x s d

-- A host in brackets loses them, and nothing else.
pub normalize_socket_host_brackets :
    (host : List ℕ) → normalize_socket_host (b'[' ∷ (host ++ (b']' ∷ []))) ≡ host
unfolding normalize_socket_host
normalize_socket_host_brackets host =
    let size = length-append host (b']' ∷ []) in
    let ends : last_byte b'[' (host ++ (b']' ∷ [])) ≡ b']' = last_byte-append b'[' host b']' in
    let long : leb 2 (length (b'[' ∷ (host ++ (b']' ∷ [])))) ≡ true = ground (arith, size) in
    let cut : length (b'[' ∷ (host ++ (b']' ∷ []))) - 2 ≡ length host = omega arith in
    rw (long, ends, cut) (take-append_length host (b']' ∷ []))
