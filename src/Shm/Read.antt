-- ===== src/Shm/Read.antt =====
-- shm::open in the read mode, of a segment of unknown size.
use xproc.Prelude.{ℕ, zero, suc, ◌≡◌, refl, Bool, true, List, some, arith}
use xproc.Options.{infer_existing_shm_size}
use xproc.Shm.{
  Shm, Sys, fails, gives, Kernel, read, open_segment, open_descriptor, after_open, size_segment,
  size_existing, map_segment,
}

-- The kernel opens the segment for reading, finds it longer than 0 and maps it.
pub record Readable (k : Kernel) : Type 0 where
  pub fd : ℕ
  pub last : ℕ
  pub address : ℕ
  pub opens : k.open_rdonly ≡ gives fd
  pub sized : k.stat ≡ gives (suc last)
  pub mapped : k.map ≡ gives address

module _ (path : List ℕ) where
  abbrev pub attempt : Kernel → Shm → Bool × Shm
  attempt k s = let o = open_segment k path infer_existing_shm_size read s in (o.result, o.shm)

  open_read :
      (k : Kernel) (s : Shm) (a b c : Sys)
      → k.open_rdonly ≡ a
      → k.stat ≡ b
      → k.map ≡ c
      → (attempt k s).0 ≡ true
      → Readable k
  unfolding open_segment open_descriptor after_open size_segment size_existing map_segment
  open_read k s (gives fd) (gives (suc n)) (gives m) p q r e = record {
    fd = fd;
    last = n;
    address = m;
    opens = p;
    sized = q;
    mapped = r;
  }
  open_read k s (fails n) b c p q r e = ground arith
  open_read k s (gives fd) (fails n) c p q r e = ground arith
  open_read k s (gives fd) (gives zero) c p q r e = ground arith
  open_read k s (gives fd) (gives (suc n)) (fails m) p q r e = ground arith

  pub attempt-Readable : (k : Kernel) (s : Shm) → (attempt k s).0 ≡ true → Readable k
  attempt-Readable k s e = open_read k s k.open_rdonly k.stat k.map refl refl refl e

  pub Readable-attempt :
      (k : Kernel) (s : Shm) (r : Readable k)
      → ((attempt k s).0 ≡ true) × ((attempt k s).1.addr ≡ some r.address)
  unfolding open_segment open_descriptor after_open size_segment size_existing map_segment
  Readable-attempt k s r = rw (r.opens, r.sized, r.mapped) (ground arith)
