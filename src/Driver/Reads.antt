-- ===== src/Driver/Reads.antt =====
-- driver/psvemmc.c: what the read functions of the driver give, for devices that behave as
-- documented: a read fails, or fills the buffer with the sectors of the medium.
use psvemmc.Base.{
  ℕ, zero, suc, ◌*◌, ◌<◌, ◌≤◌, ◌≡◌, ◌⊎◌, refl, true, false, Option, none, some, List, [], ◌++◌,
  arith, is_neg, word, length, take, length-append, overwrite,
}
use psvemmc.Pool.{Pool, reach, replace}
use psvemmc.Pool.Lifecycle.{IsPool}
use psvemmc.Driver.{Driver, Kernel, Reader, Reply, first_sector}

-- The content of a medium, by sectors, and the bytes of `n` sectors from one on.
abbrev pub Medium : Type 0
Medium = ℕ → List ℕ

abbrev pub sectors : Medium → ℕ → ℕ → List ℕ
sectors disk first zero = []
sectors disk first (suc n) = disk first ++ sectors disk (suc first) n

pub record IsMedium (disk : Medium) : Type 0 where
  pub sector_size : (i : ℕ) → length (disk i) ≡ 512

-- A reader of a medium: a call fails, or puts the sectors at the start of the buffer. Either way the
-- buffer keeps its size.
pub record ReadsFrom (read : Reader) (disk : Medium) : Type 0 where
  pub read_size : (t i n : ℕ) (buffer : List ℕ) → length (read t i n buffer).1 ≡ length buffer
  pub read_int : (t i n : ℕ) (buffer : List ℕ) → (read t i n buffer).0 < word
  pub read_law :
      (t i n : ℕ) (buffer : List ℕ)
      → (is_neg (read t i n buffer).0 ≡ true)
        ⊎ ((read t i n buffer).1 ≡ overwrite buffer (sectors disk i n))

-- The kernel copies all bytes to the user, or fails; local arrays have the size they are declared
-- with.
pub record IsKernel (k : Kernel) : Type 0 where
  pub copy_int : (t : ℕ) (bytes : List ℕ) → (k.copy_to_user t bytes).0 < word
  pub copy_law :
      (t : ℕ) (bytes : List ℕ)
      → (is_neg (k.copy_to_user t bytes).0 ≡ true) ⊎ ((k.copy_to_user t bytes).1 ≡ length bytes)
  pub stack_size : (t n : ℕ) → length (k.stack t n) ≡ n
  pub block_size : (t n : ℕ) → length (k.blocks.fresh t n) ≡ n

-- A read gave these bytes and 0, or an error and a part of at most as many bytes.
abbrev pub Replies : List ℕ → Reply → Type 0
Replies bytes reply =
    ((reply.0 ≡ 0) × (reply.1 ≡ bytes))
    ⊎ ((is_neg reply.0 ≡ true) × (reply.0 < word) × (length reply.1 ≤ length bytes))

-- A read changes the clock, and what the pool's memory holds, but not its size.
abbrev pub Kept : Driver → Driver → Type 0
Kept d d' =
    (memory : Option (List ℕ)) × (t : ℕ) × (d'
      ≡ record d { pool = record (d.pool) { memory = memory }; clock = t })
    × (length (reach memory) ≡ length (reach d.pool.memory))
    × (d.pool.memory ≡ none → memory ≡ none)

-- A call of the device into a buffer, and of the kernel to copy the bytes to the user.
pub record Call : Type 0 where
  pub read : Reader
  pub sector : ℕ
  pub count : ℕ
  pub buffer : List ℕ

-- An error is that of the device, and no byte goes to the user; or the device succeeded, and it is that
-- of the copy, and the bytes that were copied are at the user's.
abbrev pub Blames : Kernel → Call → Driver → List ℕ → Reply → Type 0
Blames k call d bytes reply =
    let res = (call.read d.clock call.sector call.count call.buffer).0 in
    let got = k.copy_to_user (suc d.clock) bytes in
    (reply.0 ≡ 0)
    ⊎ ((is_neg res ≡ true) × (reply ≡ (res, [])))
    ⊎ ((is_neg res ≡ false) × (is_neg got.0 ≡ true) × (reply ≡ (got.0, take got.1 bytes)))

abbrev pub Reads : Kernel → Call → Driver → List ℕ → Reply × Driver → Type 0
Reads k call d bytes out = Replies bytes out.0 × Kept d out.1 × Blames k call d bytes out.0

pub length-sectors :
    (disk : Medium) → IsMedium disk → (i n : ℕ) → length (sectors disk i n) ≡ n * 512
length-sectors disk m i zero = omega arith
length-sectors disk m i (suc n) = omega (
  arith,
  length-append (disk i) (sectors disk (suc i) n),
  m.sector_size i,
  length-sectors disk m (suc i) n,
)

-- The memory of a ready pool has room for exactly the sectors of a cluster.
pub cluster_bytes :
    (p : Pool)
    → IsPool p
    → p.initialized ≡ true
    → p.sectors_per_cluster * 512 < word
    → length (reach p.memory) ≡ p.sectors_per_cluster * 512
cluster_bytes p v ready fits = rw (v.sized ready, v.by_sector ready) (omega arith)

pub length-replace :
    (memory : Option (List ℕ)) (bytes : List ℕ)
    → length bytes ≡ length (reach memory)
    → length (reach (replace memory bytes)) ≡ length (reach memory)
length-replace none bytes e = refl
length-replace (some old) bytes e = e

abbrev pub sector_call : Kernel → Reader → ℕ → Driver → Call
sector_call k read sector d = record {
  read = read;
  sector = sector;
  count = 1;
  buffer = k.stack d.clock 512;
}

abbrev pub cluster_call : Reader → ℕ → Driver → Call
cluster_call read cluster d = record {
  read = read;
  sector = first_sector d cluster;
  count = d.pool.sectors_per_cluster;
  buffer = reach d.pool.memory;
}
