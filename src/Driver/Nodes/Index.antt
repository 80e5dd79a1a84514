-- ===== src/Driver/Nodes/Index.antt =====
-- driver/hooks_vfs_ops.c: the device that get_sd_stor_dev_index_by_address finds for a pointer.
use psvemmc.Base.{
  ℕ, zero, suc, ◌<◌, ◌≡◌, ◌≢◌, ◌⊎◌, inl, inr, refl, arith, if◌then◌else◌, ◌==◌, ==→eq, ==→ne, neg,
  word, Bool-cases,
}
use psvemmc.Driver.Nodes.{
  System, device_at, get_sd_stor_device_base, get_sd_stor_dev_index_by_address,
}

-- The index of the device at this address in the table of five, or -1 for an address of none.
abbrev pub Indexes : ℕ → ℕ → ℕ → Type 0
Indexes base dev r =
    ((r < 5) × (dev ≡ device_at base r))
    ⊎ ((r ≡ neg 1) × ((i : ℕ) → i < 5 → dev ≢ device_at base i))

none_at :
    (base dev : ℕ)
    → dev ≢ device_at base 0
    → dev ≢ device_at base 1
    → dev ≢ device_at base 2
    → dev ≢ device_at base 3
    → dev ≢ device_at base 4
    → (i : ℕ) → i < 5
    → dev ≢ device_at base i
none_at base dev a b c d e zero h = a
none_at base dev a b c d e (suc zero) h = b
none_at base dev a b c d e (suc (suc zero)) h = c
none_at base dev a b c d e (suc (suc (suc zero))) h = d
none_at base dev a b c d e (suc (suc (suc (suc zero)))) h = e
none_at base dev a b c d e (suc (suc (suc (suc (suc i))))) h = absurd (omega arith)

-- The tests, of the first one and of the rest.
first :
    (base dev r : ℕ)
    → base < word
    → (dev ≢ device_at base 0 → Indexes base dev r)
    → Indexes base dev (if dev == base then 0 else r)
first base dev r w k = elim (Bool-cases (dev == base)) [
  | inl e ↦
      let at : dev ≡ device_at base 0 = omega (arith, ==→eq dev base e) in
      rw e (inl (omega arith, at))
  | inr e ↦ rw e (k (λ q. ==→ne dev base e (omega (arith, q))))
]

next :
    (base dev i r : ℕ)
    → i < 5
    → (dev ≢ device_at base i → Indexes base dev r)
    → Indexes base dev (if dev == device_at base i then i else r)
next base dev i r l k = elim (Bool-cases (dev == device_at base i)) [
  | inl e ↦ rw e (inl (l, ==→eq dev (device_at base i) e))
  | inr e ↦ rw e (k (==→ne dev (device_at base i) e))
]

-- The five devices of the SD driver stand one behind the other from the base on, an address: the index
-- that get_sd_stor_dev_index_by_address gives is that of the device at this address, or -1, and then
-- none of the five is there.
pub get_sd_stor_dev_index_by_address_lem :
    (sys : System) (dev : ℕ)
    → get_sd_stor_device_base sys < word
    → Indexes (get_sd_stor_device_base sys) dev (get_sd_stor_dev_index_by_address sys dev)
unfolding get_sd_stor_dev_index_by_address
get_sd_stor_dev_index_by_address_lem sys dev w =
    let base = get_sd_stor_device_base sys in
    let at = device_at base in
    let after4 = neg 1 in
    let after3 = (if dev == at 4 then 4 else after4) in
    let after2 = (if dev == at 3 then 3 else after3) in
    let after1 = (if dev == at 2 then 2 else after2) in
    let after0 = (if dev == at 1 then 1 else after1) in
    first base dev after0 w (λ n0. next base dev 1 after1 (omega arith) (λ n1.
      next base dev 2 after2 (omega arith) (λ n2. next base dev 3 after3 (omega arith) (λ n3.
        next base dev 4 after4 (omega arith) (λ n4. inr (refl, none_at base dev n0 n1 n2 n3 n4))))))
