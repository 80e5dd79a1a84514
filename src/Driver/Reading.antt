-- ===== src/Driver/Reading.antt =====
-- driver/psvemmc.c: the common reading of a sector and of a cluster, step by step.
use psvemmc.Base.{
  ℕ, suc, ◌+◌, ◌*◌, ◌<◌, ◌≤◌, ◌≡◌, ◌⊎◌, inl, inr, refl, ◌∙◌, sym, true, false, Option, none, some,
  List, arith, if◌then◌else◌, is_neg, word, leb, le→leb, length, take, take_all, append-nil,
  overwrite, overwrite_all, Bool-cases, Returns, length-take, if-apply, done, ◌>>=◌, slice,
}
use psvemmc.Pool.{cluster_size, reach, replace}
use psvemmc.Pool.Lifecycle.{IsPool}
use psvemmc.Driver.{
  Driver, Kernel, Reader, Reply, tick, set_memory, first_sector, transfer, to_user, sector_from,
  cluster_from,
}
use psvemmc.Driver.Reads.{
  Medium, sectors, IsMedium, ReadsFrom, IsKernel, Replies, Kept, Call, Blames, Reads,
  length-sectors, cluster_bytes, length-replace, sector_call, cluster_call,
}

sectors-one : (disk : Medium) (i : ℕ) → sectors disk i 1 ≡ disk i
sectors-one disk i = append-nil (disk i)

replace-none :
    (memory : Option (List ℕ)) (bytes : List ℕ) → memory ≡ none → replace memory bytes ≡ none
replace-none none bytes e = refl
replace-none (some old) bytes e = cc

-- A read that did not fail filled a buffer of the right size with the sectors.
filled :
    (read : Reader) (disk : Medium) (t i n : ℕ) (buffer : List ℕ)
    → IsMedium disk
    → ReadsFrom read disk
    → length buffer ≡ n * 512
    → is_neg (read t i n buffer).0 ≡ false
    → (read t i n buffer).1 ≡ sectors disk i n
filled read disk t i n buffer m r l good = go (r.read_law t i n buffer)
  where
    go :
        (is_neg (read t i n buffer).0 ≡ true)
          ⊎ ((read t i n buffer).1 ≡ overwrite buffer (sectors disk i n))
        → (read t i n buffer).1 ≡ sectors disk i n
    go (inl bad) = cc
    go (inr e) = e ∙ overwrite_all buffer (sectors disk i n) (length-sectors disk m i n ∙ sym l)

copy_result : Kernel → List ℕ → Driver → Reply
copy_result k buffer d =
    let got = k.copy_to_user d.clock buffer in
    if is_neg got.0 then (got.0, take got.1 buffer) else (0, take got.1 buffer)

to_user_step :
    (k : Kernel) (len : ℕ) (buffer : List ℕ) (d : Driver)
    → length buffer ≡ len
    → to_user k len buffer d ≡ done (copy_result k buffer d, tick d)
unfolding copy_result
to_user_step k len buffer d e =
    let all : take len buffer ≡ buffer = take_all len buffer (omega arith) in
    let fits : leb (0 + len) (length buffer) ≡ true = le→leb _ _ (omega arith) in
    rw (to_user, ◌>>=◌, slice, fits, all)

transfer_step :
    (read : Reader) (i n : ℕ) (buffer : List ℕ) (d : Driver)
    → n * 512 ≤ length buffer
    → transfer read i n buffer d ≡ done (read d.clock i n buffer, tick d)
transfer_step read i n buffer d h = rw (le→leb _ _ h)

copy_result-Replies :
    (k : Kernel) (buffer : List ℕ) (d : Driver)
    → IsKernel k
    → Replies buffer (copy_result k buffer d)
unfolding copy_result
copy_result-Replies k buffer d law =
    let got = k.copy_to_user d.clock buffer in
    elim (Bool-cases (is_neg got.0)) [
      | inl bad ↦
          rw bad (inr (bad, law.copy_int d.clock buffer, omega (arith, length-take got.1 buffer)))
      | inr good ↦
          rw good (inl (refl, take_all got.1 buffer (ground (arith, law.copy_law d.clock buffer))))
    ]

-- What the copy gives, once the device has succeeded.
copied :
    (k : Kernel) (call : Call) (d : Driver) (bytes : List ℕ)
    → is_neg (call.read d.clock call.sector call.count call.buffer).0 ≡ false
    → Blames k call d bytes (copy_result k bytes (tick d))
unfolding copy_result
copied k call d bytes good = elim (Bool-cases (is_neg (k.copy_to_user (suc d.clock) bytes).0)) [
  | inl bad ↦ rw bad (inr (inr (good, refl, refl)))
  | inr fine ↦ rw fine (inl refl)
]

module _ (k : Kernel) (law : IsKernel k) where
  pub sector_from-Reads :
      (read : Reader) (disk : Medium) (sector : ℕ) (d : Driver)
      → IsMedium disk
      → ReadsFrom read disk
      → Returns
          (sector_from k read sector d)
          (Reads k (sector_call k read sector d) d (disk sector))
  sector_from-Reads read disk sector d m r =
      let buffer = k.stack d.clock 512 in
      let res = read d.clock sector 1 buffer in
      let size : length buffer ≡ 512 = law.stack_size d.clock 512 in
      let got : is_neg res.0 ≡ false → res.1 ≡ disk sector = λ good.
        filled read disk d.clock sector 1 buffer m r (omega arith) good ∙ sectors-one disk sector in
      rw
        (
          Returns,
          sector_from,
          ◌>>=◌,
          transfer_step read sector 1 buffer d (omega arith),
          if-apply (is_neg res.0) _ _ _,
        )
        (elim (Bool-cases (is_neg res.0)) [
          | inl bad ↦ rw bad (
            inr (bad, r.read_int d.clock sector 1 buffer, omega arith),
            (d.pool.memory, suc d.clock, refl, refl, λ e. e),
            inr (inl (bad, refl)),
          )
          | inr good ↦
              rw
                (
                  good,
                  to_user_step k 512 res.1 (tick d) (r.read_size d.clock sector 1 buffer ∙ size),
                )
                (
                  rw (← got good) (copy_result-Replies k res.1 (tick d) law),
                  (d.pool.memory, suc (suc d.clock), refl, refl, λ e. e),
                  rw (← got good) (copied k (sector_call k read sector d) d res.1 good),
                )
        ])

  pub cluster_from-Reads :
      (read : Reader) (disk : Medium) (cluster : ℕ) (d : Driver)
      → IsMedium disk
      → ReadsFrom read disk
      → IsPool d.pool
      → d.pool.initialized ≡ true
      → d.pool.sectors_per_cluster * 512 < word
      → Returns (cluster_from k read cluster d) (
          Reads k
            (cluster_call read cluster d)
            d
            (sectors disk (first_sector d cluster) d.pool.sectors_per_cluster))
  unfolding copy_result
  cluster_from-Reads read disk cluster d m r v ready fits =
      let n = d.pool.sectors_per_cluster in
      let buffer = reach d.pool.memory in
      let i = first_sector d cluster in
      let res = read d.clock i n buffer in
      let size : length buffer ≡ n * 512 = cluster_bytes d.pool v ready fits in
      let got : is_neg res.0 ≡ false → res.1 ≡ sectors disk i n =
        λ good. filled read disk d.clock i n buffer m r size good in
      let d' = set_memory res.1 (tick d) in
      let len : length res.1 ≡ cluster_size d.pool =
        r.read_size d.clock i n buffer ∙ v.sized ready in
      let kept : (t : ℕ) → Kept d (record d' { clock = t }) = λ t. (
        replace d.pool.memory res.1,
        t,
        refl,
        length-replace d.pool.memory res.1 (r.read_size d.clock i n buffer),
        replace-none d.pool.memory res.1,
      ) in
      rw
        (
          Returns,
          cluster_from,
          ◌>>=◌,
          transfer_step read i n buffer d (omega arith),
          if-apply (is_neg res.0) _ _ _,
        )
        (elim (Bool-cases (is_neg res.0)) [
          | inl bad ↦ rw bad (
            inr (bad, r.read_int d.clock i n buffer, omega arith),
            kept (suc d.clock),
            inr (inl (bad, refl)),
          )
          | inr good ↦
              rw (good, to_user_step k (cluster_size d.pool) res.1 d' len)
                (
                  rw (← got good) (copy_result-Replies k res.1 d' law),
                  kept (suc (suc d.clock)),
                  rw (← got good) (copied k (cluster_call read cluster d) d res.1 good),
                )
        ])
