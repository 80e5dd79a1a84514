-- ===== src/Client/Outside.antt =====
-- client/psvemmc/psvemmc.cpp: an index outside of the table of partitions.
use psvemmc.Base.{
  ℕ, zero, suc, ◌≤◌, ◌≡◌, refl, true, none, List, [], arith, is_neg, get_elem?, Exec, Outcome, done,
  invalid_access, out_of_fuel, Returns, drop, ◌>>=◌,
}
use psvemmc.Driver.Reads.{Medium, IsMedium}
use psvemmc.Driver.Correct.{Device, emmc, ms, gc}
use psvemmc.Client.State.{Peer, Client, IsPeer}
use psvemmc.Client.Commands.{emmc_ping}
use psvemmc.Client.Mbr.{sce_mbr, partition_entries, test_args, parse_sce_mbr, dump_device}
use psvemmc.Client.Service.{IsServed, Served, dump_mode}
use psvemmc.Client.Device.{emmc_ping-Served, parse_sce_mbr-Served}

get_elem?-partition_entries :
    (n : ℕ) (bytes : List ℕ) (i : ℕ) → n ≤ i → get_elem? (partition_entries n bytes) i ≡ none
unfolding partition_entries
get_elem?-partition_entries zero bytes i h = refl
get_elem?-partition_entries (suc n) bytes zero h = absurd (omega arith)
get_elem?-partition_entries (suc n) bytes (suc i) h =
    get_elem?-partition_entries n (drop 17 bytes) i (omega arith)

get_elem?-sce_mbr :
    (bytes : List ℕ) (i : ℕ) → 20 ≤ i → get_elem? (sce_mbr bytes).partitions i ≡ none
unfolding sce_mbr
get_elem?-sce_mbr bytes i h = get_elem?-partition_entries 20 (drop 80 bytes) i h

-- What follows a call that returns uses memory that is not its own.
bind-invalid :
    {S A B : Type 0} (m : Exec S A) (f : A → Exec S B) (s : S) (P : A × S → Type 0)
    → Returns (m s) P
    → ((a : A) (s' : S) → P (a, s') → f a s' ≡ invalid_access)
    → (m >>= f) s ≡ invalid_access
bind-invalid {S} {A} {B} m f s P h k = go (m s) h
  where
    go :
        (o : Outcome (A × S))
        → Returns o P
        → (elim o as (λ x. Outcome (B × S)) [
          | done (a, s') ↦ f a s'
          | invalid_access ↦ invalid_access
          | out_of_fuel ↦ out_of_fuel
        ])
          ≡ invalid_access
    go (done (a, s')) p = k a s' p
    go invalid_access p = absurd p
    go out_of_fuel p = absurd p

test_args_negative :
    (dev : Device) (index : ℕ) → is_neg index ≡ true → test_args (dump_mode dev) index ≡ 0
unfolding test_args
test_args_negative emmc index negative = rw negative refl
test_args_negative ms index negative = rw negative refl
test_args_negative gc index negative = rw negative refl

-- The tests of the arguments let every negative index pass, with every mode of the program; and with a
-- server that answers, dump_device then uses memory outside of the table of partitions.
pub dump_device_outside :
    (peer : Peer) (dev : Device) (disk : Medium) (index : ℕ) (c : Client)
    → IsPeer peer
    → IsMedium disk
    → IsServed peer dev disk
    → is_neg index ≡ true
    → c.incoming ≡ []
    → (test_args (dump_mode dev) index ≡ 0)
      × (dump_device peer (dump_mode dev) index c ≡ invalid_access)
unfolding dump_device
dump_device_outside peer dev disk index c law m h negative empty = (
  test_args_negative dev index negative,
  bind-invalid (emmc_ping peer) _ c (λ out. (out.0 ≡ 0) × Served c out.1)
      (emmc_ping-Served peer law dev disk m h c empty)
      (λ res c1 (x, (sent1, t1, y1)).
        rw (x, y1)
          (bind-invalid (parse_sce_mbr peer (dump_mode dev) (peer.local_bytes t1 512)) _
            (record c { incoming = []; sent = sent1; clock = t1 }) _
            (parse_sce_mbr-Served peer law dev disk m h (peer.local_bytes t1 512)
              (record c { incoming = []; sent = sent1; clock = t1 }) refl)
            (λ got c2 (z, y2).
              rw (get_elem?-sce_mbr got.1 index (ground (arith, negative))) refl))),
)
