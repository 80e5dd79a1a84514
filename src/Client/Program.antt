-- ===== src/Client/Program.antt =====
-- client/psvemmc/psvemmc.cpp, main: the whole program.
use psvemmc.Base.{
  ℕ, suc, ◌+◌, ◌%◌, ◌<◌, ◌≡◌, ◌⊎◌, inl, inr, refl, ap, ◌∙◌, Option, some, List, [], ◌∷◌, ◌++◌,
  append_assoc, arith, if◌then◌else◌, is_neg, word, get_elem?, Exec, Outcome, done, Returns, pure,
  invalid_access, out_of_fuel, ◌>>=◌, ◌>>◌,
}
use psvemmc.Driver.Reads.{Medium, IsMedium}
use psvemmc.Driver.Correct.{Device}
use psvemmc.Client.State.{Peer, IsPeer}
use psvemmc.Client.Dump.{PartitionEntry}
use psvemmc.Client.Mbr.{sce_mbr, parse_args, dump_device}
use psvemmc.Client.Service.{IsServed, dump_mode}
use psvemmc.Client.Device.{DeviceDumped, dump_device_lem}
use psvemmc.Client.Connect.{
  Winsock, Sockets, Process, within, wsa_cleanup, closesocket, in_client, in_sockets,
  initialize_emmc_proxy_connection, deinitialize_emmc_proxy_connection, main,
}
use psvemmc.Client.Closing.{connected, Closed, Initialized, initialize_emmc_proxy_connection_lem}

-- A call of a part of the program, and what follows.
within-bind :
    {A B S : Type 0} (o : Outcome (A × S)) (put : S → Process) (f : A → Exec Process B)
    (p : Process) (P : A × S → Type 0) (Q : B × Process → Type 0)
    → Returns o P
    → ((a : A) (s : S) → P (a, s) → Returns (f a (put s)) Q)
    → Returns (((λ q. within o put) >>= f) p) Q
within-bind (done (a, s)) put f p P Q h k = k a s h
within-bind invalid_access put f p P Q h k = h
within-bind out_of_fuel put f p P Q h k = h

-- What a run leaves: there was no connection and nothing was done, or the partition was dumped as
-- dump_device does it, which the exit code does not tell.
abbrev pub ProgramRan : Medium → PartitionEntry → Process → Option ℕ × Process → Type 0
ProgramRan disk partition p out =
    Closed p.sockets out.1.sockets
    × (((out.0 ≡ some 1) × (out.1.client ≡ p.client))
        ⊎ ((res code : ℕ) × (out.0 ≡ some code)
            × DeviceDumped disk partition p.client (res, out.1.client)))

-- The program, with arguments that are good, for an entry of the table of partitions whose first
-- sector is a multiple of 8 and whose first sector and size add up to less than 2^32, where no bytes
-- are left to be read, and with a server that answers each request with the result 0 and the data of a
-- medium, over a connection that does not fail once it is there, takes each request and brings each
-- message of at most 22 bytes, the header of a cluster among them, in one piece: whatever Winsock
-- answers, main returns, every socket it opened is closed
-- once, every successful WSAStartup has its WSACleanup, and either the exit code is 1 and
-- nothing was read or written, or the entry was dumped as dump_device does it.
pub main_lem :
    (wsa : Winsock) (peer : Peer) (lexical_cast : List ℕ → Option ℕ) (dev : Device) (disk : Medium)
    (argv : List (List ℕ)) (path : List ℕ) (index : ℕ) (partition : PartitionEntry) (p : Process)
    → IsPeer peer
    → IsMedium disk
    → IsServed peer dev disk
    → parse_args lexical_cast argv ≡ some (0, dump_mode dev, index, path)
    → get_elem? (sce_mbr (disk 0)).partitions index ≡ some partition
    → partition.partition_offset + partition.partition_size < word
    → partition.partition_offset % 8 ≡ 0
    → p.client.incoming ≡ []
    → Returns (main wsa peer lexical_cast argv p) (ProgramRan disk partition p)
unfolding main deinitialize_emmc_proxy_connection
main_lem wsa peer lexical_cast dev disk argv path index partition p law m h args found w start
      empty =
    rw (Returns, main, args)
      (within-bind (initialize_emmc_proxy_connection wsa p.sockets) (λ k. record p { sockets = k })
        _ p (Initialized p.sockets) _ (initialize_emmc_proxy_connection_lem wsa p.sockets)
        (λ (res, sock) k x. connect res sock k x))
  where
    connect :
        (res sock : ℕ) (k : Sockets)
        → Initialized p.sockets ((res, sock), k)
        → Returns
            ((if is_neg res then pure (some 1) else do
              in_client (dump_device peer (dump_mode dev) index)
              res_2 ← in_sockets (deinitialize_emmc_proxy_connection wsa sock)
              pure (some (if is_neg res_2 then 1 else 0)))
              (record p { sockets = k }))
            (ProgramRan disk partition p)
    connect res sock k (inr (e, closed)) = rw e (closed, inl (refl, refl))
    connect res sock k (inl (e, (xs, there))) = rw e (
        within-bind (dump_device peer (dump_mode dev) index p.client)
          (λ c. record p { client = c; sockets = k }) _ (record p { sockets = k })
          (DeviceDumped disk partition p.client) (ProgramRan disk partition p)
          (dump_device_lem peer law dev disk m h index partition p.client found w start empty)
          (λ r c dumped.
            within-bind (deinitialize_emmc_proxy_connection wsa sock k)
              (λ k'. record p { client = c; sockets = k' })
              (λ res_2. pure (some (if is_neg res_2 then 1 else 0)))
              (record p { client = c; sockets = k })
              (λ out. out.1 ≡ wsa_cleanup (closesocket sock k)) (ProgramRan disk partition p) refl
              (λ res_2 k' e'. (
                ended k' (e' ∙ ap (λ x. wsa_cleanup (closesocket sock x)) there),
                inr (r, (if is_neg res_2 then 1 else 0), refl, dumped),
              ))))
      where
        ended :
            (k' : Sockets)
            → k'
              ≡ wsa_cleanup (
                  closesocket sock (record (connected p.sockets xs sock) {
                    startups = suc p.sockets.startups;
                    lists = suc p.sockets.lists;
                    freed = suc p.sockets.freed;
                  }))
            → Closed p.sockets k'
        ended k' e' = rw e' (
          xs ++ (sock ∷ []),
          1,
          refl,
          append_assoc p.sockets.closed xs (sock ∷ []),
          omega arith,
          omega arith,
        )
