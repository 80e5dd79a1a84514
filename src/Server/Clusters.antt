-- ===== src/Server/Clusters.antt =====
-- server/src/main.c: the handlers that read or write a cluster, through the pool.
use psvemmc.Base.{
  ℕ, suc, ◌≤◌, ◌<◌, ◌≡◌, ◌⊎◌, inl, inr, refl, ◌∙◌, List, ◌++◌, arith, ◌==◌, length, of_bytes,
  overwrite, drop, length-overwrite, Returns, Returns-mono, guard-Returns, ==→ne, ==→eq,
}
use psvemmc.Pool.{cluster_size, reach}
use psvemmc.Driver.{Driver, Reply}
use psvemmc.Server.State.{Net, Server, Sys, send_all, accepted}
use psvemmc.Server.Transfer.{IsNet, after_send, Sends, send_whole}
use psvemmc.Server.Receive.{after_recv}
use psvemmc.Server.Steps.{in_driver-bind, copy_into-bind, recv_all-bind, Sent}
use psvemmc.Server.Protocol.{Command, encode, blank}
use psvemmc.Server.Handlers.{
  Read, Write, handle_read_cluster, handle_write_cluster, refuse, set_pool_memory,
}
use psvemmc.Server.Sectors.{requested, number, Refused, Refuses, refuse_lem}

abbrev pub pool_bytes : Server → List ℕ
pool_bytes s = reach s.pool.memory

-- The driver ran on the number that came and filled the pool; the header was sent with one call,
-- and the pool behind it.
abbrev pub ClusterSent :
    Net → Server → Command → (ℕ → Reply × Driver → Type 0) → ℕ × Server → Type 0
ClusterSent net s c R out =
    (reply : Reply) × (d : Driver) × (mid : Server) × ((number net s).0 ≡ 4)
    × R (of_bytes (number net s).1) (reply, d)
    × Sent net
        (set_pool_memory (overwrite (pool_bytes s) reply.1)
          (record (requested net s) { driver = d }))
        (encode (record (blank c 0) { proxy_err = reply.0 })) mid
    × Sends net mid (overwrite (pool_bytes s) reply.1) out

-- The data of a write came into the pool, and the response was sent.
abbrev pub ClusterWritten : Net → Server → Command → Write → ℕ × Server → Type 0
ClusterWritten net s c write out =
    (bytes : List ℕ) × (t : ℕ) × ((number net s).0 ≡ 4)
    × (length bytes ≡ cluster_size s.pool)
    × (s.clock < t)
    × Sent net
        (record (set_pool_memory bytes (after_recv (requested net s) bytes t)) {
          driver = (write (of_bytes (number net s).1) bytes s.driver).1;
        })
        (encode
          (record (blank c 0) { proxy_err = (write (of_bytes (number net s).1) bytes s.driver).0 }))
        out.1

-- Only a part of the data came; it stands at the start of the pool.
abbrev pub ClusterCut : Net → Server → Command → ℕ × Server → Type 0
ClusterCut net s c out =
    (bytes : List ℕ) × (t : ℕ) × (length bytes < cluster_size s.pool)
    × (s.clock < t)
    × Refused net
        (set_pool_memory (bytes ++ drop (length bytes) (pool_bytes s))
          (after_recv (requested net s) bytes t))
        c 0 out

module _ (sys : Sys) (law : IsNet sys.net) where
  pub handle_read_cluster_lem :
      (c : Command) (read : Read) (R : ℕ → Reply × Driver → Type 0) (s : Server)
      → ((i : ℕ) → Returns (read i s.driver) (R i))
      → ((i : ℕ) (out : Reply × Driver) → R i out → length out.0.1 ≤ length (pool_bytes s))
      → length (pool_bytes s) ≡ cluster_size s.pool
      → Returns
          (handle_read_cluster sys c read s)
          (λ out. Refuses sys.net s c 0 out ⊎ ClusterSent sys.net s c R out)
  unfolding handle_read_cluster
  handle_read_cluster_lem c read R s reads short l =
      let got = number sys.net s in
      let i = of_bytes got.1 in
      let s1 = requested sys.net s in
      let Q : ℕ × Server → Type 0 =
        λ out. Refuses sys.net s c 0 out ⊎ ClusterSent sys.net s c R out in
      guard-Returns (got.0 == 4) _ _ s1 Q
        (λ no.
          Returns-mono (refuse sys c 0 s1) (Refused sys.net s1 c 0) Q
            (λ out h. inl (==→ne _ 4 no, h)) (refuse_lem sys c 0 s1))
        (λ yes. in_driver-bind (read i) _ s1 (R i) Q (reads i) (λ reply d h.
          let filled = overwrite (pool_bytes s) reply.1 in
          let header = encode (record (blank c 0) { proxy_err = reply.0 }) in
          let s2 = set_pool_memory filled (record s1 { driver = d }) in
          let res = sys.net.send s2.clock s2.cli_sock header in
          let s3 = after_send s2 (accepted res header) (suc s2.clock) in
          copy_into-bind (pool_bytes s) reply.1 _ (record s1 { driver = d }) Q
            (short i (reply, d) h)
            (Returns-mono (send_all sys.net filled (cluster_size s.pool) s3)
              (Sends sys.net s3 filled) Q (λ out p. inr (reply, d, s3, ==→eq _ 4 yes, h, refl, p))
              (send_whole sys.net filled (cluster_size s.pool) s3 law (omega arith)
                (length-overwrite (pool_bytes s) reply.1 ∙ l)))))

  pub handle_write_cluster_lem :
      (c : Command) (write : Write) (s : Server)
      → length (pool_bytes s) ≡ cluster_size s.pool
      → Returns (handle_write_cluster sys c write s) (λ out.
        Refuses sys.net s c 0 out
        ⊎ ClusterCut sys.net s c out
        ⊎ ClusterWritten sys.net s c write out)
  unfolding handle_write_cluster
  handle_write_cluster_lem c write s l =
      let got = number sys.net s in
      let s1 = requested sys.net s in
      let size = cluster_size s.pool in
      let Q : ℕ × Server → Type 0 = λ out.
        Refuses sys.net s c 0 out
        ⊎ ClusterCut sys.net s c out
        ⊎ ClusterWritten sys.net s c write out in
      guard-Returns (got.0 == 4) _ _ s1 Q
        (λ no.
          Returns-mono (refuse sys c 0 s1) (Refused sys.net s1 c 0) Q
            (λ out h. inl (==→ne _ 4 no, h)) (refuse_lem sys c 0 s1))
        (λ yes.
          recv_all-bind sys.net law (pool_bytes s) size _ s1 Q (omega arith) l
            (λ bytes t e later. inr (inr (bytes, t, ==→eq _ 4 yes, e, later, refl)))
            (λ bytes t e later.
              let s2 =
                set_pool_memory (bytes ++ drop (length bytes) (pool_bytes s))
                  (after_recv s1 bytes t) in
              Returns-mono (refuse sys c 0 s2) (Refused sys.net s2 c 0) Q
                (λ out h. inr (inl (bytes, t, e, later, h))) (refuse_lem sys c 0 s2)))
