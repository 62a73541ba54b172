-- ===== src/Mux/Pool/Limits.antt =====
-- `lease_stream` keeps the pool within its limits, whatever the dials give.
use rxcore.Prelude.{
  ℕ, suc, ◌+◌, ◌^◌, ◌≤◌, ◌<◌, ◌≡◌, refl, ap, inl, inr, List, [], ◌∷◌, ◌++◌, Option, none, some,
  Bool, true, false, not, length, length-append, ltb, arith, Bool-cases,
}
use rxcore.Prelude.Loops.{All, retain, length-retain-le}
use rxcore.Mux.Pool.{
  MuxConnection, MuxPool, new_connection, behind, lease_first, LeaseAction, lease, connect_new,
  error, lease_or, lease_action, Leased, leased, open_failed, capacity_exceeded, dial_failed,
  dialling, opened, push_connection, after_action, lease_stream,
}
use rxcore.Mux.Pool.Leases.{IsConnection, lease_on-IsConnection, new_connection-IsConnection}

-- A well-formed connection with at most `m` streams.
pub record Within (m : ℕ) (c : MuxConnection) : Type 0 where
  pub connection : IsConnection c
  pub limited : c.stream_count ≤ m

-- A connection whose ids have not run out.
abbrev pub HasIds : MuxConnection → Type 0
HasIds c = c.next_stream_id + 1 < 2 ^ 32

pub record IsPool (p : MuxPool) : Type 0 where
  pub sized : length p.connections ≤ p.max_connections
  pub within : All (Within p.max_streams_per_connection) p.connections

abbrev pub pool_of : Leased → MuxPool
pool_of (leased index id p) = p
pool_of (open_failed p) = p
pool_of (capacity_exceeded p) = p
pool_of (dial_failed p) = p
pool_of (dialling p) = p

All-retain {ℓ} :
    (P : MuxConnection → Type ℓ) (keep : MuxConnection → Bool) (cs : List MuxConnection)
    → All P cs
    → All P (retain keep cs)
All-retain P keep [] a = a
All-retain P keep (c ∷ cs) a = elim (Bool-cases (keep c)) [
  | inl e ↦ rw e (a.0, All-retain P keep cs a.1)
  | inr e ↦ rw e (All-retain P keep cs a.1)
]

All-append {ℓ} :
    (P : MuxConnection → Type ℓ) (cs ds : List MuxConnection)
    → All P cs
    → All P ds
    → All P (cs ++ ds)
All-append P [] ds a b = b
All-append P (c ∷ cs) ds a b = (a.0, All-append P cs ds a.1 b)

-- The connections after a lease, if one was found.
abbrev AfterLease : ℕ → ℕ → Option (ℕ × ℕ × List MuxConnection) → Type 0
AfterLease m n none = Unit
AfterLease m n (some (index, id, cs)) = All (Within m) cs × (length cs ≡ n)

behind-AfterLease :
    (m n : ℕ) (c : MuxConnection) (o : Option (ℕ × ℕ × List MuxConnection))
    → Within m c
    → AfterLease m n o
    → AfterLease m (suc n) (behind c o)
behind-AfterLease m n c none w a = tt
behind-AfterLease m n c (some (index, id, cs)) w (all, len) = ((w, all), ap suc len)

lease_first-AfterLease :
    (m : ℕ) (cs : List MuxConnection)
    → m < 2 ^ 32
    → All (Within m) cs
    → All HasIds cs
    → AfterLease m (length cs) (lease_first m cs)
unfolding lease_first
lease_first-AfterLease m [] h a ids = tt
lease_first-AfterLease m (c ∷ cs) h a ids = elim (Bool-cases (ltb c.stream_count m)) [
  | inl room ↦
      let few : c.stream_count < m = ground arith in
      let (conn, count, _) = lease_on-IsConnection c a.0.connection ids.0 (omega arith) in
      rw room ((record { connection = conn; limited = omega arith }, a.1), refl)
  | inr full ↦
      rw full (behind-AfterLease m (length cs) c _ a.0 (lease_first-AfterLease m cs h a.1 ids.1))
]

-- What `lease_action` leaves behind.
abbrev ActionKeeps : MuxPool → LeaseAction → Type 0
ActionKeeps p (lease index id q) = IsPool q
ActionKeeps p (connect_new q) =
    IsPool q
    × All HasIds q.connections
    × (length q.connections < q.max_connections)
    × (q.max_streams_per_connection ≡ p.max_streams_per_connection)
ActionKeeps p (error q) = IsPool q

lease_or-ActionKeeps :
    (p : MuxPool) (o : Option (ℕ × ℕ × List MuxConnection))
    → IsPool p
    → All HasIds p.connections
    → AfterLease p.max_streams_per_connection (length p.connections) o
    → ActionKeeps p (lease_or p o)
lease_or-ActionKeeps p (some (index, id, cs)) v ids (all, len) = record {
  sized = omega (arith, len, v.sized);
  within = all;
}
lease_or-ActionKeeps p none v ids a =
    elim (Bool-cases (ltb (length p.connections) p.max_connections)) [
      | inl room ↦ rw room (v, ids, ground arith, refl)
      | inr full ↦ rw full v
    ]

lease_action-ActionKeeps :
    (p : MuxPool)
    → IsPool p
    → All HasIds p.connections
    → p.max_streams_per_connection < 2 ^ 32
    → ActionKeeps p (lease_action p)
unfolding lease_action
lease_action-ActionKeeps p v ids h =
    let keep : MuxConnection → Bool = λ c. not c.is_finished in
    let all = All-retain (Within p.max_streams_per_connection) keep p.connections v.within in
    let live_ids = All-retain HasIds keep p.connections ids in
    lease_or-ActionKeeps _ _
      (record { sized = omega (arith, length-retain-le keep p.connections, v.sized); within = all })
      live_ids (lease_first-AfterLease p.max_streams_per_connection _ h all live_ids)

push_connection-IsPool :
    (b : Bool) (p : MuxPool)
    → IsPool p
    → length p.connections < p.max_connections
    → IsPool (push_connection b p)
unfolding push_connection
push_connection-IsPool b p v room = record {
  sized =
      omega (arith, length-append p.connections (record new_connection { is_finished = b } ∷ []));
  within = All-append _ p.connections _ v.within (
    record {
      connection = new_connection-IsConnection b;
      limited = unfold new_connection in omega arith;
    },
    tt,
  );
}

push_connection-HasIds :
    (b : Bool) (p : MuxPool)
    → All HasIds p.connections
    → All HasIds (push_connection b p).connections
unfolding push_connection new_connection
push_connection-HasIds b p ids = All-append HasIds p.connections _ ids (omega arith, tt)

opened-IsPool :
    (ok : Bool) (i id : ℕ) (q : MuxPool) → IsPool q → IsPool (pool_of (opened ok i id q))
opened-IsPool true i id q v = v
opened-IsPool false i id q v = v

-- What goes on for a new connection must keep the pool, if there is room for one.
after_action-IsPool :
    (ok : Bool) (connect : MuxPool → Leased) (p : MuxPool) (a : LeaseAction)
    → ActionKeeps p a
    → ((q : MuxPool)
        → IsPool q
        → All HasIds q.connections
        → length q.connections < q.max_connections
        → q.max_streams_per_connection ≡ p.max_streams_per_connection
        → IsPool (pool_of (connect q)))
    → IsPool (pool_of (after_action ok connect a))
unfolding after_action
after_action-IsPool ok connect p (lease index id q) k go = opened-IsPool ok index id q k
after_action-IsPool ok connect p (connect_new q) (v, ids, room, same) go = go q v ids room same
after_action-IsPool ok connect p (error q) k go = k

-- `lease_stream` keeps every connection well formed and within its limit of streams, and the pool
-- within its limit of connections, whether it leases, fails to open, fails to dial or gives up, and
-- whatever the dials give: while the stream ids of the connections have not run out and no other
-- task changes the pool.
pub lease_stream-IsPool :
    (send_ok : Bool) (dials : List (Option Bool)) (p : MuxPool)
    → IsPool p
    → All HasIds p.connections
    → p.max_streams_per_connection < 2 ^ 32
    → IsPool (pool_of (lease_stream send_ok dials p))
unfolding lease_stream
lease_stream-IsPool ok [] p v ids h =
    after_action-IsPool ok dialling p (lease_action p) (lease_action-ActionKeeps p v ids h)
      λ q vq idq room same. vq
lease_stream-IsPool ok (none ∷ dials) p v ids h =
    after_action-IsPool ok dial_failed p (lease_action p) (lease_action-ActionKeeps p v ids h)
      λ q vq idq room same. vq
lease_stream-IsPool ok (some b ∷ dials) p v ids h =
    after_action-IsPool ok _ p (lease_action p) (lease_action-ActionKeeps p v ids h)
      λ q vq idq room same.
        lease_stream-IsPool ok dials (push_connection b q) (push_connection-IsPool b q vq room)
          (push_connection-HasIds b q idq) (unfold push_connection in rw same h)
