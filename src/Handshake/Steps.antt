-- ===== src/Handshake/Steps.antt =====
-- The connections that go through `accept_reality_bounded` at the same time. A connection takes a
-- permit, then enters the map or is refused, and at the end, whichever it is (done, failed, timed out,
-- cancelled), its guard first leaves the map and then gives the permit back.
use rxcore.Prelude.{ℕ, suc, ◌+◌, ◌≡◌, List, [], ◌∷◌, ◌++◌}
use rxcore.Handshake.{Ip, canonical_ip, Active, entered, ip_limit_exceeded, map_full, enter, leave}

pub record System : Type 0 where
  pub permits : ℕ
  pub holding : List Ip
  pub guards : List Ip
  pub releasing : ℕ
  pub active : Active

pub data Step (s : System) : System → Type 0 where
  takes :
      (address : Ip) (n : ℕ)
      → s.permits ≡ suc n
      → Step s (record s { permits = n; holding = canonical_ip address ∷ s.holding })
  over_limit :
      (before after : List Ip) (ip : Ip)
      → s.holding ≡ before ++ ip ∷ after
      → enter ip s.active ≡ ip_limit_exceeded
      → Step s (record s { permits = s.permits + 1; holding = before ++ after })
  full :
      (before after : List Ip) (ip : Ip)
      → s.holding ≡ before ++ ip ∷ after
      → enter ip s.active ≡ map_full
      → Step s (record s { permits = s.permits + 1; holding = before ++ after })
  enters :
      (before after : List Ip) (ip : Ip) (active : Active)
      → s.holding ≡ before ++ ip ∷ after
      → enter ip s.active ≡ entered active
      → Step s (record s { holding = before ++ after; guards = ip ∷ s.guards; active = active })
  leaves :
      (before after : List Ip) (ip : Ip)
      → s.guards ≡ before ++ ip ∷ after
      → Step s (record s {
        guards = before ++ after;
        releasing = s.releasing + 1;
        active = leave ip s.active;
      })
  returns :
      (n : ℕ) → s.releasing ≡ suc n → Step s (record s { releasing = n; permits = s.permits + 1 })

abbrev pub starting : ℕ → System
starting permits = record {
  permits = permits;
  holding = [];
  guards = [];
  releasing = 0;
  active = [];
}

pub data Reach (permits : ℕ) : System → Type 0 where
  here : Reach permits (starting permits)
  next : {s t : System} → Reach permits s → Step s t → Reach permits t
