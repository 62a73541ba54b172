-- ===== src/SubLimiter/Bound.antt =====
-- How often a client is admitted, whatever headers it sends.
use rxcore.Prelude.{
  ℕ, ◌≤◌, ◌≡◌, refl, ap, ◌∙◌, subst, List, [], ◌∷◌, ◌++◌, map, append_assoc, append-nil, Bool, true,
  false, ◌&&◌, leb, leb-false, length, length-append, arith, Bool-cases, inl, inr, if◌then◌else◌,
}
use rxcore.Prelude.Loops.{retain, eq_bytes, eq_bytes→eq, eq_bytes_refl, length-retain-le}
use rxcore.Prelude.Window.{recent, retain-append, retain_later}
use rxcore.Prelude.Assoc.{Map, bytes_eq}
use rxcore.Text.Ip.{IpAddr, v4, v6}
use rxcore.Login.{Ip}
use rxcore.SubLimiter.{check_sub_rate_limit}
use rxcore.SubLimiter.Sliding.{History, permits, note, Refines}
use rxcore.SubLimiter.Granted.{
  InTime, nothing, check_sub_rate_limit-Refines, check_sub_rate_limit-answer, nothing-Refines,
}
use rxcore.SubLimiter.Client.{Request, octets_of, eq_ip, is_trusted, get_client_ip, admit}

abbrev pub by : Bool → ℕ → List ℕ → List ℕ
by b t rest = if b then t ∷ rest else rest

-- The times at which an address is granted a request.
unfoldable pub grants_of : Ip → List (ℕ × Ip) → Map Ip (List ℕ) → List ℕ
unfolding check_sub_rate_limit eq_bytes
grants_of ip [] m = []
grants_of ip ((t, j) ∷ es) m =
    by ((check_sub_rate_limit t j m).0 && eq_bytes j ip) t
      (grants_of ip es (check_sub_rate_limit t j m).1)

-- The times at which a peer is admitted.
unfoldable pub admitted : List IpAddr → IpAddr → List Request → Map Ip (List ℕ) → List ℕ
unfolding admit eq_ip
admitted trusted peer [] m = []
admitted trusted peer (r ∷ rs) m =
    by ((admit trusted r m).0 && eq_ip r.peer_ip peer) r.time
      (admitted trusted peer rs (admit trusted r m).1)

abbrev pub addressed : List IpAddr → List Request → List (ℕ × Ip)
addressed trusted rs = map (λ r. (r.time, octets_of (get_client_ip trusted r.peer_ip r.xff))) rs

-- No more than ten at any time from `start` on.
abbrev AtMostTen : ℕ → Ip → History → Type 0
AtMostTen start ip h = (later : ℕ) → start ≤ later → length (retain (recent 60 later) (h ip)) ≤ 10

fewer_later :
    (now later : ℕ) (ts : List ℕ)
    → now ≤ later
    → length (retain (recent 60 later) ts) ≤ length (retain (recent 60 now) ts)
fewer_later now later ts k =
    subst (λ l. length l ≤ length (retain (recent 60 now) ts)) (retain_later 60 now later ts k)
      (length-retain-le (recent 60 later) (retain (recent 60 now) ts))

one_more :
    (now later : ℕ) (ts : List ℕ)
    → now ≤ later
    → leb 10 (length (retain (recent 60 now) ts)) ≡ false
    → length (retain (recent 60 later) (ts ++ now ∷ [])) ≤ 10
one_more now later ts k e = rw (retain-append (recent 60 later) ts (now ∷ [])) (
    omega (
      arith,
      length-append (retain (recent 60 later) ts) (retain (recent 60 later) (now ∷ [])),
      length-retain-le (recent 60 later) (now ∷ []),
      fewer_later now later ts k,
      leb-false 10 (length (retain (recent 60 now) ts)) e,
    ))

note-AtMostTen :
    (start t : ℕ) (ip j : Ip) (h : History)
    → start ≤ t
    → AtMostTen start ip h
    → AtMostTen t ip (note t j h)
unfolding note
note-AtMostTen start t ip j h n bound later k =
    elim (Bool-cases (leb 10 (length (retain (recent 60 t) (h j))))) [
      | inl full ↦ rw full (bound later (omega (arith, n, k)))
      | inr free ↦ rw free (elim (Bool-cases (eq_bytes j ip)) [
        | inl same ↦ rw same (one_more t later (h j) k free)
        | inr apart ↦ rw apart (bound later (omega (arith, n, k)))
      ])
    ]

-- What is granted next stands behind what has been granted.
note-by :
    (t : ℕ) (ip j : Ip) (h : History) (rest : List ℕ)
    → note t j h ip ++ rest ≡ h ip ++ by (permits t j h && eq_bytes j ip) t rest
unfolding note
note-by t ip j h rest = elim (Bool-cases (leb 10 (length (retain (recent 60 t) (h j))))) [
  | inl full ↦ rw full refl
  | inr free ↦ rw free (elim (Bool-cases (eq_bytes j ip)) [
    | inl same ↦
        rw same
          (append_assoc (h j) (t ∷ []) rest ∙ ap (λ k. h k ++ t ∷ rest) (eq_bytes→eq j ip same))
    | inr apart ↦ rw apart refl
  ])
]

grants_of-ten :
    (es : List (ℕ × Ip)) (start now : ℕ) (ip : Ip) (m : Map Ip (List ℕ)) (h : History)
    → InTime start es now
    → Refines start m h
    → AtMostTen start ip h
    → length (retain (recent 60 now) (h ip ++ grants_of ip es m)) ≤ 10
unfolding grants_of
grants_of-ten [] start now ip m h u r bound = rw (append-nil (h ip)) (bound now u)
grants_of-ten ((t, j) ∷ es) start now ip m h u r bound =
    rw (check_sub_rate_limit-answer start t j m h u.0 r) (
      subst (λ l. length (retain (recent 60 now) l) ≤ 10) (note-by t ip j h _)
        (grants_of-ten es t now ip _ (note t j h) u.1
          (check_sub_rate_limit-Refines start t j m h u.0 r)
          (note-AtMostTen start t ip j h u.0 bound)))

eq_ip→eq : (a b : IpAddr) → eq_ip a b ≡ true → a ≡ b
unfolding eq_ip
eq_ip→eq (v4 a b c d) (v4 e f g h) k =
    ap of_octets (eq_bytes→eq (a ∷ b ∷ c ∷ d ∷ []) (e ∷ f ∷ g ∷ h ∷ []) k)
  where
    of_octets : List ℕ → IpAddr
    of_octets (a ∷ b ∷ c ∷ d ∷ _) = v4 a b c d
    of_octets octets = v6 octets
eq_ip→eq (v4 a b c d) (v6 others) k = cc
eq_ip→eq (v6 octets) (v4 a b c d) k = cc
eq_ip→eq (v6 octets) (v6 others) k = ap v6 (eq_bytes→eq octets others k)

module _ (trusted : List IpAddr) (peer : IpAddr) where
  -- An untrusted peer is counted under its own address.
  untrusted_lem :
      (r : Request)
      → is_trusted trusted peer ≡ false
      → eq_ip r.peer_ip peer ≡ true
      → eq_bytes (octets_of (get_client_ip trusted r.peer_ip r.xff)) (octets_of peer) ≡ true
  unfolding get_client_ip
  untrusted_lem r u e = rw (eq_ip→eq r.peer_ip peer e, u) (eq_bytes_refl (octets_of peer))

  by_le :
      (window : ℕ → Bool) (a b c : Bool) (t : ℕ) (xs ys : List ℕ)
      → (b ≡ true → c ≡ true)
      → length (retain window xs) ≤ length (retain window ys)
      → length (retain window (by (a && b) t xs)) ≤ length (retain window (by (a && c) t ys))
  by_le window false b c t xs ys imply h = h
  by_le window true false true t xs ys imply h = elim (Bool-cases (window t)) [
    | inl e ↦ rw e (omega (arith, h))
    | inr e ↦ rw e h
  ]
  by_le window true false false t xs ys imply h = h
  by_le window true true false t xs ys imply h = cc (imply refl)
  by_le window true true true t xs ys imply h = elim (Bool-cases (window t)) [
    | inl e ↦ rw e (omega (arith, h))
    | inr e ↦ rw e h
  ]

  admitted_le :
      (window : ℕ → Bool) (rs : List Request) (m : Map Ip (List ℕ))
      → is_trusted trusted peer ≡ false
      → length (retain window (admitted trusted peer rs m))
        ≤ length (retain window (grants_of (octets_of peer) (addressed trusted rs) m))
  unfolding admitted grants_of admit
  admitted_le window [] m u = omega arith
  admitted_le window (r ∷ rs) m u =
      by_le window _ (eq_ip r.peer_ip peer) _ r.time _ _ (untrusted_lem r u)
        (admitted_le window rs _ u)

-- Of a peer that is neither on loopback nor a trusted proxy, whatever headers it and everybody else
-- send, at most ten requests of the last minute have been admitted at any time.
pub admitted_ten :
    (trusted : List IpAddr) (peer : IpAddr) (rs : List Request) (now : ℕ)
    → is_trusted trusted peer ≡ false
    → InTime 0 (addressed trusted rs) now
    → length (retain (recent 60 now) (admitted trusted peer rs [])) ≤ 10
admitted_ten trusted peer rs now u t =
    let ten =
      grants_of-ten (addressed trusted rs) 0 now (octets_of peer) [] nothing t nothing-Refines
        (λ later k. omega arith) in
    omega (arith, ten, admitted_le trusted peer (recent 60 now) rs [] u)
