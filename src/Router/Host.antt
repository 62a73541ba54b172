-- ===== src/Router/Host.antt =====
-- `get_host` takes the port off.
use rxcore.Prelude.{
  ℕ, suc, ◌≡◌, ◌≢◌, inl, inr, refl, sym, ap, ◌∙◌, [], ◌∷◌, ◌++◌, append_assoc, map, some, false,
  length, take, arith, Bool-cases,
}
use rxcore.Prelude.Loops.{take_append}
use rxcore.Text.{Str, lower, to_lowercase, find, rfind, ends_with}
use rxcore.Text.Search.{ends_with_iff}
use rxcore.Text.Search.{
  Absent, rfind-Absent, rfind_last, find-Absent, find_first, last_in_tail, Absent-append,
}
use rxcore.Router.{get_host, cut_host, slice_from_1}

pub lower-append : (p s : Str) → map lower (p ++ s) ≡ map lower p ++ map lower s
lower-append [] s = refl
lower-append (c ∷ p) s = ap (◌∷◌ (lower c)) (lower-append p s)

length-lower : (p : Str) → length (map lower p) ≡ length p
length-lower [] = refl
length-lower (c ∷ p) = ap suc (length-lower p)

-- Lowering neither makes nor removes a byte that is no letter.
pub lower_colon : (c : ℕ) → lower c ≡ 58 → c ≡ 58
unfolding lower
lower_colon c h = ground arith

pub lower_bracket : (c : ℕ) → lower c ≡ 93 → c ≡ 93
unfolding lower
lower_bracket c h = ground arith

Absent-lower_colon : (s : Str) → Absent 58 s → Absent 58 (map lower s)
Absent-lower_colon [] a = tt
Absent-lower_colon (c ∷ s) a = (λ h. a.0 (lower_colon c h), Absent-lower_colon s a.1)

Absent-lower_bracket : (s : Str) → Absent 93 s → Absent 93 (map lower s)
Absent-lower_bracket [] a = tt
Absent-lower_bracket (c ∷ s) a = (λ h. a.0 (lower_bracket c h), Absent-lower_bracket s a.1)

no_bracket_end : (q t : Str) → Absent 93 t → ends_with (q ++ 58 ∷ t) (93 ∷ []) ≡ false
no_bracket_end q t a = elim (Bool-cases (ends_with (q ++ 58 ∷ t) (93 ∷ []))) [
  | inr e ↦ e
  | inl e ↦
      let (p, is) = (ends_with_iff (q ++ 58 ∷ t) (93 ∷ [])).0 e in
      absurd
        (last_in_tail (λ c. c ≢ 93) p q t 93 58 (sym is) ((λ h. absurd (omega (arith, h))), a) refl)
]

get_host_lem :
    (dest : Str) (idx : ℕ)
    → rfind 58 (map lower dest) ≡ some idx
    → ends_with (map lower dest) (93 ∷ []) ≡ false
    → get_host dest ≡ cut_host (find 93 (map lower dest)) idx (map lower dest)
unfolding get_host
get_host_lem dest idx e f = rw (e, get_host) (rw f (ground arith))

slice_lem : (n : ℕ) (s : Str) → slice_from_1 (suc n) (91 ∷ s) ≡ some (take n s)
slice_lem n s = ground arith

-- The text of a host with its port behind a colon gives the host in lower case, if neither contains a
-- closing bracket and the port no colon. The same holds of a host in brackets.
pub get_host_port :
    (host port : Str)
    → Absent 93 host
    → Absent 93 port
    → Absent 58 port
    → (get_host (host ++ 58 ∷ port) ≡ some (to_lowercase host))
      × (get_host (91 ∷ host ++ 93 ∷ 58 ∷ port) ≡ some (to_lowercase host))
unfolding to_lowercase lower
get_host_port host port h p colon = (plain, bracketed)
  where
    hs : Str
    hs = map lower host

    ps : Str
    ps = map lower port

    text : map lower (host ++ 58 ∷ port) ≡ hs ++ 58 ∷ ps
    text = lower-append host (58 ∷ port)

    plain : get_host (host ++ 58 ∷ port) ≡ some hs
    plain =
        let absent =
          Absent-append 93 hs (58 ∷ ps) (Absent-lower_bracket host h)
            ((λ e. absurd (omega (arith, e))), Absent-lower_bracket port p) in
        get_host_lem (host ++ 58 ∷ port) (length hs)
          (rw text (rfind_last 58 hs ps (Absent-lower_colon port colon)))
          (rw text (no_bracket_end hs ps (Absent-lower_bracket port p)))
        ∙ rw text (
            rw (find-Absent 93 (hs ++ 58 ∷ ps) absent)
              (ap some (take_append hs (58 ∷ ps) (length hs) refl)))

    long : map lower (91 ∷ host ++ 93 ∷ 58 ∷ port) ≡ (91 ∷ hs ++ 93 ∷ []) ++ 58 ∷ ps
    long =
        ap (◌∷◌ 91) (lower-append host (93 ∷ 58 ∷ port) ∙ sym (append_assoc hs (93 ∷ []) (58 ∷ ps)))

    bracketed : get_host (91 ∷ host ++ 93 ∷ 58 ∷ port) ≡ some hs
    bracketed =
        get_host_lem (91 ∷ host ++ 93 ∷ 58 ∷ port) (length (91 ∷ hs ++ 93 ∷ []))
          (rw long (rfind_last 58 (91 ∷ hs ++ 93 ∷ []) ps (Absent-lower_colon port colon)))
          (rw long (no_bracket_end (91 ∷ hs ++ 93 ∷ []) ps (Absent-lower_bracket port p)))
        ∙ rw long (
            rw (append_assoc (91 ∷ hs) (93 ∷ []) (58 ∷ ps)) (
              rw
                (find_first 93 (91 ∷ hs) (58 ∷ ps)
                  ((λ e. absurd (omega (arith, e))), Absent-lower_bracket host h))
                (slice_lem (length hs) (hs ++ 93 ∷ 58 ∷ ps)
                  ∙ ap some (take_append hs (93 ∷ 58 ∷ ps) (length hs) refl))))

-- The texts of a destination whose host is `host`: a name or an IPv4 address, either with a port, or
-- any host in brackets with a port. A bare IPv6 address, and one in brackets without a port, are
-- not among them.
pub data Writes (host : Str) : Str → Type 0 where
  alone : Absent 58 host → Writes host host
  and_port :
      (port : Str)
      → Absent 93 host
      → Absent 93 port
      → Absent 58 port
      → Writes host (host ++ 58 ∷ port)
  bracketed :
      (port : Str)
      → Absent 93 host
      → Absent 93 port
      → Absent 58 port
      → Writes host (91 ∷ host ++ 93 ∷ 58 ∷ port)

get_host_alone : (host : Str) → Absent 58 host → get_host host ≡ some (to_lowercase host)
unfolding get_host to_lowercase
get_host_alone host a =
    rw (rfind-Absent 58 (map lower host) (Absent-lower_colon host a), get_host) refl

pub get_host-Writes :
    (host dest : Str) → Writes host dest → get_host dest ≡ some (to_lowercase host)
get_host-Writes host _ (alone a) = get_host_alone host a
get_host-Writes host _ (and_port port h p colon) = (get_host_port host port h p colon).0
get_host-Writes host _ (bracketed port h p colon) = (get_host_port host port h p colon).1
