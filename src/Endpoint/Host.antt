-- ===== src/Endpoint/Host.antt =====
-- A host with a port is read as just that.
use rxcore.Prelude.{
  ℕ, ◌+◌, ◌<◌, ◌≡◌, ◌≢◌, refl, sym, ap, ◌∙◌, [], ◌∷◌, ◌++◌, some, false, ◌||◌, ltb, ◌==◌, length,
  drop, arith, inl, inr, ◌⊎◌, subst, length-append, append_assoc,
}
use rxcore.Prelude.Loops.{All, any, take_append, drop_append}
use rxcore.Text.{Str}
use rxcore.Text.Search.{Absent, Absent-append, rfind_last}
use rxcore.Endpoint.{
  is_whitespace, trim_start, trim_end, trim, onto_trimmed, ok, count_byte, with_port,
  split_at_colon, parse_trimmed, parse_endpoint,
}
use rxcore.Endpoint.Decimal.{
  decimal, IsDigit, EndsInDigit, decimal-AreDigits, decimal-EndsInDigit, parse_u16-decimal,
}

-- A host does not begin with white space, and has no colon and no bracket.
abbrev pub IsHost : Str → Type 0
IsHost [] = ⊥
IsHost (c ∷ cs) =
    (is_whitespace c ≡ false) × Absent 58 (c ∷ cs) × Absent 91 (c ∷ cs) × Absent 93 (c ∷ cs)

digits-Absent : (b : ℕ) (s : Str) → (b ≡ 58) ⊎ ((b ≡ 91) ⊎ (b ≡ 93)) → All IsDigit s → Absent b s
digits-Absent b [] k h = tt
digits-Absent b (c ∷ s) k h = (ground (arith, h.0), digits-Absent b s k h.1)

any-Absent : (b : ℕ) (s : Str) → Absent b s → any (λ c. c == b) s ≡ false
any-Absent b [] h = refl
any-Absent b (c ∷ s) h = ground (arith, any-Absent b s h.1, h.0)

count_byte-Absent : (b : ℕ) (s : Str) → Absent b s → count_byte b s ≡ 0
unfolding count_byte
count_byte-Absent b [] h = refl
count_byte-Absent b (c ∷ s) h = ground (arith, count_byte-Absent b s h.1, h.0)

count_byte-append : (b : ℕ) (s t : Str) → count_byte b (s ++ t) ≡ count_byte b s + count_byte b t
unfolding count_byte
count_byte-append b [] t = omega arith
count_byte-append b (c ∷ s) t = ground (arith, count_byte-append b s t)

trim_end_lem : (s : Str) (d : ℕ) → is_whitespace d ≡ false → trim_end (s ++ d ∷ []) ≡ s ++ d ∷ []
unfolding trim_end
trim_end_lem [] d h = rw h refl
trim_end_lem (c ∷ s) d h = ap (onto_trimmed c) (trim_end_lem s d h) ∙ kept_lem s
  where
    kept_lem : (s : Str) → onto_trimmed c (s ++ d ∷ []) ≡ c ∷ (s ++ d ∷ [])
    kept_lem [] = refl
    kept_lem (x ∷ xs) = refl

digit_lem : (d : ℕ) → IsDigit d → is_whitespace d ≡ false
digit_lem d h = ground arith

trim_end_ne : (c : ℕ) (s : Str) → is_whitespace c ≡ false → (length (trim_end (c ∷ s)) == 0) ≡ false
unfolding trim_end
trim_end_ne c s h = kept_lem (trim_end s)
  where
    kept_lem : (s : Str) → (length (onto_trimmed c s) == 0) ≡ false
    kept_lem [] = rw h refl
    kept_lem (x ∷ xs) = ground arith

trim_host : (host : Str) → IsHost host → (length (trim host) == 0) ≡ false
unfolding trim trim_start
trim_host [] h = absurd h
trim_host (c ∷ cs) h = rw h.0 (trim_end_ne c cs h.0)

trim_input :
    (host dec : Str) → IsHost host → EndsInDigit dec → trim (host ++ 58 ∷ dec) ≡ host ++ 58 ∷ dec
unfolding trim trim_start
trim_input [] dec h e = absurd h
trim_input (c ∷ cs) dec h (front, d, is, k) = rw h.0 (
    subst (λ s. trim_end s ≡ s) (sym (whole_lem))
      (trim_end_lem (c ∷ (cs ++ 58 ∷ front)) d (digit_lem d k)))
  where
    whole_lem : (c ∷ cs) ++ 58 ∷ dec ≡ (c ∷ (cs ++ 58 ∷ front)) ++ d ∷ []
    whole_lem = ap (λ s. (c ∷ cs) ++ 58 ∷ s) is ∙ sym (append_assoc (c ∷ cs) (58 ∷ front) (d ∷ []))

colon_lem : (dec : Str) → count_byte 58 dec ≡ 0 → count_byte 58 (58 ∷ dec) ≡ 1
unfolding count_byte
colon_lem dec h = ground (arith, h)

passes_lem :
    (host dec : Str)
    → IsHost host
    → All IsDigit dec
    → let input = host ++ 58 ∷ dec in
      (any (λ c. c == 91) input || (any (λ c. c == 93) input || ltb 1 (count_byte 58 input)))
      ≡ false
passes_lem [] dec h k = absurd h
passes_lem (c ∷ cs) dec (ws, no_colon, no_open, no_close) k =
    let input = (c ∷ cs) ++ 58 ∷ dec in
    rw
      (
        any-Absent 91 input (
            Absent-append 91 (c ∷ cs) (58 ∷ dec) no_open
              (ne_lem 58 91 refl, digits-Absent 91 dec (inr (inl refl)) k)),
        any-Absent 93 input (
            Absent-append 93 (c ∷ cs) (58 ∷ dec) no_close
              (ne_lem 58 93 refl, digits-Absent 93 dec (inr (inr refl)) k)),
      )
      (ground (arith, one_lem))
  where
    one_lem : count_byte 58 ((c ∷ cs) ++ 58 ∷ dec) ≡ 1
    one_lem =
        count_byte-append 58 (c ∷ cs) (58 ∷ dec)
        ∙ omega (
          arith,
          count_byte-Absent 58 (c ∷ cs) no_colon,
          colon_lem dec (count_byte-Absent 58 dec (digits-Absent 58 dec (inl refl) k)),
        )

    ne_lem : (a b : ℕ) → (a == b) ≡ false → a ≢ b
    ne_lem a b h = ground arith

split_lem :
    (host : Str) (port default_port : ℕ)
    → IsHost host
    → 0 < port
    → port < 65536
    → split_at_colon (host ++ 58 ∷ decimal port) default_port (some (length host)) ≡ ok host port
unfolding split_at_colon with_port
split_lem host port default_port h positive fits =
    rw (take_append host (58 ∷ decimal port) (length host) refl, behind_lem)
      (rw (not_empty_lem (decimal port) (decimal-EndsInDigit port))
        (rw (parse_u16-decimal port fits) (rw (positive_lem port positive, trim_host host h) refl)))
  where
    behind_lem : drop (length host + 1) (host ++ 58 ∷ decimal port) ≡ decimal port
    behind_lem =
        ap (drop (length host + 1)) (sym (append_assoc host (58 ∷ []) (decimal port)))
        ∙ drop_append (host ++ 58 ∷ []) (decimal port) (length host + 1)
            (omega (arith, length-append host (58 ∷ [])))

    not_empty_lem : (s : Str) → EndsInDigit s → (length s == 0) ≡ false
    not_empty_lem s (front, d, is, k) = rw is (ground (arith, length-append front (d ∷ [])))

    positive_lem : (port : ℕ) → 0 < port → (port == 0) ≡ false
    positive_lem port h = ground arith

-- A host that does not begin with white space and has no colon and no bracket, with a port from 1 to
-- 65535 in decimal behind a colon, is read as this host and this port, whatever the default port is.
pub parse_endpoint-decimal :
    (host : Str) (port default_port : ℕ)
    → IsHost host
    → 0 < port
    → port < 65536
    → parse_endpoint (host ++ 58 ∷ decimal port) default_port ≡ ok host port
unfolding parse_endpoint parse_trimmed
parse_endpoint-decimal host port default_port h positive fits =
    let dec = decimal port in
    rw (trim_input host dec h (decimal-EndsInDigit port)) (
      rw (long_lem (length-append host (58 ∷ dec)), passes_lem host dec h (decimal-AreDigits port))
        (rw (rfind_last 58 host dec (digits-Absent 58 dec (inl refl) (decimal-AreDigits port)))
          (split_lem host port default_port h positive fits)))
  where
    long_lem :
        length (host ++ 58 ∷ decimal port) ≡ length host + length (58 ∷ decimal port)
        → (length (host ++ 58 ∷ decimal port) == 0) ≡ false
    long_lem e = ground arith
