-- ===== src/Reality/Prefix.antt =====
-- What a client has sent reaches whoever serves it, from its first byte on.
use rxcore.Prelude.{
  ℕ, zero, suc, ◌+◌, ◌-◌, ◌≤◌, ◌<◌, ◌≡◌, refl, sym, ap, ◌∙◌, List, [], ◌∷◌, ◌++◌, none, some, ltb,
  length, take, drop, min, arith, append_assoc, take-append-drop, inl, inr, Bool-cases, ltb-false,
  length-drop,
}
use rxcore.Prelude.Loops.{All}
use rxcore.Text.{Str}
use rxcore.ClientHello.{parse_client_hello}
use rxcore.Reality.{
  ReadTask, finished, read_client_hello, Crypto, RealityConfig, PrefixedStream, poll_read, Accept,
  handshake, fall_back, rejected, authenticated,
}

-- What a stream is still to give.
abbrev pub content : PrefixedStream → Str
content s = drop s.position s.prefix ++ s.inner

drop-nil : {A : Type 0} (n : ℕ) → drop {A = A} n [] ≡ []
drop-nil zero = refl
drop-nil (suc n) = refl

drop-drop : {A : Type 0} (n k : ℕ) (xs : List A) → drop k (drop n xs) ≡ drop (n + k) xs
drop-drop zero k xs = let e : k ≡ 0 + k = omega arith in ap (λ m. drop m xs) e
drop-drop (suc n) k [] = drop-nil k ∙ sym (drop-nil (suc n + k))
drop-drop (suc n) k (x ∷ xs) =
    let e : suc (n + k) ≡ suc n + k = omega arith in drop-drop n k xs ∙ ap (λ m. drop m (x ∷ xs)) e

nil_lem : {A : Type 0} (xs : List A) → length xs ≡ 0 → xs ≡ []
nil_lem [] h = refl
nil_lem (x ∷ xs) h = absurd (omega arith)

-- A read gives the next bytes of the stream, and leaves the others to come.
pub poll_read-content :
    (remaining ready : ℕ) (s : PrefixedStream)
    → let (given, later) = poll_read remaining ready s in given ++ content later ≡ content s
unfolding poll_read
poll_read-content remaining ready s = elim (Bool-cases (ltb 0 (length s.prefix - s.position))) [
  | inl e ↦
      let m = min remaining (length s.prefix - s.position) in
      let ahead = drop s.position s.prefix in
      rw e (
        sym (append_assoc (take m ahead) (drop (s.position + m) s.prefix) s.inner)
        ∙ ap (λ l. l ++ s.inner)
            (ap (λ d. take m ahead ++ d) (sym (drop-drop s.position m s.prefix))
              ∙ take-append-drop m ahead))
  | inr e ↦
      let spent : drop s.position s.prefix ≡ [] = nil_lem (drop s.position s.prefix) (
        omega
          (arith, length-drop s.position s.prefix, ltb-false 0 (length s.prefix - s.position) e)) in
      rw e (rw spent (take-append-drop (min remaining ready) s.inner))
]

-- The reads of a caller, one after another.
unfoldable pub reads : List (ℕ × ℕ) → PrefixedStream → Str × PrefixedStream
unfolding poll_read
reads [] s = ([], s)
reads ((remaining, ready) ∷ calls) s =
    let (given, later) = poll_read remaining ready s in
    let (more, end) = reads calls later in (given ++ more, end)

-- A call with room for a byte, when a byte is there.
abbrev pub Gives : ℕ × ℕ → Type 0
Gives (remaining, ready) = (0 < remaining) × (0 < ready)

-- The reading of the ClientHello failed, or there is no key and nowhere to pass the client on to.
abbrev pub Refuses : Crypto → RealityConfig → ReadTask → Type 0
Refuses crypto config (finished buffer payload rest) =
    (authenticated crypto config (parse_client_hello payload) payload ≡ none) × (config.dest ≡ none)
Refuses crypto config _ = Unit

-- Of the handshake's stream: what reads have given and what is to come are the input, and as many
-- reads as the input has bytes, each with room for one when one is there, give all of it.
abbrev pub Passes : Crypto → RealityConfig → Str → Accept → Type 0
Passes crypto config input (handshake auth_key s) =
    ((calls : List (ℕ × ℕ)) → (reads calls s).0 ++ content (reads calls s).1 ≡ input)
    × ((calls : List (ℕ × ℕ))
        → All Gives calls
        → length input ≤ length calls
        → (reads calls s).0 ≡ input)
Passes crypto config input (fall_back dest buffer rest) =
    (buffer ++ rest ≡ input) × (config.dest ≡ some dest)
Passes crypto config input rejected = Refuses crypto config (read_client_hello input)
