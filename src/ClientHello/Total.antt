-- ===== src/ClientHello/Total.antt =====
-- The fuel of the loops over the extensions, over the names and over the key shares is enough.
use rxcore.Prelude.{
  ℕ, zero, suc, ◌+◌, ◌≤◌, ◌<◌, ◌≡◌, ◌≢◌, refl, ap, subst, List, [], ◌∷◌, inl, inr, Option, none,
  some, ◌&&◌, ltb, ◌==◌, length, length-drop, ◌-◌, arith, Bool-cases, Option-cases,
}
use rxcore.Text.{Str}
use rxcore.ClientHello.{
  HelloError, out_of_fuel, short_version, short_random, short_session_id_len, short_session_id,
  short_cipher_suites_len, short_cipher_suites, short_compression_len, short_compression,
  short_extensions, HelloResult, hello, error, take_bytes, get_u8, get_u16, if_utf8, name_loop,
  read_server_name, share_loop, read_key_share, Found, found_name, found_key, read_extension,
  is_complete, extension_loop, needs, parse_extensions, parse_body, parse_client_hello,
}

abbrev nothing_found : Found
nothing_found = record { public_key = none; server_name = none }

-- What is left after a read is no longer than `n`.
abbrev Shorter {ℓ} : {A : Type ℓ} → ℕ → Option (A × Str) → Type 0
Shorter n none = Unit
Shorter n (some (a, rest)) = length rest ≤ n

get_u16-Shorter : (s : Str) → Shorter (length s - 2) (get_u16 s)
get_u16-Shorter [] = tt
get_u16-Shorter (a ∷ []) = tt
get_u16-Shorter (a ∷ b ∷ s) = omega arith

take_bytes-Shorter : (n : ℕ) (s : Str) → Shorter (length s) (take_bytes n s)
unfolding take_bytes
take_bytes-Shorter n s = elim (Bool-cases (ltb (length s) n)) [
  | inl e ↦ rw e tt
  | inr e ↦ rw e (omega (arith, length-drop n s))
]

get_u16_long : (s : Str) (n : ℕ) (rest : Str) → get_u16 s ≡ some (n, rest) → 2 ≤ length s
get_u16_long [] n rest h = cc
get_u16_long (a ∷ []) n rest h = cc
get_u16_long (a ∷ b ∷ s) n rest h = omega arith

-- What is left behind two lengths and a body.
later_shorter :
    (s s1 s2 later : Str) (n len : ℕ) (body : Str)
    → get_u16 s ≡ some (n, s1)
    → get_u16 s1 ≡ some (len, s2)
    → take_bytes len s2 ≡ some (body, later)
    → length later < length s
later_shorter s s1 s2 later n len body e1 e2 e3 =
    let a = subst (Shorter (length s - 2)) e1 (get_u16-Shorter s) in
    let b = subst (Shorter (length s1 - 2)) e2 (get_u16-Shorter s1) in
    let c = subst (Shorter (length s2)) e3 (take_bytes-Shorter len s2) in
    omega (arith, a, b, c, get_u16_long s n s1 e1)

name_loop_total :
    (fuel : ℕ) (list : Str) (old : Option Str)
    → length list < fuel
    → (name : Option Str) × (name_loop fuel list old ≡ some name)
unfolding name_loop
name_loop_total zero list old h = absurd (omega arith)
name_loop_total (suc fuel) [] old h = (old, refl)
name_loop_total (suc fuel) (name_type ∷ list) old h = elim (Option-cases (get_u16 list)) [
  | inl e ↦ (old, rw (e, name_loop) refl)
  | inr ((len, rest), e1) ↦ elim (Option-cases (take_bytes len rest)) [
    | inl e ↦ (old, rw (e1, name_loop) (rw e refl))
    | inr ((name, later), e2) ↦
        let a = subst (Shorter (length list - 2)) e1 (get_u16-Shorter list) in
        let b = subst (Shorter (length rest)) e2 (take_bytes-Shorter len rest) in
        let (found, e) = name_loop_total fuel later old (omega (arith, a, b, h)) in
        elim (Bool-cases (name_type == 0)) [
          | inl host ↦ (if_utf8 name old, rw (e1, name_loop) (rw e2 (rw host refl)))
          | inr other ↦ (found, rw (e1, name_loop) (rw e2 (rw other e)))
        ]
  ]
]

share_loop_total :
    (fuel : ℕ) (shares : Str) (old : Option Str)
    → length shares < fuel
    → (key : Option Str) × (share_loop fuel shares old ≡ some key)
unfolding share_loop
share_loop_total zero shares old h = absurd (omega arith)
share_loop_total (suc fuel) shares old h = elim (Option-cases (get_u16 shares)) [
  | inl e ↦ (old, rw (e, share_loop) refl)
  | inr ((group, s1), e1) ↦ elim (Option-cases (get_u16 s1)) [
    | inl e ↦ (old, rw (e1, share_loop) (rw e refl))
    | inr ((len, s2), e2) ↦ elim (Option-cases (take_bytes len s2)) [
      | inl e ↦ (old, rw (e1, share_loop) (rw e2 (rw e refl)))
      | inr ((key, later), e3) ↦
          let less = later_shorter shares s1 s2 later group len key e1 e2 e3 in
          let (found, e) = share_loop_total fuel later old (omega (arith, less, h)) in
          elim (Bool-cases ((group == 29) && (len == 32))) [
            | inl x25519 ↦ (some key, rw (e1, share_loop) (rw e2 (rw e3 (rw x25519 refl))))
            | inr other ↦ (found, rw (e1, share_loop) (rw e2 (rw e3 (rw other e))))
          ]
    ]
  ]
]

read_server_name_total :
    (ext_data : Str) (old : Option Str)
    → (name : Option Str) × (read_server_name ext_data old ≡ some name)
unfolding read_server_name
read_server_name_total ext_data old = elim (Option-cases (get_u16 ext_data)) [
  | inl e ↦ (old, rw (e, read_server_name) refl)
  | inr ((n, rest), e1) ↦ elim (Option-cases (take_bytes n rest)) [
    | inl e ↦ (old, rw (e1, read_server_name) (rw e refl))
    | inr ((list, later), e2) ↦
        let (name, e) = name_loop_total (suc (length list)) list old (omega arith) in
        (name, rw (e1, read_server_name) (rw e2 e))
  ]
]

read_key_share_total :
    (ext_data : Str) (old : Option Str)
    → (key : Option Str) × (read_key_share ext_data old ≡ some key)
unfolding read_key_share
read_key_share_total ext_data old = elim (Option-cases (get_u16 ext_data)) [
  | inl e ↦ (old, rw (e, read_key_share) refl)
  | inr ((n, rest), e1) ↦ elim (Option-cases (take_bytes n rest)) [
    | inl e ↦ (old, rw (e1, read_key_share) (rw e refl))
    | inr ((shares, later), e2) ↦
        let (key, e) = share_loop_total (suc (length shares)) shares old (omega arith) in
        (key, rw (e1, read_key_share) (rw e2 e))
  ]
]

read_extension_total :
    (n : ℕ) (ext_data : Str) (f : Found) → (f' : Found) × (read_extension n ext_data f ≡ some f')
unfolding read_extension
read_extension_total n ext_data f = elim (Bool-cases (n == 0)) [
  | inl e ↦
      let (name, is) = read_server_name_total ext_data f.server_name in
      (record f { server_name = name }, rw e (ap (found_name f) is))
  | inr e ↦ elim (Bool-cases (n == 51)) [
    | inl k ↦
        let (key, is) = read_key_share_total ext_data f.public_key in
        (record f { public_key = key }, rw (e, k) (ap (found_key f) is))
    | inr k ↦ (f, rw (e, k) refl)
  ]
]

extension_loop_total :
    (fuel : ℕ) (s : Str) (f : Found)
    → length s < fuel
    → (f' : Found) × (extension_loop fuel s f ≡ some f')
unfolding extension_loop
extension_loop_total zero s f h = absurd (omega arith)
extension_loop_total (suc fuel) s f h = elim (Option-cases (get_u16 s)) [
  | inl e ↦ (f, rw (e, extension_loop) refl)
  | inr ((n, s1), e1) ↦ elim (Option-cases (get_u16 s1)) [
    | inl e ↦ (f, rw (e1, extension_loop) (rw e refl))
    | inr ((len, s2), e2) ↦ elim (Option-cases (take_bytes len s2)) [
      | inl e ↦ (f, rw (e1, extension_loop) (rw e2 (rw e refl)))
      | inr ((body, later), e3) ↦
          let less = later_shorter s s1 s2 later n len body e1 e2 e3 in
          let (f1, e4) = read_extension_total n body f in
          let (f2, e) = extension_loop_total fuel later f1 (omega (arith, less, h)) in
          elim (Bool-cases (is_complete f1)) [
            | inl done ↦ (f1, rw (e1, extension_loop) (rw e2 (rw e3 (rw e4 (rw done refl)))))
            | inr more ↦ (f2, rw (e1, extension_loop) (rw e2 (rw e3 (rw e4 (rw more e)))))
          ]
    ]
  ]
]

-- The answers of the code.
abbrev IsCodeError : HelloError → Type 0
IsCodeError out_of_fuel = ⊥
IsCodeError _ = Unit

abbrev IsAnswer : HelloResult → Type 0
IsAnswer (error e) = IsCodeError e
IsAnswer _ = Unit

needs_lem {ℓ} :
    {A : Type ℓ} (e : HelloError) (o : Option A) (k : A → HelloResult)
    → IsCodeError e
    → ((a : A) → IsAnswer (k a))
    → IsAnswer (needs e o k)
needs_lem e none k h g = h
needs_lem e (some a) k h g = g a

parse_extensions_total :
    (id random : List ℕ) (offset : ℕ) (s : Str) → IsAnswer (parse_extensions id offset random s)
unfolding parse_extensions
parse_extensions_total id random offset s = elim (Option-cases (get_u16 s)) [
  | inl e ↦ rw (e, parse_extensions) tt
  | inr ((n, s1), e) ↦
      rw (e, parse_extensions) (needs_lem short_extensions (take_bytes n s1) _ tt loop)
]
  where
    loop :
        (x : Str × Str)
        → IsAnswer (
            needs out_of_fuel (extension_loop (suc (length x.0)) x.0 nothing_found) (λ f.
              hello (record {
                session_id = id;
                session_id_offset = offset;
                client_random = random;
                public_key = f.public_key;
                server_name = f.server_name;
              })))
    loop (exts, later) =
        let (f, run) = extension_loop_total (suc (length exts)) exts nothing_found (omega arith) in
        rw run tt

parse_body_total : (n : ℕ) (s : Str) → IsAnswer (parse_body n s)
unfolding parse_body
parse_body_total n s = needs_lem short_version (take_bytes 2 s) _ tt λ a.
    needs_lem short_random (take_bytes 32 a.1) _ tt λ b.
      needs_lem short_session_id_len (get_u8 b.1) _ tt λ c.
        needs_lem short_session_id (take_bytes c.0 c.1) _ tt λ d.
          needs_lem short_cipher_suites_len (get_u16 d.1) _ tt λ e.
            needs_lem short_cipher_suites (take_bytes e.0 e.1) _ tt λ f.
              needs_lem short_compression_len (get_u8 f.1) _ tt λ g.
                needs_lem short_compression (take_bytes g.0 g.1) _ tt
                  λ h. parse_extensions_total d.0 b.0 (n - length c.1) h.1

parse_IsAnswer : (s : Str) → IsAnswer (parse_client_hello s)
unfolding parse_client_hello
parse_IsAnswer [] = tt
parse_IsAnswer (a ∷ []) = tt
parse_IsAnswer (a ∷ b ∷ []) = tt
parse_IsAnswer (a ∷ b ∷ c ∷ []) = tt
parse_IsAnswer (a ∷ b ∷ c ∷ d ∷ s) = elim (Bool-cases (a == 1)) [
  | inl e ↦ rw e (parse_body_total (length s + 4) s)
  | inr e ↦ rw e tt
]

-- On every input the parser ends with an answer of the code: the fuel of none of its loops (over the
-- extensions, over the names of one and over the key shares of one) runs out.
pub parse_client_hello_total : (s : Str) → parse_client_hello s ≢ error out_of_fuel
parse_client_hello_total s h = subst IsAnswer h (parse_IsAnswer s)
