-- ===== src/Sniffer/Answers.antt =====
-- Steps of the sniffer that end in an answer.
use rxcore.Prelude.{
  ℕ, zero, suc, ◌+◌, ◌-◌, ◌≤◌, ◌<◌, ◌≡◌, refl, sym, ap, ◌∙◌, [], ◌∷◌, ◌++◌, append_assoc, some,
  Bool, true, false, ◌&&◌, leb, length, take, drop, take-append-drop, get_elem?, arith,
  if◌then◌else◌,
}
use rxcore.Prelude.Words.{u16_from_be_bytes}
use rxcore.Text.{Str}
use rxcore.Text.Utf8.{is_utf8}
use rxcore.Sniffer.{Sniff, found, nothing, panics, out_of_fuel, at, u16_at, slice}

-- The bytes of `h` stand together somewhere in `s`.
abbrev pub Infix : Str → Str → Type 0
Infix h s = (a : Str) × (b : Str) × (s ≡ a ++ (h ++ b))

-- An answer for the bytes `buf`: nothing, or a part of them that is UTF-8.
abbrev pub IsAnswer : Str → Sniff → Type 0
IsAnswer buf (found h) = Infix h buf × (is_utf8 h ≡ true)
IsAnswer buf nothing = Unit
IsAnswer buf panics = ⊥
IsAnswer buf out_of_fuel = ⊥

get_elem?-some : (s : Str) (i : ℕ) → i < length s → (b : ℕ) × (get_elem? s i ≡ some b)
get_elem?-some [] i h = absurd (omega arith)
get_elem?-some (x ∷ s) zero h = (x, refl)
get_elem?-some (x ∷ s) (suc i) h = get_elem?-some s i (omega arith)

pub at-IsAnswer :
    (buf s : Str) (i : ℕ) (k : ℕ → Sniff)
    → i < length s
    → ((b : ℕ) → IsAnswer buf (k b))
    → IsAnswer buf (at s i k)
unfolding at
at-IsAnswer buf s i k h g = let (b, e) = get_elem?-some s i h in rw (e, at) (g b)

pub u16_at-IsAnswer :
    (buf s : Str) (i : ℕ) (k : ℕ → Sniff)
    → i + 1 < length s
    → ((n : ℕ) → IsAnswer buf (k n))
    → IsAnswer buf (u16_at s i k)
unfolding u16_at
u16_at-IsAnswer buf s i k h g =
    at-IsAnswer buf s i _ (omega arith)
      λ a. at-IsAnswer buf s (i + 1) _ h λ b. g (u16_from_be_bytes a b)

-- A branch may use what its test says.
pub if-IsAnswer :
    (buf : Str) (c : Bool) (x y : Sniff)
    → (c ≡ true → IsAnswer buf x)
    → (c ≡ false → IsAnswer buf y)
    → IsAnswer buf (if c then x else y)
if-IsAnswer buf true x y g h = g refl
if-IsAnswer buf false x y g h = h refl

-- A test that gives up.
pub guard-IsAnswer :
    (buf : Str) (c : Bool) (y : Sniff)
    → (c ≡ false → IsAnswer buf y)
    → IsAnswer buf (if c then nothing else y)
guard-IsAnswer buf true y h = tt
guard-IsAnswer buf false y h = h refl

pub slice-IsAnswer :
    (buf s : Str) (i j : ℕ) (k : Str → Sniff)
    → i ≤ j
    → j ≤ length s
    → IsAnswer buf (k (take (j - i) (drop i s)))
    → IsAnswer buf (slice s i j k)
unfolding slice
slice-IsAnswer buf s i j k h l g = rw (fits_lem) g
  where
    fits_lem : leb i j && leb j (length s) ≡ true
    fits_lem = ground arith

pub take-drop-Infix : (s : Str) (i n : ℕ) → Infix (take n (drop i s)) s
take-drop-Infix s i n = (
  take i s,
  drop n (drop i s),
  sym (take-append-drop i s) ∙ ap (λ l. take i s ++ l) (sym (take-append-drop n (drop i s))),
)

pub Infix-trans : (h s t : Str) → Infix h s → Infix s t → Infix h t
Infix-trans h s t (a, b, e) (c, d, f) = (c ++ a, b ++ d, f ∙ rw e (regroup c a h b d))
  where
    regroup : (c a h b d : Str) → c ++ ((a ++ (h ++ b)) ++ d) ≡ (c ++ a) ++ (h ++ (b ++ d))
    regroup c a h b d =
        ap (λ l. c ++ l) (append_assoc a (h ++ b) d ∙ ap (λ l. a ++ l) (append_assoc h b d))
        ∙ sym (append_assoc c a (h ++ (b ++ d)))
