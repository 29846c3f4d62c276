-- ===== src/Text.antt =====
-- Go strings, and what the program uses of the package strings. A text is a list of code points.
-- The case tables are those of Go's package unicode below 256; no text of the model goes beyond.
pub mod Digits
pub mod Case
pub mod Split
use Prim.Native.Char.{code}
use Prim.Native.String.{String}
use robustirc.Base.{
  ℕ, zero, suc, ◌+◌, ◌-◌, ◌/◌, ◌%◌, ◌≡◌, refl, ap, ◌↔◌, Bool, true, false, not, ◌&&◌, ◌||◌, List,
  [], ◌∷◌, ◌++◌, map, arith, ltb, leb, nat_beq, if◌then◌else◌, Eq, ◌==◌, any,
}

abbrev pub Text : Type 0
Text = List ℕ

-- A literal.
unfoldable pub text : String → Text
text String.[] = []
text (String.◌∷◌ c s) = code c ∷ text s

unfoldable pub text_beq : Text → Text → Bool
text_beq [] [] = true
text_beq [] (d ∷ t) = false
text_beq (c ∷ s) [] = false
text_beq (c ∷ s) (d ∷ t) = nat_beq c d && text_beq s t

pub text_beq_iff : (s t : Text) → (text_beq s t ≡ true) ↔ (s ≡ t)
unfolding text_beq
text_beq_iff [] [] = (λ _. refl, λ _. refl)
text_beq_iff [] (d ∷ t) = (λ h. cc, λ h. cc)
text_beq_iff (c ∷ s) [] = (λ h. cc, λ h. cc)
text_beq_iff (c ∷ s) (d ∷ t) =
    (λ h. ground (arith, text_beq_iff s t), λ h. ground (arith, text_beq_iff s t))

instance abbrev pub text_eq : Eq Text
text_eq = record { beq = text_beq; beq_iff = text_beq_iff }

-- unicode.ToLower
unfoldable pub lower : ℕ → ℕ
lower c =
    if leb b'A' c && leb c b'Z'
    then c + 32
    else if leb 192 c && leb c 222 && not (nat_beq c 215)
    then c + 32
    else c

-- unicode.ToUpper
unfoldable pub upper : ℕ → ℕ
upper c =
    if leb b'a' c && leb c b'z'
    then c - 32
    else if leb 224 c && leb c 254 && not (nat_beq c 247)
    then c - 32
    else if nat_beq c 181
    then 924
    else if nat_beq c 255
    then 376
    else c

unfoldable pub to_lower : Text → Text
to_lower = map lower

unfoldable pub to_upper : Text → Text
to_upper = map upper

unfoldable pub has_prefix : Text → Text → Bool
has_prefix s [] = true
has_prefix [] (d ∷ p) = false
has_prefix (c ∷ s) (d ∷ p) = nat_beq c d && has_prefix s p

-- strings.HasSuffix
unfoldable pub has_suffix : Text → Text → Bool
has_suffix [] p = text_beq [] p
has_suffix (c ∷ s) p = text_beq (c ∷ s) p || has_suffix s p

-- unicode.IsSpace
unfoldable pub is_space : ℕ → Bool
is_space c = (leb 9 c && leb c 13) || nat_beq c 32 || nat_beq c 133 || nat_beq c 160

unfoldable pub trim_left : Text → Text
unfolding is_space
trim_left [] = []
trim_left (c ∷ s) = let rest = trim_left s in if is_space c then rest else c ∷ s

unfoldable pub trim_right : Text → Text
unfolding is_space
trim_right [] = []
trim_right (c ∷ s) =
    let rest = trim_right s in if is_space c && text_beq rest [] then [] else c ∷ rest

-- strings.TrimSpace
unfoldable pub trim_space : Text → Text
unfolding trim_left trim_right text_beq
trim_space s = trim_right (trim_left s)

-- The order of sort.Strings.
unfoldable pub text_leb : Text → Text → Bool
text_leb [] t = true
text_leb (c ∷ s) [] = false
text_leb (c ∷ s) (d ∷ t) = if nat_beq c d then text_leb s t else ltb c d

unfoldable pub insert_sorted : Text → List Text → List Text
insert_sorted s [] = s ∷ []
insert_sorted s (t ∷ ts) = if text_leb s t then s ∷ t ∷ ts else t ∷ insert_sorted s ts

-- sort.Strings
unfoldable pub sort_texts : List Text → List Text
unfolding insert_sorted text_leb
sort_texts [] = []
sort_texts (t ∷ ts) = insert_sorted t (sort_texts ts)

-- The digit of a number below 16.
unfoldable pub digit : ℕ → ℕ
digit d = if ltb d 10 then 48 + d else 87 + d

unfoldable pub digits_in : ℕ → ℕ → ℕ → Text
unfolding digit
digits_in base zero n = []
digits_in base (suc fuel) n =
    let more = digits_in base fuel (n / base) in
    if ltb n base then digit n ∷ [] else more ++ digit (n % base) ∷ []

-- strconv.FormatInt(n, 10) and the verb %d; a number has fewer digits than the fuel n + 1.
unfoldable pub decimal : ℕ → Text
unfolding digits_in
decimal n = digits_in 10 (suc n) n

-- The verb %x.
unfoldable pub hexadecimal : ℕ → Text
unfolding digits_in
hexadecimal n = digits_in 16 (suc n) n
