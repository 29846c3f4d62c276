-- ===== src/Text/Split.antt =====
-- strings.Split and strings.Join, and that they undo one another.
use robustirc.Base.{ℕ, ◌≡◌, refl, ◌≢◌, List, [], ◌∷◌, ◌++◌, arith, nat_beq, if◌then◌else◌}
use robustirc.Text.{Text}

abbrev cons_first : ℕ → List Text → List Text
cons_first c [] = (c ∷ []) ∷ []
cons_first c (p ∷ ps) = (c ∷ p) ∷ ps

-- strings.Split(s, sep) at a separator of one character; there is always at least one part.
unfoldable pub split : ℕ → Text → List Text
split sep [] = [] ∷ []
split sep (c ∷ s) = let rest = split sep s in if nat_beq c sep then [] ∷ rest else cons_first c rest

-- strings.Join
unfoldable pub join : Text → List Text → Text
join sep [] = []
join sep (p ∷ []) = p
join sep (p ∷ q ∷ ps) = p ++ (sep ++ join sep (q ∷ ps))

split-ne-nil : (sep : ℕ) (s : Text) → split sep s ≢ []
unfolding split
split-ne-nil sep [] h = cc
split-ne-nil sep (c ∷ s) h = ground (arith, split-ne-nil sep s)

join-cons_first :
    (sep : Text) (c : ℕ) (ps : List Text) → ps ≢ [] → join sep (cons_first c ps) ≡ c ∷ join sep ps
unfolding join
join-cons_first sep c [] h = absurd (h refl)
join-cons_first sep c (p ∷ []) h = refl
join-cons_first sep c (p ∷ q ∷ ps) h = refl

join-cons_nil :
    (sep : ℕ) (ps : List Text) → ps ≢ [] → join (sep ∷ []) ([] ∷ ps) ≡ sep ∷ join (sep ∷ []) ps
unfolding join
join-cons_nil sep [] h = absurd (h refl)
join-cons_nil sep (p ∷ ps) h = refl

-- Joining the parts with the separator gives the text back.
pub join-split : (sep : ℕ) (s : Text) → join (sep ∷ []) (split sep s) ≡ s
unfolding split
join-split sep [] = unfold join in refl
join-split sep (c ∷ s) = ground (
  arith,
  join-cons_nil sep (split sep s) (split-ne-nil sep s),
  join-cons_first (sep ∷ []) c (split sep s) (split-ne-nil sep s),
  join-split sep s,
)
