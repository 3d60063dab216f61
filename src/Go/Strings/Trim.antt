-- ===== src/Go/Strings/Trim.antt =====
-- TrimSpace against itself and against Split: white space around a list of parts is around its parts.
use audistro_provider.Prelude.{
  ◌≡◌, refl, sym, true, false, ℕ, List, [], ◌∷◌, ◌++◌, Text, Bool-cases, inl, inr, ◌==◌,
}
use mathlib.Core.List.{reverse-append}
use audistro_provider.Go.Strings.{split, prepend, is_space, trim_left, trim_right, trim_space}

trim_right-snoc :
    (s : Text) (c : ℕ)
    → is_space c ≡ true
    → trim_right is_space (s ++ c ∷ []) ≡ trim_right is_space s
unfolding trim_right trim_left
trim_right-snoc s c h = rw (reverse-append s (c ∷ [])) (rw h refl)

pub trim_space-cons : (c : ℕ) (s : Text) → is_space c ≡ true → trim_space (c ∷ s) ≡ trim_space s
unfolding trim_space trim_left
trim_space-cons c s h = rw h refl

pub trim_space-snoc :
    (s : Text) (c : ℕ) → is_space c ≡ true → trim_space (s ++ c ∷ []) ≡ trim_space s
unfolding trim_space trim_left
trim_space-snoc [] c h = rw h refl
trim_space-snoc (d ∷ s) c h = elim (Bool-cases (is_space d)) [
  | inl space ↦ rw space (trim_space-snoc s c h)
  | inr other ↦ rw other (trim_right-snoc (d ∷ s) c h)
]

-- The parts with a byte behind the last one.
abbrev pub snoc_last : ℕ → List Text → List Text
snoc_last c [] = []
snoc_last c (p ∷ []) = (p ++ c ∷ []) ∷ []
snoc_last c (p ∷ q ∷ ps) = p ∷ snoc_last c (q ∷ ps)

pub split-cons : (sep : ℕ) (s : Text) → (p : Text) × (ps : List Text) × (split sep s ≡ p ∷ ps)
unfolding split
split-cons sep [] = ([], [], refl)
split-cons sep (c ∷ s) =
    let (p, ps, e) = split-cons sep s in
    elim (Bool-cases (c == sep)) [
      | inl at ↦ ([], split sep s, rw at refl)
      | inr off ↦ (c ∷ p, ps, rw (off, e) refl)
    ]

snoc_last-prepend :
    (d c : ℕ) (p : Text) (ps : List Text)
    → snoc_last c (prepend d (p ∷ ps)) ≡ prepend d (snoc_last c (p ∷ ps))
snoc_last-prepend d c p [] = refl
snoc_last-prepend d c p (q ∷ ps) = refl

pub split-snoc :
    (sep : ℕ) (s : Text) (c : ℕ)
    → (c == sep) ≡ false
    → split sep (s ++ c ∷ []) ≡ snoc_last c (split sep s)
unfolding split
split-snoc sep [] c h = rw h refl
split-snoc sep (d ∷ s) c h =
    let (p, ps, e) = split-cons sep s in
    elim (Bool-cases (d == sep)) [
      | inl at ↦ rw (at, split-snoc sep s c h, e) refl
      | inr off ↦ rw (off, split-snoc sep s c h, e) (sym (snoc_last-prepend d c p ps))
    ]
