-- ===== src/Config/Parts.antt =====
-- The parts of a comma separated list, splitCSV of config.go: white space around the list is passed
-- over like that around a part.
use audistro_provider.Prelude.{
  ◌≡◌, refl, ◌∙◌, true, false, ℕ, List, [], ◌∷◌, ◌++◌, Text, arith, Bool-cases, inl, inr, ◌==◌,
}
use mathlib.Core.List.{reverse, reverse-reverse, reverse-cons}
use audistro_provider.Go.Strings.{split, prepend, is_space, trim_left, trim_right, trim_space}
use audistro_provider.Go.Strings.Trim.{
  snoc_last, split-cons, split-snoc, trim_space-cons, trim_space-snoc,
}
use audistro_provider.Config.{trimmed_parts, split_csv}

trimmed_parts-snoc_last :
    (c : ℕ) (ps : List Text) → is_space c ≡ true → trimmed_parts (snoc_last c ps) ≡ trimmed_parts ps
unfolding trimmed_parts
trimmed_parts-snoc_last c [] h = refl
trimmed_parts-snoc_last c (p ∷ []) h = rw (trim_space-snoc p c h) refl
trimmed_parts-snoc_last c (p ∷ q ∷ ps) h = rw (trimmed_parts-snoc_last c (q ∷ ps) h) refl

comma_apart : (c : ℕ) → is_space c ≡ true → (c == b',') ≡ false
comma_apart c h = ground arith

trimmed_parts-prepend :
    (c : ℕ) (p : Text) (ps : List Text)
    → is_space c ≡ true
    → trimmed_parts (prepend c (p ∷ ps)) ≡ trimmed_parts (p ∷ ps)
unfolding trimmed_parts
trimmed_parts-prepend c p ps h = rw (trim_space-cons c p h) refl

split_csv-cons : (c : ℕ) (s : Text) → is_space c ≡ true → split_csv (c ∷ s) ≡ split_csv s
unfolding split_csv split
split_csv-cons c s h =
    let (p, ps, e) = split-cons b',' s in rw (comma_apart c h, e) (trimmed_parts-prepend c p ps h)

split_csv-snoc : (s : Text) (c : ℕ) → is_space c ≡ true → split_csv (s ++ c ∷ []) ≡ split_csv s
unfolding split_csv
split_csv-snoc s c h =
    rw (split-snoc b',' s c (comma_apart c h)) (trimmed_parts-snoc_last c (split b',' s) h)

split_csv-trim_left : (s : Text) → split_csv (trim_left is_space s) ≡ split_csv s
unfolding trim_left
split_csv-trim_left [] = refl
split_csv-trim_left (c ∷ s) = elim (Bool-cases (is_space c)) [
  | inl space ↦ rw (space, split_csv-cons c s space) (split_csv-trim_left s)
  | inr other ↦ rw other refl
]

split_csv-reverse : (r : Text) → split_csv (reverse (trim_left is_space r)) ≡ split_csv (reverse r)
unfolding trim_left
split_csv-reverse [] = refl
split_csv-reverse (c ∷ r) = elim (Bool-cases (is_space c)) [
  | inl space ↦
      rw (space, reverse-cons c r, split_csv-snoc (reverse r) c space) (split_csv-reverse r)
  | inr other ↦ rw other refl
]

pub split_csv-trim_space : (s : Text) → split_csv (trim_space s) ≡ split_csv s
unfolding trim_space trim_right
split_csv-trim_space s =
    split_csv-reverse (reverse (trim_left is_space s))
    ∙ rw (reverse-reverse (trim_left is_space s)) (split_csv-trim_left s)
