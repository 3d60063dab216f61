-- ===== src/Go/Filepath.antt =====
-- Package path/filepath on Unix: Clean and Join of two elements, by the text.
use audistro_provider.Prelude.{
  Bool, true, false, List, [], ◌∷◌, ◌++◌, Text, codes, text_eq, ◌==◌, if◌then◌else◌,
}
use mathlib.Core.List.{reverse}
use audistro_provider.Go.Strings.{split}

abbrev starts_at_root : Text → Bool
starts_at_root [] = false
starts_at_root (c ∷ s) = c == b'/'

-- `..` takes the last element back, where there is one that is not `..` itself.
abbrev go_up : Bool → List Text → List Text
go_up true [] = []
go_up false [] = codes ".." ∷ []
go_up rooted (e ∷ kept) = if text_eq e (codes "..") then codes ".." ∷ e ∷ kept else kept

-- The elements that are kept, the last one first.
abbrev keep : Bool → Text → List Text → List Text
keep rooted e kept =
    if text_eq e []
    then kept
    else if text_eq e (codes ".")
    then kept
    else if text_eq e (codes "..")
    then go_up rooted kept
    else e ∷ kept

unfoldable pub keep_all : Bool → List Text → List Text → List Text
keep_all rooted [] kept = kept
keep_all rooted (e ∷ es) kept = keep_all rooted es (keep rooted e kept)

abbrev join_slash : List Text → Text
join_slash [] = []
join_slash (e ∷ []) = e
join_slash (e ∷ f ∷ es) = e ++ b'/' ∷ join_slash (f ∷ es)

abbrev or_dot : Text → Text
or_dot s = if text_eq s [] then codes "." else s

unfoldable pub clean : Text → Text
unfolding keep_all
clean s = or_dot (
    (if starts_at_root s then codes "/" else [])
    ++ join_slash (reverse (keep_all (starts_at_root s) (split b'/' s) [])))

-- Empty elements are passed over.
unfoldable pub join : Text → Text → Text
unfolding clean
join a b = if text_eq a [] then (if text_eq b [] then [] else clean b) else clean (a ++ b'/' ∷ b)
