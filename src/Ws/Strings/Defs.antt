-- ===== src/Ws/Strings/Defs.antt =====
-- The definitions of `canonicalStrings` and `unionSortedStrings`.
use polymarket_client.Base.{List, [], ◌∷◌, ◌++◌, if◌then◌else◌, contains, is_empty}
use polymarket_client.Base.Text.{Text, text_lt, text_eq, trim_space, text_Comparable}

unfoldable pub insert_string : Text → List Text → List Text
unfolding text_lt
insert_string x [] = x ∷ []
insert_string x (y ∷ ys) =
    let rest = insert_string x ys in if text_lt y x then y ∷ rest else x ∷ y ∷ ys

-- `sort.Strings`. The order is total, so every sort gives this list.
unfoldable pub sort_strings : List Text → List Text
unfolding insert_string
sort_strings [] = []
sort_strings (x ∷ xs) = insert_string x (sort_strings xs)

-- The loop of `canonicalStrings`, over `seen` and `out`.
unfoldable pub canonical_loop : List Text → List Text → List Text → List Text
unfolding trim_space text_eq
canonical_loop [] seen out = out
canonical_loop (v ∷ vs) seen out =
    let value = trim_space v in
    let skip = canonical_loop vs seen out in
    let add = canonical_loop vs (value ∷ seen) (out ++ (value ∷ [])) in
    if is_empty value then skip else if contains seen value then skip else add

unfoldable pub canonical_strings : List Text → List Text
unfolding canonical_loop sort_strings
canonical_strings [] = []
canonical_strings (v ∷ vs) = sort_strings (canonical_loop (v ∷ vs) [] [])

unfoldable pub union_sorted_strings : List Text → List Text → List Text
unfolding canonical_strings
union_sorted_strings [] b = canonical_strings b
union_sorted_strings (x ∷ a) [] = canonical_strings (x ∷ a)
union_sorted_strings (x ∷ a) (y ∷ b) = canonical_strings ((x ∷ a) ++ (y ∷ b))
