-- ===== src/Combo/Pending.antt =====
-- combo/ws/client.go: the table of requests that wait for an acknowledgement. A channel is a number
-- that its request has made; `resolve` tells which channel receives the result.
pub mod Bounded
mod Tests
use polymarket_client.Base.{
  ℕ, ◌≡◌, ◌≤◌, ◌+◌, ◌<◌, refl, inl, inr, Bool, true, false, not, Option, none, some, List, [], ◌∷◌,
  ◌++◌, nat_eq, leb, if◌then◌else◌, is_empty, length, All, arith, Bool-cases, Option-cases,
}
use polymarket_client.Base.Map.{lookup, assign, delete}
use polymarket_client.Base.Text.{Text, text_Comparable}

pub data PendingError : Type 0 where
  session_closed already_pending too_many : PendingError

-- `Session`, as far as the table goes.
pub record Session : Type 0 where
  pub closed : Bool
  pub pending : List (Text × List ℕ)
  pub max_pending : ℕ

unfoldable pub total : List (Text × List ℕ) → ℕ
total [] = 0
total ((k, items) ∷ m) = length items + total m

abbrev pub or_empty : Option (List ℕ) → List ℕ
or_empty none = []
or_empty (some items) = items

abbrev pub waiting : Session → Text → List ℕ
waiting s key = or_empty (lookup key s.pending)

unfoldable pub add_pending : Text → ℕ → Session → Session × Option PendingError
add_pending key ch s =
    if s.closed
    then (s, some session_closed)
    else if not (is_empty (waiting s key))
    then (s, some already_pending)
    else if leb s.max_pending (total s.pending)
    then (s, some too_many)
    else (record s { pending = assign key (waiting s key ++ (ch ∷ [])) s.pending }, none)

-- The first of the items that is the target goes.
unfoldable pub remove_item : ℕ → List ℕ → List ℕ
remove_item target [] = []
remove_item target (item ∷ items) =
    let rest = remove_item target items in if nat_eq item target then items else item ∷ rest

-- The items of a key, of which none is left without its entry.
abbrev pub put_items : Text → List ℕ → Session → Session
put_items key [] s = record s { pending = delete key s.pending }
put_items key (item ∷ items) s = record s { pending = assign key (item ∷ items) s.pending }

unfoldable pub remove_pending : Text → ℕ → Session → Session
remove_pending key target s = put_items key (remove_item target (waiting s key)) s

abbrev pub resolve_items : Text → List ℕ → Session → Session × Option ℕ
resolve_items key [] s = (s, none)
resolve_items key (item ∷ items) s = (put_items key items s, some item)

unfoldable pub resolve : Text → Session → Session × Option ℕ
resolve key s = resolve_items key (waiting s key) s
