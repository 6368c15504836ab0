-- ===== src/Combo/Session/Entered.antt =====
-- What a request, and one that gives up, leave of the counts of the channels.
use polymarket_client.Base.{
  ℕ, ◌≡◌, ◌≤◌, ◌+◌, refl, sym, subst, ◌∙◌, Bool, true, false, Option, none, some, List, [], ◌∷◌,
  ◌++◌, nat_eq, if◌then◌else◌, is_empty, not, leb, arith, ◌&&◌, if-cases, if_then, if_else,
}
use polymarket_client.Base.Map.{lookup, assign, assign-IsMap}
use polymarket_client.Base.Text.{Text, text_Comparable}
use polymarket_client.Combo.Pending.{
  Session, PendingError, session_closed, already_pending, too_many, waiting, or_empty, total,
  add_pending, remove_item, remove_pending,
}
use polymarket_client.Combo.Session.{RfqSession, requested, give_up}
use polymarket_client.Combo.Session.Delivery.{
  occurs, in_table, in_table-assign, in_table-put_items, put_items-IsMap, occurs-remove_item,
  occurs-other, occurs-snoc,
}
use polymarket_client.Combo.Session.Kept.{count, Inv, put_items_closed}

-- What a request and its giving up do. A request that is accepted counts once, under a number that
-- no request had.
add_items :
    (k : Text) (w : List ℕ) (ch : ℕ) (c : ℕ) (m : List (Text × List ℕ))
    → or_empty (lookup k m) ≡ w
    → in_table c (assign k (w ++ (ch ∷ [])) m) ≡ in_table c m + (if nat_eq ch c then 1 else 0)
add_items k w ch c m e =
    let a : in_table c (assign k (w ++ (ch ∷ [])) m) + occurs c w
        ≡ in_table c m + occurs c (w ++ (ch ∷ [])) =
      subst
        (λ x.
          in_table c (assign k (w ++ (ch ∷ [])) m) + occurs c x
          ≡ in_table c m + occurs c (w ++ (ch ∷ [])))
        e (in_table-assign c k (w ++ (ch ∷ [])) m) in
    omega (arith, occurs-snoc c ch w)

abbrev pub accepted : Text → RfqSession → Bool
accepted key s =
    not s.table.closed
    && is_empty (waiting s.table key)
    && not (leb s.table.max_pending (total s.table.pending))

-- What becomes of a request.
abbrev pub Requested : Text → RfqSession → Session × Option PendingError → Type 0
Requested key s p =
    Inv (requested p s)
    × ((c : ℕ)
        → count c (requested p s)
          ≡ count c s + (if accepted key s then (if nat_eq s.next_channel c then 1 else 0) else 0))

refused :
    (key : Text) (s : RfqSession) (e : PendingError)
    → Inv s
    → accepted key s ≡ false
    → Requested key s (s.table, some e)
refused key s e v a = (
  record { is_map = v.is_map; emptied = v.emptied; buffered = v.buffered },
  λ c. omega (arith, if_else {A = ℕ} (if nat_eq s.next_channel c then 1 else 0) 0 a),
)

admitted :
    (key : Text) (s : RfqSession)
    → Inv s
    → s.table.closed ≡ false
    → accepted key s ≡ true
    → Requested key s (
      record s.table {
        pending = assign key (waiting s.table key ++ (s.next_channel ∷ [])) s.table.pending;
      },
      none,
    )
admitted key s v o a = (
  record {
    is_map =
        assign-IsMap key (waiting s.table key ++ (s.next_channel ∷ [])) s.table.pending v.is_map;
    emptied = λ f c. absurd (ground arith);
    buffered = v.buffered;
  },
  λ c.
      let i = add_items key (waiting s.table key) s.next_channel c s.table.pending refl in
      omega (arith, if_then {A = ℕ} (if nat_eq s.next_channel c then 1 else 0) 0 a),
)

pub request_lem :
    (key : Text) (s : RfqSession) → Inv s → Requested key s (add_pending key s.next_channel s.table)
unfolding add_pending
request_lem key s v =
    if-cases (Requested key s) s.table.closed (λ a. refused key s session_closed v (ground arith))
      (λ o.
        if-cases (Requested key s) (not (is_empty (waiting s.table key)))
          (λ a. refused key s already_pending v (ground arith))
          (λ w.
            if-cases (Requested key s) (leb s.table.max_pending (total s.table.pending))
              (λ a. refused key s too_many v (ground arith))
              (λ b. admitted key s v o (ground arith))))

-- What a request that gives up takes from the table.
pub give_up-Inv : (key : Text) (ch : ℕ) (s : RfqSession) → Inv s → Inv (give_up key ch s)
unfolding give_up remove_pending
give_up-Inv key ch s v =
    let items = remove_item ch (waiting s.table key) in
    record {
      is_map = put_items-IsMap key items s.table v.is_map;
      emptied = λ f c.
          let n = v.emptied (sym (put_items_closed key items s.table) ∙ f) c in
          let m = in_table-put_items c key items s.table v.is_map in
          let l = occurs-remove_item c ch (waiting s.table key) in omega arith;
      buffered = v.buffered;
    }

pub give_up-count :
    (key : Text) (ch : ℕ) (s : RfqSession) (c : ℕ) → Inv s → count c (give_up key ch s) ≤ count c s
unfolding give_up remove_pending
give_up-count key ch s c v =
    let m = in_table-put_items c key (remove_item ch (waiting s.table key)) s.table v.is_map in
    let l = occurs-remove_item c ch (waiting s.table key) in omega arith

pub give_up-other :
    (key : Text) (ch : ℕ) (s : RfqSession) (c : ℕ)
    → Inv s
    → nat_eq ch c ≡ false
    → count c (give_up key ch s) ≡ count c s
unfolding give_up remove_pending
give_up-other key ch s c v n =
    let m = in_table-put_items c key (remove_item ch (waiting s.table key)) s.table v.is_map in
    let l = occurs-other c ch (waiting s.table key) n in omega arith
