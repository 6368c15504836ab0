-- ===== src/Combo/Pending/Tests.antt =====
-- The bound of the table at a concrete session.
use polymarket_client.Base.{refl, arith, false, [], ◌∷◌}
use polymarket_client.Base.Map.{lookup}
use polymarket_client.Base.Text.{codes, text_Comparable}
use polymarket_client.Combo.Pending.{Session, total, add_pending, remove_pending, resolve}
use polymarket_client.Combo.Pending.Bounded.{IsBounded, pending-IsBounded}

abbrev waiting_for_quote : Session
waiting_for_quote = record {
  closed = false;
  pending = (codes "quote:7", 1 ∷ []) ∷ [];
  max_pending = 2;
}

waiting_for_quote-IsBounded : IsBounded waiting_for_quote
unfolding total lookup
waiting_for_quote-IsBounded = record {
  is_map = (refl, tt);
  single = (refl, tt);
  bounded = omega arith;
}

pending-IsBounded_example :
    IsBounded ((add_pending (codes "cancel:7:1") 2 waiting_for_quote).0)
    × IsBounded (remove_pending (codes "cancel:7:1") 2 waiting_for_quote)
    × IsBounded ((resolve (codes "cancel:7:1") waiting_for_quote).0)
pending-IsBounded_example =
    pending-IsBounded waiting_for_quote (codes "cancel:7:1") 2 waiting_for_quote-IsBounded
