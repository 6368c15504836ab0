-- ===== src/Combo/Legs/Tests.antt =====
-- Legs of two conditions, given in descending order.
use polymarket_client.Base.{ℕ, ◌≡◌, refl, List, [], ◌∷◌}
use polymarket_client.Base.Text.{Text, codes, trim_space, trim_left, is_space}
use polymarket_client.Clob.Number.{parse_int, parse_unsigned, parse_digits}
use polymarket_client.Combo.Legs.{
  legs, parse_combo_position_id, parse_legs, place, sort_positions, check_neighbours,
  canonicalize_combo_legs,
}
use polymarket_client.Combo.Legs.Canonical.{AreLegs, Ascending, Apart, canonicalize_combo_legs_lem}

abbrev two_legs : List Text
two_legs =
    codes "904625697166532776746648320380374280103671755200316906558262375061821325312"
    ∷ codes " 452312848583266388373324160190187140051835877600158453279131187530910662913"
    ∷ []

abbrev two_positions : List ℕ
two_positions =
    452312848583266388373324160190187140051835877600158453279131187530910662913
    ∷ 904625697166532776746648320380374280103671755200316906558262375061821325312 ∷ []

two_legs_accepted : canonicalize_combo_legs two_legs ≡ legs two_positions
unfolding canonicalize_combo_legs parse_legs parse_combo_position_id parse_int parse_unsigned
    parse_digits place sort_positions check_neighbours trim_space trim_left is_space
two_legs_accepted = refl

canonicalize_combo_legs_lem_example :
    AreLegs two_positions × Ascending two_positions × Apart two_positions
canonicalize_combo_legs_lem_example =
    canonicalize_combo_legs_lem two_legs two_positions two_legs_accepted
