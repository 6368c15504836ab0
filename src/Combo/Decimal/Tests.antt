-- ===== src/Combo/Decimal/Tests.antt =====
-- Readings of decimals. A fraction that is no number counts as 0, and one with a sign is added.
use polymarket_client.Base.{◌≡◌, refl, some}
use polymarket_client.Base.Int.{pos}
use polymarket_client.Base.Text.{codes, trim_left, trim_space, is_space}
use polymarket_client.Clob.Number.{parse_int, parse_unsigned, parse_digits}
use polymarket_client.Clob.Validate.{byte_length}
use polymarket_client.Combo.Decimal.{split_dots, repeat_zero, join_parts, read_parts, decimal_to_e6}

readings : Unit {0}
unfolding decimal_to_e6 split_dots repeat_zero join_parts read_parts byte_length parse_int
    parse_unsigned parse_digits trim_left trim_space is_space
readings = tt

half : decimal_to_e6 (codes "0.5") ≡ some (pos 500000)
unfolding readings
half = refl

unreadable_fraction : decimal_to_e6 (codes "12.5x") ≡ some (pos 12000000)
unfolding readings
unreadable_fraction = refl

signed_fraction : decimal_to_e6 (codes "1.-5") ≡ some (pos 950000)
unfolding readings
signed_fraction = refl
