-- ===== src/Relayer/Proxy/GasLimit.antt =====
-- The bounds of the gas limit.
use polymarket_client.Base.{
  ℕ, ◌≡◌, ◌≤◌, ◌<◌, ◌+◌, ◌-◌, ◌*◌, ◌^◌, ap, ◌∙◌, false, if◌then◌else◌, ltb, nat_eq, arith,
}
use polymarket_client.Base.Int.{pos, sub_ℕ, ◌+ℤ◌}
use polymarket_client.Clob.Order.{to_int64}
use polymarket_client.Relayer.Proxy.{add64, mul64, max_int, min_int, proxy_gas_limit}

to_int64-small : (n : ℕ) → n < 2 ^ 63 → to_int64 (pos n) ≡ pos n
unfolding to_int64
to_int64-small n h = ground arith

sum_pos : (a b : ℕ) → pos a +ℤ pos b ≡ pos (a + b)
sum_pos a b = ground arith

plus : (a b : ℕ) → a + b < 2 ^ 63 → add64 (pos a) (pos b) ≡ pos (a + b)
unfolding add64
plus a b h = ap to_int64 (sum_pos a b) ∙ to_int64-small (a + b) h

times : (a b : ℕ) → a * b < 2 ^ 63 → mul64 (pos a) (pos b) ≡ pos (a * b)
unfolding mul64
times a b h = to_int64-small (a * b) h

sum_off : (a b : ℕ) → b ≤ a → pos a +ℤ sub_ℕ 0 b ≡ pos (a - b)
sum_off a b h = ground arith

minus : (a b : ℕ) → b ≤ a → a < 2 ^ 63 → add64 (pos a) (sub_ℕ 0 b) ≡ pos (a - b)
unfolding add64
minus a b h k = ap to_int64 (sum_off a b h) ∙ to_int64-small (a - b) (omega arith)

max_pos : (a b : ℕ) → max_int (pos a) (pos b) ≡ pos (if ltb a b then b else a)
unfolding max_int
max_pos a b = ground arith

min_pos : (a b : ℕ) → min_int (pos a) (pos b) ≡ pos (if ltb b a then b else a)
unfolding min_int
min_pos a b = ground arith

-- The value of each step, none of which wraps around.
steps :
    (n : ℕ)
    → 1 ≤ n
    → n ≤ 2 ^ 40
    → proxy_gas_limit (pos n) ≡ (
        let needs = n * 150000 + 500000 in
        let wanted = if ltb needs 3000000 then 3000000 else needs in
        let most = n * 150000 + 3450000 - 30000 - 450000 in
        pos (if ltb most wanted then most else wanted))
unfolding proxy_gas_limit
steps n p h =
    let one : nat_eq n 0 ≡ false = ground arith in
    rw
      (
        one,
        times n 150000 (omega arith),
        plus (n * 150000) 3450000 (omega arith),
        plus (n * 150000) 500000 (omega arith),
        minus (n * 150000 + 3450000) 30000 (omega arith) (omega arith),
        minus (n * 150000 + 3450000 - 30000) 450000 (omega arith) (omega arith),
        max_pos (n * 150000 + 500000) 3000000,
      )
      (min_pos _ _)

-- The gas limit of a batch of up to 2 ^ 40 transactions is at least 3 millions and what its
-- execution needs, 150000 for each transaction and 500000 more, and leaves 480000 of what the
-- relayer sends, 150000 for each transaction and 3450000 more.
pub proxy_gas_limit_lem :
    (n : ℕ)
    → 1 ≤ n
    → n ≤ 2 ^ 40
    → (g : ℕ) × (proxy_gas_limit (pos n) ≡ pos g)
      × (3000000 ≤ g)
      × (n * 150000 + 500000 ≤ g)
      × (g + 480000 ≤ n * 150000 + 3450000)
proxy_gas_limit_lem n p h =
    let g = if ltb (n * 150000 + 500000) 3000000 then 3000000 else n * 150000 + 500000 in
    (g, steps n p h ∙ ground arith, ground arith, ground arith, ground arith)
