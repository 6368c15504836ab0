-- ===== src/Ws/Connection/Lost.antt =====
-- A connection that fails before the goroutine that made it has reset the flag.
use polymarket_client.Base.{ℕ, ◌≡◌, Bool, true, false, not, some, nat_eq, All}
use polymarket_client.Ws.Connection.{Holder, claiming, Connections}

-- A goroutine that holds the flag for another connection than c.
abbrev pub is_claim_of_other : ℕ → Holder → Bool
is_claim_of_other c (claiming d) = not (nat_eq d c)
is_claim_of_other c _ = false

-- The client has the connection c, and no goroutine watches it or reconnects.
pub record IsLost (c : ℕ) (s : Connections) : Type 0 where
  pub current : s.conn ≡ some c
  pub unwatched : All (λ (d : ℕ). nat_eq d c ≡ false) s.watching
  pub idle : All (λ h. is_claim_of_other c h ≡ true) s.holders
