-- ===== src/Combo/Options.antt =====
-- combo/ws/client.go: the options of a client. The options that only set credentials, the identity,
-- the signer or the dialer are left out. Durations are in nanoseconds.
mod Tests
use polymarket_client.Base.{
  ℕ, ◌*◌, ◌^◌, ◌≡◌, refl, Bool, true, false, List, [], ◌∷◌, inl, inr, Bool-cases, if◌then◌else◌,
  is_empty, arith, nat_eq,
}
use polymarket_client.Base.Int.{ℤ, pos, negsuc, is_not_positive}
use polymarket_client.Base.Text.{Text, codes}

pub record ComboClient : Type 0 where
  pub host : Text
  pub chain_id : ℤ
  pub auth_timeout : ℤ
  pub ack_timeout : ℤ
  pub event_buffer : ℤ
  pub max_pending : ℤ

unfoldable pub with_host : Text → ComboClient → ComboClient
with_host host c = if is_empty host then c else record c { host = host }

unfoldable pub with_chain_id : ℤ → ComboClient → ComboClient
with_chain_id id c = record c { chain_id = id }

unfoldable pub with_auth_timeout : ℤ → ComboClient → ComboClient
with_auth_timeout timeout c =
    if is_not_positive timeout then c else record c { auth_timeout = timeout }

unfoldable pub with_ack_timeout : ℤ → ComboClient → ComboClient
with_ack_timeout timeout c =
    if is_not_positive timeout then c else record c { ack_timeout = timeout }

unfoldable pub with_event_buffer : ℤ → ComboClient → ComboClient
with_event_buffer size c = if is_not_positive size then c else record c { event_buffer = size }

unfoldable pub with_max_pending : ℤ → ComboClient → ComboClient
with_max_pending size c = if is_not_positive size then c else record c { max_pending = size }

-- `Option`, by the function that made it.
pub data ClientOption : Type 0 where
  host_option : Text → ClientOption
  chain_id_option auth_timeout_option ack_timeout_option : ℤ → ClientOption
  event_buffer_option max_pending_option : ℤ → ClientOption

unfoldable pub apply_option : ClientOption → ComboClient → ComboClient
apply_option (host_option host) c = with_host host c
apply_option (chain_id_option id) c = with_chain_id id c
apply_option (auth_timeout_option timeout) c = with_auth_timeout timeout c
apply_option (ack_timeout_option timeout) c = with_ack_timeout timeout c
apply_option (event_buffer_option size) c = with_event_buffer size c
apply_option (max_pending_option size) c = with_max_pending size c

unfoldable pub apply_options : List ClientOption → ComboClient → ComboClient
apply_options [] c = c
apply_options (opt ∷ opts) c = apply_options opts (apply_option opt c)

unfoldable pub new_combo_client : List ClientOption → ComboClient
new_combo_client opts = apply_options opts (record {
  host = codes "wss://combos-rfq-gateway-quoter.polymarket.com/ws/rfq";
  chain_id = pos 137;
  auth_timeout = pos (30 * 10 ^ 9);
  ack_timeout = pos (30 * 10 ^ 9);
  event_buffer = pos 64;
  max_pending = pos 256;
})

-- The limits that a session relies on.
abbrev pub IsUsable : ComboClient → Type 0
IsUsable c =
    (is_empty c.host ≡ false)
    × (is_not_positive c.auth_timeout ≡ false)
    × (is_not_positive c.ack_timeout ≡ false)
    × (is_not_positive c.event_buffer ≡ false)
    × (is_not_positive c.max_pending ≡ false)

apply_option-IsUsable :
    (opt : ClientOption) (c : ComboClient) → IsUsable c → IsUsable (apply_option opt c)
unfolding apply_option with_host with_chain_id with_auth_timeout with_ack_timeout with_event_buffer
    with_max_pending
apply_option-IsUsable (host_option x) c h = elim (Bool-cases (is_empty x)) [
  | inl e ↦ rw e h
  | inr e ↦ rw e (e, h.1, h.2, h.3, h.4)
]
apply_option-IsUsable (chain_id_option x) c h = h
apply_option-IsUsable (auth_timeout_option x) c h = elim (Bool-cases (is_not_positive x)) [
  | inl e ↦ rw e h
  | inr e ↦ rw e (h.0, e, h.2, h.3, h.4)
]
apply_option-IsUsable (ack_timeout_option x) c h = elim (Bool-cases (is_not_positive x)) [
  | inl e ↦ rw e h
  | inr e ↦ rw e (h.0, h.1, e, h.3, h.4)
]
apply_option-IsUsable (event_buffer_option x) c h = elim (Bool-cases (is_not_positive x)) [
  | inl e ↦ rw e h
  | inr e ↦ rw e (h.0, h.1, h.2, e, h.4)
]
apply_option-IsUsable (max_pending_option x) c h = elim (Bool-cases (is_not_positive x)) [
  | inl e ↦ rw e h
  | inr e ↦ rw e (h.0, h.1, h.2, h.3, e)
]

apply_options-IsUsable :
    (opts : List ClientOption) (c : ComboClient) → IsUsable c → IsUsable (apply_options opts c)
unfolding apply_options
apply_options-IsUsable [] c h = h
apply_options-IsUsable (opt ∷ opts) c h =
    apply_options-IsUsable opts (apply_option opt c) (apply_option-IsUsable opt c h)

-- Whatever the options, a new client has a host, and its timeouts, its buffer of events and its
-- limit of pending requests are positive.
pub new_combo_client-IsUsable : (opts : List ClientOption) → IsUsable (new_combo_client opts)
unfolding new_combo_client
new_combo_client-IsUsable opts = apply_options-IsUsable opts _ (refl, refl, refl, refl, refl)
