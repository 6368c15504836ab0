-- ===== src/Ctf/Combo/Tests.antt =====
-- Combos at concrete inputs, with an instance of the parameters.
use polymarket_client.Base.{ℕ, ◌≡◌, ◌+◌, ◌*◌, ◌^◌, true, refl, Option, none, some, List, [], ◌∷◌}
use polymarket_client.Base.Int.{pos}
use polymarket_client.Base.Result.{Result, ok, err, ◌>>=◌}
use polymarket_client.Base.Text.{Text, codes, trim_space, trim_left, is_space}
use polymarket_client.Clob.Number.{parse_int, parse_unsigned, parse_digits, print_nat, print_loop}
use polymarket_client.Combo.Legs.{
  legs, decode_combo_position_id, canonicalize_combo_legs, parse_combo_position_id, parse_legs,
  sort_positions, place, check_neighbours,
}
use polymarket_client.Eth.Bytes.{fill_bytes, set_bytes}
use polymarket_client.Eth.Sample.{sample, sample-IsEthereum}
use polymarket_client.Relayer.{safe_nonce, SubmitTransactionRequest}
use polymarket_client.Ctf.{CtfError, CtfTransaction, contract_config, validate_big_int_required}
use polymarket_client.Ctf.Batch.{no_client}
use polymarket_client.Ctf.Relay.{Services, Submitter, CtfRelayerArgs}
use polymarket_client.Ctf.Combo.{
  ComboRequest, ComboContext, condition_bytes, derive_combo_position_context, combo_contracts,
  call_combo_position_manager, combo_max_merge_amount, resolve_combo_merge_amount,
}
use polymarket_client.Ctf.Combo.Derived.{decode-derive_combo_position_context}
use polymarket_client.Ctf.Combo.Amounts.{Resolves, resolve_combo_merge_amount_lem}
use polymarket_client.Ctf.Combo.Calls.{submit_combo_relayer}

-- A leg on a binary condition, and one on a neg-risk condition.
abbrev two_legs : List Text
two_legs = print_nat (2 * 2 ^ 248 + 257) ∷ print_nat (2 ^ 248 + 512) ∷ []

abbrev context_in : Result CtfError ComboContext → ComboContext
context_in r = elim r [ ok c ↦ c | err e ↦ record { condition_id = []; yes_id = []; no_id = [] } ]

abbrev two_legs_context : ComboContext
two_legs_context = context_in (derive_combo_position_context sample two_legs)

two_legs_derived : derive_combo_position_context sample two_legs ≡ ok two_legs_context
unfolding derive_combo_position_context condition_bytes canonicalize_combo_legs parse_legs
    parse_combo_position_id sort_positions place check_neighbours trim_space trim_left is_space
    parse_int parse_unsigned parse_digits print_nat print_loop fill_bytes set_bytes ◌>>=◌
two_legs_derived = refl

decode-derive_combo_position_context_example :
    (decode_combo_position_id two_legs_context.yes_id
      ≡ legs (set_bytes two_legs_context.condition_id 0, 0))
    × (decode_combo_position_id two_legs_context.no_id
        ≡ legs (set_bytes two_legs_context.condition_id 0, 1))
decode-derive_combo_position_context_example =
    decode-derive_combo_position_context sample sample-IsEthereum two_legs two_legs_context
      two_legs_derived

-- A node that answers with two balances.
abbrev two_balances : Option (ℕ → List ℕ → Option (List ℕ))
two_balances = some (λ contract content. some (700 ∷ 500 ∷ []))

abbrev merge_all : ComboRequest
merge_all = record { leg_ids = two_legs; quantity = none }

abbrev merge_500 : ComboRequest
merge_500 = record { leg_ids = two_legs; quantity = some (pos 500) }

merge_all_resolved :
    resolve_combo_merge_amount sample (pos 137) two_balances (some merge_all) 12 ≡ ok merge_500
unfolding resolve_combo_merge_amount combo_max_merge_amount call_combo_position_manager
    combo_contracts contract_config validate_big_int_required derive_combo_position_context
    condition_bytes canonicalize_combo_legs parse_legs parse_combo_position_id sort_positions place
    check_neighbours trim_space trim_left is_space parse_int parse_unsigned parse_digits print_nat
    print_loop fill_bytes set_bytes ◌>>=◌
merge_all_resolved = refl

resolve_combo_merge_amount_lem_example :
    Resolves sample (pos 137) two_balances merge_all 12 merge_500
resolve_combo_merge_amount_lem_example =
    resolve_combo_merge_amount_lem sample (pos 137) two_balances merge_all 12 merge_500
      merge_all_resolved

-- Two transactions by a Safe wallet.
abbrev services : Services
services = record {
  text_hash = λ l. fill_bytes 32 (set_bytes l 0);
  relay_payload = λ owner kind. some (record { nonce_text = codes "3"; address = [] });
  submit = λ r. some (codes "accepted");
  sign_typed = λ signer t. none;
  nonces = λ owner. no_client;
}

abbrev submitter : Submitter
submitter = record { key = some 5; chain = pos 137; has_relayer = true }

abbrev safe_args : CtfRelayerArgs
safe_args = record {
  kind = safe_nonce;
  sender = [];
  proxy_wallet = sample.address_hex 12;
  metadata = [];
  gas_limit_text = [];
}

abbrev prepare_tx : CtfTransaction
prepare_tx = record { to = 7; content = 1 ∷ 2 ∷ [] }

abbrev merge_tx : CtfTransaction
merge_tx = record { to = 8; content = 3 ∷ [] }

abbrev no_request : SubmitTransactionRequest
no_request = record {
  sender = [];
  to = [];
  proxy_wallet = [];
  data_hex = [];
  nonce_text = [];
  signature = [];
  signature_params = none;
  kind = safe_nonce;
  deposit_wallet_params = none;
  metadata = [];
  value_text = [];
}

abbrev batch_sent : SubmitTransactionRequest
batch_sent =
    elim (submit_combo_relayer sample services submitter (prepare_tx ∷ merge_tx ∷ [])
      (some safe_args)) [ ok q ↦ q.0 | err e ↦ no_request ]
