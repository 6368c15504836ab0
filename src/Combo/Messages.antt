-- ===== src/Combo/Messages.antt =====
-- combo/ws/types.go and combo/ws/client.go: the messages of the server, and their checks. A message
-- is what its JSON decodes to.
pub mod Keys
mod Tests
use polymarket_client.Base.{
  Bool, true, false, not, ◌||◌, Option, none, some, List, [], ◌∷◌, nat_eq, ltb, if◌then◌else◌,
  is_empty, ◌++◌, ℕ,
}
use polymarket_client.Base.Int.{ℤ, pos, negsuc, is_not_positive}
use polymarket_client.Base.Text.{Text, codes, text_eq}
use polymarket_client.Clob.Order.{
  SignatureType, eoa, proxy, gnosis_safe, poly_1271, other_signature_type,
}
use polymarket_client.Combo.Decimal.{one, positive_big_int}
use polymarket_client.Combo.Quote.{
  Direction, other_direction, RequestSide, yes_side, other_side, RequestedSizeUnit, other_unit,
  Identity, QuoteRequest, normalize_condition_id, equal_fold,
}

pub data Decision : Type 0 where
  confirm decline : Decision
  other_decision : Text → Decision

pub data ExecutionStatus : Type 0 where
  matched mined confirmed retrying failed : ExecutionStatus
  other_status : Text → ExecutionStatus

pub record ConfirmationRequest : Type 0 where
  pub rfq_id : Text
  pub quote_id : Text
  pub signer_address : Text
  pub maker_address : Text
  pub signature_type : SignatureType
  pub leg_position_ids : List Text
  pub condition_id : Text
  pub yes_position_id : Text
  pub no_position_id : Text
  pub direction : Direction
  pub side : RequestSide
  pub fill_size_e6 : Text
  pub price_e6 : Text
  pub confirm_by : ℤ

pub record Trade : Type 0 where
  pub rfq_id : Text
  pub requester_id : Text
  pub condition_id : Text
  pub leg_position_ids : List Text
  pub direction : Direction
  pub side : RequestSide
  pub price_e6 : Text
  pub size_e6 : Text
  pub executed_at : ℤ

pub record QuoteReference : Type 0 where
  pub rfq_id : Text
  pub quote_id : Text

pub record RfqError : Type 0 where
  pub error_code : Text
  pub request_type : Text
  pub rfq_id : Text
  pub quote_id : Text
  pub message : Text

pub data Event : Type 0 where
  quote_request : QuoteRequest → Event
  confirmation_request : ConfirmationRequest → Event
  execution_update : Text → ExecutionStatus → Event
  trade : Trade → Event
  unknown : Text → Event

-- What the payload of a frame is, by its field `type`.
pub data Message : Type 0 where
  undecodable : Message
  auth : Bool → Message
  event : Event → Message
  ack_quote ack_cancel : QuoteReference → Message
  ack_confirmation : QuoteReference → Decision → Message
  rfq_error : RfqError → Message

pub data MessageError : Type 0 where
  decode_failed malformed_head malformed_condition malformed_positions malformed_direction :
      MessageError
  malformed_side malformed_unit malformed_size malformed_price malformed_identity : MessageError
  other_identity malformed_execution malformed_acknowledgement malformed_error : MessageError
  uncorrelated_error session_closed buffer_full read_failed : MessageError

-- The first failing test of a sequence.
pub data Checks : Type 0 where
  passed : Checks
  test : Bool → MessageError → Checks → Checks

unfoldable pub first_failure : Checks → Option MessageError
first_failure passed = none
first_failure (test bad e rest) = let later = first_failure rest in if bad then some e else later

abbrev pub is_none {ℓ} : {A : Type ℓ} → Option A → Bool
is_none none = true
is_none (some a) = false

unfoldable pub bad_leg : List Text → Bool
bad_leg [] = false
bad_leg (t ∷ ts) = is_none (positive_big_int t) || bad_leg ts

-- `validatePositionIDs`.
unfoldable pub bad_positions : List Text → Text → Text → Bool
unfolding bad_leg
bad_positions legs yes_id no_id =
    is_none (positive_big_int yes_id)
    || is_none (positive_big_int no_id)
    || text_eq yes_id no_id
    || bad_leg legs

abbrev pub is_other_direction : Direction → Bool
is_other_direction (other_direction d) = true
is_other_direction _ = false

abbrev pub is_other_side : RequestSide → Bool
is_other_side (other_side s) = true
is_other_side yes_side = false

abbrev pub is_other_unit : RequestedSizeUnit → Bool
is_other_unit (other_unit u) = true
is_other_unit _ = false

-- A price is an integer from 1 to 999999.
abbrev pub bad_price : Option ℕ → Bool
bad_price none = true
bad_price (some n) = not (ltb n one)

unfoldable pub validate_quote_request : QuoteRequest → Option MessageError
unfolding first_failure
validate_quote_request r = first_failure (
    test
      (is_empty r.rfq_id
        || is_empty r.requestor_public_id
        || is_empty r.leg_position_ids
        || is_not_positive r.submission_deadline)
      malformed_head
      (test (is_none (normalize_condition_id r.condition_id)) malformed_condition (
        test (bad_positions r.leg_position_ids r.yes_position_id r.no_position_id)
          malformed_positions
          (test (is_other_direction r.direction) malformed_direction (
            test (is_other_side r.side) malformed_side (
              test (is_other_unit r.unit) malformed_unit
                (test (is_none (positive_big_int r.value_e6)) malformed_size passed)))))))

unfoldable pub validate_trade : Trade → Option MessageError
unfolding first_failure
validate_trade t = first_failure (
    test
      (is_empty t.rfq_id
        || is_empty t.requester_id
        || is_empty t.leg_position_ids
        || is_not_positive t.executed_at)
      malformed_head
      (test (is_none (normalize_condition_id t.condition_id)) malformed_condition (
        test (bad_leg t.leg_position_ids) malformed_positions (
          test (is_other_direction t.direction) malformed_direction (
            test (is_other_side t.side) malformed_side (
              test (bad_price (positive_big_int t.price_e6)) malformed_price
                (test (is_none (positive_big_int t.size_e6)) malformed_size passed)))))))

abbrev pub signature_code : SignatureType → ℤ
signature_code eoa = pos 0
signature_code proxy = pos 1
signature_code gnosis_safe = pos 2
signature_code poly_1271 = pos 3
signature_code (other_signature_type z) = z

abbrev pub int_eq : ℤ → ℤ → Bool
int_eq (pos m) (pos n) = nat_eq m n
int_eq (negsuc m) (negsuc n) = nat_eq m n
int_eq _ _ = false

-- The identity of the session is an argument, and so are the addresses of go-ethereum.
unfoldable pub validate_confirmation_request :
    (Text → Bool) → (Text → ℕ) → Identity → ConfirmationRequest → Option MessageError
unfolding first_failure
validate_confirmation_request is_hex_address hex_to_address i r = first_failure (
    test (is_empty r.rfq_id || is_empty r.quote_id || is_not_positive r.confirm_by) malformed_head (
      test
        (not (is_hex_address r.signer_address)
          || not (is_hex_address r.maker_address)
          || nat_eq (hex_to_address r.signer_address) 0
          || nat_eq (hex_to_address r.maker_address) 0)
        malformed_identity
        (test
          (not (equal_fold r.signer_address i.signer_address)
            || not (equal_fold r.maker_address i.maker_address)
            || not (int_eq (signature_code r.signature_type) (signature_code i.signature_type)))
          other_identity
          (test (is_none (normalize_condition_id r.condition_id)) malformed_condition (
            test (bad_positions r.leg_position_ids r.yes_position_id r.no_position_id)
              malformed_positions
              (test (is_other_direction r.direction) malformed_direction (
                test (is_other_side r.side) malformed_side (
                  test (bad_price (positive_big_int r.price_e6)) malformed_price
                    (test (is_none (positive_big_int r.fill_size_e6)) malformed_size passed)))))))))

-- The keys of the table of pending requests.
unfoldable pub quote_key : Text → Text
quote_key rfq = codes "quote:" ++ rfq

unfoldable pub cancel_key : Text → Text → Text
cancel_key rfq quote = codes "cancel:" ++ (rfq ++ (b':' ∷ quote))

unfoldable pub confirm_key : Text → Text → Text
confirm_key rfq quote = codes "confirm:" ++ (rfq ++ (b':' ∷ quote))

-- `errorKey`: the key that an error belongs to, none if it belongs to no request.
pub data ErrorKey : Type 0 where
  keyed : Text → ErrorKey
  unkeyed uncorrelated : ErrorKey

unfoldable pub error_key : RfqError → ErrorKey
unfolding quote_key cancel_key confirm_key
error_key e =
    if text_eq e.request_type (codes "RFQ_QUOTE")
    then (if is_empty e.rfq_id then uncorrelated else keyed (quote_key e.rfq_id))
    else if text_eq e.request_type (codes "RFQ_QUOTE_CANCEL")
    then (if is_empty e.rfq_id || is_empty e.quote_id
        then uncorrelated
        else keyed (cancel_key e.rfq_id e.quote_id))
    else if text_eq e.request_type (codes "RFQ_CONFIRMATION_RESPONSE")
    then (if is_empty e.rfq_id || is_empty e.quote_id
        then uncorrelated
        else keyed (confirm_key e.rfq_id e.quote_id))
    else unkeyed

unfoldable pub valid_execution_status : ExecutionStatus → Bool
valid_execution_status (other_status s) = false
valid_execution_status _ = true
