-- ===== src/Ws/User.antt =====
-- clob/ws/client.go: the subscriptions of the user channel, a list in the order they were made.
-- `write` stands for `wsjson.Write` on the current connection: it returns the error, if any.
pub mod SameStrings
pub mod Remove
use polymarket_client.Base.{
  ℕ, zero, suc, ◌-◌, Bool, true, false, Option, none, some, List, [], ◌∷◌, ◌++◌, nat_eq,
  if◌then◌else◌, length, get_elem?, take, drop,
}
use polymarket_client.Base.Map.{lookup, assign}
use polymarket_client.Base.Text.{Text, text_eq, text_Comparable}
use polymarket_client.Ws.Market.State.{value_or}
use polymarket_client.Ws.Client.{
  Client, Credentials, Operation, empty, unsubscribe, SendError, not_connected, no_credentials,
  write_failed,
}

-- `UserSubscription`, whose `type` is always `user`.
pub record UserFrame : Type 0 where
  pub auth : Credentials
  pub markets : List Text
  pub operation : Operation

unfoldable pub seen_count : List (Text × ℕ) → Text → ℕ
seen_count seen v = value_or (lookup v seen)

-- `seen[value]++` for each value.
unfoldable pub tally : List (Text × ℕ) → List Text → List (Text × ℕ)
tally seen [] = seen
tally seen (v ∷ vs) = tally (assign v (suc (seen_count seen v)) seen) vs

-- The second loop of `sameStrings`.
unfoldable pub use_up : List (Text × ℕ) → List Text → Bool
use_up seen [] = true
use_up seen (v ∷ vs) =
    let rest = use_up (assign v (seen_count seen v - 1) seen) vs in
    if nat_eq (seen_count seen v) 0 then false else rest

unfoldable pub same_strings : List Text → List Text → Bool
same_strings a b = if nat_eq (length a) (length b) then use_up (tally [] a) b else false

-- The loop of `removeMatchingUserSubscription`, from index `i - 1` down to 0.
unfoldable pub remove_loop : ℕ → List (List Text) → List Text → List (List Text)
remove_loop zero subs target = subs
remove_loop (suc i) subs target =
    let rest = remove_loop i subs target in
    elim (get_elem? subs i) [
      | none ↦ rest
      | some sub ↦ if same_strings sub target then take i subs ++ drop (suc i) subs else rest
    ]

unfoldable pub remove_matching_user_subscription : List (List Text) → List Text → List (List Text)
remove_matching_user_subscription subs target = remove_loop (length subs) subs target

-- The frame that was written, if any, and the error.
pub record UserSending : Type 0 where
  pub frames : List UserFrame
  pub failed : Option SendError

unfoldable pub send_user_subscription :
    (UserFrame → Option Text) → Client → List Text → Operation → UserSending
send_user_subscription write c markets operation = elim c.conn [
  | none ↦ record { frames = []; failed = some not_connected }
  | some _ ↦ elim c.creds [
    | none ↦ record { frames = []; failed = some no_credentials }
    | some auth ↦
        let frame : UserFrame = record { auth = auth; markets = markets; operation = operation } in
        elim (write frame) [
          | none ↦ record { frames = frame ∷ []; failed = none }
          | some e ↦ record { frames = []; failed = some (write_failed e) }
        ]
  ]
]

pub record UserOutcome : Type 0 where
  pub client : Client
  pub sent : List UserFrame
  pub failure : Option SendError

unfoldable pub add_user_and_send : (UserFrame → Option Text) → Client → List Text → UserOutcome
add_user_and_send write c markets =
    let c' = record c { user_subs = c.user_subs ++ (markets ∷ []) } in
    let m = send_user_subscription write c' markets empty in
    elim m.failed [
      | none ↦ record { client = c'; sent = m.frames; failure = none }
      | some e ↦ record {
        client = record c' { user_subs = remove_matching_user_subscription c'.user_subs markets };
        sent = m.frames;
        failure = some e;
      }
    ]

unfoldable pub remove_user_and_send : (UserFrame → Option Text) → Client → List Text → UserOutcome
remove_user_and_send write c markets =
    let c' = record c { user_subs = remove_matching_user_subscription c.user_subs markets } in
    let m = send_user_subscription write c' markets unsubscribe in
    record { client = c'; sent = m.frames; failure = m.failed }

-- The loop of `replaySubscriptions` over a copy of the list; an error does not end it.
unfoldable pub replay_user_subscriptions :
    (UserFrame → Option Text) → Client → List (List Text) → List UserFrame × List SendError
replay_user_subscriptions write c [] = ([], [])
replay_user_subscriptions write c (sub ∷ subs) =
    let (frames, errors) = replay_user_subscriptions write c subs in
    let m = send_user_subscription write c sub empty in
    (m.frames ++ frames, elim m.failed [ none ↦ errors | some e ↦ e ∷ errors ])
