-- ===== src/Ws/User/Remove.antt =====
-- What the calls of the user channel leave in the list of subscriptions.
use polymarket_client.Base.{
  ℕ, zero, suc, ◌≡◌, refl, inl, inr, true, false, Option, none, some, List, [], ◌∷◌, ◌++◌, arith,
  length, get_elem?, take, drop, All, Bool-cases, Option-cases, split_at, length-append,
  get_elem?-append, take-append, drop-append,
}
use mathlib.Core.List.{append-nil}
use polymarket_client.Base.Text.{Text}
use polymarket_client.Ws.Client.{Client, SendError, Operation, empty}
use polymarket_client.Ws.User.{
  UserFrame, same_strings, remove_loop, remove_matching_user_subscription, send_user_subscription,
  add_user_and_send, remove_user_and_send,
}
use polymarket_client.Ws.User.SameStrings.{same_strings_iff}

-- The last entry that matches is cut out, and no entry behind it matches; or no entry matches,
-- and the list stays.
pub data Removed (target : List Text) (subs out : List (List Text)) : Type 0 where
  cut :
      (before : List (List Text)) (sub : List Text) (after : List (List Text))
      → subs ≡ before ++ (sub ∷ after)
      → out ≡ before ++ after
      → same_strings sub target ≡ true
      → All (λ s. same_strings s target ≡ false) after
      → Removed target subs out
  kept : out ≡ subs → All (λ s. same_strings s target ≡ false) subs → Removed target subs out

abbrev NoMatch : List Text → List (List Text) → Type 0
NoMatch target = All (λ s. same_strings s target ≡ false)

drop_of_get_elem? :
    (subs : List (List Text)) (i : ℕ) {x : List Text}
    → get_elem? subs i ≡ some x
    → drop i subs ≡ x ∷ drop (suc i) subs
drop_of_get_elem? [] i h = cc
drop_of_get_elem? (y ∷ ys) zero h = cc
drop_of_get_elem? (y ∷ ys) (suc i) h = drop_of_get_elem? ys i h

drop_past : (subs : List (List Text)) (i : ℕ) → get_elem? subs i ≡ none → drop i subs ≡ []
drop_past [] zero h = refl
drop_past [] (suc i) h = refl
drop_past (y ∷ ys) zero h = cc
drop_past (y ∷ ys) (suc i) h = drop_past ys i h

remove_loop-Removed :
    (i : ℕ) (subs : List (List Text)) (target : List Text)
    → NoMatch target (drop i subs)
    → Removed target subs (remove_loop i subs target)
unfolding remove_loop
remove_loop-Removed zero subs target h = kept refl h
remove_loop-Removed (suc i) subs target h = elim (Option-cases (get_elem? subs i)) [
  | inl e ↦ rw (e, remove_loop) (remove_loop-Removed i subs target (rw (drop_past subs i e) tt))
  | inr (x, e) ↦
      rw (e, remove_loop)
        (elim (Bool-cases (same_strings x target)) [
          | inl t ↦ rw t (cut (take i subs) x (drop (suc i) subs) (split_at subs i e) refl t h)
          | inr t ↦
              rw t (remove_loop-Removed i subs target (rw (drop_of_get_elem? subs i e) (t, h)))
        ])
]

drop_all : (subs : List (List Text)) → drop (length subs) subs ≡ []
drop_all [] = refl
drop_all (x ∷ subs) = drop_all subs

-- The call removes the last subscription to the same markets, in any order, and no other.
pub remove_matching-Removed :
    (subs : List (List Text)) (target : List Text)
    → Removed target subs (remove_matching_user_subscription subs target)
unfolding remove_matching_user_subscription
remove_matching-Removed subs target =
    remove_loop-Removed (length subs) subs target (rw (drop_all subs) tt)

pub remove_matching-append :
    (subs : List (List Text)) (t : List Text)
    → remove_matching_user_subscription (subs ++ (t ∷ [])) t ≡ subs
unfolding remove_matching_user_subscription remove_loop
remove_matching-append subs t =
    let e : length (subs ++ (t ∷ [])) ≡ suc (length subs) =
      omega (arith, length-append subs (t ∷ [])) in
    rw (
      e,
      get_elem?-append subs t,
      (same_strings_iff t t).1 (λ x. refl),
      take-append subs (t ∷ []),
      drop-append subs t,
      append-nil subs,
      remove_loop,
    )

-- A failed frame is not sent.
send-frames :
    (write : UserFrame → Option Text) (c : Client) (markets : List Text) (o : Operation)
    {e : SendError}
    → (send_user_subscription write c markets o).failed ≡ some e
    → (send_user_subscription write c markets o).frames ≡ []
unfolding send_user_subscription
send-frames write c markets o h = ground arith

-- `SubscribeUserEvents` either fails, and then has sent nothing and leaves the client exactly as
-- it was, or appends its markets to the subscriptions and changes nothing else.
pub add_user_and_send_lem :
    (write : UserFrame → Option Text) (c : Client) (markets : List Text)
    → let o = add_user_and_send write c markets in
      ((e : SendError) → o.failure ≡ some e → (o.client ≡ c) × (o.sent ≡ []))
      × (o.failure ≡ none → o.client ≡ record c { user_subs = c.user_subs ++ (markets ∷ []) })
unfolding add_user_and_send
add_user_and_send_lem write c markets =
    let c' = record c { user_subs = c.user_subs ++ (markets ∷ []) } in
    let m = send_user_subscription write c' markets empty in
    elim (Option-cases m.failed) [
      | inl e ↦ rw (e, add_user_and_send) (λ x q. cc, λ q. refl)
      | inr (x, e) ↦
          rw (e, remove_matching-append c.user_subs markets, add_user_and_send)
            (λ y q. (refl, send-frames write c' markets empty e), λ q. cc)
    ]

-- `UnsubscribeUserEvents` forgets the last subscription to its markets, whether its frame is
-- written or not, and right after a successful subscription to them it restores the list.
pub remove_user_and_send_lem :
    (write write' : UserFrame → Option Text) (c : Client) (markets : List Text)
    → Removed markets c.user_subs (remove_user_and_send write c markets).client.user_subs
      × (let o = add_user_and_send write' c markets in
          o.failure ≡ none
          → (remove_user_and_send write o.client markets).client.user_subs ≡ c.user_subs)
unfolding remove_user_and_send
remove_user_and_send_lem write write' c markets = (
  remove_matching-Removed c.user_subs markets,
  λ q.
      rw ((add_user_and_send_lem write' c markets).1 q)
        (remove_matching-append c.user_subs markets),
)
