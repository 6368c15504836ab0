-- ===== src/Ws/Rtds/Rollback.antt =====
-- What the calls leave in the list of the subscriptions to topics.
use polymarket_client.Base.{
  ℕ, zero, suc, ◌≡◌, ◌≤◌, ◌+◌, refl, sym, ap, subst, ◌∙◌, inl, inr, Bool, true, false, Option, none,
  some, List, [], ◌∷◌, ◌++◌, arith, if◌then◌else◌, length, get_elem?, take, drop, All, any,
  Bool-cases, Option-cases, split_at,
}
use mathlib.Core.List.{append-nil}
use polymarket_client.Base.Text.{Text, text_eq, text_eq_iff}
use polymarket_client.Ws.Rtds.{
  Filters, Subscription, Topics, Action, SendError, Frame, subscribes, identity, same_identity,
  same_subscription, remove_loop, remove_subscription, remove_each, send_json, settle, subscribe,
  subscribe_many, unsubscribe,
}

same_key :
    (o : Option Text) (j k : Text)
    → same_identity o (some j) ≡ true
    → same_identity o (some k) ≡ text_eq j k
same_key none j k h = cc
same_key (some i) j k h = subst (λ t. text_eq t k ≡ text_eq j k) (sym ((text_eq_iff i j).0 h)) refl

-- The test of a key.
abbrev has_key : {A : Type 0} → (A → Option Text) → Text → A → Bool
has_key key k x = same_identity (key x) (some k)

module _ {A : Type 0} where
  -- The list without the last element that passes a test.
  unfoldable pub without_last : (A → Bool) → List A → List A
  without_last p [] = []
  without_last p (x ∷ xs) =
      let rest = without_last p xs in if any p xs then x ∷ rest else if p x then xs else x ∷ xs

  any-append : (p : A → Bool) (l r : List A) → any p r ≡ true → any p (l ++ r) ≡ true
  any-append p [] r h = h
  any-append p (x ∷ l) r h = ground (arith, any-append p l r h)

  pub without_last-append :
      (p : A → Bool) (l r : List A)
      → any p r ≡ true
      → without_last p (l ++ r) ≡ l ++ without_last p r
  unfolding without_last
  without_last-append p [] r h = refl
  without_last-append p (x ∷ l) r h =
      rw (any-append p l r h, without_last) (ap (λ t. x ∷ t) (without_last-append p l r h))

  pub without_last-none : (p : A → Bool) (l : List A) → any p l ≡ false → without_last p l ≡ l
  unfolding without_last
  without_last-none p [] h = refl
  without_last-none p (x ∷ l) h = ground (arith, without_last-none p l)

  drop_of_get_elem? :
      (l : List A) (i : ℕ) {x : A} → get_elem? l i ≡ some x → drop i l ≡ x ∷ drop (suc i) l
  drop_of_get_elem? [] i h = cc
  drop_of_get_elem? (y ∷ ys) zero h = cc
  drop_of_get_elem? (y ∷ ys) (suc i) h = drop_of_get_elem? ys i h

  drop_past : (l : List A) (i : ℕ) → get_elem? l i ≡ none → drop i l ≡ []
  drop_past [] zero h = refl
  drop_past [] (suc i) h = refl
  drop_past (y ∷ ys) zero h = cc
  drop_past (y ∷ ys) (suc i) h = drop_past ys i h

  drop_all : (l : List A) → drop (length l) l ≡ []
  drop_all [] = refl
  drop_all (x ∷ l) = drop_all l

  -- Cut out at an element behind which none passes.
  pub without_last-cut :
      (p : A → Bool) (l : List A) (i : ℕ) {x : A}
      → get_elem? l i ≡ some x
      → p x ≡ true
      → any p (drop (suc i) l) ≡ false
      → without_last p l ≡ take i l ++ drop (suc i) l
  unfolding without_last
  without_last-cut p l i {x} e h n =
      let s : l ≡ take i l ++ (x ∷ drop (suc i) l) = split_at l i e in
      let a : any p (x ∷ drop (suc i) l) ≡ true = ground arith in
      ap (without_last p) s
      ∙ without_last-append p (take i l) (x ∷ drop (suc i) l) a
      ∙ ap (λ t. take i l ++ t) (rw (n, h, without_last))

  -- How many elements have the key.
  abbrev occurs : (A → Option Text) → Text → List A → ℕ
  occurs key k [] = 0
  occurs key k (x ∷ xs) = (if same_identity (key x) (some k) then 1 else 0) + occurs key k xs

  any_of_occurs :
      (key : A → Option Text) (k : Text) (l : List A)
      → 1 ≤ occurs key k l
      → any (has_key key k) l ≡ true
  any_of_occurs key k [] h = absurd (ground arith)
  any_of_occurs key k (x ∷ l) h = ground (arith, any_of_occurs key k l)

  without_last-occurs :
      (key : A → Option Text) (j k : Text) (l : List A)
      → any (has_key key j) l ≡ true
      → occurs key k (without_last (has_key key j) l) + (if text_eq j k then 1 else 0)
        ≡ occurs key k l
  unfolding without_last
  without_last-occurs key j k [] h = cc
  without_last-occurs key j k (x ∷ l) h = elim (Bool-cases (any (has_key key j) l)) [
    | inl e ↦ let ih = without_last-occurs key j k l e in rw (e, without_last) (omega arith)
    | inr e ↦
        let m : same_identity (key x) (some j) ≡ true = ground arith in
        let s = same_key (key x) j k m in rw (e, m, s, without_last) (omega arith)
  ]

  without_last-length :
      (p : A → Bool) (l : List A) → any p l ≡ true → length (without_last p l) + 1 ≡ length l
  unfolding without_last
  without_last-length p [] h = cc
  without_last-length p (x ∷ l) h = elim (Bool-cases (any p l)) [
    | inl e ↦ let ih = without_last-length p l e in rw (e, without_last) (omega arith)
    | inr e ↦ let m : p x ≡ true = ground arith in rw (e, m, without_last) (omega arith)
  ]

module _ {Other : Type 0} (encode_filters : Filters Other → Option Text)
    (encode : Subscription Other → Option Text) where
  abbrev key : Subscription Other → Option Text
  key = identity encode_filters encode

  abbrev pub same_as : Subscription Other → Subscription Other → Bool
  same_as target s = same_subscription encode_filters encode s target

  remove_loop-without_last :
      (i : ℕ) (subs : List (Subscription Other)) (target : Subscription Other)
      → any (same_as target) (drop i subs) ≡ false
      → remove_loop encode_filters encode i subs target ≡ without_last (same_as target) subs
  unfolding remove_loop
  remove_loop-without_last zero subs target h = sym (without_last-none (same_as target) subs h)
  remove_loop-without_last (suc i) subs target h = elim (Option-cases (get_elem? subs i)) [
    | inl e ↦
        rw (e, remove_loop)
          (remove_loop-without_last i subs target (ap (any (same_as target)) (drop_past subs i e)))
    | inr (x, e) ↦
        rw (e, remove_loop)
          (elim (Bool-cases (same_as target x)) [
            | inl t ↦ rw t (sym (without_last-cut (same_as target) subs i e t h))
            | inr t ↦ rw t (
                remove_loop-without_last i subs target
                  (ap (any (same_as target)) (drop_of_get_elem? subs i e) ∙ ground arith))
          ])
  ]

  pub remove_subscription-without_last :
      (subs : List (Subscription Other)) (target : Subscription Other)
      → remove_subscription encode_filters encode subs target ≡ without_last (same_as target) subs
  unfolding remove_subscription
  remove_subscription-without_last subs target =
      remove_loop-without_last (length subs) subs target (ap (any (same_as target)) (drop_all subs))

  abbrev pub IsEncodable : Subscription Other → Type 0
  IsEncodable s = (k : Text) × (key s ≡ some k)

  -- What the targets take out again of a list that ends in elements of their keys.
  remove_each-append :
      (l p ts : List (Subscription Other))
      → All IsEncodable ts
      → ((k : Text) → occurs key k p ≡ occurs key k ts)
      → length p ≡ length ts
      → remove_each encode_filters encode (l ++ p) ts ≡ l
  unfolding remove_each
  remove_each-append l [] [] a o n = append-nil l
  remove_each-append l (x ∷ p) [] a o n = absurd (ground arith)
  remove_each-append l p (t ∷ ts) a o n =
      let (j, e) = a.0 in
      let self : same_identity (key t) (some j) ≡ true = rw e ((text_eq_iff j j).1 refl) in
      let o' = o j in
      let first = rw self at o' in
      let found : any (has_key key j) p ≡ true = any_of_occurs key j p (omega arith) in
      let test : same_as t ≡ has_key key j =
        unfold same_subscription in
        ap (λ (q : Option Text). λ (x : Subscription Other). same_identity (key x) q) e in
      let removed : remove_subscription encode_filters encode (l ++ p) t
          ≡ l ++ without_last (has_key key j) p =
        remove_subscription-without_last (l ++ p) t
        ∙ ap (λ q. without_last q (l ++ p)) test
        ∙ without_last-append (has_key key j) l p found in
      let counts : (k : Text) → occurs key k (without_last (has_key key j) p) ≡ occurs key k ts =
        λ k.
          let c = without_last-occurs key j k p found in
          let b = o k in
          let m : same_identity (key t) (some k) ≡ text_eq j k = rw e refl in
          let b' = rw m at b in omega arith in
      ap (λ q. remove_each encode_filters encode q ts) removed
      ∙ remove_each-append l (without_last (has_key key j) p) ts a.1 counts
          (let w = without_last-length (has_key key j) p found in omega arith)

  rolled_back :
      (l ts : List (Subscription Other))
      → All IsEncodable ts
      → remove_each encode_filters encode (l ++ ts) ts ≡ l
  rolled_back l ts a = remove_each-append l ts ts a (λ k. refl) refl

  module _ (write : Frame → Option Text) where
    settle_lem :
        (c : Topics Other) (ts : List (Subscription Other)) (r : List Frame × Option SendError)
        → ((e : SendError) → r.1 ≡ some e → r.0 ≡ [])
        → All IsEncodable ts
        → let o = settle encode_filters encode write (record c { subs = c.subs ++ ts }) ts r in
          ((e : SendError) → o.failure ≡ some e → (o.client ≡ c) × (o.sent ≡ []))
          × (o.failure ≡ none → o.client ≡ record c { subs = c.subs ++ ts })
    settle_lem c ts (sent, none) n a = (λ e q. cc, λ q. refl)
    settle_lem c ts (sent, some e) n a =
        (λ e' q. (ap (λ l. record c { subs = l }) (rolled_back c.subs ts a), n e refl), λ q. cc)

    send_json-failed :
        (c : Topics Other) (action : Action) (ts : List (Subscription Other)) (e : SendError)
        → (send_json encode_filters encode write c action ts).1 ≡ some e
        → (send_json encode_filters encode write c action ts).0 ≡ []
    unfolding send_json
    send_json-failed c action ts e h = ground arith

    -- A call of `subscribeMany` whose subscriptions can be encoded either fails, and then has sent
    -- nothing and leaves the client exactly as it was, repeated subscriptions included, or appends
    -- them to the list and changes nothing else.
    pub subscribe_many_lem :
        (c : Topics Other) (ts : List (Subscription Other))
        → All IsEncodable ts
        → let o = subscribe_many encode_filters encode write c ts in
          ((e : SendError) → o.failure ≡ some e → (o.client ≡ c) × (o.sent ≡ []))
          × (o.failure ≡ none → o.client ≡ record c { subs = c.subs ++ ts })
    unfolding subscribe_many
    subscribe_many_lem c [] a =
        (λ e q. cc, λ q. ap (λ l. record c { subs = l }) (sym (append-nil c.subs)))
    subscribe_many_lem c (t ∷ ts) a =
        settle_lem c (t ∷ ts) _
          (send_json-failed (record c { subs = c.subs ++ (t ∷ ts) }) subscribes (t ∷ ts)) a

    -- `Unsubscribe` forgets the last subscription of the same encoding, whether its request is
    -- written or not, and right after a successful `Subscribe` of it restores the list.
    pub unsubscribe_lem :
        (c : Topics Other) (sub : Subscription Other)
        → IsEncodable sub
        → let o = subscribe encode_filters encode write c sub in
          ((unsubscribe encode_filters encode write c sub).client.subs
            ≡ without_last (same_as sub) c.subs)
          × (o.failure ≡ none
              → (unsubscribe encode_filters encode write o.client sub).client.subs ≡ c.subs)
    unfolding subscribe unsubscribe subscribe_many remove_each
    unsubscribe_lem c sub k = (
      remove_subscription-without_last c.subs sub,
      λ q.
          let s = (subscribe_many_lem c (sub ∷ []) (k, tt)).1 (unfold subscribe_many in q) in
          ap (λ (d : Topics Other). remove_subscription encode_filters encode d.subs sub) s
          ∙ rolled_back c.subs (sub ∷ []) (k, tt),
    )
