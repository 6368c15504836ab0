-- ===== src/Ws/Connection/Invariant.antt =====
-- What holds of the connection in every order of the steps.
use polymarket_client.Base.{
  ℕ, zero, suc, ◌≡◌, ◌<◌, refl, sym, ap, subst, ◌∙◌, ◌⊎◌, inl, inr, ◌+◌, Bool, true, false, not,
  ◌||◌, none, some, List, [], ◌∷◌, nat_eq, if◌then◌else◌, All, arith, Bool-cases, Option-cases, any,
  if-cases, if_some, unless_some, of_some,
}
use polymarket_client.Ws.Connection.{
  Holder, claiming, waiting, dialing, finishing, Connections, unconnected, pull, starts, attach,
  next_backoff, is_conn, schedule_reconnect, work, close, call_connect, call_dialed, Event,
  connects, closes, dialed, reports, leaves, works, after_report, after_leave, after_work, happens,
  Reach, here, next,
}

-- A goroutine of the reconnection that goes on until it is connected or the client is closed.
abbrev pub is_recovering : Holder → Bool
is_recovering (waiting b) = true
is_recovering (dialing b) = true
is_recovering _ = false

-- Powers of two up to 64.
abbrev pub is_backoff : ℕ → Bool
is_backoff b =
    nat_eq b 1
    || nat_eq b 2
    || nat_eq b 4
    || nat_eq b 8
    || nat_eq b 16
    || nat_eq b 32
    || nat_eq b 64

abbrev pub is_waiting : ℕ → Holder → Bool
is_waiting b (waiting c) = nat_eq b c
is_waiting b (dialing c) = nat_eq b c
is_waiting b _ = false

abbrev pub HasBackoff : Holder → Type 0
HasBackoff (waiting b) = is_backoff b ≡ true
HasBackoff (dialing b) = is_backoff b ≡ true
HasBackoff _ = Unit

-- One goroutine holds the flag if it is set, else none.
abbrev pub Held : Connections → Type 0
Held s =
    ((s.reconnecting ≡ false) × (s.holders ≡ []))
    ⊎ ((s.reconnecting ≡ true) × ((h : Holder) × (s.holders ≡ h ∷ []) × HasBackoff h))

-- A client that had a connection and is not closed has one, or is on its way to one.
abbrev pub Served : Connections → Type 0
Served s =
    s.connected ≡ true → s.conn ≡ none → (s.closed ≡ true) ⊎ (any is_recovering s.holders ≡ true)

pub record Inv (s : Connections) : Type 0 where
  pub held : Held s
  pub served : Served s
  pub older : All (λ (c : ℕ). c < s.next_conn) s.watching
  pub called : s.on_connected ≡ (if s.connected then 1 else 0)

pub pull-All {ℓ κ} :
    {A : Type ℓ} (P : A → Type κ) (i : ℕ) (l : List A) (x : A) (r : List A)
    → pull i l ≡ some (x, r)
    → All P l
    → P x × All P r
unfolding pull
pull-All P i [] x r h a = absurd (ground (arith, h))
pull-All P zero (y ∷ l) x r h a = of_some (λ q. P (q.0) × All P (q.1)) h a
pull-All P (suc i) (y ∷ l) x r h a = elim (Option-cases (pull i l)) [
  | inl e ↦ absurd (ground (arith, h))
  | inr ((z, zs), e) ↦
      let (p, ps) = pull-All P i l z zs e a.1 in
      of_some (λ q. P (q.0) × All P (q.1)) (rw (e, pull) at h) (p, (a.0, ps))
]

abbrev AllBelow : ℕ → List ℕ → Type 0
AllBelow n = All (λ (c : ℕ). c < n)

older_suc : (n : ℕ) (w : List ℕ) → AllBelow n w → AllBelow (n + 1) w
older_suc n [] a = tt
older_suc n (c ∷ w) a = (omega arith, older_suc n w a.1)

starts-older : (k n : ℕ) (w : List ℕ) → AllBelow n w → AllBelow (n + 1) (starts k n w)
unfolding starts
starts-older zero n w a = older_suc n w a
starts-older (suc k) n w a = (omega arith, starts-older k n w a)

attach-Inv : (s : Connections) → Inv s → Inv (attach s)
unfolding attach
attach-Inv s v = record {
  held = v.held;
  served = λ c e. absurd (ground arith);
  older = starts-older s.goroutines s.next_conn s.watching v.older;
  called = let c = v.called in ground arith;
}

-- The step of the goroutine that holds the flag.
work-Inv :
    (h : Holder) (done : Bool) (s t : Connections)
    → s.holders ≡ []
    → s.reconnecting ≡ true
    → HasBackoff h
    → Inv (record s { holders = h ∷ [] })
    → work h done s ≡ some t
    → Inv t
unfolding work
work-Inv (claiming c) done s t e f b v h = elim (Bool-cases (is_conn c s.conn)) [
  | inl m ↦ of_some Inv (rw (m, work) at h) (record {
    held = inr (f, (waiting 1, ap (λ l. waiting 1 ∷ l) e, refl));
    served = λ k n. inr refl;
    older = v.older;
    called = v.called;
  })
  | inr m ↦ of_some Inv (rw (m, work) at h) (record {
    held = inl (refl, e);
    served = λ k n. elim (v.served k n) [ inl c ↦ inl c | inr r ↦ absurd (ground arith) ];
    older = v.older;
    called = v.called;
  })
]
work-Inv (waiting n) true s t e f b v h = of_some Inv h (record {
  held = inr (f, (dialing n, ap (λ l. dialing n ∷ l) e, b));
  served = λ k n. inr refl;
  older = v.older;
  called = v.called;
})
work-Inv (waiting n) false s t e f b v h =
    let (c, q) = if_some s.closed h in
    of_some Inv q
      (record { held = inl (refl, e); served = λ k n. inl c; older = v.older; called = v.called })
work-Inv (dialing n) true s t e f b v h =
    let w = attach-Inv _ v in
    of_some Inv h (record {
      held = inr (f, (finishing, ap (λ l. finishing ∷ l) e, tt));
      served = λ k n. absurd (ground arith);
      older = w.older;
      called = w.called;
    })
work-Inv (dialing n) false s t e f b v h = of_some Inv h (record {
  held =
      inr (f, (waiting (next_backoff n), ap (λ l. waiting (next_backoff n) ∷ l) e, ground arith));
  served = λ k n. inr refl;
  older = v.older;
  called = v.called;
})
work-Inv finishing done s t e f b v h = of_some Inv h (record {
  held = inl (refl, e);
  served = λ k n. elim (v.served k n) [ inl c ↦ inl c | inr r ↦ absurd (ground arith) ];
  older = v.older;
  called = v.called;
})

schedule_reconnect-Inv : (c : ℕ) (s : Connections) → Inv s → Inv (schedule_reconnect c s)
unfolding schedule_reconnect
schedule_reconnect-Inv c s v =
    if-cases Inv (s.closed || not s.auto_reconnect)
      (λ _. record { held = v.held; served = v.served; older = v.older; called = v.called })
      (λ _.
        if-cases Inv s.reconnecting (λ _. v)
          (λ f. elim v.held [
            | inr (f', h) ↦ absurd (ground arith)
            | inl (f', h) ↦ record {
              held = inr (refl, (claiming c, ap (λ l. claiming c ∷ l) h, tt));
              served = λ k n. elim (v.served k n) [ inl d ↦ inl d | inr r ↦ inr r ];
              older = v.older;
              called = v.called;
            }
          ]))

close-Inv : (s : Connections) → Inv s → Inv (close s)
unfolding close
close-Inv s v =
    if-cases Inv s.closed (λ _. v)
      (λ _. record { held = v.held; served = λ k n. inl refl; older = v.older; called = v.called })

calls-Inv : (n : ℕ) (s : Connections) → Inv s → Inv (record s { calls = n })
calls-Inv n s v = record { held = v.held; served = v.served; older = v.older; called = v.called }

call_dialed-Inv :
    (done : Bool) (n : ℕ) (s t : Connections) → Inv s → call_dialed done n s ≡ some t → Inv t
unfolding call_dialed
call_dialed-Inv done zero s t v h = absurd (ground (arith, h))
call_dialed-Inv true (suc n) s t v h =
    of_some Inv h (attach-Inv (record s { calls = n }) (calls-Inv n s v))
call_dialed-Inv false (suc n) s t v h = of_some Inv h (calls-Inv n s v)

pull_nil : (i : ℕ) → pull i (let l : List Holder = [] in l) ≡ none
unfolding pull
pull_nil zero = refl
pull_nil (suc i) = refl

-- Only one goroutine can be taken out of the holders.
pull_one :
    (i : ℕ) (h x : Holder) (r : List Holder) → pull i (h ∷ []) ≡ some (x, r) → (h ≡ x) × (r ≡ [])
unfolding pull
pull_one zero h x r e = (ground arith, ground arith)
pull_one (suc i) h x r e = absurd (ground (arith, e))

after_work-Inv :
    (i : ℕ) (done : Bool) (s t : Connections)
    → Inv s
    → after_work (pull i s.holders) done s ≡ some t
    → Inv t
unfolding after_work
after_work-Inv i done s t v h = elim v.held [
  | inl (f, e) ↦
      let q = ap (pull i) e ∙ pull_nil i in absurd (ground (arith, rw (q, after_work) at h))
  | inr (f, (x, e, b)) ↦ elim (Option-cases (pull i s.holders)) [
    | inl n ↦ absurd (ground (arith, rw (n, after_work) at h))
    | inr ((y, rest), q) ↦
        let (same, none_left) = pull_one i x y rest (ap (pull i) (sym e) ∙ q) in
        let now : s.holders ≡ y ∷ [] = e ∙ ap (λ z. z ∷ []) same in
        work-Inv y done (record s { holders = rest }) t none_left f (subst HasBackoff same b)
          (record {
            held = inr (f, (y, refl, subst HasBackoff same b));
            served = λ k n.
                subst (λ l. (s.closed ≡ true) ⊎ (any is_recovering l ≡ true)) now (v.served k n);
            older = v.older;
            called = v.called;
          })
          (rw (q, after_work) at h)
  ]
]

-- Every step keeps the invariant.
happens-Inv : (e : Event) (s t : Connections) → happens e s ≡ some t → Inv s → Inv t
unfolding happens call_connect call_dialed after_report after_leave
happens-Inv connects s t h v = elim (Bool-cases s.closed) [
  | inl c ↦ absurd (ground (arith, c, h))
  | inr c ↦ of_some Inv (unless_some s.closed h) (calls-Inv (s.calls + 1) s v)
]
happens-Inv closes s t h v = of_some Inv h (close-Inv s v)
happens-Inv (dialed done) s t h v = call_dialed-Inv done s.calls s t v h
happens-Inv (reports i) s t h v = elim (Option-cases (pull i s.watching)) [
  | inl e ↦ absurd (ground (arith, rw (e, after_report) at h))
  | inr ((c, rest), e) ↦ of_some Inv (rw (e, after_report) at h) (
      schedule_reconnect-Inv c (record s { watching = rest })
        (record {
          held = v.held;
          served = v.served;
          older = (pull-All (λ (d : ℕ). d < s.next_conn) i s.watching c rest e v.older).1;
          called = v.called;
        }))
]
happens-Inv (leaves i) s t h v = elim (Option-cases (pull i s.watching)) [
  | inl e ↦ absurd (ground (arith, rw (e, after_leave) at h))
  | inr ((c, rest), e) ↦ of_some Inv (rw (e, after_leave) at h) (record {
    held = v.held;
    served = v.served;
    older = (pull-All (λ (d : ℕ). d < s.next_conn) i s.watching c rest e v.older).1;
    called = v.called;
  })
]
happens-Inv (works i done) s t h v = after_work-Inv i done s t v h

new-Inv : (auto : Bool) (goroutines : ℕ) → Inv (unconnected auto goroutines)
new-Inv auto goroutines = record {
  held = inl (refl, refl);
  served = λ c n. cc;
  older = tt;
  called = refl;
}

pub Reach-Inv :
    (auto : Bool) (goroutines : ℕ) {s : Connections} → Reach (unconnected auto goroutines) s → Inv s
Reach-Inv auto goroutines here = new-Inv auto goroutines
Reach-Inv auto goroutines (next r e h) = happens-Inv e _ _ h (Reach-Inv auto goroutines r)
