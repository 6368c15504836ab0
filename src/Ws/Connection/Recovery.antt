-- ===== src/Ws/Connection/Recovery.antt =====
-- How a client comes back to a connection, and when it does not.
use polymarket_client.Base.{
  ℕ, ◌≡◌, refl, ap, ◌∙◌, inl, inr, Bool, true, false, none, some, [], ◌∷◌, arith, any,
}
use polymarket_client.Ws.Connection.{
  Holder, claiming, waiting, dialing, finishing, Connections, unconnected, pull, attach, work,
  works, after_work, happens, Reach, Alone, stay, go,
}
use polymarket_client.Ws.Connection.Invariant.{Reach-Inv, is_recovering}

-- The goroutine that holds the flag is the first of the holders.
pull_first : (h : Holder) → pull 0 (h ∷ []) ≡ some (h, [])
unfolding pull
pull_first h = refl

pub work_first :
    (s t : Connections) (h : Holder) (done : Bool)
    → s.holders ≡ h ∷ []
    → work h done (record s { holders = [] }) ≡ some t
    → happens (works 0 done) s ≡ some t
unfolding happens after_work
work_first s t h done e w = let q = ap (pull 0) e ∙ pull_first h in rw (q, after_work) w

abbrev pub IsConnected : Connections → Type 0
IsConnected s = (c : ℕ) × (s.conn ≡ some c)

-- A goroutine that dials is connected by its next step, if the server answers.
dialing_connects :
    (r s : Connections) (b : ℕ)
    → s.holders ≡ dialing b ∷ []
    → Alone r s
    → (t : Connections) × Alone r t × IsConnected t
dialing_connects r s b e a =
    let t = record (attach (record s { holders = [] })) { holders = finishing ∷ [] } in
    let w : work (dialing b) true (record s { holders = [] }) ≡ some t = unfold work in refl in
    (
      t,
      go a (works 0 true) refl (work_first s t (dialing b) true e w),
      (s.next_conn, unfold attach in refl),
    )

recovering_connects :
    (s : Connections) (h : Holder)
    → s.holders ≡ h ∷ []
    → is_recovering h ≡ true
    → (t : Connections) × Alone s t × IsConnected t
recovering_connects s (claiming c) e k = cc
recovering_connects s (waiting b) e k =
    let t = record s { holders = dialing b ∷ [] } in
    let w : work (waiting b) true (record s { holders = [] }) ≡ some t = unfold work in refl in
    dialing_connects s t b refl (go stay (works 0 true) refl (work_first s t (waiting b) true e w))
recovering_connects s (dialing b) e k = dialing_connects s s b e stay
recovering_connects s finishing e k = cc

-- From every state that a client can be in, if it has been connected, has no connection and is not
-- closed, steps of its goroutines alone can bring it a connection.
pub reconnects :
    (auto : Bool) (goroutines : ℕ) {s : Connections}
    → Reach (unconnected auto goroutines) s
    → s.connected ≡ true
    → s.conn ≡ none
    → s.closed ≡ false
    → (t : Connections) × Alone s t × IsConnected t
reconnects auto goroutines {s} r c n o =
    let v = Reach-Inv auto goroutines r in
    elim (v.served c n) [
      | inl k ↦ absurd (ground arith)
      | inr k ↦ elim v.held [
        | inl (f, e) ↦ absurd (ground (arith, ap (any is_recovering) e))
        | inr (f, (h, e, b)) ↦ recovering_connects s h e (ground (arith, ap (any is_recovering) e))
      ]
    ]
