-- ===== src/Eventbus/Queues.antt =====
-- The queues of an `Async` bus.
use mcpcheck.Prelude.{
  ℕ, ◌+◌, ◌≤◌, ◌≡◌, refl, sym, ap, subst, ◌∙◌, inl, inr, Bool, true, false, List, [], ◌∷◌, ◌++◌,
  append_assoc, Option, none, some, length, length-append, ltb, arith, Bool-cases,
}
use mcpcheck.Eventbus.{AsyncSub, AsyncConfig, send, take_queued, take_event}

-- What happens to one subscriber: an event is sent, or one is handled.
pub data Move (Ev : Type 0) : Type 0 where
  sends : Ev → Move Ev
  handles : Move Ev

-- A subscriber with what was handled, accepted and dropped so far.
pub record Log (Ev : Type 0) : Type 0 where
  pub sub : AsyncSub Ev
  pub handled : List Ev
  pub accepted : List Ev
  pub dropped : ℕ
  pub sent : ℕ

module _ {Ev : Type 0} (c : AsyncConfig) where
  abbrev pub after_send : Ev → Log Ev → Option (AsyncSub Ev × Bool) → Log Ev
  after_send e l none = l
  after_send e l (some (s, true)) = record l { sub = s; dropped = l.dropped + 1; sent = l.sent + 1 }
  after_send e l (some (s, false)) = record l {
    sub = s;
    accepted = l.accepted ++ (e ∷ []);
    sent = l.sent + 1;
  }

  abbrev pub after_take : Log Ev → Option (Ev × AsyncSub Ev) → Log Ev
  after_take l none = l
  after_take l (some (e, s)) = record l { sub = s; handled = l.handled ++ (e ∷ []) }

  abbrev pub move : Move Ev → Log Ev → Log Ev
  move (sends e) l = after_send e l (send c e l.sub)
  move handles l = after_take l (take_event l.sub)

  unfoldable pub moves : List (Move Ev) → Log Ev → Log Ev
  moves [] l = l
  moves (m ∷ ms) l = moves ms (move m l)

  -- What is handled, and then what is queued, is what was accepted, in its order; the queue is within its
  -- capacity; and every event that was sent was accepted or counted as dropped.
  pub record IsLog (l : Log Ev) : Type 0 where
    pub in_order : l.handled ++ l.sub.queue ≡ l.accepted
    pub within : length l.sub.queue ≤ c.buffer_size
    pub accounted : length l.accepted + l.dropped ≡ l.sent
    pub live : l.sub.stopped ≡ false

  send-IsLog : (e : Ev) (l : Log Ev) → IsLog l → IsLog (after_send e l (send c e l.sub))
  unfolding send
  send-IsLog e l v = elim (Bool-cases (ltb (length l.sub.queue) c.buffer_size)) [
    | inl a ↦ rw a (record {
      in_order =
          sym (append_assoc l.handled l.sub.queue (e ∷ [])) ∙ ap (λ z. z ++ (e ∷ [])) v.in_order;
      within = ground (arith, v.within, length-append l.sub.queue (e ∷ []));
      accounted = omega (arith, v.accounted, length-append l.accepted (e ∷ []));
      live = v.live;
    })
    | inr a ↦ elim (Bool-cases c.drop_when_full) [
      | inl b ↦
          rw (a, b)
            (record {
              in_order = v.in_order;
              within = v.within;
              accounted = omega (arith, v.accounted);
              live = v.live;
            })
      | inr b ↦
          let q : send c e l.sub ≡ none = ground (arith, a, b, v.live) in
          subst (λ o. IsLog (after_send e l o)) (sym q) v
    ]
  ]

  take-IsLog : (l : Log Ev) → IsLog l → IsLog (after_take l (take_event l.sub))
  unfolding take_event
  take-IsLog l v = step l.sub.queue refl
    where
      step : (q : List Ev) → l.sub.queue ≡ q → IsLog (after_take l (take_queued l.sub q))
      step [] p = v
      step (e ∷ es) p = record {
        in_order =
            append_assoc l.handled (e ∷ []) es ∙ ap (λ z. l.handled ++ z) (sym p) ∙ v.in_order;
        within = omega (arith, v.within, ap length p);
        accounted = v.accounted;
        live = v.live;
      }

  -- However sends to a subscriber that is not stopped and rounds of its goroutine follow each other, its
  -- events are handled in the order in which they were accepted, the queue keeps within its capacity, and
  -- every send that did not wait was accepted or counted as dropped.
  pub moves-IsLog : (ms : List (Move Ev)) (l : Log Ev) → IsLog l → IsLog (moves ms l)
  unfolding moves
  moves-IsLog [] l v = v
  moves-IsLog (sends e ∷ ms) l v = moves-IsLog ms _ (send-IsLog e l v)
  moves-IsLog (handles ∷ ms) l v = moves-IsLog ms _ (take-IsLog l v)
