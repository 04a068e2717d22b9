-- ===== src/Tests/Bus.antt =====
-- A bus with handlers that are numbers.
use mcpcheck.Prelude.{ℕ, ◌≡◌, ◌↔◌, refl, true, false, List, [], ◌∷◌, some, In}
use mcpcheck.Eventbus.{
  new_sync, publish, ids_of, handler_of, sort_ids, sort_from, sink, collect, subscribe, unsubscribe,
  AsyncConfig, send, take_event,
}
use mcpcheck.Eventbus.Delivery.{IsRising}
use mcpcheck.Eventbus.Subscribers.{Change, subscribes, unsubscribes, changed, publish-changed}
use mcpcheck.Eventbus.Queues.{Move, sends, handles, Log, moves}

abbrev three_subscribed : List (Change ℕ)
three_subscribed = subscribes (some 10) ∷ subscribes (some 20) ∷ subscribes (some 30) ∷ []

abbrev second_leaves : List (Change ℕ)
second_leaves = unsubscribes 1 ∷ subscribes (some 40) ∷ []

bus_run :
    publish
      (changed three_subscribed new_sync)
      (changed second_leaves (changed three_subscribed new_sync))
    ≡ (0, 10) ∷ (2, 30) ∷ []
unfolding publish ids_of sort_ids sort_from sink collect handler_of subscribe unsubscribe
bus_run = refl

publish_example :
    let b = changed three_subscribed new_sync in
    let later = changed second_leaves b in
    IsRising (ids_of (publish b later))
    × ((id : ℕ) (h : ℕ)
        → In (id, h) (publish b later)
          ↔ (In id (ids_of b.handlers) × (handler_of id later.handlers ≡ some h)))
publish_example = publish-changed three_subscribed second_leaves

abbrev dropping : AsyncConfig
dropping = record { buffer_size = 2; drop_when_full = true }

abbrev new_log : Log ℕ
new_log = record {
  sub = record { id = 0; queue = []; stopped = false };
  handled = [];
  accepted = [];
  dropped = 0;
  sent = 0;
}

abbrev four_moves : List (Move ℕ)
four_moves = sends 1 ∷ sends 2 ∷ sends 3 ∷ handles ∷ []

queue_run : (moves dropping four_moves new_log).dropped ≡ 1
unfolding moves send take_event
queue_run = refl
