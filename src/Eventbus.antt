-- ===== src/Eventbus.antt =====
-- internal/eventbus/eventbus.go. A handler is an `H`.
pub mod Delivery
pub mod Subscribers
pub mod Queues
use mcpcheck.Prelude.{
  ℕ, zero, suc, ◌+◌, Bool, true, false, not, List, [], ◌∷◌, ◌++◌, Option, none, some, length, keep,
  ltb, leb, ◌==◌, if◌then◌else◌,
}
use mathlib.Core.List.{reverse, map}

-- `Sync`; the map in the order of one iteration.
pub record Sync (H : Type 0) : Type 0 where
  pub next_id : ℕ
  pub handlers : List (ℕ × H)

abbrev pub new_sync : {H : Type 0} → Sync H
new_sync = record { next_id = 0; handlers = [] }

-- `Subscribe`, with the identifier that its closure keeps; a nil handler is `none`.
unfoldable pub subscribe : {H : Type 0} → Option H → Sync H → Sync H × Option ℕ
subscribe none b = (b, none)
subscribe (some h) b =
    (record { next_id = b.next_id + 1; handlers = (b.next_id, h) ∷ b.handlers }, some b.next_id)

-- The closure of `Subscribe`; its `sync.Once` changes nothing, since the entry stays away.
unfoldable pub unsubscribe : {H : Type 0} → ℕ → Sync H → Sync H
unsubscribe id b = record b { handlers = keep (λ p. not (p.0 == id)) b.handlers }

-- `b.handlers[id]`
unfoldable pub handler_of : {H : Type 0} → ℕ → List (ℕ × H) → Option H
handler_of id [] = none
handler_of id ((k, h) ∷ hs) = if k == id then some h else handler_of id hs

-- The inner loop of `sortIDs`: an element moves down through the ones before it, the last of which comes
-- first here.
unfoldable pub sink : ℕ → List ℕ → List ℕ
sink x [] = x ∷ []
sink x (y ∷ ys) = if ltb x y then y ∷ sink x ys else x ∷ y ∷ ys

unfoldable pub sort_from : List ℕ → List ℕ → List ℕ
unfolding sink
sort_from sorted [] = reverse sorted
sort_from sorted (x ∷ xs) = sort_from (sink x sorted) xs

-- `sortIDs`
unfoldable pub sort_ids : List ℕ → List ℕ
sort_ids ids = sort_from [] ids

-- The first critical section of `Publish`.
unfoldable pub ids_of : {H : Type 0} → List (ℕ × H) → List ℕ
ids_of hs = map (λ p. p.0) hs

-- The second one.
abbrev pub add_handler : {H : Type 0} → ℕ → Option H → List (ℕ × H) → List (ℕ × H)
add_handler id none rest = rest
add_handler id (some h) rest = (id, h) ∷ rest

unfoldable pub collect : {H : Type 0} → List ℕ → List (ℕ × H) → List (ℕ × H)
collect [] hs = []
collect (id ∷ ids) hs = add_handler id (handler_of id hs) (collect ids hs)

-- `Publish`: the handlers that are called, with their identifiers, in their order. `later` is the bus at the
-- second critical section.
unfoldable pub publish : {H : Type 0} → Sync H → Sync H → List (ℕ × H)
publish b later = collect (sort_ids (ids_of b.handlers)) later.handlers

-- `Subscribers`
unfoldable pub subscribers : {H : Type 0} → Sync H → ℕ
subscribers b = length b.handlers

-- `asyncSub`: its queue, oldest event first, and whether `stop` is closed.
pub record AsyncSub (V : Type 0) : Type 0 where
  pub id : ℕ
  pub queue : List V
  pub stopped : Bool

-- `AsyncConfig`, as `NewAsync` completes it.
pub record AsyncConfig : Type 0 where
  pub buffer_size : ℕ
  pub drop_when_full : Bool

unfoldable pub complete_async : AsyncConfig → AsyncConfig
complete_async c = record c { buffer_size = if c.buffer_size == 0 then 16 else c.buffer_size }

-- The send of `Publish` to one subscriber, and whether the event was dropped; `none` means that it waits.
unfoldable pub send : {V : Type 0} → AsyncConfig → V → AsyncSub V → Option (AsyncSub V × Bool)
send c e s =
    if ltb (length s.queue) c.buffer_size
    then some (record s { queue = s.queue ++ (e ∷ []) }, false)
    else if c.drop_when_full
    then some (s, true)
    else if s.stopped
    then some (s, false)
    else none

-- A round of `runSub`: the event that is handled; `none` where nothing is queued.
abbrev pub take_queued : {V : Type 0} → AsyncSub V → List V → Option (V × AsyncSub V)
take_queued s [] = none
take_queued s (e ∷ es) = some (e, record s { queue = es })

unfoldable pub take_event : {V : Type 0} → AsyncSub V → Option (V × AsyncSub V)
take_event s = take_queued s s.queue
