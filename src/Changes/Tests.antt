-- ===== src/Changes/Tests.antt =====
-- Runs of the broker.
use sealhub.Base.{◌≡◌, refl, false, none, some, List, [], ◌∷◌}
use sealhub.Base.Text.{Text, codes}
use sealhub.Document.{Metadata}
use sealhub.Changes.{
  Event, upsert, Broker, new_broker, record_event, send_all, publish, subscribe, unsubscribe,
}
use sealhub.Changes.History.{stamp}
use sealhub.Changes.Subscribers.{IsOpen}
use sealhub.Changes.Interleaving.{
  Reach, begun, moved, subscribes, reachable-publish, unsubscribe_during_publish,
}

abbrev no_metadata : Metadata
no_metadata = record { version = 0; content_type = []; encrypted = false; labels = []; owner = [] }

abbrev wrote : Text → Event
wrote p = record { revision = 0; type = upsert; path = p; metadata = no_metadata }

abbrev two : List Event
two = wrote (codes "a/x") ∷ wrote (codes "b/y") ∷ []

abbrev after_two : Broker
after_two = record new_broker { revision = 2; history = stamp 0 two }

abbrev listening : Broker
listening = (subscribe 1 new_broker).1

listening-Reach : Reach new_broker listening
listening-Reach = moved begun (subscribes 1 refl)

listening-IsOpen : IsOpen listening
listening-IsOpen = (reachable-publish listening listening-Reach).0

reachable-publish_example :
    IsOpen listening × ((ev : Event) → (c : Broker) × (publish ev listening ≡ some c))
reachable-publish_example = reachable-publish listening listening-Reach

unsubscribe_during_publish_example :
    (c : Broker) × (unsubscribe 0 (record_event (wrote (codes "a")) listening).2 ≡ some c)
    × (send_all
          (record_event (wrote (codes "a")) listening).0
          (record_event (wrote (codes "a")) listening).1
          c
        ≡ none)
unfolding subscribe new_broker
unsubscribe_during_publish_example =
    unsubscribe_during_publish (wrote (codes "a")) 0 listening listening-IsOpen refl
