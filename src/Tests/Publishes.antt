-- ===== src/Tests/Publishes.antt =====
-- The theorem on published events at a session that is authenticated as their author.
use mathlib.Core.Option
use stonr.Base.{◌≡◌, refl, true, [], ◌⊎◌, Result, ok, find_map}
use stonr.Event.{Event, named_value, event_is_expired}
use stonr.Crypto.{verify_event}
use stonr.Files.Blobs.{no_files}
use stonr.Policy.{is_owner_pubkey, enforce_rate_limit}
use stonr.Session.Publish.{Root, Published, handle_event, replied}
use stonr.Session.Publish.Guards.{IsStored, IsAllowed, handle_event-guards}
use stonr.Store.{empty}
use stonr.Store.System.{fresh, Reach-IsConsistent}
use stonr.Tests.Blobs.{settings}
use stonr.Tests.Sample.{sample, reply, small_store}
use stonr.Tests.Sessions.{service, reader, counters}

abbrev root : Root
root = record { disk = empty; files = no_files }

abbrev published_of : Result Published → Published
published_of (ok published) = published
published_of _ = replied root counters []

abbrev published : Published
published = published_of (handle_event service settings 10 "ccdd02" (ok reply) reader root counters)

reply-published :
    handle_event service settings 10 "ccdd02" (ok reply) reader root counters ≡ ok published
unfolding handle_event enforce_rate_limit event_is_expired find_map Option.bind named_value
    verify_event
reply-published = refl

reply-announced : published.announced ≡ true
unfolding handle_event enforce_rate_limit event_is_expired find_map Option.bind named_value
    verify_event
reply-announced = refl

handle_event-guards_example :
    (service.access.enable_publish ≡ true)
    × ((event : Event) × (◌≡◌ {A = Result Event} (ok reply) (ok event))
        × IsStored service event root published.root
        × ((is_owner_pubkey service.settings event.pubkey ≡ true)
            ⊎ IsAllowed service settings 10 event reader root counters published.counters))
handle_event-guards_example =
    handle_event-guards service settings 10 "ccdd02" (ok reply) reader root counters published
      (Reach-IsConsistent small_store empty fresh) reply-published reply-announced
