-- ===== src/Tests/Signatures.antt =====
-- The theorems on signatures at a note with another content.
use stonr.Base.{ok, ◌≡◌, refl}
use stonr.Crypto.{event_hash, verify_event, sign_event}
use stonr.Crypto.Laws.{verify_event-sign_event}
use stonr.Event.{Event}
use stonr.Tests.Sample.{sample, forged}

abbrev resigned : Event
resigned = record forged { id = "else"; pubkey = "carol"; sig = "signed" }

forged-signed : sign_event forged "carol" ≡ ok resigned
unfolding sign_event event_hash
forged-signed = refl

verify_event-sign_event_example :
    (verify_event resigned ≡ ok tt)
    × (sample.public_key "carol" ≡ ok resigned.pubkey)
    × (resigned.kind ≡ forged.kind)
    × (resigned.created_at ≡ forged.created_at)
    × (resigned.tags ≡ forged.tags)
    × (resigned.content ≡ forged.content)
verify_event-sign_event_example =
    verify_event-sign_event forged "carol" (λ secret pubkey digest h. refl) forged-signed
