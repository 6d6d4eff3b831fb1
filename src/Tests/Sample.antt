-- ===== src/Tests/Sample.antt =====
-- A concrete hash, signature check and encoder, and a few events.
use stonr.Base.{true, none, some, [], ◌∷◌, ◌==◌, not, ok, fail_if}
use stonr.Event.{Event}
use stonr.External.{External}
use stonr.Query.{Query}
use stonr.Store.{Store}

-- The hash is the content and the only good signature is "signed".
instance abbrev pub sample : External
sample = record {
  sha256_hex = λ p. p.content;
  check_signature =
      λ signature pubkey digest. fail_if (not (signature == "signed")) "bad signature";
  public_key = λ secret. ok secret;
  sign = λ secret digest. "signed";
  json_len = λ event. 100;
  sha1_hex = λ value. value;
  lowercase = λ value. value;
}

abbrev pub note : Event
note = record {
  id = "aabb01";
  pubkey = "alice";
  kind = 1;
  created_at = 5;
  tags = ("t" ∷ "news" ∷ []) ∷ [];
  content = "aabb01";
  sig = "signed";
}

abbrev pub reply : Event
reply = record {
  id = "ccdd02";
  pubkey = "bob";
  kind = 1;
  created_at = 7;
  tags = ("e" ∷ "aabb01" ∷ []) ∷ [];
  content = "ccdd02";
  sig = "signed";
}

-- Delete events for the note, by its author and by someone else.
abbrev pub withdrawal : Event
withdrawal = record {
  id = "eeff03";
  pubkey = "alice";
  kind = 5;
  created_at = 8;
  tags = ("e" ∷ "aabb01" ∷ []) ∷ [];
  content = "eeff03";
  sig = "signed";
}

abbrev pub intrusion : Event
intrusion = record withdrawal {
  id = "0011ee";
  pubkey = "mallory";
  created_at = 9;
  content = "0011ee";
}

abbrev pub forged : Event
forged = record note { content = "else" }

-- One event at most, and bob's events pinned.
abbrev pub small_store : Store
small_store = record {
  verify_sig = true;
  max_stored_events = some 1;
  max_stored_event_bytes = none;
  pinned_pubkeys = "bob" ∷ [];
  pinned_event_ids = [];
  protect_pinned_from_deletes = true;
}

abbrev pub any_event : Query
any_event = record {
  ids = none;
  authors = none;
  kinds = none;
  d = none;
  t = none;
  tags = [];
  search = none;
  since = none;
  until = none;
  limit = none;
}
