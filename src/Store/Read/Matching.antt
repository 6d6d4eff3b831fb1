-- ===== src/Store/Read/Matching.antt =====
-- The index files that `query_candidates` of stonr/src/storage.rs reads, and the filter's tests.
use stonr.Base.{
  ℕ, String, Bool, Option, none, some, List, [], ◌∷◌, ◌++◌, ◌&&◌, ◌||◌, any, map, is_some_and, ◌≡◌,
  refl, eq_iff, arith, ◌∙◌, ap, sym, not, In, inl, inr, ◌⊎◌, subst,
}
use stonr.Event.{Event, Tag, named_value}
use stonr.External.{External}
use stonr.Query.{Query, has_text, has_number, has_tag, has_tags}
use stonr.Store.{Disk, IndexKey, by_author, by_kind, by_tag}
use stonr.Store.Consistent.{stored, tag_under, has_key, IsConsistent, has_text-append}
use stonr.Store.Read.{load_ids, tag_keys, id_sets, optional}
use stonr.Store.Read.Sets.{in_all, in_all-append}

-- `ids` of a filter.
unfoldable pub id_wanted : Query → Event → Bool
id_wanted q event = not (is_some_and q.ids (λ ids. not (has_text ids event.id)))

-- The tests of a filter that the index files answer: all but the times and the search.
unfoldable pub selects : Query → Event → Bool
unfolding id_wanted
selects q event =
    id_wanted q event
    && (not (is_some_and q.authors (λ authors. not (has_text authors event.pubkey)))
        && (not (is_some_and q.kinds (λ kinds. not (has_number kinds event.kind)))
            && (not (is_some_and q.d (λ d. not (has_tag "d" (d ∷ []) event.tags)))
                && (not (is_some_and q.t (λ t. not (has_tag "t" (t ∷ []) event.tags)))
                    && has_tags q.tags event.tags))))

any-or :
    {A : Type 0} (p q : A → Bool) (xs : List A) → any (λ x. p x || q x) xs ≡ (any p xs || any q xs)
any-or p q [] = refl
any-or p q (x ∷ xs) = ground (arith, any-or p q xs)

any-swap :
    {A B : Type 0} (p : A → B → Bool) (xs : List A) (ys : List B)
    → any (λ x. any (λ y. p x y) ys) xs ≡ any (λ y. any (λ x. p x y) xs) ys
any-swap p [] [] = refl
any-swap p [] (y ∷ ys) = any-swap p [] ys
any-swap p (x ∷ xs) ys =
    ap (λ b. any (p x) ys || b) (any-swap p xs ys)
    ∙ sym (any-or (p x) (λ y. any (λ x'. p x' y) xs) ys)

any-ext :
    {A : Type 0} (p q : A → Bool) (xs : List A)
    → ((x : A) → In x xs → p x ≡ q x)
    → any p xs ≡ any q xs
any-ext p q [] h = refl
any-ext p q (x ∷ xs) h = ground (arith, h x (inl refl), any-ext p q xs (λ y m. h y (inr m)))

any-map :
    {A B : Type 0} (p : B → Bool) (f : A → B) (xs : List A)
    → any p (map f xs) ≡ any (λ x. p (f x)) xs
any-map p f [] = refl
any-map p f (x ∷ xs) = ap (λ b. p (f x) || b) (any-map p f xs)

-- The values that a query asks a tag to have.
pub AsksFor : Query → String → Type 0
AsksFor q v =
    (q.d ≡ some v)
    ⊎ ((q.t ≡ some v)
        ⊎ ((name : String) × (values : List String) × In (name, values) q.tags × In v values))

module _ ⦃x : External⦄ where
  -- A value whose hash no other value of the tags has.
  abbrev IsApart : List Tag → String → Type 0
  IsApart tags v =
      (name w : String) (rest : List String)
      → In (name ∷ w ∷ rest) tags
      → x.sha1_hex w ≡ x.sha1_hex v
      → w ≡ v

  -- No value that the query asks a tag for has the hash of another tag value of a stored event.
  abbrev pub HashesApart : Disk → Query → Type 0
  HashesApart disk q =
      (v : String)
      → AsksFor q v
      → (id : String) (event : Event) → stored disk id ≡ some event
      → (name w : String) (rest : List String) → In (name ∷ w ∷ rest) event.tags
      → x.sha1_hex w ≡ x.sha1_hex v
      → w ≡ v

  has_text-load_ids :
      (disk : Disk) (keys : List IndexKey) (id : String) (event : Event)
      → IsConsistent disk
      → stored disk id ≡ some event
      → has_text (load_ids disk keys) id ≡ any (has_key event) keys
  unfolding load_ids has_text
  has_text-load_ids disk [] id event c s = refl
  has_text-load_ids disk (key ∷ keys) id event c s = ground (
    arith,
    has_text-append (disk.index key) (load_ids disk keys) id,
    c.indexed key id,
    has_text-load_ids disk keys id event c s,
  )

  any-by_author :
      (event : Event) (authors : List String)
      → any (has_key event) (map by_author authors) ≡ has_text authors event.pubkey
  unfolding has_key has_text
  any-by_author event [] = refl
  any-by_author event (a ∷ authors) =
      ground (arith, any-by_author event authors, eq_iff a event.pubkey, eq_iff event.pubkey a)

  any-by_kind :
      (event : Event) (kinds : List ℕ)
      → any (has_key event) (map by_kind kinds) ≡ has_number kinds event.kind
  unfolding has_key has_number
  any-by_kind event [] = refl
  any-by_kind event (k ∷ kinds) = ground (arith, any-by_kind event kinds)

  tag_under-any :
      (name : String) (values : List String) (fields : Tag)
      → ((v : String) → In v values → IsApart (fields ∷ []) v)
      → any (λ value. tag_under name (x.sha1_hex value) fields) values
        ≡ is_some_and (named_value name fields) (λ value. has_text values value)
  unfolding tag_under named_value has_text
  tag_under-any name [] [] apart = refl
  tag_under-any name [] (t ∷ []) apart = refl
  tag_under-any name [] (t ∷ v ∷ r) apart = ground arith
  tag_under-any name (w ∷ values) [] apart = tag_under-any name values [] (λ v m. apart v (inr m))
  tag_under-any name (w ∷ values) (t ∷ []) apart =
      tag_under-any name values (t ∷ []) (λ v m. apart v (inr m))
  tag_under-any name (w ∷ values) (t ∷ v ∷ r) apart = ground (
    arith,
    tag_under-any name values (t ∷ v ∷ r) (λ u m. apart u (inr m)),
    eq_iff (x.sha1_hex v) (x.sha1_hex w),
    eq_iff w v,
    apart w (inl refl) t v r (inl refl),
  )

  any-by_tag :
      (event : Event) (name : String) (values : List String)
      → ((v : String) → In v values → IsApart event.tags v)
      → any (has_key event) (tag_keys name values) ≡ has_tag name values event.tags
  unfolding has_key has_tag tag_keys
  any-by_tag event name values apart =
      any-map (has_key event) (λ value. by_tag name (x.sha1_hex value)) values
      ∙ any-swap (λ value fields. tag_under name (x.sha1_hex value) fields) values event.tags
      ∙ any-ext _ _ event.tags (λ fields m.
        tag_under-any name values fields (λ v asked t w rest one. apart v asked t w rest (elim one [
          | inl same ↦ subst (λ f. In f event.tags) (sym same) m
          | inr none_more ↦ absurd none_more
        ])))

  module _ (disk : Disk) (id : String) (event : Event) (c : IsConsistent disk)
      (s : stored disk id ≡ some event) where
    tags-set :
        (name : String) (values : List String)
        → ((v : String) → In v values → IsApart event.tags v)
        → has_text (load_ids disk (tag_keys name values)) id ≡ has_tag name values event.tags
    tags-set name values apart =
        has_text-load_ids disk (tag_keys name values) id event c s
        ∙ any-by_tag event name values apart

    tag-set :
        (name v : String)
        → IsApart event.tags v
        → has_text (load_ids disk (tag_keys name (v ∷ []))) id ≡ has_tag name (v ∷ []) event.tags
    tag-set name v apart = tags-set name (v ∷ []) (λ w m. elim m [
      | inl same ↦ subst (IsApart event.tags) (sym same) apart
      | inr none_more ↦ absurd none_more
    ])

    all_tags-sets :
        (wanted : List (String × List String))
        → ((name : String) (values : List String)
            → In (name, values) wanted
            → (v : String) → In v values
            → IsApart event.tags v)
        → in_all (map (λ w. load_ids disk (tag_keys w.0 w.1)) wanted) id
          ≡ has_tags wanted event.tags
    unfolding in_all has_tags
    all_tags-sets [] apart = refl
    all_tags-sets ((name, values) ∷ wanted) apart = ground (
      arith,
      tags-set name values (apart name values (inl refl)),
      all_tags-sets wanted (λ n vs m. apart n vs (inr m)),
    )

    -- An absent filter adds no set.
    optional-set :
        {A : Type 0} (o : Option A) (sets : A → List String) (test : A → Bool)
        → ((a : A) → o ≡ some a → has_text (sets a) id ≡ test a)
        → in_all (optional o sets) id ≡ not (is_some_and o (λ a. not (test a)))
    unfolding in_all
    optional-set none sets test h = refl
    optional-set (some a) sets test h = ground (arith, h a refl)

    split :
        (a b : List (List String)) {p q : Bool}
        → in_all a id ≡ p
        → in_all b id ≡ q
        → in_all (a ++ b) id ≡ (p && q)
    split a b h k = in_all-append a b id ∙ cc

    -- A stored event's id is in every set of a query exactly when the query selects the event.
    pub in_all-id_sets :
        (q : Query) → HashesApart disk q → in_all (id_sets disk q) id ≡ selects q event
    unfolding id_sets selects id_wanted AsksFor
    in_all-id_sets q apart =
        split _ _
          (optional-set q.ids (λ ids. ids) (λ ids. has_text ids event.id)
            (λ ids _. ap (has_text ids) (sym (c.named id event s))))
          (split _ _
            (optional-set q.authors (λ authors. load_ids disk (map by_author authors))
              (λ authors. has_text authors event.pubkey)
              (λ authors _.
                has_text-load_ids disk (map by_author authors) id event c s
                ∙ any-by_author event authors))
            (split _ _
              (optional-set q.kinds (λ kinds. load_ids disk (map by_kind kinds))
                (λ kinds. has_number kinds event.kind)
                (λ kinds _.
                  has_text-load_ids disk (map by_kind kinds) id event c s
                  ∙ any-by_kind event kinds))
              (split _ _
                (optional-set q.d (λ d. load_ids disk (tag_keys "d" (d ∷ [])))
                  (λ d. has_tag "d" (d ∷ []) event.tags)
                  (λ d e. tag-set "d" d (apart d (inl e) id event s)))
                (split _ _
                  (optional-set q.t (λ t. load_ids disk (tag_keys "t" (t ∷ [])))
                    (λ t. has_tag "t" (t ∷ []) event.tags)
                    (λ t e. tag-set "t" t (apart t (inr (inl e)) id event s)))
                  (all_tags-sets q.tags
                    (λ name values m v n. apart v (inr (inr (name, values, m, n))) id event s))))))
