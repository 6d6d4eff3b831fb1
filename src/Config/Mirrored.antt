-- ===== src/Config/Mirrored.antt =====
-- stonr/src/config.rs: the authors that are mirrored.
use stonr.Base.{String, ◌≡◌, refl, List, [], ◌∷◌, ◌++◌, ◌||◌, unwrap_or, ◌∙◌}
use stonr.Query.{has_text}
use stonr.Query.Sorted.{IsAscending, has_text-sorted, sorted-IsAscending}
use stonr.Store.Consistent.{has_text-append}
use stonr.Config.{MirrorSettings, sorted_or_none, mirror_authors}

sorted_or_none-exact :
    (texts : List String) (text : String)
    → IsAscending (unwrap_or (sorted_or_none texts) [])
      × (has_text (unwrap_or (sorted_or_none texts) []) text ≡ has_text texts text)
unfolding sorted_or_none
sorted_or_none-exact [] text = (tt, refl)
sorted_or_none-exact (a ∷ l) text = (sorted-IsAscending (a ∷ l), has_text-sorted (a ∷ l) text)

-- The authors to mirror are those of the filter and those that are followed, each once and in
-- ascending order.
pub mirror_authors-exact :
    (settings : MirrorSettings) (author : String)
    → let authors = unwrap_or (mirror_authors settings) [] in
      IsAscending authors
      × (has_text authors author ≡ (
          has_text (unwrap_or settings.filter_authors []) author
          || has_text (unwrap_or settings.follow_pubkeys []) author))
unfolding mirror_authors
mirror_authors-exact settings author =
    let filtered = unwrap_or settings.filter_authors [] in
    let followed = unwrap_or settings.follow_pubkeys [] in
    let (ascending, same) = sorted_or_none-exact (filtered ++ followed) author in
    (ascending, same ∙ has_text-append filtered followed author)
