-- ===== src/Config/Lists.antt =====
-- stonr/src/config.rs: lists that are written with commas, and the authors to mirror.
use Prim.Native.Char.{code}
use Prim.Native.String.{[], ◌∷◌, ◌++◌ as str_append}
use text.Mathlib.TextLemmas.{nil-append, cons-append}
use stonr.Base.{
  ℕ, String, ◌≡◌, refl, Bool, false, not, List, [], ◌∷◌, ◌||◌, nat_eq, map, keep, arith, ap, ◌∙◌,
  All,
}
use stonr.Base.TextParts.{split, trim, is_empty_text, extend}
use stonr.Config.Parse.{csv_strings}

-- `values.join(",")`
unfoldable pub join : List String → String
join [] = ""
join (a ∷ []) = a
join (a ∷ b ∷ l) = str_append a (str_append "," (join (b ∷ l)))

-- Whether a text has the character.
unfoldable pub has_char : ℕ → String → Bool
has_char sep [] = false
has_char sep (c ∷ s) = nat_eq (code c) sep || has_char sep s

split-none : (sep : ℕ) (s : String) → has_char sep s ≡ false → split sep s ≡ s ∷ []
unfolding split has_char extend
split-none sep [] h = refl
split-none sep (c ∷ s) h = ground (arith, split-none sep s)

split-append :
    (s rest : String)
    → has_char b',' s ≡ false
    → split b',' (str_append s (str_append "," rest)) ≡ s ∷ split b',' rest
unfolding split has_char extend
split-append [] rest h =
    rw (nil-append (str_append "," rest), cons-append "," "" rest, nil-append rest) refl
split-append (c ∷ s) rest h =
    rw (cons-append c s (str_append "," rest)) (ground (arith, split-append s rest))

-- A value that can stand in a list: it has no comma, no blank around it, and is not empty.
abbrev pub IsItem : String → Type 0
IsItem s = (has_char b',' s ≡ false) × (trim s ≡ s) × (is_empty_text s ≡ false)

pub split-join :
    (a : String) (l : List String) → All IsItem (a ∷ l) → split b',' (join (a ∷ l)) ≡ a ∷ l
unfolding join
split-join a [] ((plain, _, _), _) = split-none b',' a plain
split-join a (b ∷ l) ((plain, _, _), items) =
    split-append a (join (b ∷ l)) plain ∙ ap (λ rest. a ∷ rest) (split-join b l items)

keep_items : (l : List String) → All IsItem l → keep (λ t. not (is_empty_text t)) (map trim l) ≡ l
unfolding keep
keep_items [] h = refl
keep_items (a ∷ l) ((_, trimmed, filled), h) =
    rw (trimmed, filled) (ap (λ rest. a ∷ rest) (keep_items l h))

-- Values without commas, without blanks around them and not empty, joined with commas, are read
-- back as they are.
pub csv_strings-join : (l : List String) → All IsItem l → csv_strings (join l) ≡ l
unfolding csv_strings join
csv_strings-join [] h = refl
csv_strings-join (a ∷ l) h =
    ap (λ parts. keep (λ t. not (is_empty_text t)) (map trim parts)) (split-join a l h)
    ∙ keep_items (a ∷ l) h
