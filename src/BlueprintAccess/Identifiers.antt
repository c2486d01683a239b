-- ===== src/BlueprintAccess/Identifiers.antt =====
-- blueprint_access.go, `normalizeBulkIdentifiers`.
use ludus.Prelude.{
  ℕ, ◌+◌, ◌≡◌, refl, ◌∙◌, Bool, true, false, not, ◌||◌, ◌&&◌, List, [], ◌∷◌, ◌++◌, if◌then◌else◌,
  arith,
}
use ludus.Prelude.Text.{contains_text, Text, trim_space, is_empty, text_eq, split}
use ludus.BlueprintAccess.{add_parts, add_items, normalize_bulk_identifiers}

abbrev pub occurrences : Text → List Text → ℕ
occurrences t [] = 0
occurrences t (s ∷ ss) = (if text_eq s t then 1 else 0) + occurrences t ss

-- The identifiers that a list of parts names: trimmed, and not empty.
abbrev named : List Text → Text → Bool
named [] t = false
named (part ∷ parts) t =
    (not (is_empty (trim_space part)) && text_eq (trim_space part) t) || named parts t

abbrev pub named_in : List Text → Text → Bool
named_in [] t = false
named_in (item ∷ items) t = named (split b',' [] item) t || named_in items t

text_eq_trans : (s t u : Text) → text_eq s t ≡ true → text_eq s u ≡ text_eq t u
unfolding text_eq
text_eq_trans [] [] u h = refl
text_eq_trans [] (d ∷ t) u h = cc
text_eq_trans (c ∷ s) [] u h = cc
text_eq_trans (c ∷ s) (d ∷ t) [] h = refl
text_eq_trans (c ∷ s) (d ∷ t) (e ∷ u) h = ground (arith, text_eq_trans s t u)

text_eq_sym : (s t : Text) → text_eq s t ≡ text_eq t s
unfolding text_eq
text_eq_sym [] [] = refl
text_eq_sym [] (d ∷ t) = refl
text_eq_sym (c ∷ s) [] = refl
text_eq_sym (c ∷ s) (d ∷ t) = ground (arith, text_eq_sym s t)

contains_text-occurrences :
    (ss : List Text) (t : Text) → contains_text ss t ≡ false → occurrences t ss ≡ 0
unfolding contains_text
contains_text-occurrences [] t h = refl
contains_text-occurrences (s ∷ ss) t h = ground (arith, contains_text-occurrences ss t)

contains_text-added :
    (ss : List Text) (v t : Text)
    → contains_text (ss ++ v ∷ []) t ≡ contains_text ss t || text_eq v t
unfolding contains_text
contains_text-added [] v t = ground arith
contains_text-added (s ∷ ss) v t = ground (arith, contains_text-added ss v t)

occurrences-added :
    (ss : List Text) (v t : Text)
    → occurrences t (ss ++ v ∷ []) ≡ occurrences t ss + occurrences t (v ∷ [])
occurrences-added [] v t = omega arith
occurrences-added (s ∷ ss) v t = omega (arith, occurrences-added ss v t)

contains_text_cong :
    (ss : List Text) (v t : Text) → text_eq v t ≡ true → contains_text ss v ≡ contains_text ss t
unfolding contains_text
contains_text_cong [] v t h = refl
contains_text_cong (s ∷ ss) v t h =
    let same = text_eq_sym s v ∙ text_eq_trans v t s h ∙ text_eq_sym t s in
    ground (arith, same, contains_text_cong ss v t h)

abbrev count_of : Bool → ℕ
count_of b = if b then 1 else 0

-- One part: what the list holds afterwards, and how often.
abbrev with_part : List Text → Text → List Text
with_part acc value =
    if is_empty value then acc else if contains_text acc value then acc else acc ++ value ∷ []

with_part-holds :
    (acc : List Text) (value t : Text)
    → contains_text (with_part acc value) t
      ≡ contains_text acc t || (not (is_empty value) && text_eq value t)
with_part-holds acc value t =
    ground (arith, contains_text_cong acc value t, contains_text-added acc value t)

with_part-once :
    (acc : List Text) (value t : Text)
    → occurrences t acc ≡ count_of (contains_text acc t)
    → occurrences t (with_part acc value) ≡ count_of (contains_text (with_part acc value) t)
with_part-once acc value t once = ground (
  arith,
  contains_text_cong acc value t,
  contains_text-added acc value t,
  occurrences-added acc value t,
)

add_parts-once :
    (acc parts : List Text) (t : Text)
    → occurrences t acc ≡ count_of (contains_text acc t)
    → (occurrences t (add_parts acc parts) ≡ count_of (contains_text (add_parts acc parts) t))
      × (contains_text (add_parts acc parts) t ≡ contains_text acc t || named parts t)
unfolding add_parts
add_parts-once acc [] t once = (once, ground arith)
add_parts-once acc (part ∷ parts) t once =
    let value = trim_space part in
    let ih = add_parts-once (with_part acc value) parts t (with_part-once acc value t once) in
    (ih.0, ground (arith, ih.1, with_part-holds acc value t))

add_items-once :
    (acc items : List Text) (t : Text)
    → occurrences t acc ≡ count_of (contains_text acc t)
    → (occurrences t (add_items acc items) ≡ count_of (contains_text (add_items acc items) t))
      × (contains_text (add_items acc items) t ≡ contains_text acc t || named_in items t)
unfolding add_items
add_items-once acc [] t once = (once, ground arith)
add_items-once acc (item ∷ items) t once =
    let step = add_parts-once acc (split b',' [] item) t once in
    let ih = add_items-once (add_parts acc (split b',' [] item)) items t step.0 in
    (ih.0, ground (arith, ih.1, step.1))

-- The identifiers of a bulk request hold each text once if some part between commas of some item is
-- that text when trimmed, and is not empty then; and no other text.
pub normalize_bulk_identifiers-once :
    (items : List Text) (t : Text)
    → occurrences t (normalize_bulk_identifiers items) ≡ (if named_in items t then 1 else 0)
unfolding normalize_bulk_identifiers contains_text
normalize_bulk_identifiers-once items t =
    let all = add_items-once [] items t refl in ground (arith, all)
