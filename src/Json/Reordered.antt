-- ===== src/Json/Reordered.antt =====
-- Objects whose fields stand in another order have one canonical text.
use agent_force.Prelude.{
  true, false, String, List, [], ◌∷◌, ◌≡◌, ◌≢◌, refl, sym, ap, ap₂, ◌∙◌, inl, inr, arith,
  Bool-cases,
}
use agent_force.Prelude.Text.{◌&◌, join}
use agent_force.Json.{
  Json, arr, obj, Items, nil, cons, Fields, field, dumps, dump_items, sorted_entries, insert_by_key,
  braces,
}
use agent_force.Json.Order.{text_le, text_le_total, text_le_antisym, text_le_trans}

mutual
  -- The same value, save that the fields of its objects may stand in another order.
  pub data Same : Json → Json → Type 0 where
    same : (v : Json) → Same v v
    same_items : (xs ys : Items) → SameItems xs ys → Same (arr xs) (arr ys)
    same_fields : (fs gs : Fields) → Reordered fs gs → Same (obj fs) (obj gs)

  pub data SameItems : Items → Items → Type 0 where
    no_items : SameItems nil nil
    one_item :
        (x y : Json) (xs ys : Items)
        → Same x y
        → SameItems xs ys
        → SameItems (cons x xs) (cons y ys)

  pub data Reordered : Fields → Fields → Type 0 where
    unmoved : (fs : Fields) → Reordered fs fs
    one_field :
        (k : String) (v w : Json) (fs gs : Fields)
        → Same v w
        → Reordered fs gs
        → Reordered (field k v fs) (field k w gs)
    swapped :
        (j k : String) (v w : Json) (fs : Fields)
        → j ≢ k
        → Reordered (field j v (field k w fs)) (field k w (field j v fs))
    both : (fs gs hs : Fields) → Reordered fs gs → Reordered gs hs → Reordered fs hs

abbrev Entries : Type 0
Entries = List (String × String)

module _ (j k : String) (a b : String) where
  -- Two keys, the first of which goes before the second.
  insert-ordered :
      text_le j k ≡ true
      → text_le k j ≡ false
      → (es : Entries)
      → insert_by_key j a (insert_by_key k b es) ≡ insert_by_key k b (insert_by_key j a es)
  unfolding insert_by_key
  insert-ordered h g [] = rw (h, g) refl
  insert-ordered h g ((i, c) ∷ r) = elim (Bool-cases (text_le k i)) [
    | inl p ↦ rw (p, h, text_le_trans j k i h p, g, p) refl
    | inr p ↦ elim (Bool-cases (text_le j i)) [
      | inl q ↦ rw (p, q, g, p) refl
      | inr q ↦ rw (p, q, p) (ap (λ es. (i, c) ∷ es) (insert-ordered h g r))
    ]
  ]

-- Entries with different keys can be put in in either order.
insert-insert :
    (j k a b : String) (es : Entries)
    → j ≢ k
    → insert_by_key j a (insert_by_key k b es) ≡ insert_by_key k b (insert_by_key j a es)
insert-insert j k a b es apart = elim (Bool-cases (text_le j k)) [
  | inl h ↦ elim (Bool-cases (text_le k j)) [
    | inl g ↦ absurd (apart (text_le_antisym j k h g))
    | inr g ↦ insert-ordered j k a b h g es
  ]
  | inr h ↦ elim (text_le_total j k) [
    | inl g ↦ absurd (ground arith)
    | inr g ↦ sym (insert-ordered k j b a g h es)
  ]
]

mutual
  unfolding dumps dump_items sorted_entries

  pub dumps-Same : {v w : Json} → Same v w → dumps v ≡ dumps w
  dumps-Same (same v) = refl
  dumps-Same (same_items xs ys p) = ap (λ ts. "[" & join "," ts & "]") (dump_items-SameItems p)
  dumps-Same (same_fields fs gs p) = ap braces (sorted_entries-Reordered p)

  dump_items-SameItems : {xs ys : Items} → SameItems xs ys → dump_items xs ≡ dump_items ys
  dump_items-SameItems no_items = refl
  dump_items-SameItems (one_item x y xs' ys' p q) =
      ap₂ (λ t ts. t ∷ ts) (dumps-Same p) (dump_items-SameItems q)

  sorted_entries-Reordered :
      {fs gs : Fields} → Reordered fs gs → sorted_entries fs ≡ sorted_entries gs
  sorted_entries-Reordered (unmoved fs) = refl
  sorted_entries-Reordered (one_field k v w fs' gs' p q) =
      ap₂ (λ t es. insert_by_key k t es) (dumps-Same p) (sorted_entries-Reordered q)
  sorted_entries-Reordered (swapped j k v w rest apart) =
      insert-insert j k (dumps v) (dumps w) (sorted_entries rest) apart
  sorted_entries-Reordered (both fs gs hs p q) =
      sorted_entries-Reordered p ∙ sorted_entries-Reordered q
