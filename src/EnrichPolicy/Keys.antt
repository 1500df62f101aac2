-- ===== src/EnrichPolicy/Keys.antt =====
-- internal/policy/enrich.go: the keys that the guard goes through.
use open_whisker.Prelude.{
  ◌≡◌, refl, ap, ◌∙◌, inl, inr, true, false, ◌||◌, none, some, List, [], ◌∷◌, ◌++◌, Option-cases,
  arith, if◌then◌else◌,
}
use open_whisker.Prelude.Text.{Str, eqb, elem}
use open_whisker.Prelude.Text.Laws.{eqb→eq}
use open_whisker.Prelude.Text.Pieces.{lookup, keys}
use open_whisker.EnrichPolicy.Fields.{insert_key, sort_keys, ordered_keys}
use open_whisker.EnrichPolicy.Check.{distinct, all_keys}

eqb_sym : (s t : Str) → eqb s t ≡ eqb t s
unfolding eqb
eqb_sym [] [] = refl
eqb_sym [] (d ∷ t) = refl
eqb_sym (c ∷ s) [] = refl
eqb_sym (c ∷ s) (d ∷ t) = ground (arith, eqb_sym s t)

elem-insert_key : (x k : Str) (js : List Str) → elem x (insert_key k js) ≡ (eqb x k || elem x js)
unfolding elem insert_key
elem-insert_key x k [] = refl
elem-insert_key x k (j ∷ js) = ground (arith, elem-insert_key x k js)

elem-sort_keys : (x : Str) (ks : List Str) → elem x (sort_keys ks) ≡ elem x ks
unfolding elem sort_keys
elem-sort_keys x [] = refl
elem-sort_keys x (k ∷ ks) = ground (arith, elem-insert_key x k (sort_keys ks), elem-sort_keys x ks)

elem-append : (x : Str) (js ks : List Str) → elem x (js ++ ks) ≡ (elem x js || elem x ks)
unfolding elem
elem-append x [] ks = refl
elem-append x (j ∷ js) ks = ground (arith, elem-append x js ks)

elem-distinct :
    (x : Str) (seen ks : List Str)
    → elem x ks ≡ true
    → (elem x seen || elem x (distinct seen ks)) ≡ true
unfolding elem distinct
elem-distinct x seen [] h = cc
elem-distinct x seen (k ∷ ks) h =
    ground (arith, eqb→eq x k, elem-distinct x (if elem k seen then seen else k ∷ seen) ks)

module _ {V : Type 0} where
  elem-keys : (k : Str) (m : List (Str × V)) (v : V) → lookup k m ≡ some v → elem k (keys m) ≡ true
  unfolding elem keys lookup
  elem-keys k [] v h = cc
  elem-keys k ((j, w) ∷ m) v h = ground (arith, eqb_sym j k, elem-keys k m v)

  pub absent : (k : Str) (m : List (Str × V)) → elem k (keys m) ≡ false → lookup k m ≡ none
  absent k m h = elim (Option-cases (lookup k m)) [
    | inl e ↦ e
    | inr (v, e) ↦ cc (elem-keys k m v e)
  ]

pub all_keys-elem :
    (k : Str) (before after : List (Str × Str))
    → (elem k (keys before) || elem k (keys after)) ≡ true
    → elem k (all_keys before after) ≡ true
unfolding all_keys ordered_keys elem
all_keys-elem k before after h =
    let bs = sort_keys (keys before) in
    let as' = sort_keys (keys after) in
    elem-distinct k [] (bs ++ as') (
      elem-append k bs as'
      ∙ ap (λ b. b || elem k as') (elem-sort_keys k (keys before))
      ∙ ap (λ b. elem k (keys before) || b) (elem-sort_keys k (keys after))
      ∙ h)
