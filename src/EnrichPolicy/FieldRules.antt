-- ===== src/EnrichPolicy/FieldRules.antt =====
-- What each field of a note may become in an enrichment that the guard accepts.
use mathlib.Core.List.{Memᴰ, reverse, reverse-append, reverse-reverse}
use open_whisker.Prelude.{
  ◌≡◌, refl, sym, ap, ◌∙◌, subst, ◌⊎◌, inl, inr, ℕ, ◌≤◌, ltb, Bool, true, false, ◌||◌, Option, none,
  some, List, [], ◌∷◌, ◌++◌, length, length-append, Bool-cases, ltb→lt, arith, Passes, require,
  each, ok, err, Check, >>-ok, require-ok, refuse-ok, if◌then◌else◌,
}
use open_whisker.Prelude.Text.{
  Str, codes, eqb, elem, has_prefix, has_suffix, to_lower, trim_space, trim_of,
}
use open_whisker.Prelude.Text.Laws.{eqb→eq, StartsWith, has_prefix→StartsWith}
use open_whisker.Prelude.Text.Search.{elem-Memᴰ}
use open_whisker.EnrichPolicy.Fields.{is_quote, normalize_blob, parse_yaml_list}
use open_whisker.EnrichPolicy.Additions.{
  EnrichError, set_subset, diff_from, set_diff, has_topic, in_vocab, check_clean_tag, check_tag,
  validate_tags_append, is_wikilink, validate_related_append,
}
use open_whisker.EnrichPolicy.Check.{
  tags_key, related_key, enrich_writable_fields, same_field, or_empty, check_field,
}

-- `p` and a rest that is not empty
abbrev pub HasTopic : Str → Str → Type 0
HasTopic p s = (rest : Str) × (s ≡ p ++ rest) × (1 ≤ length rest)

abbrev pub EndsWith : Str → Str → Type 0
EndsWith p s = (front : Str) × (s ≡ front ++ p)

-- A topic or a skill of the vocabulary, the status for review, or a tag of raw notes.
abbrev pub AllowedTag : (Str → Str) → Option (Str → Bool) → Str → Type 0
AllowedTag unicode vocab tag =
    let clean = to_lower unicode (trim_space tag) in
    ((in_vocab vocab clean ≡ true)
      × (HasTopic (codes "topic/") clean ⊎ HasTopic (codes "skill/") clean))
    ⊎ (clean ≡ codes "status/needs-review")
    ⊎ HasTopic (codes "raw/") clean

abbrev pub IsWikilink : Str → Type 0
IsWikilink item =
    let trimmed = trim_of is_quote (trim_space item) in
    StartsWith (codes "[[") trimmed × EndsWith (codes "]]") trimmed

abbrev pub Grows : List Str → List Str → Type 0
Grows before after = (t : Str) → Memᴰ t before → Memᴰ t after

-- No tag is removed, and each new one is allowed.
abbrev pub TagsRule : (Str → Str) → Option (Str → Bool) → List Str → List Str → Type 0
TagsRule unicode vocab before after =
    Grows before after × ((t : Str) → Memᴰ t after → ¬ Memᴰ t before → AllowedTag unicode vocab t)

-- No related note is removed, and the new ones are at most three wiki links.
abbrev pub RelatedRule : List Str → List Str → Type 0
RelatedRule before after =
    Grows before after
    × ((added : List Str) × (length added ≤ 3)
        × ((t : Str) → Memᴰ t after → ¬ Memᴰ t before → Memᴰ t added × IsWikilink t))

-- the same text, but for blank lines and trailing white space
abbrev pub SameField : Option Str → Option Str → Type 0
SameField none none = Unit
SameField (some b) (some a) = normalize_blob b ≡ normalize_blob a
SameField _ _ = ⊥

abbrev pub FieldRule : (Str → Str) → Option (Str → Bool) → Str → Option Str → Option Str → Type 0
FieldRule unicode vocab k before after =
    (¬ Memᴰ k enrich_writable_fields → SameField before after)
    × (k ≡ tags_key
        → TagsRule unicode vocab (parse_yaml_list (or_empty before))
            (parse_yaml_list (or_empty after)))
    × (k ≡ related_key
        → RelatedRule (parse_yaml_list (or_empty before)) (parse_yaml_list (or_empty after)))

pub each-at :
    {A : Type 0} {E : Type 0} (f : A → Check E) (xs : List A) (x : A)
    → Passes (each f xs)
    → Memᴰ x xs
    → Passes (f x)
each-at f [] x h m = elim m [ ]
each-at f (y ∷ ys) x h (Memᴰ.head e) =
    subst (λ z. Passes (f z)) (sym e) (>>-ok (f y) (each f ys) h).0
each-at f (y ∷ ys) x h (Memᴰ.tail m) = each-at f ys x (>>-ok (f y) (each f ys) h).1 m

set_subset-Grows : (small big : List Str) → set_subset small big ≡ true → Grows small big
unfolding set_subset
set_subset-Grows [] big h t m = elim m [ ]
set_subset-Grows (v ∷ small) big h t (Memᴰ.head e) =
    (elem-Memᴰ t big).0 (ground (arith, ap (λ x. elem x big) e))
set_subset-Grows (v ∷ small) big h t (Memᴰ.tail m) = set_subset-Grows small big (ground arith) t m

diff_from-elem :
    (t : Str) (seen after before : List Str)
    → elem t after ≡ true
    → elem t before ≡ false
    → (elem t seen || elem t (diff_from seen after before)) ≡ true
unfolding diff_from elem
diff_from-elem t seen [] before h k = cc
diff_from-elem t seen (v ∷ after) before h k = ground (
  arith,
  eqb→eq t v,
  diff_from-elem t (if elem v before || elem v seen then seen else v ∷ seen) after before,
)

not_elem : (t : Str) (xs : List Str) → ¬ Memᴰ t xs → elem t xs ≡ false
not_elem t xs n = elim (Bool-cases (elem t xs)) [
  | inl e ↦ absurd (n ((elem-Memᴰ t xs).0 e))
  | inr e ↦ e
]

set_diff-Memᴰ :
    (t : Str) (after before : List Str)
    → Memᴰ t after
    → ¬ Memᴰ t before
    → Memᴰ t (set_diff after before)
unfolding set_diff elem
set_diff-Memᴰ t after before m n =
    (elem-Memᴰ t (diff_from [] after before)).0
      (diff_from-elem t [] after before ((elem-Memᴰ t after).1 m) (not_elem t before n))

longer : (p s rest : Str) → s ≡ p ++ rest → ltb (length p) (length s) ≡ true → 1 ≤ length rest
longer p s rest e h =
    omega (arith, ltb→lt (length p) (length s) h, ap length e, length-append {0} p rest)

has_topic-HasTopic : (s p : Str) → has_topic s p ≡ true → HasTopic p s
unfolding has_topic
has_topic-HasTopic s p h =
    let (rest, e) = has_prefix→StartsWith s p (ground arith) in
    (rest, e, longer p s rest e (ground arith))

has_suffix-EndsWith : (s p : Str) → has_suffix s p ≡ true → EndsWith p s
unfolding has_suffix
has_suffix-EndsWith s p h =
    let (rest, e) = has_prefix→StartsWith (reverse s) (reverse p) h in
    (
      reverse rest,
      sym (reverse-reverse s)
          ∙ ap reverse e
          ∙ reverse-append (reverse p) rest
          ∙ ap (λ x. reverse rest ++ x) (reverse-reverse p),
    )

-- the branches of the `switch` that return no error
switched :
    (topic skill review status raw forbidden v : Bool) (e₁ e₂ e₃ e₄ e₅ : EnrichError)
    → Passes (
        if topic
        then require v e₁
        else if skill
        then require v e₂
        else if review
        then ok tt
        else if status
        then err e₃
        else if raw
        then ok tt
        else if forbidden
        then err e₄
        else err e₅)
    → ((v ≡ true) × ((topic ≡ true) ⊎ (skill ≡ true))) ⊎ (review ≡ true) ⊎ (raw ≡ true)
switched true b c d e f v e₁ e₂ e₃ e₄ e₅ h = inl (require-ok v e₁ h, inl refl)
switched false true c d e f v e₁ e₂ e₃ e₄ e₅ h = inl (require-ok v e₂ h, inr refl)
switched false false true d e f v e₁ e₂ e₃ e₄ e₅ h = inr (inl refl)
switched false false false true e f v e₁ e₂ e₃ e₄ e₅ h = cc
switched false false false false true f v e₁ e₂ e₃ e₄ e₅ h = inr (inr refl)
switched false false false false false true v e₁ e₂ e₃ e₄ e₅ h = cc
switched false false false false false false v e₁ e₂ e₃ e₄ e₅ h = cc

at_most : (n : ℕ) → ltb 3 n ≡ false → n ≤ 3
at_most n h = ground arith

module _ (unicode : Str → Str) (vocab : Option (Str → Bool)) where
  check_clean_tag-allows :
      (tag clean : Str)
      → Passes (check_clean_tag vocab tag clean)
      → ((in_vocab vocab clean ≡ true)
          × (HasTopic (codes "topic/") clean ⊎ HasTopic (codes "skill/") clean))
        ⊎ (clean ≡ codes "status/needs-review")
        ⊎ HasTopic (codes "raw/") clean
  unfolding check_clean_tag
  check_clean_tag-allows tag clean h =
      elim (switched (has_topic clean (codes "topic/")) (has_topic clean (codes "skill/"))
        (eqb clean (codes "status/needs-review")) (has_prefix clean (codes "status/"))
        (has_topic clean (codes "raw/"))
        (has_prefix clean (codes "type/") || has_prefix clean (codes "interview/"))
        (in_vocab vocab clean) _ _ _ _ _ h) [
          | inl (v, inl topic) ↦ inl (v, inl (has_topic-HasTopic clean _ topic))
          | inl (v, inr skill) ↦ inl (v, inr (has_topic-HasTopic clean _ skill))
          | inr (inl review) ↦ inr (inl (eqb→eq clean _ review))
          | inr (inr raw) ↦ inr (inr (has_topic-HasTopic clean _ raw))
        ]

  check_tag-AllowedTag :
      (tag : Str) → Passes (check_tag unicode vocab tag) → AllowedTag unicode vocab tag
  unfolding check_tag
  check_tag-AllowedTag tag h =
      check_clean_tag-allows tag (to_lower unicode (trim_space tag)) (>>-ok _ _ h).1

  validate_tags_append-TagsRule :
      (before after : List Str)
      → Passes (validate_tags_append unicode vocab before after)
      → TagsRule unicode vocab before after
  unfolding validate_tags_append
  validate_tags_append-TagsRule before after h =
      let (a, b) = >>-ok _ _ h in
      (
        set_subset-Grows before after (require-ok _ _ a),
        λ t m n.
            check_tag-AllowedTag t
              (each-at _ (set_diff after before) t b (set_diff-Memᴰ t after before m n)),
      )

is_wikilink-IsWikilink : (item : Str) → is_wikilink item ≡ true → IsWikilink item
unfolding is_wikilink
is_wikilink-IsWikilink item h =
    let trimmed = trim_of is_quote (trim_space item) in
    (
      has_prefix→StartsWith trimmed (codes "[[") (ground arith),
      has_suffix-EndsWith trimmed (codes "]]") (ground arith),
    )

validate_related_append-RelatedRule :
    (before after : List Str)
    → Passes (validate_related_append before after)
    → RelatedRule before after
unfolding validate_related_append
validate_related_append-RelatedRule before after h =
    let (a, b) = >>-ok _ _ h in
    let (c, d) = >>-ok _ _ b in
    (
      set_subset-Grows before after (require-ok _ _ a),
      (
        set_diff after before,
        at_most (length (set_diff after before)) (refuse-ok _ _ c),
        λ t m n.
            let k = set_diff-Memᴰ t after before m n in
            (
              k,
              is_wikilink-IsWikilink t (require-ok _ _ (each-at _ (set_diff after before) t d k)),
            ),
      ),
    )

same_field-SameField :
    (k : Str) (before after : Option Str)
    → Passes (same_field k before after)
    → SameField before after
same_field-SameField k none none h = tt
same_field-SameField k none (some a) h = cc
same_field-SameField k (some b) none h = cc
same_field-SameField k (some b) (some a) h = eqb→eq _ _ (require-ok _ _ h)

module _ (unicode : Str → Str) (vocab : Option (Str → Bool)) where
  unwritable :
      (k : Str) (before after : Option Str)
      → ¬ Memᴰ k enrich_writable_fields
      → Passes (check_field unicode vocab k before after)
      → SameField before after
  unfolding check_field
  unwritable k before after n h =
      same_field-SameField k before after (rw (not_elem k enrich_writable_fields n) at h)

  tags-rule :
      (before after : Option Str)
      → Passes (check_field unicode vocab tags_key before after)
      → TagsRule unicode vocab
          (parse_yaml_list (or_empty before))
          (parse_yaml_list (or_empty after))
  unfolding check_field elem eqb
  tags-rule before after h = validate_tags_append-TagsRule unicode vocab _ _ h

  related-rule :
      (before after : Option Str)
      → Passes (check_field unicode vocab related_key before after)
      → RelatedRule (parse_yaml_list (or_empty before)) (parse_yaml_list (or_empty after))
  unfolding check_field elem eqb
  related-rule before after h = validate_related_append-RelatedRule _ _ h

  pub check_field-FieldRule :
      (k : Str) (before after : Option Str)
      → Passes (check_field unicode vocab k before after)
      → FieldRule unicode vocab k before after
  check_field-FieldRule k before after h = (
    λ n. unwritable k before after n h,
    λ e.
        tags-rule before after (subst (λ x. Passes (check_field unicode vocab x before after)) e h),
    λ e.
        related-rule before after
          (subst (λ x. Passes (check_field unicode vocab x before after)) e h),
  )
