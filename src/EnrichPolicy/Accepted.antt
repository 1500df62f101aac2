-- ===== src/EnrichPolicy/Accepted.antt =====
-- internal/policy/enrich.go: what a plan that `CheckEnrichPlan` accepts does to the note.
use open_whisker.Prelude.{
  ◌≡◌, refl, subst, inl, inr, Bool, true, false, ◌||◌, Option, none, some, List, [], ◌∷◌,
  Bool-cases, arith, Passes, Result, ok, err, >>-ok, require-ok, refuse-ok, Passes-wrap, ◌>>=◌,
}
use open_whisker.Prelude.Text.{Str, elem, trim_space}
use open_whisker.Prelude.Text.Laws.{eqb→eq}
use open_whisker.Prelude.Text.Search.{elem-Memᴰ}
use open_whisker.Prelude.Text.Pieces.{lookup, keys}
use open_whisker.Model.{VaultOperation, VaultPlan, Json, is_low}
use open_whisker.VaultPath.Safe.{IsSafePath, validate_relative_vault_path-IsSafePath}
use open_whisker.Markdown.{split_frontmatter}
use open_whisker.Policy.Hashes.{IsSha256, validate_mutating_before_hash-IsSha256}
use open_whisker.EnrichPolicy.Fields.{split_frontmatter_fields}
use open_whisker.EnrichPolicy.Check.{
  all_keys, check_field_guard, check_contents, check_operation, check_enrich_plan, one_operation,
  decoded, is_rewrite,
}
use open_whisker.EnrichPolicy.FieldRules.{FieldRule, check_field-FieldRule, each-at}
use open_whisker.EnrichPolicy.Keys.{absent, all_keys-elem}

-- The only operation rewrites the expected note, whose path is safe, from the hash that the plan names,
-- to a content whose body has the same hash, and every field follows its rule.
pub record IsEnrichment (unicode : Str → Str) (vocab : Option (Str → Bool)) (hash : Str → Str)
    (json : Json) (plan : VaultPlan) (expected before_content : Str) : Type 0 where
  pub op : VaultOperation
  pub content : Str
  pub low_risk : is_low plan.risk_level ≡ true
  pub automatic : plan.requires_approval ≡ false
  pub only : plan.operations ≡ op ∷ []
  pub rewrites : is_rewrite op.op_type ≡ true
  pub target : op.target_path ≡ expected
  pub safe : IsSafePath expected
  pub hashed : IsSha256 (trim_space op.before_hash)
  pub decodes : json.decode_create op.payload_json ≡ some content
  pub fenced : (split_frontmatter before_content).found ≡ true
  pub fenced_after : (split_frontmatter content).found ≡ true
  pub body : hash (split_frontmatter before_content).body ≡ hash (split_frontmatter content).body
  pub field :
      (k : Str)
      → FieldRule unicode vocab k
          (lookup k (split_frontmatter_fields (split_frontmatter before_content).block))
          (lookup k (split_frontmatter_fields (split_frontmatter content).block))

one_operation-only :
    (ops : List VaultOperation) (op : VaultOperation) → one_operation ops ≡ ok op → ops ≡ op ∷ []
one_operation-only [] op h = cc
one_operation-only (o ∷ []) op h = cc
one_operation-only (o ∷ p ∷ ops) op h = cc

bind-ok :
    {E A B : Type 0} (m : Result E A) (f : A → Result E B) (b : B)
    → (m >>= f) ≡ ok b
    → (a : A) × (m ≡ ok a) × (f a ≡ ok b)
bind-ok (ok a) f b h = (a, refl, h)
bind-ok (err e) f b h = cc

decoded-some : (o : Option Str) (s : Str) → decoded o ≡ ok s → o ≡ some s
decoded-some none s h = cc
decoded-some (some t) s h = cc

or_false : (a b : Bool) → (a || b) ≡ false → (a ≡ false) × (b ≡ false)
or_false true b h = cc
or_false false b h = (refl, h)

module _ (unicode : Str → Str) (vocab : Option (Str → Bool)) where
  -- a key that neither side has
  no_field : (k : Str) → FieldRule unicode vocab k none none
  no_field k = (
    λ n. tt,
    λ e. ((λ t m. m), λ t m n. absurd (n m)),
    λ e. ((λ t m. m), ([], omega arith, λ t m n. absurd (n m))),
  )

  check_field_guard-FieldRule :
      (before after : Str)
      → Passes (check_field_guard unicode vocab before after)
      → (k : Str)
      → FieldRule unicode vocab k
          (lookup k (split_frontmatter_fields before))
          (lookup k (split_frontmatter_fields after))
  unfolding check_field_guard
  check_field_guard-FieldRule before after h k =
      let bs = split_frontmatter_fields before in
      let as' = split_frontmatter_fields after in
      elim (Bool-cases (elem k (keys bs) || elem k (keys as'))) [
        | inl here ↦ check_field-FieldRule unicode vocab k (lookup k bs) (lookup k as') (
            each-at _ (all_keys bs as') k h
              ((elem-Memᴰ k (all_keys bs as')).0 (all_keys-elem k bs as' here)))
        | inr gone ↦
            let (x, y) = or_false _ _ gone in rw (absent k bs x, absent k as' y) (no_field k)
      ]

  accepted_contents :
      (hash : Str → Str) (json : Json) (plan : VaultPlan) (op : VaultOperation)
      (expected before_content content : Str)
      → is_low plan.risk_level ≡ true
      → plan.requires_approval ≡ false
      → plan.operations ≡ op ∷ []
      → is_rewrite op.op_type ≡ true
      → op.target_path ≡ expected
      → IsSafePath op.target_path
      → IsSha256 (trim_space op.before_hash)
      → json.decode_create op.payload_json ≡ some content
      → Passes (check_contents unicode vocab hash before_content content)
      → IsEnrichment unicode vocab hash json plan expected before_content
  unfolding check_contents
  accepted_contents hash json plan op expected before_content content low auto only rewrites target
        safe hashed decodes h =
      let (a, b) = >>-ok _ _ h in
      let (c, d) = >>-ok _ _ b in
      let (e, f) = >>-ok _ _ d in
      let (g, i) = >>-ok _ _ f in
      record {
        op = op;
        content = content;
        low_risk = low;
        automatic = auto;
        only = only;
        rewrites = rewrites;
        target = target;
        safe = subst IsSafePath target safe;
        hashed = hashed;
        decodes = decodes;
        fenced = require-ok _ _ c;
        fenced_after = require-ok _ _ e;
        body = eqb→eq _ _ (require-ok _ _ g);
        field = check_field_guard-FieldRule _ _ i;
      }

  accepted_operation :
      (hash : Str → Str) (json : Json) (plan : VaultPlan) (op : VaultOperation)
      (expected before_content : Str)
      → is_low plan.risk_level ≡ true
      → plan.requires_approval ≡ false
      → plan.operations ≡ op ∷ []
      → Passes (check_operation unicode vocab hash json op expected before_content)
      → IsEnrichment unicode vocab hash json plan expected before_content
  unfolding check_operation
  accepted_operation hash json plan op expected before_content low auto only h =
      let (a, b) = >>-ok _ _ h in
      let (c, d) = >>-ok _ _ b in
      let (e, f) = >>-ok _ _ d in
      let (g, i) = >>-ok _ _ f in
      let (j, k) = >>-ok _ _ i in
      let (content, l, m) = bind-ok (decoded (json.decode_create op.payload_json)) _ _ k in
      accepted_contents hash json plan op expected before_content content low auto only
        (require-ok _ _ a) (eqb→eq _ _ (require-ok _ _ e))
        ((validate_relative_vault_path-IsSafePath op.target_path).0 ((Passes-wrap _ _).0 g))
        ((validate_mutating_before_hash-IsSha256 op).0 ((Passes-wrap _ _).0 j))
        (decoded-some _ content l) m

  -- A plan that `CheckEnrichPlan` accepts is of low risk and automatic, and its only operation rewrites
  -- the expected note, on a safe path and from a hash. The body of the note keeps its hash. Of each field
  -- the last value counts: but for the seven fields that an enrichment may write it stays as it was, up
  -- to blank lines and trailing white space; tags are only added and are allowed ones, and at most three
  -- related notes are added, each a wiki link.
  pub check_enrich_plan-IsEnrichment :
      (hash : Str → Str) (json : Json) (plan : VaultPlan) (expected before_content : Str)
      → Passes (check_enrich_plan unicode vocab hash json plan expected before_content)
      → IsEnrichment unicode vocab hash json plan expected before_content
  unfolding check_enrich_plan
  check_enrich_plan-IsEnrichment hash json plan expected before_content h =
      let (a, b) = >>-ok _ _ h in
      let (c, d) = >>-ok _ _ b in
      let (op, e, f) = bind-ok (one_operation plan.operations) _ _ d in
      accepted_operation hash json plan op expected before_content (require-ok _ _ a)
        (refuse-ok _ _ c) (one_operation-only plan.operations op e) f
