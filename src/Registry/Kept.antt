-- ===== src/Registry/Kept.antt =====
-- Pruning keeps what runs, what is being built, and the rollback targets.
use text.Mathlib.Text.{◌==◌ as str_eq}
use text.Mathlib.TextEquality.{eq_iff}
use kubwave.Common.{
  ℕ, suc, ◌≡◌, suc, ◌∙◌, ap, refl, sym, inl, inr, String, Bool, true, false, ◌&&◌, ◌||◌, Option,
  none, some, List, [], ◌∷◌, ◌++◌, arith, if◌then◌else◌, any, select_where, is_empty, Bool-cases,
}
use kubwave.Store.{is_build_active}
use kubwave.Registry.Prune.{
  PruneRow, takes_slot, has_tag, tags_of, keep_ids, keep_tags, compute_keep_tags, is_protected,
  select_tags_to_delete, Repo, add_digest, protected_digests, delete_digest, delete_requests,
  requests_with, prune_service_repo,
}

has_tag_refl : (d : String) → str_eq d d ≡ true
has_tag_refl d = (eq_iff d d).1 refl

delete_digest-protected :
    (protected rest : List String) (o : Option String) (d : String)
    → has_tag protected d ≡ true
    → has_tag rest d ≡ false
    → has_tag (delete_digest protected o rest) d ≡ false
delete_digest-protected protected rest none d h k = k
delete_digest-protected protected rest (some e) d h k = elim (Bool-cases (str_eq e d)) [
  | inl same ↦ rw ((eq_iff e d).0 same, h) (ground arith)
  | inr other ↦ ground arith
]

-- Whatever is protected has no request.
delete_requests-protected :
    (repo : Repo) (protected tags : List String) (d : String)
    → has_tag protected d ≡ true
    → has_tag (delete_requests repo protected tags) d ≡ false
unfolding delete_requests
delete_requests-protected repo protected [] d h = refl
delete_requests-protected repo protected (tag ∷ tags) d h =
    delete_digest-protected protected (delete_requests repo protected tags) (repo.digest_of tag) d h
      (delete_requests-protected repo protected tags d h)

add_digest-has :
    (o : Option String) (rest : Option (List String)) (ds : List String)
    → add_digest o rest ≡ some ds
    → (d : String) × (o ≡ some d) × (ts : List String) × (rest ≡ some ts) × (ds ≡ d ∷ ts)
add_digest-has none rest ds e = absurd (cc)
add_digest-has (some d) none ds e = absurd (cc)
add_digest-has (some d) (some ts) ds e = elim (Bool-cases (is_empty d)) [
  | inl empty ↦ absurd (ground arith)
  | inr full ↦ (d, refl, ts, refl, ground arith)
]

-- The digest of a tag that must stay is protected.
protected_digests-has :
    (repo : Repo) (tags ds : List String) (tag d : String)
    → protected_digests repo tags ≡ some ds
    → has_tag tags tag ≡ true
    → repo.digest_of tag ≡ some d
    → has_tag ds d ≡ true
unfolding protected_digests
protected_digests-has repo [] ds tag d e h k = absurd (cc)
protected_digests-has repo (t ∷ tags) ds tag d e h k =
    let (x, at, ts, more, split) =
      add_digest-has (repo.digest_of t) (protected_digests repo tags) ds e in
    elim (Bool-cases (str_eq t tag)) [
      | inl same ↦
          let hit : x ≡ d = some_eq x d (sym at ∙ ap repo.digest_of ((eq_iff t tag).0 same) ∙ k) in
          rw (split, hit, has_tag_refl d) refl
      | inr other ↦
          rw split (ground (arith, protected_digests-has repo tags ts tag d more (ground arith) k))
    ]
  where
    some_eq : (x y : String) → some x ≡ some y → x ≡ y
    some_eq x y e = cc

has_tag-select :
    (p : String → Bool) (tags : List String) (tag : String)
    → has_tag tags tag ≡ true
    → p tag ≡ true
    → has_tag (select_where p tags) tag ≡ true
has_tag-select p [] tag h k = h
has_tag-select p (t ∷ tags) tag h k = elim (Bool-cases (str_eq t tag)) [
  | inl same ↦ rw ((eq_iff t tag).0 same, k, has_tag_refl tag) refl
  | inr other ↦ ground (arith, has_tag-select p tags tag (ground arith) k)
]

requests_with-kept :
    (repo : Repo) (doomed tags : List String) (o : Option (List String)) (tag d : String)
    → protected_digests repo tags ≡ o
    → has_tag tags tag ≡ true
    → repo.digest_of tag ≡ some d
    → has_tag (requests_with repo doomed o) d ≡ false
requests_with-kept repo doomed tags none tag d e h k = refl
requests_with-kept repo doomed tags (some ds) tag d e h k =
    delete_requests-protected repo ds doomed d (protected_digests-has repo tags ds tag d e h k)

-- A pass never asks to delete the manifest that a listed tag names which is kept or is the
-- cache's, even where a superseded tag names the same manifest.
pub prune_service_repo-kept :
    (repo : Repo) (keep : List String) (tag d : String)
    → has_tag repo.tags tag ≡ true
    → is_protected keep tag ≡ true
    → repo.digest_of tag ≡ some d
    → has_tag (prune_service_repo repo keep) d ≡ false
unfolding prune_service_repo
prune_service_repo-kept repo keep tag d h k e =
    requests_with-kept repo (select_tags_to_delete repo.tags keep)
      (select_where (is_protected keep) repo.tags)
      (protected_digests repo (select_where (is_protected keep) repo.tags)) tag d refl
      (has_tag-select (is_protected keep) repo.tags tag h k) e

pub has_tag-append :
    (xs ys : List String) (t : String) → has_tag (xs ++ ys) t ≡ (has_tag xs t || has_tag ys t)
has_tag-append [] ys t = refl
has_tag-append (x ∷ xs) ys t = ground (arith, has_tag-append xs ys t)

keep_tags-more :
    (rows : List PruneRow) (keep : List String) (t : String)
    → has_tag keep t ≡ true
    → has_tag (keep_tags rows keep) t ≡ true
unfolding keep_tags
keep_tags-more [] keep t h = h
keep_tags-more (row ∷ rows) keep t h = elim (Bool-cases (has_tag keep row.id)) [
  | inl e ↦ rw e (
      keep_tags-more rows _ t (
        ground (
          arith,
          has_tag-append (tags_of row.image_tag) (tags_of row.cache_tag ++ keep) t,
          has_tag-append (tags_of row.cache_tag) keep t,
        )))
  | inr e ↦ rw e (keep_tags-more rows keep t h)
]

keep_tags-image :
    (rows : List PruneRow) (keep : List String) (id t : String)
    → has_tag keep id ≡ true
    → any (λ r. str_eq r.id id && has_tag (tags_of r.image_tag) t) rows ≡ true
    → has_tag (keep_tags rows keep) t ≡ true
unfolding keep_tags
keep_tags-image [] keep id t h e = absurd (cc)
keep_tags-image (row ∷ rows) keep id t h e =
    elim (Bool-cases (str_eq row.id id && has_tag (tags_of row.image_tag) t)) [
      | inl hit ↦
          let same : row.id ≡ id = (eq_iff row.id id).0 (ground arith) in
          let kept : has_tag keep row.id ≡ true = rw same h in
          rw kept (
            keep_tags-more rows _ t (
              ground
                (arith, has_tag-append (tags_of row.image_tag) (tags_of row.cache_tag ++ keep) t)))
      | inr miss ↦ keep_tags-image rows _ id t (grown (has_tag keep row.id)) (ground arith)
    ]
  where
    grown :
        (b : Bool)
        → has_tag (if b then tags_of row.image_tag ++ tags_of row.cache_tag ++ keep else keep) id
          ≡ true
    grown true = ground (
      arith,
      has_tag-append (tags_of row.image_tag) (tags_of row.cache_tag ++ keep) id,
      has_tag-append (tags_of row.cache_tag) keep id,
    )
    grown false = h

keep_ids-active :
    (kept limit : ℕ) (rows : List PruneRow) (id : String)
    → any (λ r. str_eq r.id id && is_build_active r.status) rows ≡ true
    → has_tag (keep_ids kept limit rows) id ≡ true
unfolding keep_ids
keep_ids-active kept limit [] id h = absurd (cc)
keep_ids-active kept limit (row ∷ rows) id h =
    ground
      (arith, keep_ids-active (if takes_slot kept limit row then suc kept else kept) limit rows id)

pub compute_keep_tags-id :
    (rows : List PruneRow) (limit : ℕ) (id : String)
    → any (λ r. str_eq r.id id && is_build_active r.status) rows ≡ true
    → has_tag (compute_keep_tags rows limit) id ≡ true
unfolding compute_keep_tags
compute_keep_tags-id rows limit id live =
    keep_tags-more rows (keep_ids 0 limit rows) id (keep_ids-active 0 limit rows id live)

-- A deployment that is queued, deploying or being canceled keeps its own tag and the tag of an
-- image recorded for it, whatever the number of rollback targets that are kept.
pub compute_keep_tags-active :
    (rows : List PruneRow) (limit : ℕ) (id t : String)
    → any (λ r. str_eq r.id id && is_build_active r.status) rows ≡ true
    → any (λ r. str_eq r.id id && has_tag (tags_of r.image_tag) t) rows ≡ true
    → (has_tag (compute_keep_tags rows limit) id ≡ true)
      × (has_tag (compute_keep_tags rows limit) t ≡ true)
unfolding compute_keep_tags
compute_keep_tags-active rows limit id t live image =
    let kept = keep_ids-active 0 limit rows id live in
    (
      keep_tags-more rows (keep_ids 0 limit rows) id kept,
      keep_tags-image rows (keep_ids 0 limit rows) id t kept image,
    )
