-- ===== src/Tags/Alias/Run.antt =====
-- A successful `alias_tags` taken apart: the sets that it computes and what each table becomes.
use pbooru.Prelude.{
  ℕ, ◌≡◌, sym, true, not, ◌&&◌, List, [], ◌∷◌, arith, mem, is_empty, keep, Bool-cases, inl, inr,
}
use mathlib.Core.Path.{subst}
use pbooru.Sets.{SetLib}
use pbooru.Database.{insert_rows}
use pbooru.Tags.Error.{ok, >>=-eq-ok}
use pbooru.Tags.Family.{aliases}
use pbooru.Tags.Store.{Store, MultiLog, recount_rows, recount}
use pbooru.Tags.Store.Counts.{purge_count_cache-SameTags}
use pbooru.Tags.Alias.{
  AliasLog, update_fst, update_snd, update_dns, update_aliases, inherited, is_stale, update_parents,
  insert_aliases, ptm_targets, move_posts, update_ptm, write_alias, alias_to, alias_tags,
}

module _ (S : SetLib) where
  open S use {Set, elems, union, diff, mem_diff}

  pub record IsWritten (from tos : Set) (to : ℕ) (s s' : Store) : Type 0 where
    pub targets : ptm_targets S from to s ≡ ok tos
    pub posts : s'.post_tag_mappings ≡ move_posts S (elems from) (elems tos) s.post_tag_mappings
    pub counts : s'.tags ≡ recount_rows (elems (union tos from)) s'.post_tag_mappings s.tags
    pub aliased : insert_aliases (elems from) to (update_snd (elems from) to s.alias) ≡ ok s'.alias
    pub family :
        s'.parent_tags
        ≡ keep
            (λ row. not (is_stale (elems from) row))
            (insert_rows (inherited (elems from) to s.parent_tags) s.parent_tags)
    pub dns : s'.dns_tag_mapping ≡ update_fst (elems from) to s.dns_tag_mapping

  pub record Run (fromts tots : Set) (s s' : Store) (log : AliasLog) : Type 0 where
    pub from : Set
    pub tos : Set
    pub from_log : log.from ≡ elems from
    pub resolved : mem log.to (elems (aliases S s.alias tots)) ≡ true
    pub from_mem :
        (x : ℕ)
        → mem x (elems from)
          ≡ (mem x (elems fromts) && not (mem x (elems (aliases S s.alias tots))))
    pub written : IsWritten from tos log.to s s'

  record IsMoved (from tos : Set) (to : ℕ) (s s' : Store) : Type 0 where
    targets : ptm_targets S from to s ≡ ok tos
    posts : s'.post_tag_mappings ≡ move_posts S (elems from) (elems tos) s.post_tag_mappings
    counts : s'.tags ≡ recount_rows (elems (union tos from)) s'.post_tag_mappings s.tags
    aliased : s'.alias ≡ s.alias
    family : s'.parent_tags ≡ s.parent_tags
    dns : s'.dns_tag_mapping ≡ s.dns_tag_mapping

  update_ptm_run :
      (from : Set) (to : ℕ) (s s' : Store) (logs : List MultiLog)
      → update_ptm S from to s ≡ ok (s', logs)
      → (tos : Set) × IsMoved from tos to s s'
  unfolding update_ptm recount
  update_ptm_run from to s s' logs h =
      let (tos, e, h') = >>=-eq-ok (ptm_targets S from to s) _ h in
      let all = elems (union tos from) in
      let moved = record s {
        post_tag_mappings = move_posts S (elems from) (elems tos) s.post_tag_mappings;
      } in
      let same = purge_count_cache-SameTags all (recount all moved) in
      (
        tos,
        record {
          targets = e;
          posts = ground (arith, same.posts);
          counts = ground (arith, same.posts, same.counts);
          aliased = ground (arith, same.aliased);
          family = ground (arith, same.family);
          dns = ground (arith, same.dns);
        },
      )

  write_alias_run :
      (from : Set) (to : ℕ) (s s' : Store) (log : AliasLog)
      → write_alias S from to s ≡ ok (s', log)
      → (tos : Set) × (log.from ≡ elems from) × (log.to ≡ to) × IsWritten from tos to s s'
  unfolding write_alias update_parents update_aliases update_dns
  write_alias_run from to s s' log h =
      let ((s1, logs), e1, h1) = >>=-eq-ok (update_ptm S from to s) _ h in
      let (tos, m) = update_ptm_run from to s s1 logs e1 in
      let (rows, e2, h2) = >>=-eq-ok (insert_aliases (elems from) to _) _ h1 in
      (
        tos,
        ground arith,
        ground arith,
        record {
          targets = m.targets;
          posts = ground (arith, m.posts);
          counts = ground (arith, m.counts);
          aliased = ground (arith, m.aliased, e2);
          family = ground (arith, m.family);
          dns = ground (arith, m.dns);
        },
      )

  alias_to_run :
      (fromts tos0 : Set) (xs : List ℕ) (s s' : Store) (log : AliasLog)
      → alias_to S fromts xs tos0 s ≡ ok (s', log)
      → (tos : Set) × (log.from ≡ elems (diff fromts tos0))
        × (mem log.to xs ≡ true)
        × IsWritten (diff fromts tos0) tos log.to s s'
  unfolding alias_to
  alias_to_run fromts tos0 [] s s' log h = absurd (cc)
  alias_to_run fromts tos0 (to ∷ rest) s s' log h =
      elim (Bool-cases (is_empty (elems (diff fromts tos0)))) [
        | inl e ↦ absurd (ground arith)
        | inr e ↦
            let (tos, p, q, w) = write_alias_run (diff fromts tos0) to s s' log (ground arith) in
            (tos, p, ground arith, subst (λ t. IsWritten (diff fromts tos0) tos t s s') (sym q) w)
      ]

  pub alias_tags_run :
      (fromts tots : Set) (s s' : Store) (log : AliasLog)
      → alias_tags S fromts tots s ≡ ok (s', log)
      → Run fromts tots s s' log
  unfolding alias_tags
  alias_tags_run fromts tots s s' log h =
      let tos0 = aliases S s.alias tots in
      let (tos, p, q, w) = alias_to_run fromts tos0 (elems tos0) s s' log (ground arith) in
      record {
        from = diff fromts tos0;
        tos = tos;
        from_log = p;
        resolved = q;
        from_mem = λ x. mem_diff x fromts tos0;
        written = w;
      }
