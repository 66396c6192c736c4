-- ===== src/Tags/Alias/Resolution.antt =====
-- How `AliasTags` changes what a tag resolves to.
use pbooru.Prelude.{
  ℕ, ◌≡◌, refl, sym, ◌∙◌, ap, true, false, List, [], ◌∷◌, ◌⊎◌, arith, mem, ◌==◌, if◌then◌else◌,
  Bool-cases, inl, inr, ==_iff,
}
use pbooru.Sets.{SetLib}
use pbooru.Database.{Table, has_key}
use pbooru.Tags.Error.{ok}
use pbooru.Tags.Family.{aliased_to, add_aliased, aliases}
use pbooru.Tags.Store.{Store}
use pbooru.Tags.Alias.{AliasLog, set_snd, update_snd, insert_aliases, alias_tags}
use pbooru.Tags.Alias.Run.{Run, alias_tags_run}

pub aliased_to-no_key : (t : Table) (x : ℕ) → has_key x t ≡ false → aliased_to t x ≡ x
unfolding aliased_to has_key
aliased_to-no_key [] x h = refl
aliased_to-no_key ((a, b) ∷ t) x h = ground (arith, aliased_to-no_key t x)

has_key-set_snd : (x t to : ℕ) (rows : Table) → has_key x (set_snd t to rows) ≡ has_key x rows
unfolding has_key set_snd
has_key-set_snd x t to [] = refl
has_key-set_snd x t to ((a, b) ∷ rows) = ground (arith, has_key-set_snd x t to rows)

has_key-update_snd :
    (x : ℕ) (from : List ℕ) (to : ℕ) (rows : Table)
    → has_key x (update_snd from to rows) ≡ has_key x rows
unfolding update_snd
has_key-update_snd x [] to rows = refl
has_key-update_snd x (t ∷ from) to rows =
    has_key-update_snd x from to (set_snd t to rows) ∙ has_key-set_snd x t to rows

aliased_to-set_snd :
    (x t to : ℕ) (rows : Table)
    → has_key x rows ≡ true
    → aliased_to (set_snd t to rows) x ≡ (if aliased_to rows x == t then to else aliased_to rows x)
unfolding aliased_to has_key set_snd
aliased_to-set_snd x t to [] h = cc
aliased_to-set_snd x t to ((a, b) ∷ rows) h = ground (arith, aliased_to-set_snd x t to rows)

aliased_to-update_snd :
    (x : ℕ) (from : List ℕ) (to : ℕ) (rows : Table)
    → has_key x rows ≡ true
    → mem to from ≡ false
    → aliased_to (update_snd from to rows) x
      ≡ (if mem (aliased_to rows x) from then to else aliased_to rows x)
unfolding update_snd
aliased_to-update_snd x [] to rows h n = refl
aliased_to-update_snd x (t ∷ from) to rows h n = ground (
  arith,
  aliased_to-update_snd x from to (set_snd t to rows) (has_key-set_snd x t to rows ∙ h),
  aliased_to-set_snd x t to rows h,
)

-- a successful insert meets no row for its tags
insert_aliases-has_key :
    (from : List ℕ) (to x : ℕ) (rows rows' : Table)
    → insert_aliases from to rows ≡ ok rows'
    → mem x from ≡ true
    → has_key x rows ≡ false
unfolding insert_aliases has_key
insert_aliases-has_key [] to x rows rows' h m = cc
insert_aliases-has_key (t ∷ from) to x rows rows' h m = ground (
  arith,
  insert_aliases-has_key from to x ((t, to) ∷ rows) rows',
  ==_iff x t,
  λ (e : x ≡ t). ap (λ z. has_key z rows) e,
)

aliased_to-insert_aliases :
    (from : List ℕ) (to x : ℕ) (rows rows' : Table)
    → insert_aliases from to rows ≡ ok rows'
    → aliased_to rows' x ≡ (if mem x from then to else aliased_to rows x)
unfolding insert_aliases aliased_to
aliased_to-insert_aliases [] to x rows rows' h = cc
aliased_to-insert_aliases (t ∷ from) to x rows rows' h =
    ground (arith, aliased_to-insert_aliases from to x ((t, to) ∷ rows) rows')

-- an alias's target is no alias: a second look changes nothing
abbrev pub IsFlat : Table → Type 0
IsFlat alias = (x : ℕ) → aliased_to alias (aliased_to alias x) ≡ aliased_to alias x

module _ (S : SetLib) where
  open S use {Set, elems, add, new, elems_new, mem_add}

  add_aliased_sound :
      (alias : Table) (x : ℕ) (tags : List ℕ) (acc : Set)
      → mem x (elems (add_aliased S alias tags acc)) ≡ true
      → (mem x (elems acc) ≡ true) ⊎ ((t : ℕ) × (mem t tags ≡ true) × (aliased_to alias t ≡ x))
  unfolding add_aliased
  add_aliased_sound alias x [] acc h = inl h
  add_aliased_sound alias x (t ∷ tags) acc h =
      elim (add_aliased_sound alias x tags (add (aliased_to alias t) acc) h) [
        | inl m ↦ elim (Bool-cases (x == aliased_to alias t)) [
          | inl e ↦ inr (t, ground arith, sym ((==_iff x (aliased_to alias t)).0 e))
          | inr e ↦ inl (ground (arith, mem_add x (aliased_to alias t) acc))
        ]
        | inr (u, m, e) ↦ inr (u, ground arith, e)
      ]

  pub aliases_sound :
      (alias : Table) (set : Set) (x : ℕ)
      → mem x (elems (aliases S alias set)) ≡ true
      → (t : ℕ) × (mem t (elems set) ≡ true) × (aliased_to alias t ≡ x)
  unfolding aliases
  aliases_sound alias set x h = elim (add_aliased_sound alias x (elems set) new h) [
    | inl m ↦ absurd (ground (arith, ap (mem x) elems_new))
    | inr found ↦ found
  ]

  module _ (fromts tots : Set) (s s' : Store) (log : AliasLog)
      (done : alias_tags S fromts tots s ≡ ok (s', log)) where
    run : Run S fromts tots s s' log
    run = alias_tags_run S fromts tots s s' log done

    pub target-fresh : mem log.to log.from ≡ false
    target-fresh = ground (arith, run.resolved, run.from_mem log.to, ap (mem log.to) run.from_log)

    pub from-no_key : (x : ℕ) → mem x log.from ≡ true → has_key x s.alias ≡ false
    from-no_key x m = ground (
      arith,
      ap (mem x) run.from_log,
      insert_aliases-has_key (elems run.from) log.to x (update_snd (elems run.from) log.to s.alias)
          s'.alias run.written.aliased,
      has_key-update_snd x (elems run.from) log.to s.alias,
    )

    pub alias_tags-aliased_to :
        (x : ℕ)
        → aliased_to s'.alias x
          ≡ (if mem (aliased_to s.alias x) log.from then log.to else aliased_to s.alias x)
    alias_tags-aliased_to x = elim (Bool-cases (has_key x s.alias)) [
      | inl key ↦ ground (
        arith,
        aliased_to-insert_aliases (elems run.from) log.to x
            (update_snd (elems run.from) log.to s.alias) s'.alias run.written.aliased,
        aliased_to-update_snd x (elems run.from) log.to s.alias key,
        from-no_key x,
        target-fresh,
        ap (mem x) run.from_log,
        ap (mem log.to) run.from_log,
        ap (mem (aliased_to s.alias x)) run.from_log,
      )
      | inr key ↦ ground (
        arith,
        aliased_to-insert_aliases (elems run.from) log.to x
            (update_snd (elems run.from) log.to s.alias) s'.alias run.written.aliased,
        aliased_to-no_key s.alias x key,
        aliased_to-no_key (update_snd (elems run.from) log.to s.alias) x
            (has_key-update_snd x (elems run.from) log.to s.alias ∙ key),
        ap (mem x) run.from_log,
        ap (λ z. mem z log.from) (aliased_to-no_key s.alias x key),
      )
    ]

    -- A successful `AliasTags` keeps the alias table flat: what a tag resolves to resolves to itself.
    pub alias_tags-IsFlat : IsFlat s.alias → IsFlat s'.alias
    alias_tags-IsFlat flat x =
        let (t, _, e) = aliases_sound s.alias tots log.to run.resolved in
        let root : aliased_to s.alias log.to ≡ log.to =
          ap (aliased_to s.alias) (sym e) ∙ flat t ∙ e in
        elim (Bool-cases (mem (aliased_to s.alias x) log.from)) [
          | inl moved ↦
              let now : aliased_to s'.alias x ≡ log.to = ground (arith, alias_tags-aliased_to x) in
              ap (aliased_to s'.alias) now
              ∙ ground (
                arith,
                alias_tags-aliased_to log.to,
                root,
                target-fresh,
                ap (λ z. mem z log.from) root,
              )
              ∙ sym now
          | inr kept ↦
              let now : aliased_to s'.alias x ≡ aliased_to s.alias x =
                ground (arith, alias_tags-aliased_to x) in
              ap (aliased_to s'.alias) now
              ∙ ground (
                arith,
                alias_tags-aliased_to (aliased_to s.alias x),
                flat x,
                ap (λ z. mem z log.from) (flat x),
              )
              ∙ sym now
        ]
