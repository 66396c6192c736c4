-- ===== src/Metadata/Merged.antt =====
-- Which metadata each post has after moveMetadata (DataManager/duplicates.go).
use mathlib.Core.List.{append_assoc}
use pbooru.Log.{Logger, run_actions}
use pbooru.Metadata.Facts.{has}
use pbooru.Prelude.{
  ==_iff, Bool, List, [], ap, arith, false, mem, not, ok, refl, true, ℕ, ◌&&◌, ◌++◌, ◌==◌, ◌||◌,
  ◌∙◌, ◌∷◌, ◌≡◌,
}
use pbooru.Metadata.{
  MetaData, State, removals, additions, q_metadata, Error, MetaAction, merged, remove_all,
  move_metadata,
}
use pbooru.Metadata.Moves.{
  mem_data, all_known, mem_data-append, all_known-append, removed_all, added_all, has-removed_all,
  has-added_all, Loggers, run-removals, run-additions, q_metadata-known, has_names, mem-q_metadata,
}

cleared : List ℕ → State → State → State
cleared [] s0 s = s
cleared (q ∷ inferior) s0 s = cleared inferior s0 (removed_all q (q_metadata q s0) s)

pub any_has : List ℕ → MetaData → State → Bool
any_has [] m s = false
any_has (q ∷ inferior) m s = has q m s || any_has inferior m s

has-cleared :
    (x : ℕ) (m : MetaData) (inferior : List ℕ) (s0 s : State)
    → has_names s0.post_metadata s0.namespaces ≡ true
    → has x m (cleared inferior s0 s) ≡ (has x m s && not (mem x inferior && has x m s0))
unfolding cleared
has-cleared x m [] s0 s h = ground arith
has-cleared x m (q ∷ inferior) s0 s h = ground (
  arith,
  has-cleared x m inferior s0 (removed_all q (q_metadata q s0) s) h,
  has-removed_all x q m (q_metadata q s0) s,
  mem-q_metadata q m s0 h,
  ==_iff x q,
  λ (e : x ≡ q). ap (λ z. has z m s0) e,
)

mem-merged :
    (m : MetaData) (inferior : List ℕ) (s : State)
    → has_names s.post_metadata s.namespaces ≡ true
    → mem_data m (merged inferior s) ≡ any_has inferior m s
unfolding merged any_has
mem-merged m [] s h = unfold mem_data in refl
mem-merged m (q ∷ inferior) s h = ground (
  arith,
  mem_data-append m (q_metadata q s) (merged inferior s),
  mem-q_metadata q m s h,
  mem-merged m inferior s h,
)

merged-known : (inferior : List ℕ) (s : State) → all_known (merged inferior s) s.namespaces ≡ true
unfolding merged
merged-known [] s = unfold all_known in refl
merged-known (q ∷ inferior) s = ground (
  arith,
  all_known-append (q_metadata q s) (merged inferior s) s.namespaces,
  q_metadata-known q s,
  merged-known inferior s,
)

run-cleared :
    (inferior : List ℕ) (s0 s : State) (acts : List MetaAction) (logs : Loggers)
    → s.namespaces ≡ s0.namespaces
    → ((cleared inferior s0 s).namespaces ≡ s0.namespaces)
      × ((logs' : Loggers) × (run_actions (remove_all inferior s0 ++ acts) s logs
            ≡ run_actions acts (cleared inferior s0 s) logs'))
unfolding remove_all cleared
run-cleared [] s0 s acts logs e = (e, (logs, refl))
run-cleared (q ∷ inferior) s0 s acts logs e =
    let (n, (logs1, r1)) =
      run-removals q (q_metadata q s0) (remove_all inferior s0 ++ acts) s logs
        (ap (all_known (q_metadata q s0)) e ∙ q_metadata-known q s0) in
    let (n2, (logs2, r2)) =
      run-cleared inferior s0 (removed_all q (q_metadata q s0) s) acts logs1 (n ∙ e) in
    (
      n2,
      (
        logs2,
        ap (λ as'. run_actions as' s logs)
              (append_assoc (removals q (q_metadata q s0)) (remove_all inferior s0) acts)
            ∙ r1
            ∙ r2,
      ),
    )

-- If the namespace of every metadata is in its table, the actions that moveMetadata adds run without an
-- error. After them the superior post has each date and each metadata that it or an inferior had, the
-- inferiors that are not the superior have none left, and any other post has what it had.
pub move_metadata_exact :
    (p : ℕ) (inferior : List ℕ) (s : State)
    → has_names s.post_metadata s.namespaces ≡ true
    → (s' : State) × (logs : List (Logger State Error)) × (run_actions
          (move_metadata p inferior s)
          s
          []
        ≡ ok (s', logs))
      × ((x : ℕ) (m : MetaData)
          → has x m s' ≡ (x == p && any_has inferior m s || has x m s && not (mem x inferior)))
unfolding move_metadata
move_metadata_exact p inferior s h =
    let adds = additions p (merged inferior s) in
    let (n, (logs1, r1)) = run-cleared inferior s s adds [] refl in
    let (logs2, r2) =
      run-additions p (merged inferior s) (cleared inferior s s) logs1
        (ap (all_known (merged inferior s)) n ∙ merged-known inferior s) in
    (
      added_all p (merged inferior s) (cleared inferior s s),
      logs2,
      r1 ∙ r2,
      λ x m. ground (
        arith,
        has-added_all x p m (merged inferior s) (cleared inferior s s),
        mem-merged m inferior s h,
        has-cleared x m inferior s s h,
      ),
    )
