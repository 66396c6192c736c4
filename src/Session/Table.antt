-- ===== src/Session/Table.antt =====
-- The table `sessions` as DataManager/user/session_store.go reads and writes it.
use pbooru.Prelude.{ℕ, ◌+◌, ◌*◌, List, [], ◌∷◌, Option, none, some, ltb, if◌then◌else◌}
use pbooru.Text.{Text, text_eq}
use pbooru.Maps
use pbooru.Maps.{find}

-- a row of `sessions`: user_id and expire
pub record Row : Type 0 where
  pub user_id : ℕ
  pub expire : ℕ

abbrev pub thirty_days : ℕ
thirty_days = 30 * 24 * 3600

-- Retrieve: the expiration is not looked at
unfoldable pub retrieve : List (Text × Row) → Text → Option ℕ
unfolding find
retrieve rows key = elim (find rows key) [ none ↦ none | some row ↦ some row.user_id ]

unfoldable pub erase : List (Text × Row) → Text → List (Text × Row)
erase rows key = Maps.delete rows key

unfoldable pub refresh : ℕ → List (Text × Row) → Text → List (Text × Row)
refresh now [] key = []
refresh now ((k, row) ∷ rows) key =
    (k, (if text_eq k key then record row { expire = now + thirty_days } else row))
    ∷ refresh now rows key

unfoldable pub update_expiration : ℕ → List (Text × Row) → List Text → List (Text × Row)
unfolding refresh
update_expiration now rows [] = rows
update_expiration now rows (key ∷ keys) = update_expiration now (refresh now rows key) keys

unfoldable pub collect_expired : ℕ → List (Text × Row) → List (Text × Row)
collect_expired now [] = []
collect_expired now ((k, row) ∷ rows) =
    let rest = collect_expired now rows in if ltb row.expire now then rest else (k, row) ∷ rest
