-- ===== src/Lib.antt =====
-- A verification library for PBooru, an image board: the rules of its tags, its posts and their
-- metadata, the search for posts, its comics, its duplicates and the search for them, its alternatives,
-- its logs, its storage, its cache, its migrations and its sessions, translated from the Go code under
-- DataManager/ and from handlers/paginator/.
--
-- Parts and files:
-- - Prelude, Text, Maps, LinkedList, Ints, Rows, Database and Sets are shared. Rows has tables of rows
--   with a serial id, and the replay of a log of them; Ints has Go's signed numbers. Database has the
--   clauses of the SQL statements on tables of two columns; Sets is the interface of
--   github.com/kycklingar/set, and LinkedList is Go's container/list. Numbers are ℕ: the code counts
--   rows and compares ids, and neither comes near the bounds of a machine word.
-- - Tags/Syntax: `Tag`, `String`, `EditString`, `Escaped`, `parse` (DataManager/tags.go),
--   `parseTags` (DataManager/tag_set.go), and the template `printTags` (out/templates/post.html).
--   Tags/TextSets is the interface of the sets that compare tags by text (DataManager/tag_set.go).
-- - Tags/Family, Tags/Store: `tagSetChain` (DataManager/tag_set_q.go), `aliasedTo`
--   (DataManager/alias.go) and `multiLogStmtFromSet` (DataManager/tag_log.go).
-- - Tags/Alias: `AliasTags` and `UnaliasTags` (DataManager/alias.go), which call Family and Store.
-- - Tags/Parent: `ParentTags` and `UnparentTags` (DataManager/parent.go), which call them too.
-- - PostTags: `AlterPostTags` and `AlterManyPostTags` (DataManager/post_tags.go), which call Family and
--   Store; PostTags itself has the statements that Duplicates and Alts use too. `AlterPostTags` compares
--   its sets by the text of the tags, as the code does.
-- - Alts: `SetAlts` and `SplitAlts` (DataManager/alts.go), with the groups of Duplicates/Moves.
-- - Apples: DataManager/dupgen.go. Apples has the perceptual hashes, Apples/Grow the statements on the
--   table apple_tree that Duplicates/Moves declares: `generateAppleTree`, `GeneratePearsTx`,
--   `RecalculateAppletree`, `PluckApple`, and `FindSimilar` of DataManager/posts.go.
-- - Log: `UserActions` (DataManager/log.go), which runs the actions of the parts above and writes what
--   they log. Log/Told says what the actions of a run tell their log, apart from the code.
-- - Storage: DataManager/storage/pinstore.go and pgrooter.go. The requests of IPFS are parameters.
-- - Cache: DataManager/cache/generic_cache.go, over LinkedList.
-- - Duplicates: `AssignDuplicates` (DataManager/duplicates.go) in its steps: `upgradeDupe`,
--   `conflicts` and `updateAndInsert` in Duplicates itself; `moveVotes`, `movePoolPosts`, `updateAlts`
--   and `updateAppleTrees` in Duplicates/Moves; `moveTags` in Duplicates/TagMove, which works on the
--   tables of Tags/Store; `updateDupeReports` in Duplicates/Reports.
-- - Posts: the tables of posts and `Remove` (DataManager/posts.go). Posts/Search has the query of
--   DataManager/post_search.go and `Search2` with its order, its pages and its total, which is cached in
--   search_count_cache; Posts/OrderBy is the interface of the database's ORDER BY; Posts/Counts has the
--   cached counts. Posts/Show and Posts/Sizes have `ClosestThumbnail` and `SizePretty`.
-- - Metadata: `PostAddMetaData`, `PostRemoveMetaData` and `PostChangeDescription`
--   (DataManager/posts_modify.go) with their logs, and `moveMetadata` and `moveDescription`, the steps of
--   `AssignDuplicates` that use them.
-- - Comics: DataManager/comic.go, chapter.go and comic_page.go (Comics/Actions) with the tables that
--   they log to (comic_log.go, chapter_log.go, comic_page_log.go), and `replaceComicPages` of
--   `AssignDuplicates`. Comics/History replays the logs.
-- - Paginator: handlers/paginator/paginator.go.
-- - Migrator: DataManager/migrator/migrate.go, queue.go and file.go, and the loop of `update`
--   (DataManager/datamanager.go).
-- - Session: DataManager/session/keeper.go and session.go, over the table of
--   DataManager/user/session_store.go.
-- - The modules named Examples run the theorems at small inputs.
--
-- A transaction is a function from the tables to the tables or an error: an error carries no tables,
-- since the caller rolls back. A statement fails only where a key of the schema refuses a row, and
-- in the migrator where the database parameter says so.
--
-- Fuel: `parents` has the number of rows of parent_tags and two rounds more; each round but the first
-- and the last queries the parent of some row for the first time.
-- `enqueueFile` has the depth of its calls as fuel; a rank of the files bounds it.
-- `GeneratePearsTx` has a round for each batch of 10,000 ids up to the greatest, and one to end the
-- loop.
-- `purge` has the number of elements of the cache as fuel, of which each round removes one.
-- `SizePretty` has six rounds, since its table of units has six entries.
--
-- Not modelled: the log tables of tags, duplicates and alternatives, and reading any log; saving and
-- looking up tag names; connection errors; `moveViews` and `removeInferiors` of `AssignDuplicates`;
-- creating posts, votes and views; goroutines (the pairs that they send are inserted one after another)
-- and mutexes (calls come one after another); duplicate reports but for their update; archives, users,
-- pools, comments and reports, which are queries and single-row updates for the most part; and HTTP.
pub mod PostTags
pub mod Posts
pub mod Paginator
pub mod Metadata
pub mod Rows
pub mod Ints
pub mod Comics
pub mod Apples
pub mod Storage
pub mod Alts
pub mod Log
pub mod Cache
pub mod Prelude
pub mod Database
pub mod Sets
pub mod Text
pub mod Maps
pub mod LinkedList
pub mod Session
pub mod Tags
pub mod Migrator
pub mod Duplicates
