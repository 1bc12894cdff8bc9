-- ===== src/Lib.antt =====
-- aibris finds the debris that coding agents and build tools leave in a home directory (worktrees,
-- caches, agent state) and deletes what is safe to delete. A scan gives items; the clean command
-- takes a route, filters the items by a policy, reduces them to physical targets, protects active
-- worktrees and agent state among them, and lets the user review worktrees before anything goes.
-- Before a target goes, the overlap barrier revalidates it, and every removal passes one last gate.
--
-- The files and what they model:
-- - Prelude: texts as lists of bytes, integers, the tests, stable sorting and lemmas on lists.
-- - Types: internal/types/types.go, the items, their classes and the options.
-- - FilePath: the paths of Go's path/filepath on Unix, as the program calls them, and the
--   containment tests of internal/cleaner/overlap.go and internal/adapter/util.go. FilePath/Segments,
--   FilePath/Containment and FilePath/Depth hold the lemmas on canonical paths.
-- - Cleaner/Items, Cleaner/Targets, Cleaner/Owner: internal/cleaner/targets.go. NormalizeTargets is
--   the loop `collect` over the items, which merges aliases by key, then `keep_outer`, which drops
--   nested targets; ApplyPhysicalOwnerSafety filters what is left against the inventory.
-- - Cleaner/Eligibility: internal/cleaner/eligibility.go. Cleaner/SafePath: the gate of
--   internal/cleaner/cleaner_helpers.go that every deletion passes.
-- - Cleaner/Overlap: internal/cleaner/overlap.go, overlap_plan.go and overlap_identity.go.
--   BuildOverlapSafetyPlan reads the agent state of a scan (Overlap/Entries), builds a component for
--   each candidate (Overlap/Component, Overlap/Plan) and compares paths by identity
--   (Overlap/Identity). Overlap/Mutation is overlap_mutation.go and overlap_mutation_helpers.go:
--   ValidateBeforeMutationWithReport revalidates the obligations of a component right before its
--   target is mutated. Overlap/Memo is overlap_runtime.go, Overlap/Rows is overlap_component.go and
--   Overlap/Runtime is overlap_safety_runtime.go: the selection that the clean command works on.
-- - Worktree: the data of internal/worktree/units.go and git_evidence.go. Worktree/Locks is
--   policy_helpers.go, Worktree/Retention and Worktree/Policy are policy.go and
--   units_uniqueness.go, Worktree/Display and Worktree/Guided are guided.go.
--   Worktree/Repositories follows the units into their groups, and Worktree/Survivors draws from it
--   what a plan leaves. Worktree/Guided/Selection has the reachability relation of a review.
-- - SafeDelete: internal/safedelete/safedelete.go. SafeDelete/Canonical resolves a path part by part
--   (canonicalize) and places it in the home (homeRel); SafeDelete/Identity compares files through
--   the ancestors of a path (SafeDelete/Folding is about their case); SafeDelete/Gate is Check, with the protected locations, and the
--   deletions behind it.
-- - Exclude: internal/exclude/exclude.go, what patterns resolve to. Exclude/Patterns is New,
--   Exclude/Matches is Match and ProtectMatch, Exclude/Ignore the ignore files. Exclude/Induction has
--   the induction over add that the proofs of Exclude/Scopes share.
-- - Command/Route: internal/cleancommand/route.go. Command/Selectors: cmd/clean_parse.go.
-- - Examples in each part: concrete runs and tests.
--
-- Conventions. Sizes, times and durations are integers without a bound, times in nanoseconds from
-- Go's zero time. A map is an association list, or the list of its keys where only membership is
-- asked. An error is a case of a data type in place of its text. sort.Slice is a stable insertion
-- sort. A mutable state is passed on.
--
-- Parameters. The file system (os.Lstat, os.Readlink, os.Stat, filepath.EvalSymlinks), the cache
-- catalog and the devices, the context, the lookup of revalidators, the probe of a default branch,
-- the parser of ages and the matcher of protected paths are arguments; so are os.RemoveAll, filepath.Glob,
-- os.ReadDir, os.ReadFile, strings.ToLower, the answers of revalidators and the decimal numerals of
-- fmt. The barrier reads a disk that may change at each step; the deletion gate and the overlap plan
-- read one that stays as it is throughout a call. What is assumed of a parameter is a hypothesis:
-- EvalSymlinks gives an absolute path for an absolute path, a cancelled context stays cancelled, and
-- strings.ToLower works on the parts between separators one by one.
--
-- Fuel. Resolving a path with an unresolved suffix walks up its ancestors, of which it has fewer
-- than bytes, and follows at most 256 links, the source's own limit; the model answers as the source
-- does beyond it. The deletion gate and the exclusions climb ancestors in the same way; the gate
-- follows at most 255 links.
-- All other loops are structural.
--
-- Not modelled: the scan and its providers, Git and activity evidence, the building of units, the
-- walk of a removal, receipts, JSON documents, terminal input and output, and the branches for
-- Windows. They run other programs, walk the disk or print.
pub mod Cleaner
pub mod Command
pub mod Exclude
pub mod FilePath
pub mod Prelude
pub mod SafeDelete
pub mod Types
pub mod Worktree
