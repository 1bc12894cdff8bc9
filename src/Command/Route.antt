-- ===== src/Command/Route.antt =====
-- internal/cleancommand/route.go: the route of a clean command. The check of conflicts with APFS
-- snapshots reads the command's flags elsewhere; its answer is an argument, empty for no conflict.
-- A refusal is the case that it stands for, in place of its text.
use aibris.Prelude.{
  ◌≡◌, Text, Bool, true, false, ◌&&◌, ◌||◌, not, ◌⊎◌, inl, inr, if◌then◌else◌, is_empty, arith,
}

pub data Route : Type 0 where
  apfs strip json scan : Route

pub data Refusal : Type 0 where
  paths_without_json receipt_without_run guide_and_no_guide strip_and_apfs strip_and_output
        classic_receipt json_and_guide json_without_consent :
      Refusal
  apfs_conflict : Text → Refusal

-- RouteInput
pub record RouteInput : Type 0 where
  pub include_paths : Bool
  pub receipt_file : Text
  pub dry_run : Bool
  pub guide : Bool
  pub no_guide : Bool
  pub strip : Bool
  pub apfs_snapshots : Bool
  pub json : Bool
  pub interactive : Bool
  pub force : Bool

abbrev pub has_receipt : RouteInput → Bool
has_receipt input = not (is_empty input.receipt_file)

unfoldable pub apfs_route : Text → Route ⊎ Refusal
apfs_route conflict =
    if not (is_empty conflict) then inr (apfs_conflict conflict) else inl Route.apfs

unfoldable pub strip_route : RouteInput → Route ⊎ Refusal
strip_route input =
    if input.json || (input.interactive || (input.guide || has_receipt input))
    then inr strip_and_output
    else inl Route.strip

unfoldable pub json_route : RouteInput → Route ⊎ Refusal
json_route input =
    if not input.dry_run && input.guide
    then inr json_and_guide
    else if not input.dry_run && (not input.force && not input.interactive)
    then inr json_without_consent
    else inl Route.json

-- SelectRoute
unfoldable pub select_route : RouteInput → Text → Route ⊎ Refusal
unfolding apfs_route strip_route json_route
select_route input conflict =
    if input.include_paths && (not input.json && not (has_receipt input))
    then inr paths_without_json
    else if has_receipt input && input.dry_run
    then inr receipt_without_run
    else if input.guide && input.no_guide
    then inr guide_and_no_guide
    else if input.strip && input.apfs_snapshots
    then inr strip_and_apfs
    else if input.apfs_snapshots
    then apfs_route conflict
    else if input.strip
    then strip_route input
    else if has_receipt input && (input.no_guide && not input.json)
    then inr classic_receipt
    else if input.json
    then json_route input
    else inl Route.scan

abbrev pub takes : Route → Route ⊎ Refusal → Bool
takes Route.apfs (inl Route.apfs) = true
takes Route.strip (inl Route.strip) = true
takes Route.json (inl Route.json) = true
takes Route.scan (inl Route.scan) = true
takes _ _ = false

-- The pairs of flags that no route accepts.
abbrev pub coherent : RouteInput → Bool
coherent input =
    not (input.include_paths && (not input.json && not (has_receipt input)))
    && (not (has_receipt input && input.dry_run)
        && (not (input.guide && input.no_guide) && not (input.strip && input.apfs_snapshots)))

-- A route is taken exactly if no pair of flags is refused, and for APFS: snapshots are asked for and
-- nothing conflicts with them; for strip: stripping is asked for, without JSON, interaction, guide
-- or receipt; for JSON: JSON is asked for, without stripping or snapshots, and the run is dry, or
-- has consent (force or interaction) and no guide; for scan: none of the three is asked for, nor a
-- receipt with the guide switched off.
pub select_route-takes :
    (input : RouteInput) (conflict : Text)
    → (takes Route.apfs (select_route input conflict)
        ≡ (coherent input && (input.apfs_snapshots && is_empty conflict)))
      × (takes Route.strip (select_route input conflict) ≡ (
          coherent input
          && (input.strip
              && not (input.json || (input.interactive || (input.guide || has_receipt input))))))
      × (takes Route.json (select_route input conflict) ≡ (
          coherent input
          && (input.json
              && (not input.strip
                  && (not input.apfs_snapshots
                      && (input.dry_run
                          || (not input.guide && (input.force || input.interactive))))))))
      × (takes Route.scan (select_route input conflict) ≡ (
          coherent input
          && (not input.json
              && (not input.strip
                  && (not input.apfs_snapshots && not (has_receipt input && input.no_guide))))))
unfolding select_route
select_route-takes input conflict = (ground arith, ground arith, ground arith, ground arith)
