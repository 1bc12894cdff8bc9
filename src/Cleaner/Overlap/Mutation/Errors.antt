-- ===== src/Cleaner/Overlap/Mutation/Errors.antt =====
-- internal/cleaner/overlap_mutation.go: a refusal is always in the report.
use aibris.Prelude.{
  ℕ, suc, ◌+◌, ◌≡◌, refl, Text, List, [], ◌∷◌, Bool, true, false, not, Option, none, some, ◌⊎◌, inl,
  inr, if_either, length, text_eq, is_empty, Result, ok, err, ◌>>=◌, ◌>>◌, refuse_if, subst,
}
use aibris.Types.{EntryClass, is_orphaned}
use aibris.Cleaner.Items.{FileSystem}
use aibris.Cleaner.Overlap.{
  AgentStateObligation, OverlapSafetyComponent, OverlapSafetyEvidence, OverlapSafetyMatch,
  OverlapSafetyRefusal,
}
use aibris.Cleaner.Overlap.Component.{Registration, Lookup, lookup_agent_state_revalidator}
use aibris.Cleaner.Overlap.Plan.{PlanError, build_overlap_safety_plan}
use aibris.Cleaner.Overlap.Mutation.{
  Blocked, block, World, unless_refused, only_component, checked_provider, checked_registration,
  register_all, checked_class, revalidate_all, recheck_all, merged_or_block, validate_current,
  validate_before_mutation,
}
use aibris.Cleaner.Overlap.Mutation.Report.{
  MutationError, Validation, validation_for, block_obligation, pass_obligation, block_refused,
  block_outcome_at_path, ensure_blocked_outcome, is_nested_revalidation, overlap_match_for_path,
  blocked_at, refusal_blocking_path,
}
use aibris.Cleaner.Overlap.Mutation.Merge.{merged_obligations}

abbrev IsReported : Blocked → Type 0
IsReported b = b.report.blocking_reason ≡ some b.error

-- An error is reported.
abbrev Reported : {V : Type 0} → Result Blocked V → Type 0
Reported (err b) = IsReported b
Reported (ok v) = Unit {0}

>>=-Reported :
    {V W : Type 0} (first : Result Blocked V) (next : V → Result Blocked W)
    → Reported first
    → ((v : V) → Reported (next v))
    → Reported (first >>= next)
>>=-Reported (err b) next h rest = h
>>=-Reported (ok v) next h rest = rest v

refuse_if-Reported :
    {W : Type 0} (refused : Bool) (b : Blocked) (next : Result Blocked W)
    → IsReported b
    → Reported next
    → Reported (refuse_if refused b >> next)
refuse_if-Reported false b next h rest = rest
refuse_if-Reported true b next h rest = h

module _ (fs : FileSystem) (error : MutationError) (report : Validation)
    (reported : report.blocking_reason ≡ some error) where
  block_outcome-keeps :
      (tool path : Text) (class : EntryClass)
      → (block_outcome_at_path fs tool path class error report).blocking_reason ≡ some error
  unfolding block_outcome_at_path
  block_outcome-keeps tool path class =
      if_either (λ (r : Validation). r.blocking_reason ≡ some error) (is_empty path) _ _
        (λ e. reported) (λ e. reported)

  ensure-keeps :
      (found : OverlapSafetyMatch)
      → (ensure_blocked_outcome fs found error report).blocking_reason ≡ some error
  unfolding ensure_blocked_outcome
  ensure-keeps found =
      if_either (λ (r : Validation). r.blocking_reason ≡ some error) (is_empty found.item.path) _ _
        (λ e. reported)
        (λ e.
          if_either (λ (r : Validation). r.blocking_reason ≡ some error) _ _ _ (λ f. reported)
            (λ f. reported))

block_refused-reason :
    (fs : FileSystem) (matches : List OverlapSafetyMatch) (refusal : OverlapSafetyRefusal)
    (report : Validation)
    → (block_refused fs matches refusal report).blocking_reason
      ≡ some (MutationError.refused refusal)
unfolding block_refused
block_refused-reason fs matches refusal report =
    let error = MutationError.refused refusal in
    let found = overlap_match_for_path matches refusal.agent_state_tool refusal.agent_state_path in
    let before = blocked_at (refusal_blocking_path refusal) error report in
    let blocked =
      block_outcome_at_path fs refusal.agent_state_tool refusal.agent_state_path
        found.item.classification error before in
    let kept : blocked.blocking_reason ≡ some error =
      block_outcome-keeps fs error before refl refusal.agent_state_tool refusal.agent_state_path
        found.item.classification in
    if_either (λ (r : Validation). r.blocking_reason ≡ some error)
      (is_nested_revalidation refusal.reason) (ensure_blocked_outcome fs found error blocked)
      blocked (λ e. ensure-keeps fs error blocked kept found) (λ e. kept)

unless_refused-Reported :
    (refusal : Option OverlapSafetyRefusal) (blocked : OverlapSafetyRefusal → Blocked)
    → ((r : OverlapSafetyRefusal) → IsReported (blocked r))
    → Reported (unless_refused refusal blocked)
unless_refused-Reported none blocked h = tt
unless_refused-Reported (some refusal) blocked h = h refusal

only_component-Reported :
    (path : Text) (report : Validation) (r : List OverlapSafetyComponent ⊎ PlanError)
    → Reported (only_component path report r)
only_component-Reported path report (inr error) = refl
only_component-Reported path report (inl []) = refl
only_component-Reported path report (inl (c ∷ [])) = tt
only_component-Reported path report (inl (c ∷ d ∷ cs)) = refl

merged-Reported :
    (path : Text) (report : Validation) (r : List AgentStateObligation ⊎ (Text × Text))
    → Reported (merged_or_block path report r)
merged-Reported path report (inl os) = tt
merged-Reported path report (inr (a, b)) = refl

module _ {R : Type 0} (world : World R) (lookup : Lookup R) where
  provider-Reported :
      (o : AgentStateObligation) (report : Validation) (provider : Text) (r : Option R)
      → Reported (checked_provider o report provider r)
  unfolding block_obligation
  provider-Reported o report provider none = refl
  provider-Reported o report provider (some v) =
      if_either Reported (not (text_eq provider o.provider_id)) _ _ (λ e. refl) (λ e. tt)

  registration-Reported :
      (o : AgentStateObligation) (report : Validation) (found : Option (Registration R))
      → Reported (checked_registration o report found)
  unfolding block_obligation
  registration-Reported o report none = refl
  registration-Reported o report (some registration) =
      provider-Reported o report registration.provider_id registration.revalidator

  register_all-Reported :
      (report : Validation) (step : ℕ) (os : List AgentStateObligation)
      → Reported (register_all world lookup report step os)
  unfolding register_all block_obligation
  register_all-Reported report step [] = tt
  register_all-Reported report step (o ∷ os) = refuse_if-Reported _ _ _ refl (
      >>=-Reported (checked_registration o report (lookup_agent_state_revalidator lookup o.tool)) _
        (registration-Reported o report (lookup_agent_state_revalidator lookup o.tool))
        (λ v.
          >>=-Reported (register_all world lookup report (suc step) os) _
            (register_all-Reported report (suc step) os) (λ rest. tt)))

  class-Reported :
      (o : AgentStateObligation) (report : Validation) (answer : EntryClass × Option Text)
      → Reported (checked_class o report answer)
  unfolding block_obligation
  class-Reported o report (c, some message) = refl
  class-Reported o report (c, none) = refuse_if-Reported (not (is_orphaned c)) _ (ok c) refl tt

  revalidate_all-Reported :
      (path : Text) (reads : ℕ) (registered : List (AgentStateObligation × R)) (report : Validation)
      → Reported (revalidate_all world path reads registered report)
  unfolding revalidate_all
  revalidate_all-Reported path reads [] report = tt
  revalidate_all-Reported path reads ((o, v) ∷ registered) report = refuse_if-Reported _ _ _ refl (
      >>=-Reported (checked_class o report (world.revalidate v o.entry_path)) _
        (class-Reported o report (world.revalidate v o.entry_path))
        (λ c. revalidate_all-Reported path (suc reads) registered (pass_obligation o c report)))

  recheck_all-Reported :
      (report : Validation) (step : ℕ) (os : List AgentStateObligation)
      → Reported (recheck_all world report step os)
  unfolding recheck_all block_obligation
  recheck_all-Reported report step [] = tt
  recheck_all-Reported report step (o ∷ os) =
      refuse_if-Reported _ _ _ refl (recheck_all-Reported report (suc step) os)

  current-Reported :
      (component : OverlapSafetyComponent) (report : Validation) (current : OverlapSafetyComponent)
      → Reported (validate_current world lookup component report current)
  unfolding validate_current
  current-Reported component report current =
      >>=-Reported (unless_refused current.refusal _) _
        (unless_refused-Reported current.refusal _
          (λ r. block_refused-reason (world.disk 0) current.matches r report))
        (λ u. refuse_if-Reported _ _ _ refl (
          >>=-Reported
            (merged_or_block component.target.path report
              (merged_obligations component.obligations current.obligations))
            _
            (merged-Reported component.target.path report
              (merged_obligations component.obligations current.obligations))
            (λ os.
              >>=-Reported (register_all world lookup (validation_for os) 1 os) _
                (register_all-Reported (validation_for os) 1 os)
                (λ registered.
                  >>=-Reported
                    (revalidate_all world component.target.path 1 registered (validation_for os)) _
                    (revalidate_all-Reported component.target.path 1 registered (validation_for os))
                    (λ passed. refuse_if-Reported _ _ _ refl (
                      >>=-Reported (recheck_all world passed (2 + length os) os) _
                        (recheck_all-Reported passed (2 + length os) os)
                        (λ done.
                          refuse_if-Reported (world.ctx (1 + length os))
                            (block component.target.path passed MutationError.cancelled) (ok passed)
                            refl tt)))))))

  -- Whenever the barrier blocks a mutation, on whichever path, the reason in its report is the error
  -- that it returns.
  pub validate_before_mutation-reason :
      (component : OverlapSafetyComponent) (refreshed : OverlapSafetyEvidence) (blocked : Blocked)
      → validate_before_mutation world lookup component refreshed ≡ err blocked
      → blocked.report.blocking_reason ≡ some blocked.error
  unfolding validate_before_mutation
  validate_before_mutation-reason component refreshed blocked h = subst Reported h (
      refuse_if-Reported _ _ _ refl (
        >>=-Reported (unless_refused component.refusal _) _
          (unless_refused-Reported component.refusal _ (λ r. refl))
          (λ u.
            >>=-Reported
              (only_component component.target.path (validation_for component.obligations) (
                build_overlap_safety_plan (world.disk 0) world.planning refreshed
                  (component.target ∷ []) lookup))
              _
              (only_component-Reported component.target.path (validation_for component.obligations)
                _)
              (λ current.
                current-Reported component (validation_for component.obligations) current))))
