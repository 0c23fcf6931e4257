-- ===== src/Merge/Approved.antt =====
-- What an approval needs in order to park a card for a merge.
use megacorps.Prelude.{
  ◌≡◌, refl, ap, subst, true, Option, none, some, List, ◌&&◌, Text, text_eq, ◌==◌, arith,
  Bool-cases, inl, inr,
}
use megacorps.Merge.Candidate.{MergeProject}
use megacorps.Merge.Plan.{
  WaitPlan, MergeGatePlan, wait, not_required, blocked, head_drift, Provider, Evidence, aliases_of,
  resolve_merge_evidence,
}
use megacorps.Merge.Identity.{
  ReviewIdentity, Approval, approved_identity, same_identity, review_identity_matches,
  with_identity, identified, plan_merge_gate,
}
use megacorps.Merge.Verified.{wait-injective, blocked-wait, not_required-wait}

module _ (origin : Text → Option Text) where
  -- What an approval consumes.
  pub record IsApproved (fresh : Option ReviewIdentity) (approval : Approval) (w : WaitPlan)
      : Type 0 where
    pub identity : ReviewIdentity
    pub used : approved_identity approval fresh ≡ some identity
    pub current : same_identity fresh identity ≡ true
    pub of_project : (identity.project_id == w.project.id) ≡ true
    pub same_base : text_eq identity.default_branch w.default_branch ≡ true
    pub same_head : text_eq identity.head_sha w.head_sha ≡ true
    pub same_target : text_eq identity.external_id w.external_id ≡ true

  approved :
      (aliases : List Text) (fresh : Option ReviewIdentity) (approval : Approval) (v : WaitPlan)
      (identity : ReviewIdentity)
      → approved_identity approval fresh ≡ some identity
      → (same_identity fresh identity && review_identity_matches origin aliases identity v) ≡ true
      → IsApproved fresh approval v
  unfolding review_identity_matches
  approved aliases fresh approval v identity e h = record {
    identity = identity;
    used = e;
    current = ground arith;
    of_project = ground arith;
    same_base = ground arith;
    same_head = ground arith;
    same_target = ground arith;
  }

  with_identity-IsApproved :
      (aliases : List Text) (fresh : Option ReviewIdentity) (approval : Approval) (v w : WaitPlan)
      (found : Option ReviewIdentity)
      → approved_identity approval fresh ≡ found
      → with_identity origin aliases fresh v found ≡ wait w
      → (v ≡ w) × IsApproved fresh approval v
  with_identity-IsApproved aliases fresh approval v w none e h =
      absurd (blocked-wait head_drift w h)
  with_identity-IsApproved aliases fresh approval v w (some identity) e h =
      elim (Bool-cases
        (same_identity fresh identity && review_identity_matches origin aliases identity v)) [
          | inl matches ↦ (
            wait-injective v w (rw matches at h),
            approved aliases fresh approval v identity e matches,
          )
          | inr other ↦ absurd (blocked-wait head_drift w (rw other at h))
        ]

  identified-IsApproved :
      (aliases : List Text) (fresh : Option ReviewIdentity) (approval : Approval)
      (plan : MergeGatePlan) (w : WaitPlan)
      → identified origin aliases fresh approval plan ≡ wait w
      → (plan ≡ wait w) × IsApproved fresh approval w
  identified-IsApproved aliases fresh approval (wait v) w h =
      let (same_plan, approved_one) =
        with_identity-IsApproved aliases fresh approval v w (approved_identity approval fresh) refl
          h in
      (ap wait same_plan, subst (IsApproved fresh approval) same_plan approved_one)
  identified-IsApproved aliases fresh approval not_required w h = absurd (not_required-wait w h)
  identified-IsApproved aliases fresh approval (blocked r) w h = absurd (blocked-wait r w h)

  -- An approval parks a card for a merge only with the identity that the card holds now, captured for
  -- the very project, base, head and target that the provider shows.
  pub plan_merge_gate-IsApproved :
      (provider : Option Provider) (project : Option MergeProject) (evidence : Evidence)
      (fresh : Option ReviewIdentity) (approval : Approval) (w : WaitPlan)
      → plan_merge_gate origin provider project evidence fresh approval ≡ wait w
      → (resolve_merge_evidence origin provider project evidence ≡ wait w)
        × IsApproved fresh approval w
  unfolding plan_merge_gate
  plan_merge_gate-IsApproved provider project evidence fresh approval w h =
      identified-IsApproved (aliases_of origin provider) fresh approval
        (resolve_merge_evidence origin provider project evidence) w h
