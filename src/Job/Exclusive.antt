-- ===== src/Job/Exclusive.antt =====
-- Competing claims of one job (deaddit/runtime/claim.py).
use deaddit.Prelude.{
  ℕ, String, ◌≡◌, refl, true, false, List, [], ◌∷◌, arith, if◌then◌else◌, count_where,
  count_where-update_all, update_where_none,
}
use deaddit.Job.{Queue}
use deaddit.Job.Claim.{is_claimable, claimed, claim_job}

-- The workers that win when workers claim the same job one after the other, each at its moment.
pub winners : ℕ → List (String × ℕ) → Queue → List String
winners job_id [] q = []
winners job_id ((worker, now) ∷ rest) q =
    let (won, q') = claim_job job_id worker now q in
    let others = winners job_id rest q' in if won then worker ∷ others else others

claim_none :
    (job_id : ℕ) (worker : String) (now : ℕ) (q : Queue)
    → count_where (is_claimable job_id) q.jobs ≡ 0
    → claim_job job_id worker now q ≡ (false, q)
unfolding claim_job
claim_none job_id worker now q h =
    rw (h, update_where_none (is_claimable job_id) (claimed worker now) q.jobs h)

no_winners :
    (job_id : ℕ) (rest : List (String × ℕ)) (q : Queue)
    → count_where (is_claimable job_id) q.jobs ≡ 0
    → winners job_id rest q ≡ []
unfolding winners
no_winners job_id [] q h = refl
no_winners job_id ((worker, now) ∷ rest) q h =
    rw (claim_none job_id worker now q h) (no_winners job_id rest q h)

claimed_once :
    (job_id : ℕ) (worker : String) (now : ℕ) (q : Queue)
    → count_where (is_claimable job_id) (claim_job job_id worker now q).1.jobs ≡ 0
unfolding claim_job
claimed_once job_id worker now q =
    count_where-update_all (is_claimable job_id) (claimed worker now) q.jobs (λ j h. ground arith)

-- However many workers claim a pending job, and in whatever order and at whatever moments, the
-- first of them wins and no other does.
pub claim_job-exclusive :
    (job_id : ℕ) (worker : String) (now : ℕ) (rest : List (String × ℕ)) (q : Queue)
    → count_where (is_claimable job_id) q.jobs ≡ 1
    → winners job_id ((worker, now) ∷ rest) q ≡ worker ∷ []
unfolding winners
claim_job-exclusive job_id worker now rest q h =
    let won : (claim_job job_id worker now q).0 ≡ true = unfold claim_job in rw h in
    let others =
      no_winners job_id rest (claim_job job_id worker now q).1 (claimed_once job_id worker now q) in
    rw (won, others)
