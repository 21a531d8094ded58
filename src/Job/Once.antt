-- ===== src/Job/Once.antt =====
-- What a round of the poller of deaddit/runtime/runner.py submits.
use deaddit.Prelude.{
  ◌≡◌, ℕ, ◌+◌, ◌≤◌, String, Bool, true, false, List, [], ◌∷◌, ◌==◌, arith, count_where,
  count_where-update_all, count_where_imp, select, count_where-update_where, Bool-cases, inl, inr,
  ==_iff, subst,
}
use deaddit.Job.{Job, Queue, is_pending}
use deaddit.Job.Claim.{claim_job, is_claimable, claimed}
use deaddit.Job.Poll.{Submission, claim_rows, poll_once, order_jobs}

abbrev pub is_of : ℕ → Submission → Bool
is_of k s = s.job_id == k

-- A claim of another job leaves the claimable rows of `k` as they are.
claim-other :
    (k i : ℕ) (worker : String) (now : ℕ) (q : Queue)
    → (i == k) ≡ false
    → count_where (is_claimable k) (claim_job i worker now q).1.jobs
      ≡ count_where (is_claimable k) q.jobs
unfolding claim_job
claim-other k i worker now q h =
    count_where-update_where (is_claimable i) (is_claimable k) (claimed worker now) q.jobs
      (λ j c. ground arith)

-- And a claim of `k` leaves none.
claim_self :
    (k : ℕ) (worker : String) (now : ℕ) (q : Queue)
    → count_where (is_claimable k) (claim_job k worker now q).1.jobs ≡ 0
unfolding claim_job
claim_self k worker now q =
    count_where-update_all (is_claimable k) (claimed worker now) q.jobs (λ j c. ground arith)

claim-won :
    (k : ℕ) (worker : String) (now : ℕ) (q : Queue)
    → (claim_job k worker now q).0 ≡ true
    → count_where (is_claimable k) q.jobs ≡ 1
unfolding claim_job
claim-won k worker now q h = (==_iff (count_where (is_claimable k) q.jobs) 1).0 h

claim_rows-once :
    (k : ℕ) (worker : String) (rows : List Job) (stops : ℕ → Bool) (clock : ℕ → ℕ) (n : ℕ)
    (q : Queue)
    → count_where (is_of k) (claim_rows worker rows stops clock n q).0
        + count_where (is_claimable k) (claim_rows worker rows stops clock n q).1.jobs
      ≤ count_where (is_claimable k) q.jobs
unfolding claim_rows
claim_rows-once k worker [] stops clock n q = omega arith
claim_rows-once k worker (row ∷ rows) stops clock n q =
    let q' = (claim_job row.id worker (clock n) q).1 in
    let rest = claim_rows-once k worker rows stops clock (n + 1) q' in
    elim (Bool-cases (stops n)) [
      | inl y ↦ rw (y) (omega arith)
      | inr s ↦ elim (Bool-cases (row.id == k)) [
        | inl same ↦
            (let e = (==_iff row.id k).0 same in
              let none_left : count_where (is_claimable k) q'.jobs ≡ 0 =
                subst (λ i. count_where (is_claimable i) q'.jobs ≡ 0) e
                  (claim_self row.id worker (clock n) q) in
              elim (Bool-cases (claim_job row.id worker (clock n) q).0) [
                | inl won ↦
                    (let one : count_where (is_claimable k) q.jobs ≡ 1 =
                        subst (λ i. count_where (is_claimable i) q.jobs ≡ 1) e
                          (claim-won row.id worker (clock n) q won) in
                      simp (s, won, same) (omega (arith, rest, none_left, one)))
                | inr lost ↦ simp (s, lost) (omega (arith, rest, none_left))
              ])
        | inr other ↦
            (let as_before = claim-other k row.id worker (clock n) q other in
              elim (Bool-cases (claim_job row.id worker (clock n) q).0) [
                | inl won ↦ simp (s, won, other) (omega (arith, rest, as_before))
                | inr lost ↦ simp (s, lost) (omega (arith, rest, as_before))
              ])
      ]
    ]

-- A round: its worker, what the stop event shows and the moments of its claims.
abbrev pub Round : Type 0
Round = String × (ℕ → Bool) × (ℕ → ℕ)

-- How often the rounds of the workers, one after the other, hand the job to an executor.
unfoldable pub handed : ℕ → List Round → Queue → ℕ
handed k [] q = 0
handed k ((worker, stops, clock) ∷ rounds) q =
    let round = poll_once worker stops clock q in
    count_where (is_of k) round.0 + handed k rounds round.1

rounds-once :
    (k : ℕ) (rounds : List Round) (q : Queue)
    → handed k rounds q ≤ count_where (is_claimable k) q.jobs
unfolding handed poll_once
rounds-once k [] q = omega arith
rounds-once k ((worker, stops, clock) ∷ rounds) q =
    let first =
      claim_rows-once k worker (order_jobs (select (λ j. is_pending j.status) q.jobs)) stops clock 0
        q in
    omega (arith, first, rounds-once k rounds (poll_once worker stops clock q).1)

-- However many rounds of pollers of whatever workers follow each other, and wherever they are stopped,
-- a job with one row in the table is handed to an executor at most once, as long as nothing makes it
-- pending again in between.
pub poll_once-once :
    (k : ℕ) (rounds : List Round) (q : Queue)
    → count_where (λ j. j.id == k) q.jobs ≤ 1
    → handed k rounds q ≤ 1
unfolding handed
poll_once-once k rounds q h =
    let all = rounds-once k rounds q in
    let few = count_where_imp (is_claimable k) (λ j. j.id == k) q.jobs (λ j c. ground arith) in
    omega (arith, all, few, h)
