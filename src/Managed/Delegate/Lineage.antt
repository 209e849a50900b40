-- ===== src/Managed/Delegate/Lineage.antt =====
-- The walk over a run's ancestors ends (workflows/managed_activities.py).
use agents_should_survive_fa.Base.{
  ℕ, ◌≡◌, ◌≢◌, ◌<◌, zero, suc, inl, inr, Bool, true, none, some, List, ltb, find, find-All, arith,
  Option-cases, All,
}
use agents_should_survive_fa.Models.{WorkflowRun}
use agents_should_survive_fa.Managed.Delegate.{run_with, Walk, out_of_fuel, extend, ancestors}

-- The parent of a run, if it is there, is less deep.
abbrev pub is_ranked : List WorkflowRun → WorkflowRun → Bool
is_ranked runs r = elim r.parent_workflow_run_id [
  | none ↦ true
  | some parent ↦ elim (find (run_with parent) runs) [
    | none ↦ true
    | some ancestor ↦ ltb ancestor.delegation_depth r.delegation_depth
  ]
]

abbrev pub IsRanked : List WorkflowRun → Type 0
IsRanked runs = All (λ r. is_ranked runs r ≡ true) runs

extend_ends : (id : ℕ) (w : Walk) → w ≢ out_of_fuel → extend id w ≢ out_of_fuel
extend_ends id w h e = ground arith

-- Where each run is deeper than its parent, the walk from a run of the table ends, with the lineage or
-- at a missing ancestor, on any fuel greater than the depth of the run.
pub ancestors_end :
    (fuel : ℕ) (runs : List WorkflowRun) (r : WorkflowRun)
    → IsRanked runs
    → is_ranked runs r ≡ true
    → r.delegation_depth < fuel
    → ancestors fuel runs r ≢ out_of_fuel
unfolding ancestors
ancestors_end zero runs r all_ranked ranked enough = absurd (ground arith)
ancestors_end (suc fuel) runs r all_ranked ranked enough =
    elim (Option-cases r.parent_workflow_run_id) [
      | inl e ↦ ground arith
      | inr (parent, e) ↦ elim (Option-cases (find (run_with parent) runs)) [
        | inl f ↦ ground arith
        | inr (ancestor, f) ↦
            let above =
              find-All (λ x. is_ranked runs x ≡ true) (run_with parent) runs all_ranked f in
            let less : ancestor.delegation_depth < r.delegation_depth = ground arith in
            let rest = ancestors_end fuel runs ancestor all_ranked above (ground arith) in
            ground (arith, extend_ends r.agent_id (ancestors fuel runs ancestor) rest)
      ]
    ]
