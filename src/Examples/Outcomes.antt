-- ===== src/Examples/Outcomes.antt =====
-- The end of a run in the store: examples.
use landc_go.Model.{Execution, ExecutionStatus, can_transition}
use landc_go.Dag.Graph.{new_dag_graph, has_cycle}
use landc_go.Engine.Closing.{Current, Ends, HasStatus, closed_status, raised, completion}
use landc_go.Engine.Outcome.{
  begun, execute_workflow-completes, execute_workflow-refused, execute_workflow-HasStatus,
  rounds_of,
}
use landc_go.Engine.Execute.{execute_workflow}
use landc_go.Examples.Samples.{chain, ring, chain_graph, execution, quiet}
use landc_go.Examples.Runs.{built, chain_known, quiet-IsQuiet, smooth, engine, context}
use landc_go.Prelude.{[], err, false, refl, some, ◌∷◌, ◌≡◌}

abbrev waiting : Execution
waiting = execution ExecutionStatus.pending 1

waiting-Current : Current (engine ExecutionStatus.pending 1).store waiting
unfolding landc_go.Prelude.lookup
waiting-Current = (waiting, refl, refl)

execute_workflow-completes_example :
    Ends
      (execute_workflow (context 10) quiet (engine ExecutionStatus.pending 1) waiting chain)
      (raised (completion 10 (begun 10 waiting)))
execute_workflow-completes_example =
    execute_workflow-completes (context 10) quiet (engine ExecutionStatus.pending 1) waiting chain
      chain_graph built chain_known quiet-IsQuiet (smooth "a", (smooth "b", tt)) waiting-Current

ring-refused : new_dag_graph ring ≡ err (has_cycle ("a" ∷ "b" ∷ "a" ∷ []))
unfolding new_dag_graph landc_go.Dag.Cycle.color_of landc_go.Prelude.insert
ring-refused = refl

execute_workflow-refused_example :
    Ends
      (execute_workflow (context 10) quiet (engine ExecutionStatus.pending 1) waiting ring)
      (record waiting {
        finished_at = some 10;
        status = ExecutionStatus.failed;
        error = "";
        version = 2;
      })
    × (can_transition waiting ExecutionStatus.failed ≡ false)
execute_workflow-refused_example =
    execute_workflow-refused (context 10) quiet (engine ExecutionStatus.pending 1) waiting ring
      (has_cycle ("a" ∷ "b" ∷ "a" ∷ [])) ring-refused refl waiting-Current

execute_workflow-HasStatus_example :
    HasStatus
      (execute_workflow (context 10) quiet (engine ExecutionStatus.pending 1) waiting chain)
      "x"
      (closed_status chain
        (rounds_of (context 10) quiet (engine ExecutionStatus.pending 1) waiting chain_graph).0
        (rounds_of (context 10) quiet (engine ExecutionStatus.pending 1) waiting chain_graph).1)
execute_workflow-HasStatus_example =
    execute_workflow-HasStatus (context 10) quiet (engine ExecutionStatus.pending 1) waiting chain
      chain_graph built waiting-Current
