-- ===== src/Host/History/Spawns.antt =====
-- Readings of a trace: the children that the run started and awaited.
use cleat_ports.Base.{String, List, [], ◌∷◌}
use cleat_ports.Host.Calls.{
  Call, Answer, Result, ok, err, ParentClosePolicy, child_workflow, child_workflow_with_options,
  await_child, await_all_children, await_any_child,
}
use cleat_ports.Host.Run.{Event}

-- The answer of a call that can fail, in front of `rest` if it did not.
abbrev pub if_ok {ℓ} : {A : Type ℓ} → Result A → List A → List A
if_ok (ok a) rest = a ∷ rest
if_ok (err e) rest = rest

-- The definitions that the run asked to start children of, and their inputs.
abbrev pub child_request : Call → List (String × String) → List (String × String)
child_request (child_workflow def input) rest = (def, input) ∷ rest
child_request (child_workflow_with_options def input opts) rest = (def, input) ∷ rest
child_request _ rest = rest

abbrev pub child_requests : List Event → List (String × String)
child_requests [] = []
child_requests (e ∷ es) = child_request e.request (child_requests es)

-- The run ids of the children that were started.
abbrev pub spawned_by : (c : Call) → Answer c → List String → List String
spawned_by (child_workflow _ _) r rest = if_ok r rest
spawned_by (child_workflow_with_options _ _ _) r rest = if_ok r rest
spawned_by _ _ rest = rest

abbrev pub spawned : List Event → List String
spawned [] = []
spawned (e ∷ es) = spawned_by e.request e.answer (spawned es)

-- The sets of children that the run awaited.
abbrev pub awaited_set : Call → List (List String) → List (List String)
awaited_set (await_child id) rest = (id ∷ []) ∷ rest
awaited_set (await_all_children ids) rest = ids ∷ rest
awaited_set (await_any_child ids) rest = ids ∷ rest
awaited_set _ rest = rest

abbrev pub awaited_sets : List Event → List (List String)
awaited_sets [] = []
awaited_sets (e ∷ es) = awaited_set e.request (awaited_sets es)

-- The policies under which the run asked to start children, where it named one.
abbrev pub close_policy : Call → List ParentClosePolicy → List ParentClosePolicy
close_policy (child_workflow_with_options _ _ opts) rest = opts.parent_close_policy ∷ rest
close_policy _ rest = rest

abbrev pub close_policies : List Event → List ParentClosePolicy
close_policies [] = []
close_policies (e ∷ es) = close_policy e.request (close_policies es)
