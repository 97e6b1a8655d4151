-- ===== src/Examples/Data.antt =====
-- The workflow of the examples.
use hetida_designer.Prelude.{ℕ, ◌+◌, true, Option, none, some, List, [], ◌∷◌, Text}
use hetida_designer.Io.{
  Connector, OperatorInput, OperatorOutput, WorkflowContentDynamicInput, WorkflowContentOutput,
  float, required, origin, pos,
}
use hetida_designer.Link.{
  Link, Vertex, ConnectorClass, operator_input, operator_output, workflow_output, dynamic_input,
}
use hetida_designer.Operator.{Operator, component, workflow, released}
use hetida_designer.Nestings.{Transformations, code, operators_of}

abbrev pub connector : ℕ → Option Text → Connector
connector id name = record { id = id; name = name; data_type = float; position = origin }

abbrev pub operator : ℕ → List OperatorInput → List OperatorOutput → Operator
operator id inputs outputs = record {
  id = id;
  revision_group_id = id;
  name = 111 ∷ [];
  type = workflow;
  state = released;
  version_tag = 49 ∷ [];
  transformation_id = id + 1;
  inputs = inputs;
  outputs = outputs;
  position = origin;
}

abbrev pub operator_input_at : ℕ → OperatorInput
operator_input_at id = record {
  connector = connector id none;
  type = required;
  value = none;
  exposed = true;
}

abbrev pub add : Operator
add = operator 1 (operator_input_at 11 ∷ []) (connector 12 none ∷ [])

abbrev pub scale : Operator
scale = operator 2 (operator_input_at 21 ∷ []) (connector 22 none ∷ [])

abbrev pub operators : List Operator
operators = add ∷ scale ∷ []

abbrev pub vertex_at : Option ℕ → Connector → ConnectorClass → Vertex
vertex_at op c class = record { operator = op; connector = c; class = class }

abbrev pub link : ℕ → Vertex → Vertex → Link
link id start end = record { id = id; start = start; end = end; path = [] }

abbrev pub name_a : Option Text
name_a = some (97 ∷ [])

abbrev pub name_b : Option Text
name_b = some (98 ∷ [])

-- from the input of the workflow to `add`
abbrev pub link_in : Link
link_in =
    link 51 (vertex_at none (connector 31 name_a) dynamic_input)
      (vertex_at (some 1) (connector 11 none) operator_input)

-- from `add` to `scale`
abbrev pub link_between : Link
link_between =
    link 52 (vertex_at (some 1) (connector 12 none) operator_output)
      (vertex_at (some 2) (connector 21 none) operator_input)

-- from `scale` back to `add`
abbrev pub link_back : Link
link_back =
    link 53 (vertex_at (some 2) (connector 22 none) operator_output)
      (vertex_at (some 1) (connector 11 none) operator_input)

-- from `scale` to the output of the workflow
abbrev pub link_out : Link
link_out =
    link 54 (vertex_at (some 2) (connector 22 none) operator_output)
      (vertex_at none (connector 41 name_b) workflow_output)

-- from an operator that is not there
abbrev pub link_dangling : Link
link_dangling =
    link 55 (vertex_at (some 3) (connector 32 none) operator_output)
      (vertex_at (some 1) (connector 11 none) operator_input)

abbrev pub links : List Link
links = link_in ∷ link_between ∷ link_out ∷ []

abbrev pub workflow_input : ℕ → Option Text → ℕ → ℕ → WorkflowContentDynamicInput
workflow_input id name op i = record {
  io = record {
    connector = connector id name;
    operator_id = op;
    connector_id = i;
    operator_name = 111 ∷ [];
    connector_name = none;
  };
  type = required;
  value = none;
}

abbrev pub input_a : WorkflowContentDynamicInput
input_a = workflow_input 31 name_a 1 11

-- refers to an operator that is not there
abbrev pub input_stale : WorkflowContentDynamicInput
input_stale = workflow_input 33 none 7 11

-- `input_a` at another position than its link
abbrev pub input_moved : WorkflowContentDynamicInput
input_moved = record input_a {
  io = record input_a.io {
    connector = record input_a.connector { position = record { x = pos 5; y = pos 6 } };
  };
}

abbrev pub output_b : WorkflowContentOutput
output_b = record {
  connector = connector 41 name_b;
  operator_id = 2;
  connector_id = 22;
  operator_name = 111 ∷ [];
  connector_name = none;
}

-- Workflow 2 has an operator of workflow 3, which has none; 4 is a component, and 5 contains itself.
abbrev pub transformations : Transformations
transformations =
    (2, record { type = workflow; content = operators_of (scale ∷ []) })
    ∷ (3, record { type = workflow; content = operators_of [] })
    ∷ (4, record { type = component; content = code [] })
    ∷ (5, record { type = workflow; content = operators_of (operator 4 [] [] ∷ []) })
    ∷ []
