-- ===== src/Lib.antt =====
-- The validation of workflows in hetida designer, the life of transformation revisions, their nesting,
-- and the validation of the virtual structure.
--
-- A workflow revision has as its content operators, links between their connectors, and inputs,
-- constants and outputs of the workflow. When a `WorkflowContent` is built or changed, its validators
-- run one after the other: they build dictionaries of the operators' connectors and of the links,
-- remove links that do not match the operators, refuse loops, remove dynamic inputs and outputs that
-- are not necessary, add those that are missing, check names, and in the end remove links from inputs
-- and to outputs that are missing or have no name. Transformation revisions are imported in the order
-- of their nesting levels.
--
-- A transformation revision has a component's code or a workflow's content, and the state draft, released
-- or disabled. The service of revisions decides what an update may change, releases and deprecates,
-- and keeps two tables: the revisions, and the rows that say which revision is nested in which workflow.
-- A virtual structure of thing nodes, sources and sinks is validated as a whole before it is stored.
--
-- The files and the code that they model:
-- - Prelude: names of the libraries, Boolean tests, lists, results and dictionaries. A dictionary is a
--   list of keys and values in the order of insertion (`put` keeps the place of a key), a function
--   that may raise returns a `Result`, whose errors name the `raise`.
-- - Io: runtime/hetdesrun/persistence/models/io.py, `names_unique` and `valid_python_identifier` of
--   runtime/hetdesrun/models/util.py, and `DataType` of runtime/hdutils.py;
--   Io/Convert has the conversions between inputs, and between outputs.
-- - Link: runtime/hetdesrun/persistence/models/link.py, one function per validator.
-- - Operator: runtime/hetdesrun/persistence/models/operator.py.
-- - Content: runtime/hetdesrun/persistence/models/workflow.py. Content/Dicts has the dictionaries,
--   Content/Links `link_connectors_match_operator_ios`, Content/Acyclic
--   `links_acyclic_directed_graph`, Content/Inputs and Content/Outputs the validators of `inputs` and
--   `outputs`, Content/Outer `clean_up_outer_links`. Content/Moved has the writes of positions: a
--   dictionary holds references to links, so the model writes to the link in the list, and builds the
--   dictionary again from the list when it is read. Content/Adjust has the loop that does both.
-- - Nestings: runtime/hetdesrun/trafoutils/nestings.py.
-- - NestingTable: runtime/hetdesrun/persistence/dbservice/nesting.py. `NestingStore` has the calls of the
--   session. Rows has the relation of the table, Descendants, Children and Update what the loops do to
--   it, Returns when they return, Chains, Acyclic and Built what holds of chains of nestings. `update_nesting` does not
--   refresh the rows of workflows that contain the updated one, so the table need not be transitive.
-- - Revision: the record, its validators and its methods of
--   runtime/hetdesrun/persistence/models/transformation.py (Revision/Fit: the io interface of a workflow,
--   Revision/Lifecycle: construction, `release`, `deprecate`, `strip_wirings`, Revision/Stored: the row).
--   Revision/Rules and Revision/Service are runtime/hetdesrun/persistence/dbservice/revision.py: Rules
--   has the functions without database, Service those on `RevisionStore`, the calls of the session on
--   both tables.
-- - Structure: runtime/hetdesrun/structure/models.py (Filters, Entities, Stored, Complete), and
--   what the validators of `CompleteStructure` decide (Hierarchy, Valid).
-- - Examples: tests, and the theorems at a small workflow.
--
-- Numbers and texts: a UUID is a number, a coordinate an integer of half units (the frontend uses half
-- values), a text the list of its code points. `uuid4` of Python's library, and `isidentifier` and
-- `iskeyword`, are parameters.
--
-- Bounds: the loop of `links_acyclic_directed_graph` takes as fuel the number of its vertices, since a
-- round deletes one; `nesting_level` takes one more than the number of transformations, since each
-- call adds one of them to what was seen. The search of `check_stakeholder_key_consistency` takes two more
-- than the number of thing nodes, since a node is pushed once as a child, and a visit of
-- `check_for_circular_reference` one more, since each call adds a node's id.
--
-- A revision's content is taken as a `WorkflowContent` that was built before: parsing one runs the
-- validators of Content, which construction of a revision, reading of a row and `model_validate` do not
-- repeat here. `strip_wirings` leaves out that assignments fit the io interface again. A merged row is
-- sent to the database at once, in SQLAlchemy at the next flush.
--
-- Not modelled: logging; Pydantic's parsing of JSON and its constraints on the length of texts;
-- `operator_names_unique` and the conversion of a workflow to an executable node; SQL, of which the
-- sessions are parameters with laws; the text that `update_code` and `expand_code` make of a component's
-- code and the reading of its imports, which are parameters too; queries with filters and dependencies
-- between revisions; the services of the structure; the runtime that executes workflows, adapters, web
-- services and the frontend.
pub mod Prelude
pub mod Io
pub mod Link
pub mod Operator
pub mod Content
pub mod Nestings
pub mod NestingTable
pub mod Revision
pub mod Structure
pub mod Examples
