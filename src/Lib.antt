-- ===== src/Lib.antt =====
-- core-heartbeat: the gateway that takes a chat message, routes it through a graph of model and tool
-- nodes, and answers.
--
-- A request runs as the user that Auth resolves (auth.py). Router (router.py) checks the caller and
-- hands an intent to the orchestrator, or a document to the knowledge base, or a file to the upload
-- folder. The orchestrator (orchestrator.py) drives a graph: the supervisor asks a model where to go
-- next, deterministic guards correct its answer, and a worker node composes a reply or runs tools.
-- A batch of calendar writes is first proposed and kept in the pending plans
-- (services/pending_plans.py), and released by the user's go-ahead in a later request. The calendar
-- and vault tools act for the user of the run. Beside the graph, the knowledge chat
-- (knowledge_chat.py) answers from the user's documents in a loop of its own, and the upload folder
-- (services/uploads.py) keeps the files that the gateway accepts. A run can be streamed: a listener
-- turns the events of the graph into what the client is sent. Text from outside (attached documents,
-- what an image shows) is fenced before a model reads it.
--
-- Files:
--   Prelude             Boolean tests, lists and texts that the components share.
--   PendingPlans        services/pending_plans.py: `save`, `take`, `clear` over the dict in memory and
--                       the table. Its children hold the table's interface, the abstract slot, and
--                       the proofs.
--   Orchestrator.State  models.py and GraphState: the channels, `merge` for the reducers.
--   Orchestrator.World  the model providers, tool back ends, clocks and settings, as parameters.
--   Orchestrator.Affirmation, .Gate, .Supervisor, .Tools, .Worker
--                       `_is_affirmation`, `_finish_routing`, `supervisor`, `tool_execution`,
--                       `local_llm`. A node returns an `Update`, the dict of the source.
--   Orchestrator.Compose
--                       `generate_local` and `generate_cloud`: the pieces shown, and the result.
--   Orchestrator.Graph  `build_graph`, `_initial_state`, `run`.
--   Orchestrator.Stream `astream_run`: the listener over the events of the graph, and those events.
--   Attachments         what a turn loads of its attachments (orchestrator.py, services/documents.py,
--                       services/images.py). Attachments.Reread has tools/attachments.py.
--   Untrusted           services/untrusted.py: `sanitize`, `fence` and `wrap`.
--   Web                 services/web.py, and `fetch_url` of tools/web_tools.py. Web.Page has the text of
--                       a page.
--   Auth                auth.py, from the header to the user id.
--   Kb                  services/kb.py: the admin flag and the retried request.
--   Router              router.py: a handler returns its response with the calls to back ends that it
--                       has made. Router.Intent has the confidence threshold.
--   Vault               tools/user_vault.py: an operation returns its result with the accesses to files
--                       that it has made.
--   KnowledgeChat       knowledge_chat.py. Text has `_clip` and the patterns that an answer is searched
--                       by; Context `TurnContext.add` and `cited_sources`; World what a turn is given;
--                       Lines and Tools the three tools and `run_tool`; History `history_contents` and
--                       two blocks of the system prompt; Calls and Run the rounds of `run`, which is
--                       the list of the events that it yields. Induction is the principle by which the
--                       other children prove what the rounds keep.
--   Uploads             services/uploads.py. Name has `safe_name`; Folder the files by their paths, the
--                       choice of a path and the capacity; Stream `store_stream`, `list_uploads` and
--                       `delete_upload`, each with the folder that it leaves.
--   Calendar            tools/google_calendar.py. Dates has `datetime.date` as far as the tools use it;
--                       Events the start, the end and the line of an event; Service the access token
--                       and `_cal`; Steps what the tools share; Tools the four tools and
--                       `run_calendar_tool`, with the requests that they make.
--   Storage             services/storage_sync.py: `sync_user_vault` and `upload_user_file` over the local
--                       files of one user and the remembered listing.
--   Memory              `extract_and_record_preference` and `_record_preference` of orchestrator.py.
--   FundPollers         services/fund_pollers.py: the report of a poller and the rollup.
--
-- Parameters. The Supabase table is an interface with two laws on its rows. Model providers, PyJWT,
-- the network, the environment, and the tool back ends are functions or values of a record. Each
-- fallible call of theirs has a result for its failure. Times are natural numbers of seconds or
-- days; a request's fate (served, not carried out, answer lost) is an argument. The calls of a round
-- of the knowledge chat come back in an order that is an argument, and each acts on the turn's passages
-- when it comes back. A file system may take two paths for one, by an equivalence that is an
-- argument; each of its calls that can raise has a flag. Unicode's tables of words and digits are
-- arguments, and numbers in citations have fewer digits than `int` refuses. LangGraph merges the
-- updates of the nodes, and reports each node by its start, its custom events in their order, and its
-- end with the update; the root reports the final state. URLs are parsed, names resolved and pages
-- requested by functions that are arguments, and so are NFKC, the category Cf and the nonce of a fence.
-- So are the preference that a model extracts and the test for state that a tool owns. The dispatchers
-- of the tools and the composers return a text or a failure, as their docstrings promise: they do not
-- raise.
--
-- Loops. The graph runs on fuel, LangGraph's recursion limit of 25 nodes: eight steps up to the
-- step bound, one more to compose, and the finish need fewer. The retry loops recurse on the
-- attempts left, the other loops on their lists. The knowledge chat has one round more than its
-- setting, a page is followed for three redirects, and the names tried for an upload are the 998 of
-- the source. The listing of a vault, which follows tokens while the service says so, runs on fuel,
-- and ends on fuel for its pages.
--
-- Not modelled: the tool back ends but the vault, the calendar, the second look at an attachment and
-- the read of a page; the request that extracts a preference, the fixed words of prompts, the
-- decoding of images and documents, the shape in which images are sent to a provider, a request that
-- is cancelled while it runs, and logging and tracing. The upload services are parameters of the
-- gateway's model. services/llm_ledger.py is a copy of another project's library.
pub mod Prelude
pub mod PendingPlans
pub mod Orchestrator
pub mod Attachments
pub mod Auth
pub mod Calendar
pub mod FundPollers
pub mod Kb
pub mod KnowledgeChat
pub mod Memory
pub mod Router
pub mod Storage
pub mod Uploads
pub mod Untrusted
pub mod Vault
pub mod Web
