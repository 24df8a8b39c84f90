-- ===== src/Lib.antt =====
-- The admin console of the gateway: apps/react/src, a React program in TypeScript.
--
-- Parts and files:
--   Base      texts as lists of UTF-16 code units (Split cuts them into lines), dictionaries in the
--             order of insertion, lists over the native numbers and their sorting (Sort), tests on
--             doubles by their bit patterns (Double), functions that may throw (Found); Keep and
--             Values have lemmas on filtered lists and on dictionaries of values
--   Json      JSON values, the operations on them, and the JavaScript engine as a record
--   Toml      the text of the voice editor: readTomlString, checkTomlTail, parseTomlHeader and
--             parseVoicesToml of pages/Channels/index.tsx; Toml/Writer has quoteTomlName and
--             voicesToToml. The lemmas follow the reader: Strings (quoted texts), Lines, Headers
--             (section headers), Steps (one line), Reads (the lines of one voice), RoundTrip,
--             Accepted (what the reader lets through)
--   Api       the requests of api/*.ts as values; Api/Client the session (store/auth.ts) and the
--             interceptors (api/client.ts); Groups, Accounts, Payments and Stats the requests about
--             groups with their prices and limits, keys, users and vouchers, payments, statistics
--   Channels  the JSON columns of a channel: parseMappingKeys, parseModelIds, parseMappings,
--             parseModelsDetail, toStorageVoice; Channels/Dialog the dialog "manage models", whose
--             state hooks are the record Dialog and whose handlers are functions on it
--             (openManageModels is open_manage_models, and so on). Channels/Dialog/Loading makes
--             the loading of the upstream's models a step relation, Cache says whose models are
--             cached, Selection what is selected, Saving what is read back, View the rows of the
--             dialog and its buttons (View/Ticked has the theorem). Channels/Drawer the table
--             and the drawer that edits a channel (openCreate, openEdit, handleSubmit, handleDelete,
--             the rows of the mapping); Rules has what its checks let through
--   Logs      pages/Logs/logParsing.ts: Logs the functions on one JSON value (formatOpenAIToolCalls,
--             extractDeltaText, buildResponseWarnings, parseMessages), Logs/Stream the loop of
--             parseResponseParts over the lines of an event stream, Logs/Response the body as a
--             whole. Lines, Events, Calls, Bodies and Warnings have the lemmas and theorems. Logs/Page
--             is pages/Logs/index.tsx, its Details the opening of rows as a step relation;
--             Logs/Cells the cells of its table, Logs/Row what an opened row displays. Row/Typed
--             says where it does not throw, Row/Shown what the row of a message has in it,
--             Row/Replied has the theorem
--   Chat      pages/Chat: the state of the conversation and what changes its last message, Chat/Sse
--             the reading of an answer's lines (readSSE), Chat/Answer what a line does to the
--             conversation in either protocol, Chat/Sending handleSend with its request and
--             answer (History and Whole have the theorems), Chat/Models the keys and the models,
--             Chat/Curl the commands to copy
--   Prices    pages/Prices: the rows of prices and their groups by model, Prices/Editing the form
--             and the requests of its submit; Groups, Billing and Submit have the theorems:
--             Billing against a list of rows that stands for the server, Submit with the requests
--             read by their methods, addresses and bodies. Prices/Cells the formats of the table
--   Dashboard pages/Dashboard: the state, the requests and their replies; Dashboard/Handlers the
--             handlers, Dashboard/Loading the effect that loads the data, with its dependencies and its
--             flag `cancelled`, as a step relation (Comparing and Kept have lemmas, Latest the
--             theorems). The answers to the loads are an arbitrary function of a load's number.
--             Dashboard/Tables the columns
--   Groups    pages/Groups: the table and the dialogs of a group's limits, channels and prices;
--             Groups/Channels and Groups/Windows have the theorems
--   Payment   pages/Payment: the settings, the packages and the orders; Payment/Display the names
--             and formats on display, Payment/Secrets has the theorem
--   Vouchers  pages/Vouchers; Vouchers/Payload says what a request has, Vouchers/Display the download,
--             the names and the cells
--   Users     pages/Users: AdminTab and UserGroupTab; Users/Membership has the theorem
--   Keys      pages/ApiKeys: the keys of a user
--   Docs      pages/Docs: the table of contents, which section is the active one and which groups are
--             open; Docs/Sidebar has the theorem
--   Home      pages/Home: its own copy of the grouping of Pricing; Home/Copy compares the two
--   Payloads  the bodies of the requests of these pages against the interfaces of api/*.ts, which
--             Api/Interfaces has as values: Payloads/Channels the drawer of a channel, Bodies the
--             theorem
--   Pricing   pages/Pricing/public.tsx: buildModels, classifyVendor and what the tables list; Listing
--             has the theorem, Pricing/Cells the formats
--   Console   who sees which page: components/AuthGuard, the routes of router, the menu and the
--             sign-out of components/Layout with its titles, the sign-in of pages/Login; Access has the
--             theorems
--
-- A handler is a function from the state to the new state and a list of effects (requests,
-- messages, reloads, navigation). A handler that awaits a reply takes the reply as an argument,
-- or is cut in two at the `await` where other events may come between (start_load, finish_load).
-- A function that throws gives the message (Result) or `none`. All loops are structural, so there
-- is no fuel but in `decimal`, which has more than the number's digits need.
--
-- Not modelled: JSX and styles, the component library, the server (any_gateway, in Python), and the
-- text of the pages Docs and Home. `toLowerCase` is modelled on ASCII letters.
pub mod Base
pub mod Toml
pub mod Users
pub mod Vouchers
pub mod Home
pub mod Json
pub mod Api
pub mod Channels
pub mod Docs
pub mod Groups
pub mod Keys
pub mod Logs
pub mod Console
pub mod Chat
pub mod Dashboard
pub mod Payloads
pub mod Payment
pub mod Prices
pub mod Pricing
