-- ===== src/Lib.antt =====
-- The backend of a social listening product, a NestJS server in TypeScript: it collects comments
-- and messages of social pages (tabs), runs workflows on them, queues their senders for agents, and
-- manages which users work in which tab. This library models its services and proves what they
-- promise.
--
-- How the parts interact. Every service is a class whose methods read and write one database
-- through the Prisma client and throw on failure; controllers call services and turn an exception
-- into a message; hooks of the bot walk the graph of the active workflow of a tab and put senders
-- into the hot queue; gateways emit to rooms of the socket server.
--
-- Where each part is modelled:
--   Exec, Exec/Runs       asynchronous methods: state, result or error, try and catch; rules that
--                         say what a run ends in
--   Prisma, Store         the database client as a parameter with laws (any call may fail, findFirst
--                         may pick any row), the tables as one state, a rule for each call
--   Store/Total           the rules of a database whose calls do not fail
--   Schema                prisma/schema.prisma: a record for each table (Workflow, UserInTab, ...)
--   Reply, Platform       what a handler answers, and its checks; packages as parameters
--   Async                 the idioms of the services: the catch that hides every failure behind one
--                         message, Promise.all, promises that nobody awaits
--   Social/Lookups        look-ups of src/modules/socialGroups, socialSender, socialMessage, message,
--                         setting and roles (getSocialTabInfo is get_social_tab_info, and so on)
--   Social/Pages          what the look-up of a page's sender finds
--   Workflow/Graph        src/modules/workflows/services/workflowNode.service.ts,
--                         workflowEdge.service.ts and workflowVariable.service.ts
--   Workflow/Records      workflow.service.ts: create, update, activate, delete
--   Workflow/Data         workflowData.service.ts: what a workflow keeps for each message
--   Workflow/Call, Hook   workflow.service.ts: callService and tryCallHook, the walk on the graph
--   Workflow/HotQueue     hotQueue.service.ts, hotQueueMessage.service.ts and workflow.gateway.ts
--   Workflow/Controller   src/modules/workflows/controllers/workflow.controller.ts
--   Workflow/Activation, Invariant, Keeps, Requests: proofs on the requests that change workflows;
--                         proofs on one component stand in a child of its module (Graph/Next,
--                         HotQueue/Stop, HotQueue/Save, Hook/Queued, Call/Sentiment)
--   Users/InTab           src/modules/users/services/userInTab.service.ts, with the log entries of
--                         src/modules/socialLogs/services/socialLog.service.ts; Once, Left, Manager: proofs
--   Text, Filtering       src/config/database/advancedFiltering.service.ts: the filters of a page as
--                         a query of the database client; Filtering/Calendar, Columns: proofs
--   Messages              src/modules/message/services/message.service.ts: the grouping of messages into
--                         conversations and their filter by dates; Receive: createMessage of the
--                         service and of message.controller.ts; Receive/Paused, Stored: proofs
--   Comments              src/modules/socialMessage: saveMessage of the controller and its services;
--                         Comments/Posts: proofs
--   Social/Tabs           src/modules/socialGroups and socialSetting: groups, tabs and their settings;
--                         Tabs/Working: proofs
--   Startup               src/startup.service.ts; Startup/Settings: proofs
--   Auth                  src/modules/auth: the check of API keys, the guards of permissions and roles
--   Auth/Sessions, Requests  the stored tokens of src/modules/token, auth.service.ts and
--                         auth.controller.ts; Auth/Login and Auth/Tokens: proofs
--   Permissions           src/modules/permission: the permissions of roles; Sets: the set of pairs that
--                         the table stands for; Assigned, Removed: proofs
--   Users/Accounts        src/modules/users/services/user.service.ts; Import: importData, with
--                         plainToClassCustom of src/utils/hepler.ts; Groups: userInGroup.service.ts and
--                         socialGroup.service.ts; Requests: user.controller.ts
--   Users/Emails, Secrets, Levels, Switch, Import/Counts, Import/Data: proofs; Info: rules
--   Notifications         src/modules/notifications, sockets, and queue/workers/notification.worker.ts;
--                         Attempts, Read: proofs
--   Files                 src/modules/files and the names of files of src/utils/hepler.ts
--   Dashboard             src/modules/dashboard/service/dashboard.service.ts: the counts of the charts;
--                         Merge, Charts, Percents, Sums: proofs
--   Tests                 a database that never fails, and every theorem applied to concrete tables
--
-- A method `async f(x)` is a function f of the client and x into Exec Store; a row update is a
-- function on the row; the names are the source's in snake case. The code's loops go
-- over lists, and their models recurse on those lists; only the retries of a notification run on
-- fuel. Every definition is total. The column isWorked of a tab is true where the tab is paused
-- (WorkingState of src/common/enum/workingState.enum.ts).
--
-- The dates of a filter (Filtering, Messages) are instants in milliseconds, counted from the earliest
-- that Date has, and the Invalid Date is none. What a text reads as and the midnight of an instant
-- are parameters (Dates); the proofs use that the midnight is the first instant of the local day and
-- that days follow one another (IsCalendar), and not how long a day takes: where a day has to take 24
-- hours, as the code assumes, the theorem says so.
--
-- What is represented otherwise. Identifiers (uuids, ids of the platforms) are numbers, since the
-- code only compares them. A JSON text is the value that it parses to. Timestamps and columns that
-- no modelled operation reads are left out. The tab of a workflow is never null, though the schema
-- allows it. A relation loaded with `include` is a second look-up. The promises of a Promise.all
-- run in the order of the list. A text built from a template is the list of its pieces, or
-- abbreviated where it only names an identifier in a message of an error. Sentiment values are
-- signed numbers in a fixed unit, and reading a range such as "0 - 0.5" (split and parseFloat) is a
-- parameter. A hook's data are taken to hold the identifiers that the look-ups need: without one
-- the model fails, where the client would drop the condition and find any row. In save_message and
-- save_comment a missing text of the message is refused before the page is looked up, not in the
-- call of the client that refuses it.
--
-- Passwords and tokens: bcrypt, jsonwebtoken and the methods of strings are parameters (Platform);
-- the salt of a hash and the moment of a token are numbers. The queue of notifications is the list of
-- what was sent; Notifications.deliver runs a job and those that it leads to on fuel, and five
-- attempts, the default of the schema, need fuel five. A message of an error that names an e-mail or
-- an identifier leaves it out.
--
-- Not modelled: the listings with pages and the exports to a sheet, which only read; the sentiments
-- of messages and comments; mail, uploads and reading sheets (src/modules/mail, queue, files), which
-- call outside services; posts and networks (src/modules/socialPosts, socialNetworks), a query in SQL
-- and rows stored as they come; the lists of permissions in the enums of the modules, which are data;
-- module declarations.

pub mod Async
pub mod Auth
pub mod Base
pub mod Comments
pub mod Dashboard
pub mod Exec
pub mod Files
pub mod Filtering
pub mod Int
pub mod Lists
pub mod Messages
pub mod Notifications
pub mod Permissions
pub mod Platform
pub mod Prisma
pub mod Reply
pub mod Schema
pub mod Social
pub mod Startup
pub mod Store
pub mod Tests
pub mod Text
pub mod Users
pub mod Workflow
