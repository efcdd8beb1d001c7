-- ===== src/Lib.antt =====
-- Cockpit is an operator's terminal workspace. Its services watch the components of a workspace,
-- decide what to do when one of them fails, page those who are on call, guard dangerous actions,
-- collect approvals for them, and keep the layout of the panels and the screens of the terminals. Each service keeps its state in
-- records or in tables of SQLite, and gets the rest of the world (clock, identifiers, event bus) from
-- outside. This library models these services function by function and proves what makes them
-- correct.
--
-- The files, and the code that each one is about:
--   Prelude    lists, texts, equality tests, dictionaries and integers that the others share
--   Enums      src/cockpit/core/enums.py
--   Recovery   src/cockpit/ops/services/recovery_policy_service.py, src/cockpit/ops/models/health.py
--     Defaults: `_default_policies`; Verdict: which of its verdicts a failure gets; Backoff: the
--     numbers of a verdict; Window: how verdicts change with time
--   Guard      src/cockpit/ops/services/guard_policy_service.py, src/cockpit/ops/models/policy.py
--     Table: the policy as a table; Privilege: confirmation and elevated mode
--   Healing    src/cockpit/ops/services/self_healing_service.py,
--              src/cockpit/ops/services/incident_service.py
--     Data, Store: the events and tables, of src/cockpit/ops/events/health.py and
--     src/cockpit/ops/repositories/health.py; Kinds: the kinds in a task's metadata; Failures and
--     Settle: `_handle_failure`; Reports: healthy reports and the handlers of events; Recoveries: what
--     is due; Operator and Calls: what operators do, and all calls; Runs: what a recovery keeps to;
--     Sound and its children: the stored states; Attempts, and Budget with its children: the number
--     of attempts; Mode: a component seen from outside; Refines and its children: the tables as a
--     refinement of it; Outcomes and Heals: what is left of a failure, and of a healthy report
--   Approval   src/cockpit/ops/services/approval_service.py
--     Table: src/cockpit/ops/repositories/response.py, src/cockpit/ops/models/response.py; Ballot:
--     one decision; Sound: the invariant of the tables; Lifecycle: opening and expiry; Lost: the
--     events
--   Terminal   src/cockpit/terminal/engine/fallback.py
--     Screen, Osc, Control: one screen, the regular expression, control sequences; Invariant: the
--     cursor; Steps and Text: printable text; Switch: the alternate screen; Eaten: dropped input
--   Layout     src/cockpit/workspace/services/layout_service.py,
--              src/cockpit/workspace/models/layout.py
--     Tree: the operations on a split tree; Check, Reports and Valid: the validation; Panels and Removal:
--     which panels a tab has after an edit; Move: moving a panel; Stored: stored layouts
--   Dispatch   src/cockpit/core/dispatch/command_dispatcher.py,
--              src/cockpit/core/dispatch/handler_base.py
--     Bus: src/cockpit/core/dispatch/event_bus.py; Announce: the events and results of a dispatch
--   OnCall     src/cockpit/ops/services/oncall_resolution_service.py
--     Data: src/cockpit/ops/models/oncall.py; Coverage: when a schedule covers a moment; Shifts and
--     Rotation: windows and turns that follow one another; Ownership: the binding that decides
--   Escalation src/cockpit/ops/services/escalation_service.py
--     Data: src/cockpit/ops/models/escalation.py; Policy: the tables of policies and steps, of
--     src/cockpit/ops/services/escalation_policy_service.py and
--     src/cockpit/ops/repositories/escalation.py; Effects and Pages: the interface to the other
--     services, and what the operations share; Due, Incidents, Calls: the actions of the timer, of the events of
--     incidents and of operators; Run: sequences of them; Rank, Stored, Advance and Ticks: how long an
--     escalation lasts; Sound, SoundDue, SoundEnd, SoundCalls: what holds of stored engagements;
--     Validated, Saving, Deleted: policies that are saved and deleted; Refused: calls that come too late
--   Notify     src/cockpit/notifications/services/policy_service.py and suppression_service.py, with
--              src/cockpit/ops/repositories/notifications.py and src/cockpit/notifications/models.py
--     Routes: where a notification goes; Silenced: which ones are held back
--   Each folder has a file Tests with runs of the code on concrete inputs.
--
-- How state and operations correspond: a dataclass is a record with the same fields, a method is a
-- function of the same name without the leading underscore, with the fields of `self` that it reads
-- and writes as arguments and results. A table is a dictionary, as a list of pairs in the order of
-- insertion. `make_id` and `utc_now` are arguments. An exception is `none` or an error value; the
-- text of a message is a constructor over the values in it.
--
-- Bounds and fuel: Python's integers have no bound, and are natural numbers or integers here; times
-- are microseconds since an epoch. No definition has fuel: each loop of the code is recursion on a
-- list, a tree or a number. The timer of the escalation runs for ever; that the actions of one
-- engagement end is a theorem, not a bound of the model. The loops of the terminal engine consume
-- their text, an escape sequence by a count of characters to skip.
--
-- Not modelled: SQL, threads, processes, sockets and the user interface, which are effects of
-- libraries that the source calls; the response engine, the delivery of notifications
-- and the reviews of incidents, services of this program that the library does not cover. The dispatch of
-- notifications is an operation that escalation is given, and so are the time zones for schedules.
-- Self-healing is given the managers that restart sessions, tunnels, tasks, plugin hosts and watches, as
-- functions that say what a restart publishes and raises. It reads the recovery policy as modelled here
-- and opens the incidents that escalation works on.
-- Where the model is narrower than Python: digits and lower case are those of ASCII (the parameters of
-- control sequences, times such as 08:00, and the markers in a failure's reason), while str.isdigit and
-- int know other digits, and int raises on some characters that str.isdigit accepts. Times that SQL compares
-- as ISO texts are compared as instants, which is the same for texts with one offset. The length of a rotation's
-- turns is divided exactly, where the code divides floats. Rows that SQL orders by a time, and then by
-- an id, come in the order of insertion where the times are equal.

pub mod Prelude
pub mod Enums
pub mod Recovery
pub mod Guard
pub mod Healing
pub mod Approval
pub mod Terminal
pub mod Layout
pub mod Dispatch
pub mod OnCall
pub mod Escalation
pub mod Notify
