-- ===== src/Lib.antt =====
-- A model of a multi-leg order executor for prediction markets, with theorems.
--
-- The program takes an arbitrage opportunity over several markets, sizes and prices it (planner),
-- checks it against limits (risk manager), submits one order for each leg through a venue adapter
-- (executor service), follows the orders by events (state machine) and journals the events.
--
-- * `StateMachine` models executor/state_machine.py whole: `Types` and `Events` are its data,
--   `Tables` its transition tables and sets, `Package` creation, lookup and the shared private
--   helpers, `Handlers` one function for each `_on_...`, `Reducer` `apply_event`. The other
--   children prove: `Evolves`, `Effects`, `LegSteps`, `Steps`, `FillSteps` that each handler is an
--   evolution of the package, `Transitions` what follows for one event and for sequences,
--   `Terminal` terminal packages and the halt, `Creation` creation, `Settled`, `SettledSteps` and
--   `Reachability` how the package state reflects the legs, `Fills` and `LateFills` fills.
-- * `Planner` models executor/planner.py whole: `Types` is its data, `Prices` the rounding and the
--   limit prices, `Checks` the checks, `Units` `_choose_package_units`, `Build` `_build_plan` and
--   `Plan` `plan`. `Rounding`, `Limits`, `Passed`, `Sums`, `Caps`, `Totals`, `Fees`, `Built`,
--   `Inputs`, `Accepted` and `Acceptance` prove what each function returns, `Outcomes` and `Total` how a call ends, and
--   `Spending` what an accepted plan may spend, earn and rest on. The planner takes the snapshots as
--   a function from market ids. `sorted` is insertion sort, as any stable sort returns the same list.
-- * `Risk` models executor/risk.py whole: `Types` is its data, `Exposure` and `Counter` the tracker
--   and the rolling counters, `Manager` the manager's state and its kill switches, `PreTrade`
--   `validate_pre_trade`, `Register` `register_package` and `close_package`, `Watch`
--   `on_state_event`, `evaluate_active_risk` and `record_venue_ambiguity`, `Recovery`
--   `rebuild_from_recovered_state`. `Reservations` and `Limits` prove what the tracker's operations
--   keep, `Passed`, `Allowed` and `Registered` what an allowed request meets, `Evaluated` and
--   `Closed` what scans and closings do, `Kept`, `History` and `Halted` what any sequence of calls
--   keeps. A dict is a list of entries; its mutated entries are set anew. The order in which Python
--   gives the elements of a set is a parameter.
-- * `Venue` models the data of executor/venue.py that adapters and executor exchange.
-- * `Journal` models executor/journal.py: `Json` is a Python value as a payload or a decoded line has it
--   and what Python makes of it, `Primitive` `_to_json_primitive`, `Types` the records and the
--   reconstructed state, `Serialize` and `Deserialize` plans and events, `Records` the records of
--   ExecutorJournal, of executor/executor_service.py's `_journal_event`, and their lines, `Replay` the
--   reconstructor and `Recover` the queries of its state and the coordinator. `RoundTrip` and `Lines`
--   prove that what is written is read back, `Rebuilt` what holds of every reconstructed state,
--   `Replayed` and `Recovered` that the replay of a journal does what the events did. `Writer` is
--   JournalWriter over any storage and serializer, whose calls may raise, its thread a step that may
--   come at any time; `Drained` compares it with a writer without a thread and `Ended` says what
--   becomes of it after an exception. A line is the JSON value that its text encodes. What `str` prints
--   of floats, lists, dicts and what JSON does not have, and what `int` reads of a text or an object, is
--   a parameter.
-- * `Common` holds shared notation, Python's integers with floor division, and results.
--
-- A call that may raise returns a `Result`; the exceptions are constructors that say which message
-- was raised, with the values that it names. A dataclass is a record and `replace` a record update.
-- Quantities, prices, money and times are unbounded signed integers, as in Python. Every loop runs
-- over a list and is structural recursion. Only the digits of a number and the scale of a quotient
-- recur on fuel: a number has fewer digits than one more than itself, and a scale of 52 more than the
-- divisor gives 53 bits.
-- A float that is only compared is an exact dyadic number, an infinity or NaN. The text of a
-- rejection is a constructor with the values it prints.
--
-- Not modelled: logs and metrics, the storages of the journal and its calendar, the client order
-- ids, the executor service but for `_journal_event`, the venue adapters, the slug structural
-- arbitrage and the examples; HTTP, signing and file handling are input and output.
pub mod Common
pub mod StateMachine
pub mod Planner
pub mod Risk
pub mod Venue
pub mod Journal
