-- ===== src/Lib.antt =====
-- Bitcoin Trading System: a trader of futures that takes signals from one platform (Eagle) and
-- sends orders to a broker (Interactive Brokers, "IB"). Safety matters more than throughput: an
-- order must not be sent twice, a signal must open and close once, and what the broker reports
-- must not be lost or undone.
--
-- The parts and how they interact. The event processor accepts each event of Eagle once and in
-- order, and heartbeats advance its sequence number. An accepted event becomes a trade request,
-- which the risk manager checks against the position, its limits and three gates: the trading
-- controls, the kill switch and the daily loss guard. The signal lifecycle guard decides
-- whether the request may open or close its signal. The execution client takes an accepted
-- request: it reserves it in the in-memory duplicate guard and in the durable execution ledger,
-- has the order factory build contract and order, marks the record SUBMITTED, and only then
-- calls the broker. The broker's orderStatus callbacks come back through the order status
-- transport, which moves the record of the order in the same ledger. A restarted process keeps
-- the ledger and has an empty duplicate guard.
--
-- Files and code:
--  - Protocol: app/communications/protocol.py, trade_request.py (TradeRequest, from_event) and
--    incoming_event.py.
--  - SignalLifecycle: app/signal_lifecycle_guard.py. A Guard is the SQLite table
--    signal_lifecycle; process, get_state, get_snapshot, all_snapshots and next_state_for are
--    the methods of these names. Children: the invariant of the table, its refinement to a map
--    from signals to states, and the life of one signal.
--  - ExecutionLedger: app/execution_ledger.py. A Ledger is the tables execution_records and
--    execution_transitions and the counter of the second. Status has the statuses and their
--    table, Defs the methods; Outcomes, Audit and Runs have proofs.
--  - DuplicateOrderGuard: app/duplicate_order_guard.py, with the dict as a list of entries.
--  - IbOrderFactory: app/ib_order_factory.py. Contract and Order are the attributes that the
--    code sets on objects of the package ibapi.
--  - IbExecutionClient: app/ib_execution_client.py. A Client is the guard, the ledger, and the
--    list of calls of the broker so far, which only the model keeps. What the broker does with
--    an order is a parameter, place_order: it returns or raises.
--  - IbOrderStatus: app/ib_order_status_transport.py, on the same Ledger.
--  - IbExecutionDetails: app/ib_execution_details_transport.py, on the same Ledger and the
--    table ib_execution_details; Checks has its checks of contract and side, Replay and Within
--    the proofs.
--  - EventStore and EventProcessor: app/event_store.py, event_processor.py and
--    heartbeat_processor.py. An EventStore is the table processed_events and the row of
--    sequence_state. Order has what one call answers, Feed what any feed of events and
--    heartbeats leads to.
--  - EventTrackers: app/idempotency_manager.py and sequence_manager.py, compared with the event
--    store.
--  - TradingControls, KillSwitch, DailyLossGuard: app/trading_controls.py, kill_switch.py and
--    daily_loss_guard.py, each class a record with its methods.
--  - RiskManager: app/risk_manager.py, whose record holds the three at the moment of a call. A
--    decision's reason is the branch that gave it and the values in its text.
--  - EagleTradeAdapter: app/communications/eagle_trade_adapter.py, on the guard's database;
--    Requests has what an adapted event asks for.
--  - TradeCoordinator: app/trade_coordinator.py and trade_decision.py, on the controls of the
--    moment and the guard's database.
--  - BrokerPositions: app/broker_position.py, broker_position_adapter.py and
--    broker_position_provider.py. IbBrokerClient: app/ib_broker_client.py and
--    ib_position_transport.py; Snapshot has what a snapshot holds.
--  - Reconnection: app/connection_health.py, replay_tracker.py, reconciliation_manager.py,
--    reconnect_readiness.py and resume_manager.py, joined in a Session; Watchdog is
--    app/heartbeat_watchdog.py. A dict of a position is the list of its keys and of the repr of
--    its values.
--  - IbErrorHandler: app/ib_error_handler.py, on the ledger and the kill switch; Latch has what
--    later messages leave.
--  - IbTradingReadiness: app/ib_trading_readiness.py and ib_api_ready.py, on a Gate of the
--    objects that it looks at.
--  - PaperTrader: functions of scripts/run_real_eagle_ib_paper_trader.py. Policy has the
--    configuration, the checks of a request and of a recovery; Reconcile the broker's position
--    and the open signals; Hello the comparison with Eagle's hello; Durable what a start reads
--    in the ledger (check_start is the part of run_continuous_paper_trader from
--    find_reserved_exit to the kill switch); Waiting wait_until. Signals, Accepted, Cycle,
--    Exits and Restart have proofs.
--  - IbOrderIdAllocator: app/ib_order_id_allocator.py. Fresh has what any calls lead to.
--  - Shared: results and exceptions (Result), methods that change state and may raise (Action),
--    SQL tables (Table), ORDER BY (Sort), integers (Int), decimals (Decimal), texts (Text), and
--    the lemmas about them.
--
-- Conventions. Arguments are typed, so the checks by isinstance hold; a check of a value is
-- kept. An exception keeps its class and a result its data, without their explanatory texts. A
-- method is a function from the state to a result and a state; what was written before a raise
-- stays written, but for a SQLite transaction, which rolls back. A number stored in a table is
-- within the bounds of SQLite's INTEGER. A table is the list of its rows in order of insertion;
-- a column that holds an enum's value holds the member, except in SignalLifecycle, whose code
-- checks the stored text. The clock is an argument of each method that reads it. The locks are
-- left out: a call is one step. str.strip removes the white space of one code point as Python
-- does; str.upper and str.isdigit are those of ASCII, for symbols and codes of that alphabet. A
-- Decimal is exact: the comparisons that the code makes do not round, and its sums of two
-- numbers would only beyond 28 digits. What Decimal(str(value)) reads in an argument is an
-- argument. Recursion is on lists, but for wait_until, whose polls are counted by fuel: one
-- more than the units of its timeout is enough, since the clock rises by at least one unit from
-- a poll to the next. What other threads do between two polls is in the condition and the clock
-- of each poll.
--
-- Not modelled: sockets, threads, logging, the command line, reading of configuration, the file
-- of a database, and ibapi itself. Nor are the modules under app/ that are not named above: the
-- parsers of Eagle's control frames and its client, and the management of the broker's
-- connection. Of the paper trader, the loop over Eagle's messages, with its calls of the parts
-- above, and the recovery of a replayed exit are not modelled.
pub mod Shared
pub mod Protocol
pub mod SignalLifecycle
pub mod ExecutionLedger
pub mod DuplicateOrderGuard
pub mod IbOrderFactory
pub mod IbExecutionClient
pub mod IbOrderStatus
pub mod IbExecutionDetails
pub mod EventStore
pub mod EventProcessor
pub mod EventTrackers
pub mod TradingControls
pub mod KillSwitch
pub mod DailyLossGuard
pub mod RiskManager
pub mod EagleTradeAdapter
pub mod TradeCoordinator
pub mod IbOrderIdAllocator
pub mod BrokerPositions
pub mod IbBrokerClient
pub mod Reconnection
pub mod IbErrorHandler
pub mod IbTradingReadiness
pub mod PaperTrader
