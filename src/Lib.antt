-- ===== src/Lib.antt =====
-- ibet-Prime: the batch processors that follow the chain's event logs into the database, create ledgers
-- and carry out scheduled updates.
--
-- Eight processors are modelled. The first four and Delivery read the event logs of the token and
-- exchange contracts block range by block range, change their tables, record how far they have come,
-- and commit.
--   * Utxo, the UTXO processor: batch/processor_create_utxo.py and app/model/db/utxo.py. Utxo/Table
--     is the table, Utxo/Sink `__sink_on_utxo`, Utxo/Events the three event passes, Utxo/Process
--     `process` and the rounds of `main`. Utxo/Totals, Loops, Holdings, Balances, Provenance, Keys,
--     Fifo, Movements, Supply, Failures, Process/Keys and Process/Progress are proofs.
--   * Holders, the token holder snapshots: batch/indexer_token_holders.py and
--     app/model/db/token_holders_collection.py. Holders/Book is `BalanceBook`, Holders/Events the
--     eight event passes, Holders/Table `__save_holders` and the table, Holders/Collect `collect`.
--     Holders/Supply, Pages, Save and Progress are proofs.
--   * Approval, the transfer approval indexer: batch/indexer_transfer_approval.py and
--     app/model/db/idx_transfer_approval.py. Approval/Table is `__sink_on_transfer_approval`,
--     Approval/Events the seven event passes, Approval/Notify the notifications, Approval/Sync
--     `__get_contract_list` and `sync_new_logs`. Approval/Rows, Failures, Notices, Progress,
--     Absent and Oversized are proofs.
--   * IssueRedeem, the issue and redeem indexer: batch/indexer_issue_redeem.py and
--     app/model/db/idx_issue_redeem.py. IssueRedeem/Index is the two event passes, IssueRedeem/Sync
--     `__get_token_list` and `sync_new_logs`. IssueRedeem/Rows, Passes, Returns, Complete and
--     Listed are proofs.
--   * Ledger, the creation of ledgers: app/utils/ibet_ledger_utils.py, batch/processor_create_ledger.py
--     and app/model/db/ledger.py. Ledger/Tables is the tables, Ledger/Dataset the two
--     `__create_dataset_…`, Ledger/Request `request_ledger_creation`, which the UTXO processor calls
--     and which reads its table, Ledger/Finalize `sync_request_with_registered_personal_info` and
--     `finalize_ledger`, Ledger/Process the processor. Ledger/Sums, Days, Sources, Entries, Completes,
--     Finishes and Forgotten are proofs.
--   * Scheduled, the scheduled events: batch/processor_scheduled_events.py and
--     app/model/db/scheduled_events.py. Scheduled/Table is the table and its queries, Scheduled/Workers
--     the workers and the API as steps in any order. Scheduled/Exclusion, Rows, Tasks, Pending and
--     Failures are proofs.
--   * Delivery models batch/indexer_dvp_delivery.py with app/model/db/idx_dvp_delivery.py and
--     app/model/db/dvp.py: Table is the rows of deliveries and `__sink_on_delivery`, Events the five
--     passes, Sync the exchanges, the block numbers and `sync_new_logs`. Rows, Keeps, Passes, Runs,
--     Progress, Failures and Contracts are proofs.
--   * DvpTx models batch/processor_dvp_async_tx.py, which sends the transactions of the processes that
--     Delivery instructs (and that the API creates): Process is `process` and its three passes over the
--     rows of `dvp_async_process`. Rows, Places, Kept, Endless, Ends and Composed
--     are proofs.
-- They share Chain (the node), Logs (filtering, ordering and going through event logs), Blocks
-- (the loop over block ranges of Holders, Approval, IssueRedeem and Delivery) and Tokens (`token` and `account`,
-- app/model/db/token.py and app/model/db/account.py, and the join that selects the issued tokens).
-- Base holds the helpers: numbers, integers, queries (select, first), sorting, sums.
--
-- How the code is read:
--   * Addresses, hashes and texts are only compared and handed on, so they are numbers. Amounts of
--     UTXO rows are natural numbers (none is made negative); balances of a book are integers.
--   * An exception that leaves a method is `none`, or `raised`. Nothing of the session is committed
--     then, except where the code itself commits.
--   * A table is the list of its rows; `select … where … limit 1` is the first row that fits, and rows
--     that an `order_by` ties stay in their order. `add` appends a row, `merge` writes it in place.
--   * The node (`AsyncContractUtils`, `web3.eth`), the contracts, `json.loads` and
--     `datetime.fromtimestamp` are fields of the parameter Chain. A result that relies on how they
--     behave names it as a hypothesis. The latest block is fixed during a run.
--   * The UTXO processor takes the ledger request as an argument, which may discard its changes;
--     `request_ledger_creation o tokens` of Ledger/Request is one, for the contracts and the clock o. Its
--     `DBAPIError` is a number of more than 64 bits in a row.
--   * Ids drawn by `uuid4` are numbers that count up; other random ids are left out. Times are in
--     microseconds. The contracts of tokens, the clock and the time zone are fields of Office.
--   * A worker of scheduled events takes one step from one `await` to the next that lets others run: the
--     section under the lock, the loading of events, one event up to its commit, the release. The steps
--     of workers and API form a list in any order; how the sending of an update ends is part of a step.
--   * Lot sizes (`CREATE_UTXO_BLOCK_LOT_MAX_SIZE`, `INDEXER_BLOCK_LOT_MAX_SIZE`) are arguments; the
--     theorems that need them positive say so.
--   * A page that is added to the session becomes a row and stays a page: both are saved again after
--     every block range, so the copy in the table agrees with the page when it is written.
--   * The source rows of a reallocation are read before the loop. The loop writes rows of the new
--     holder only, who is not the giver, so they are not changed under it.
--   * The order of a Python set of exchanges is not defined; the model takes that of the tokens.
--
-- Fuel: `sync_lots` (so `collect` and each `sync_new_logs`) and `rounds` take fuel, one unit for a
-- block range. More fuel than there are blocks is enough, since every range has at least one.
--
-- Not modelled: failures of the node and, but for that `DBAPIError`, of the database, the 64-bit limit of
-- other columns that hold a sum, logging and sleeping; the other indexers and processors, the API, the
-- contract wrappers and the tools (app/routers, app/model/ibet, app/model/eth, cmd).
pub mod Base
pub mod Chain
pub mod Logs
pub mod Blocks
pub mod Tokens
pub mod Utxo
pub mod Holders
pub mod Approval
pub mod IssueRedeem
pub mod Ledger
pub mod Scheduled
pub mod Delivery
pub mod DvpTx
