-- ===== src/Tests/RaftStore.antt =====
-- The raft store over a list: logs and a setting.
use robustirc.Base.{[], arith, option_case, true, ℕ, ◌∷◌, ◌≡◌}
use robustirc.Examples.{client_line}
use robustirc.LogStore.{IsLogMap}
use robustirc.RaftStore.{LevelDb, StoreValue, found, get_log, store_logs}
use robustirc.RaftStore.Logs.{raft_log_store, raft_log_store-IsLogMap}
use robustirc.RaftStore.Order.{stable_bound}
use robustirc.RaftStore.Ranges.{IsLevelDb}
use robustirc.RaftStore.Stable.{get_log-store_logs, last_with}
use robustirc.Robust.{Message}
use robustirc.Tests.LevelDb.{sorted_db, sorted_db-IsLevelDb}
use robustirc.Tests.Wire.{plain-IsLosslessWire, plain_wire}
use robustirc.Text.{text_eq}
use robustirc.Wire.{EntryData, LogValue, RaftLog, command, message_bytes}

abbrev pub plain_db : LevelDb (StoreValue (LogValue plain_wire))
plain_db = sorted_db (StoreValue (LogValue plain_wire))

abbrev pub plain_law : IsLevelDb plain_db
plain_law = sorted_db-IsLevelDb (StoreValue (LogValue plain_wire))

abbrev pub test_log : ℕ → Message → RaftLog (EntryData plain_wire)
test_log index msg = record {
  index = index;
  term = 1;
  type = command;
  payload = message_bytes plain_wire true msg;
  extensions = [];
}

raft_log_store-IsLogMap_example :
    IsLogMap (raft_log_store plain_wire plain_db plain_law) stable_bound
raft_log_store-IsLogMap_example = raft_log_store-IsLogMap plain_wire plain_db plain_law

get_log-store_logs_example :
    get_log plain_wire plain_db 300 (
      store_logs plain_wire plain_db true
        (test_log 300 (client_line 1 2) ∷ test_log 300 (client_line 3 4) ∷ [])
        plain_db.empty)
    ≡ option_case
        (last_with plain_wire plain_db plain_law 300
          (test_log 300 (client_line 1 2) ∷ test_log 300 (client_line 3 4) ∷ []))
        (get_log plain_wire plain_db 300 plain_db.empty)
        found
get_log-store_logs_example =
    get_log-store_logs plain_wire plain_db plain_law true
      (test_log 300 (client_line 1 2) ∷ test_log 300 (client_line 3 4) ∷ []) 300 plain_db.empty
      plain-IsLosslessWire (omega arith, (omega arith, tt)) (omega arith)
