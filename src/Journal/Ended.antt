-- ===== src/Journal/Ended.antt =====
-- JournalWriter of executor/journal.py: once a call of the background worker has raised, its thread has
-- ended and writes nothing more.
use polymarket_trade_executo.Common.{String, ◌≡◌, false, some, List, Result}
use polymarket_trade_executo.Common.Int.{ℤ}
use polymarket_trade_executo.Journal.Json.{Json}
use polymarket_trade_executo.Journal.Types.{JournalRecord}
use polymarket_trade_executo.Journal.Writer.{QueueItem, JournalStorage, JournalWriter}
use polymarket_trade_executo.Journal.Drained.{written}

module _ {S E : Type 0} (operations : JournalStorage S E)
    (serializer : JournalRecord → Result E Json) (partition_key : ℤ → Result E String) where
  -- a writer that is open, whose worker has ended, with items that wait and what is written
  record IsDead (w : JournalWriter S) (items : List QueueItem) (c : S × ℤ) : Type 0 where
    open_w : w.closed ≡ false
    dead : w.worker_alive ≡ false
    waits : w.queue ≡ some items
    same : written operations serializer partition_key w ≡ c
