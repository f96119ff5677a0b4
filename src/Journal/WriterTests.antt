-- ===== src/Journal/WriterTests.antt =====
-- Runs of JournalWriter of executor/journal.py over a list of lines, and its theorems there.
use polymarket_trade_executo.Common.{
  String, refl, true, false, none, some, List, [], ◌∷◌, ◌++◌, Result, ok, err,
}
use polymarket_trade_executo.Common.Int.{ℤ, pos, ◌+ℤ◌}
use polymarket_trade_executo.Journal.Json.{Json, Fields}
use polymarket_trade_executo.Journal.Types.{JournalEventType, JournalRecord}
use polymarket_trade_executo.Journal.Records.{dumps}
use polymarket_trade_executo.Journal.Writer.{
  JournalStorage, JournalWriterConfig, JournalWriter, QueueItem, new_writer, line_of, store,
  append_sync, append_open, append, worker_round,
}
use polymarket_trade_executo.Journal.Drained.{
  WriterTurn, turn, turns, RaiseNothing, JoinsAs, join-new_writer,
}

abbrev failure : JournalRecord
failure = record {
  schema_version = pos 1;
  event_id = "1";
  ts_ns = pos 150;
  event_type = JournalEventType.package_failed;
  package_id = some "p";
  opportunity_id = none;
  relation_id = none;
  payload = Fields.field "reason" (Json.text "stop") Fields.end;
  source = "executor";
}

-- a storage that is the list of its partitions and lines
abbrev lines : JournalStorage (List (String × Json)) String
lines = record {
  append_line = λ s key line. (s ++ ((key, line) ∷ []), ok tt);
  flush_storage = λ s. (s, ok tt);
  close_storage = λ s. (s, ok tt);
}

abbrev day : ℤ → Result String String
day ts_ns = ok "1970-01-01"

abbrev line : JournalRecord → Result String Json
line entry = ok (dumps entry)

abbrev in_background : JournalWriterConfig
in_background = record {
  background = true;
  queue_max_size = pos 20000;
  enqueue_timeout_ms = pos 5;
  flush_every_n_events = pos 2;
}

abbrev direct : JournalWriterConfig
direct = record in_background { background = false }

abbrev interleaved : List WriterTurn
interleaved =
    WriterTurn.put failure
    ∷ WriterTurn.worker
    ∷ WriterTurn.put failure
    ∷ WriterTurn.put failure
    ∷ []

quiet : RaiseNothing lines line day (new_writer [] direct) interleaved
unfolding RaiseNothing turn append append_open append_sync store line_of worker_round ◌+ℤ◌
quiet = (refl, (refl, (refl, tt)))

join-new_writer_example :
    JoinsAs lines line day
      (turns lines line day (new_writer [] in_background) interleaved)
      (turns lines line day (new_writer [] direct) interleaved)
join-new_writer_example =
    join-new_writer lines line day [] in_background direct interleaved refl refl refl quiet

-- a storage that is full
abbrev full : JournalStorage (List (String × Json)) String
full = record lines { append_line = λ s key text. (s, err "No space left on device") }

abbrev waiting : JournalWriter (List (String × Json))
waiting = record (new_writer [] in_background) {
  queue = some (QueueItem.queued failure ∷ QueueItem.queued failure ∷ []);
}
