-- ===== src/Journal/Writer.antt =====
-- JournalWriter of executor/journal.py over any storage and any serializer, whose calls may raise. A
-- call that waits for room in the queue is modelled where it goes on; one that waits for the end of
-- the queue gives none where it waits for ever. `partition_key` is partition_key_from_ts_ns, which asks
-- the calendar.
use polymarket_trade_executo.Common.{
  String, Bool, true, false, Option, none, some, List, [], ◌∷◌, ◌++◌, Result, ok, err, ◌>>=◌,
  if◌then◌else◌,
}
use polymarket_trade_executo.Common.Int.{ℤ, pos, ◌+ℤ◌, leb_ℤ}
use polymarket_trade_executo.Journal.Json.{Json}
use polymarket_trade_executo.Journal.Types.{JournalRecord}

pub record JournalWriterConfig : Type 0 where
  pub background : Bool
  pub queue_max_size : ℤ
  pub enqueue_timeout_ms : ℤ
  pub flush_every_n_events : ℤ

-- an item of the queue: a record, or the sentinel that stops the worker
pub data QueueItem : Type 0 where
  queued : JournalRecord → QueueItem
  stop_sentinel : QueueItem

-- the exception of `append`: its own, or that of a call that it makes
pub data WriterError (E : Type 0) : Type 0 where
  writer_closed : WriterError E
  raised_by : E → WriterError E

-- JournalStorage, as the writer uses it: a call leaves the storage in some state and may raise
pub record JournalStorage (S E : Type 0) : Type 0 where
  pub append_line : S → (partition_key : String) → (line : Json) → S × Result E (Unit {0})
  pub flush_storage : S → S × Result E (Unit {0})
  pub close_storage : S → S × Result E (Unit {0})

pub record JournalWriter (S : Type 0) : Type 0 where
  pub storage : S
  pub config : JournalWriterConfig
  pub closed : Bool
  pub queue : Option (List QueueItem)
  pub worker_alive : Bool
  pub writes_since_flush : ℤ

-- `__init__`
abbrev pub new_writer : {S : Type 0} → S → JournalWriterConfig → JournalWriter S
new_writer storage config = record {
  storage = storage;
  config = config;
  closed = false;
  queue = if config.background then some [] else none;
  worker_alive = config.background;
  writes_since_flush = pos 0;
}

abbrev pub raised_as : {E : Type 0} → Result E (Unit {0}) → Result (WriterError E) (Unit {0})
raised_as (ok done) = ok tt
raised_as (err e) = err (WriterError.raised_by e)

module _ {S E : Type 0} (operations : JournalStorage S E)
    (serializer : JournalRecord → Result E Json) (partition_key : ℤ → Result E String) where
  -- the partition and the line of a record
  unfoldable pub line_of : JournalRecord → Result E (String × Json)
  line_of entry = do line ← serializer entry; key ← partition_key entry.ts_ns; ok (key, line)

  -- what follows the flush, with the number of writes since the last one
  abbrev after_flush : (writes : ℤ) → S × Result E (Unit {0}) → (S × ℤ) × Result E (Unit {0})
  after_flush writes (storage, ok done) = ((storage, pos 0), ok tt)
  after_flush writes (storage, err e) = ((storage, writes), err e)

  -- what follows the append
  abbrev after_append : (every writes : ℤ) → S × Result E (Unit {0}) → (S × ℤ) × Result E (Unit {0})
  after_append every writes (storage, err e) = ((storage, writes), err e)
  after_append every writes (storage, ok done) =
      if leb_ℤ every (writes +ℤ pos 1)
      then after_flush (writes +ℤ pos 1) (operations.flush_storage storage)
      else ((storage, writes +ℤ pos 1), ok tt)

  -- the storage and the writes since the last flush, and the exception, if one was raised
  unfoldable pub store :
      (every : ℤ) → S × ℤ → Result E (String × Json) → (S × ℤ) × Result E (Unit {0})
  store every c (err e) = (c, err e)
  store every (storage, writes) (ok (key, line)) =
      after_append every writes (operations.append_line storage key line)

  unfoldable pub append_sync :
      JournalWriter S → JournalRecord → JournalWriter S × Result E (Unit {0})
  append_sync w entry =
      let stored =
        store w.config.flush_every_n_events (w.storage, w.writes_since_flush) (line_of entry) in
      (record w { storage = stored.0.0; writes_since_flush = stored.0.1 }, stored.1)

  -- `append` on a writer that is open
  unfoldable pub append_open :
      JournalWriter S
      → JournalRecord
      → (queue : Option (List QueueItem)) → JournalWriter S × Result (WriterError E) (Unit {0})
  append_open w entry none = let (after, raised) = append_sync w entry in (after, raised_as raised)
  append_open w entry (some items) =
      (record w { queue = some (items ++ (QueueItem.queued entry ∷ [])) }, ok tt)

  unfoldable pub append :
      JournalWriter S → JournalRecord → JournalWriter S × Result (WriterError E) (Unit {0})
  append w entry =
      if w.closed then (w, err WriterError.writer_closed) else append_open w entry w.queue

  -- an exception ends the worker's thread
  abbrev pub worker_after : JournalWriter S × Result E (Unit {0}) → JournalWriter S
  worker_after (w, ok done) = w
  worker_after (w, err e) = record w { worker_alive = false }

  -- what the worker does with an item
  unfoldable pub work : JournalWriter S → QueueItem → JournalWriter S
  work w QueueItem.stop_sentinel = record w {
    storage = (operations.flush_storage w.storage).0;
    worker_alive = false;
  }
  work w (QueueItem.queued entry) = worker_after (append_sync w entry)

  -- one round of `_worker_loop`: a worker that has ended, or waits for an item, does nothing
  unfoldable pub worker_round :
      JournalWriter S → (alive : Bool) → (queue : Option (List QueueItem)) → JournalWriter S
  worker_round w false queue = w
  worker_round w true none = w
  worker_round w true (some []) = w
  worker_round w true (some (item ∷ items)) = work (record w { queue = some items }) item

  abbrev pub worker_step : JournalWriter S → JournalWriter S
  worker_step w = worker_round w w.worker_alive w.queue

  -- `queue.join()`: the rounds that empty the queue; without a worker it never returns
  unfoldable pub join_items : JournalWriter S → List QueueItem → Option (JournalWriter S)
  join_items w [] = some w
  join_items w (item ∷ items) =
      let rest = join_items (worker_step w) items in if w.worker_alive then rest else none

  abbrev pub join_queue : JournalWriter S → Option (List QueueItem) → Option (JournalWriter S)
  join_queue w none = some w
  join_queue w (some items) = join_items w items

  abbrev pub join : JournalWriter S → Option (JournalWriter S)
  join w = join_queue w w.queue

  -- a call of the storage that ends a call of the writer
  abbrev ended : JournalWriter S → S × Result E (Unit {0}) → JournalWriter S × Result E (Unit {0})
  ended w (storage, raised) = (record w { storage = storage }, raised)

  abbrev flush_joined : Option (JournalWriter S) → Option (JournalWriter S × Result E (Unit {0}))
  flush_joined none = none
  flush_joined (some w) = some (ended w (operations.flush_storage w.storage))

  unfoldable pub flush : JournalWriter S → Option (JournalWriter S × Result E (Unit {0}))
  flush w = flush_joined (join w)

  abbrev pub put_sentinel : Option (List QueueItem) → Option (List QueueItem)
  put_sentinel none = none
  put_sentinel (some items) = some (items ++ (QueueItem.stop_sentinel ∷ []))

  -- the storage is closed where its flush has not raised
  abbrev close_flushed : S × Result E (Unit {0}) → S × Result E (Unit {0})
  close_flushed (storage, err e) = (storage, err e)
  close_flushed (storage, ok done) = operations.close_storage storage

  abbrev close_joined : Option (JournalWriter S) → Option (JournalWriter S × Result E (Unit {0}))
  close_joined none = none
  close_joined (some w) = some (ended w (close_flushed (operations.flush_storage w.storage)))

  unfoldable pub close : JournalWriter S → Option (JournalWriter S × Result E (Unit {0}))
  close w =
      if w.closed
      then some (w, ok tt)
      else close_joined (join (record w { closed = true; queue = put_sentinel w.queue }))
