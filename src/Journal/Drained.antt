-- ===== src/Journal/Drained.antt =====
-- JournalWriter of executor/journal.py: the background worker writes what the calls append, while no
-- call raises.
use polymarket_trade_executo.Common.{
  String, ◌≡◌, refl, sym, ap, ◌∙◌, subst, true, false, Option, none, some, List, [], ◌∷◌, ◌++◌, map,
  Result, ok, err, if◌then◌else◌,
}
use polymarket_trade_executo.Common.Int.{ℤ}
use polymarket_trade_executo.Journal.Json.{Json}
use polymarket_trade_executo.Journal.Types.{JournalRecord}
use polymarket_trade_executo.Journal.Writer.{
  JournalWriterConfig, QueueItem, WriterError, JournalStorage, JournalWriter, new_writer, raised_as,
  line_of, store, append_sync, append_open, append, worker_after, work, worker_round, worker_step,
  join_items, join_queue, join,
}

-- a call of `append`, or a turn of the worker
pub data WriterTurn : Type 0 where
  put : JournalRecord → WriterTurn
  worker : WriterTurn

raised_as-ok : {E : Type 0} (r : Result E (Unit {0})) → raised_as r ≡ ok tt → r ≡ ok tt
raised_as-ok (ok done) h = refl
raised_as-ok (err e) h = cc

module _ {S E : Type 0} (operations : JournalStorage S E)
    (serializer : JournalRecord → Result E Json) (partition_key : ℤ → Result E String) where
  -- a call that raises leaves the writer as it was at that moment
  unfoldable pub turn : JournalWriter S → WriterTurn → JournalWriter S
  turn w (WriterTurn.put entry) = (append operations serializer partition_key w entry).0
  turn w WriterTurn.worker = worker_step operations serializer partition_key w

  unfoldable pub turns : JournalWriter S → List WriterTurn → JournalWriter S
  turns w [] = w
  turns w (t ∷ ts) = turns (turn w t) ts

  -- no call of `append` raises
  unfoldable pub RaiseNothing : JournalWriter S → List WriterTurn → Type 0
  RaiseNothing w [] = Unit
  RaiseNothing w (WriterTurn.put entry ∷ ts) =
      ((append operations serializer partition_key w entry).1 ≡ ok tt)
      × RaiseNothing (turn w (WriterTurn.put entry)) ts
  RaiseNothing w (WriterTurn.worker ∷ ts) = RaiseNothing (turn w WriterTurn.worker) ts

  -- the storage with the number of writes since the last flush
  abbrev pub written : JournalWriter S → S × ℤ
  written w = (w.storage, w.writes_since_flush)

  abbrev store_entry : (every : ℤ) → S × ℤ → JournalRecord → (S × ℤ) × Result E (Unit {0})
  store_entry every c entry =
      store operations serializer partition_key every c
        (line_of operations serializer partition_key entry)

  -- the writes of the records lead from `c` to `d`, and none raises
  abbrev Stores : (every : ℤ) → S × ℤ → List JournalRecord → S × ℤ → Type 0
  Stores every c [] d = c ≡ d
  Stores every c (entry ∷ entries) d =
      ((store_entry every c entry).1 ≡ ok tt) × Stores every (store_entry every c entry).0 entries d

  Stores-append :
      (every : ℤ) (c d : S × ℤ) (entries : List JournalRecord) (entry : JournalRecord)
      → Stores every c entries d
      → (store_entry every d entry).1 ≡ ok tt
      → Stores every c (entries ++ (entry ∷ [])) (store_entry every d entry).0
  Stores-append every c d [] entry h quiet =
      (ap (λ x. (store_entry every x entry).1) h ∙ quiet, ap (λ x. (store_entry every x entry).0) h)
  Stores-append every c d (e ∷ es) entry h quiet =
      (h.0, Stores-append every (store_entry every c e).0 d es entry h.1 quiet)

  -- A background writer with records that wait, and a writer without a queue that has written them.
  record ArePaired (w v : JournalWriter S) (waiting : List JournalRecord) : Type 0 where
    open_w : w.closed ≡ false
    open_v : v.closed ≡ false
    alive : w.worker_alive ≡ true
    idle : v.worker_alive ≡ false
    queue_w : w.queue ≡ some (map QueueItem.queued waiting)
    queue_v : v.queue ≡ none
    every : v.config.flush_every_n_events ≡ w.config.flush_every_n_events
    agree : Stores w.config.flush_every_n_events (written w) waiting (written v)

  map-append :
      (entries : List JournalRecord) (entry : JournalRecord)
      → map QueueItem.queued (entries ++ (entry ∷ []))
        ≡ map QueueItem.queued entries ++ (QueueItem.queued entry ∷ [])
  map-append [] entry = refl
  map-append (e ∷ es) entry = ap (λ items. QueueItem.queued e ∷ items) (map-append es entry)

  pub open_append :
      (w : JournalWriter S) (entry : JournalRecord) (queue : Option (List QueueItem))
      → w.closed ≡ false
      → w.queue ≡ queue
      → append operations serializer partition_key w entry
        ≡ append_open operations serializer partition_key w entry queue
  unfolding append
  open_append w entry queue open_w same =
      ap
        (λ b.
          if b
          then (w, err WriterError.writer_closed)
          else append_open operations serializer partition_key w entry w.queue)
        open_w
      ∙ ap (append_open operations serializer partition_key w entry) same

  put-ArePaired :
      (w v : JournalWriter S) (waiting : List JournalRecord) (entry : JournalRecord)
      → ArePaired w v waiting
      → (append operations serializer partition_key v entry).1 ≡ ok tt
      → ArePaired
          (turn w (WriterTurn.put entry))
          (turn v (WriterTurn.put entry))
          (waiting ++ (entry ∷ []))
  unfolding turn append_open append_sync
  put-ArePaired w v waiting entry p quiet =
      let now_w = open_append w entry _ p.open_w p.queue_w in
      let now_v = open_append v entry _ p.open_v p.queue_v in
      let e = v.config.flush_every_n_events in
      let stored : (store_entry e (written v) entry).1 ≡ ok tt =
        raised_as-ok _ (sym (ap (λ x. x.1) now_v) ∙ quiet) in
      let agree =
        Stores-append e (written w) (written v) waiting entry
          (subst (λ n. Stores n (written w) waiting (written v)) (sym p.every) p.agree) stored in
      subst (λ x. ArePaired x (turn v (WriterTurn.put entry)) (waiting ++ (entry ∷ [])))
        (sym (ap (λ x. x.0) now_w))
        (subst
          (λ y.
            ArePaired
              (record w {
                queue = some (map QueueItem.queued waiting ++ (QueueItem.queued entry ∷ []));
              })
              y (waiting ++ (entry ∷ [])))
          (sym (ap (λ x. x.0) now_v))
          (record {
            open_w = p.open_w;
            open_v = p.open_v;
            alive = p.alive;
            idle = p.idle;
            queue_w = ap some (sym (map-append waiting entry));
            queue_v = p.queue_v;
            every = p.every;
            agree =
                subst
                  (λ n.
                    Stores n (written w) (waiting ++ (entry ∷ []))
                      (store_entry e (written v) entry).0)
                  p.every agree;
          }))

  -- the worker's turn on the first item
  pub first_item :
      (w : JournalWriter S) (entry : JournalRecord) (items : List QueueItem)
      → w.worker_alive ≡ true
      → w.queue ≡ some (QueueItem.queued entry ∷ items)
      → worker_step operations serializer partition_key w
        ≡ worker_after operations serializer partition_key (
            append_sync operations serializer partition_key (record w { queue = some items }) entry)
  unfolding worker_round work
  first_item w entry items alive queue =
      ap (λ b. worker_round operations serializer partition_key w b w.queue) alive
      ∙ ap (worker_round operations serializer partition_key w true) queue

  worker-ArePaired :
      (w v : JournalWriter S) (waiting : List JournalRecord) (entry : JournalRecord)
      → ArePaired w v (entry ∷ waiting)
      → ArePaired (worker_step operations serializer partition_key w) v waiting
  unfolding append_sync
  worker-ArePaired w v waiting entry p =
      let stored = store_entry w.config.flush_every_n_events (written w) entry in
      let after = record w {
        queue = some (map QueueItem.queued waiting);
        storage = stored.0.0;
        writes_since_flush = stored.0.1;
      } in
      let moved : worker_step operations serializer partition_key w ≡ after =
        first_item w entry (map QueueItem.queued waiting) p.alive p.queue_w
        ∙ ap (λ r. worker_after operations serializer partition_key (after, r)) p.agree.0 in
      subst (λ x. ArePaired x v waiting) (sym moved)
        (record {
          open_w = p.open_w;
          open_v = p.open_v;
          alive = p.alive;
          idle = p.idle;
          queue_w = refl;
          queue_v = p.queue_v;
          every = p.every;
          agree = p.agree.1;
        })

  pub idle_turn : (v : JournalWriter S) → v.worker_alive ≡ false → turn v WriterTurn.worker ≡ v
  unfolding turn worker_round
  idle_turn v h = ap (λ b. worker_round operations serializer partition_key v b v.queue) h

  empty_turn :
      (w v : JournalWriter S)
      → ArePaired w v []
      → worker_step operations serializer partition_key w ≡ w
  unfolding worker_round
  empty_turn w v p =
      ap (λ b. worker_round operations serializer partition_key w b w.queue) p.alive
      ∙ ap (worker_round operations serializer partition_key w true) p.queue_w

  -- The queue is emptied, and what was written agrees.
  abbrev pub JoinsAs : JournalWriter S → JournalWriter S → Type 0
  JoinsAs w v =
      (w' : JournalWriter S) × (join operations serializer partition_key w ≡ some w')
      × (written w' ≡ written v)

  joined_items :
      (w v : JournalWriter S) (waiting : List JournalRecord)
      → ArePaired w v waiting
      → (w' : JournalWriter S) × (join_items operations serializer partition_key w
            (map QueueItem.queued waiting)
          ≡ some w')
        × (written w' ≡ written v)
  unfolding join_items
  joined_items w v [] p = (w, refl, p.agree)
  joined_items w v (entry ∷ waiting) p =
      let rest = worker-ArePaired w v waiting entry p in
      let (w', joins, same) =
        joined_items (worker_step operations serializer partition_key w) v waiting rest in
      let next =
        join_items operations serializer partition_key
          (worker_step operations serializer partition_key w) (map QueueItem.queued waiting) in
      (w', ap (λ b. if b then next else none) p.alive ∙ joins, same)

  joined :
      (w v : JournalWriter S) (waiting : List JournalRecord) → ArePaired w v waiting → JoinsAs w v
  joined w v waiting p =
      let (w', joins, same) = joined_items w v waiting p in
      (w', ap (join_queue operations serializer partition_key w) p.queue_w ∙ joins, same)

  worker_turn :
      (w v : JournalWriter S) (waiting : List JournalRecord)
      → ArePaired w v waiting
      → (left : List JournalRecord) × ArePaired
          (turn w WriterTurn.worker)
          (turn v WriterTurn.worker)
          left
  unfolding turn
  worker_turn w v [] p = (
    [],
    subst (λ x. ArePaired (worker_step operations serializer partition_key w) x [])
        (sym (idle_turn v p.idle)) (subst (λ x. ArePaired x v []) (sym (empty_turn w v p)) p),
  )
  worker_turn w v (entry ∷ waiting) p = (
    waiting,
    subst (λ x. ArePaired (worker_step operations serializer partition_key w) x waiting)
        (sym (idle_turn v p.idle)) (worker-ArePaired w v waiting entry p),
  )

  paired_turns :
      (w v : JournalWriter S) (waiting : List JournalRecord) (ts : List WriterTurn)
      → ArePaired w v waiting
      → RaiseNothing v ts
      → JoinsAs (turns w ts) (turns v ts)
  unfolding turns RaiseNothing
  paired_turns w v waiting [] p quiet = joined w v waiting p
  paired_turns w v waiting (WriterTurn.put entry ∷ ts) p quiet =
      paired_turns (turn w (WriterTurn.put entry)) (turn v (WriterTurn.put entry))
        (waiting ++ (entry ∷ [])) ts (put-ArePaired w v waiting entry p quiet.0) quiet.1
  paired_turns w v waiting (WriterTurn.worker ∷ ts) p quiet =
      let (left, paired) = worker_turn w v waiting p in
      paired_turns (turn w WriterTurn.worker) (turn v WriterTurn.worker) left ts paired quiet

  -- Take a background writer and a writer without a queue, new, over the same storage and with the same
  -- number of events between flushes, and any interleaving of calls of `append` and turns of the worker
  -- in which no call of the writer without a queue raises. Then the join of the background writer's
  -- queue returns, and the background writer has written what the other one has: the storage is the
  -- same, and so is the number of writes since the last flush.
  pub join-new_writer :
      (storage : S) (c d : JournalWriterConfig) (ts : List WriterTurn)
      → c.background ≡ true
      → d.background ≡ false
      → d.flush_every_n_events ≡ c.flush_every_n_events
      → RaiseNothing (new_writer storage d) ts
      → JoinsAs (turns (new_writer storage c) ts) (turns (new_writer storage d) ts)
  join-new_writer storage c d ts background direct every quiet =
      paired_turns (new_writer storage c) (new_writer storage d) [] ts
        (record {
          open_w = refl;
          open_v = refl;
          alive = background;
          idle = direct;
          queue_w = ap (λ b. if b then some [] else none) background;
          queue_v = ap (λ b. if b then some [] else none) direct;
          every = every;
          agree = refl;
        })
        quiet
