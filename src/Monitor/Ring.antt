-- ===== src/Monitor/Ring.antt =====
-- The request monitor (internal/server/monitor.go): shards with a ring of 60 minutes each. A slot that is
-- not initialized is none, an array of fixed length is a function of its index. Times are nanoseconds
-- since 1970.
use emby_go.Base.{
  ℕ, zero, suc, ◌+◌, ◌*◌, ◌/◌, ◌%◌, ◌^◌, ◌&&◌, List, [], ◌∷◌, Option, none, some, ltb, leb, ◌==◌,
  if◌then◌else◌, replicate,
}

abbrev pub monitor_retention : ℕ
monitor_retention = 60

abbrev pub monitor_shards : ℕ
monitor_shards = 8

abbrev pub monitor_bounds_ms : List ℕ
monitor_bounds_ms =
    1 ∷ 2 ∷ 5 ∷ 10 ∷ 20 ∷ 50 ∷ 100 ∷ 200 ∷ 500 ∷ 1000 ∷ 2000 ∷ 5000 ∷ 10000 ∷ 30000 ∷ 60000 ∷ []

pub record Counts : Type 0 where
  pub total : ℕ
  pub errors4xx : ℕ
  pub errors5xx : ℕ
  pub histogram : ℕ → ℕ

pub record MonitorBucket : Type 0 where
  pub minute : ℕ
  pub counts : Counts

abbrev pub Slot : Type 0
Slot = Option MonitorBucket

abbrev pub MonitorShard : Type 0
MonitorShard = ℕ → Slot

abbrev pub no_counts : Counts
no_counts = record { total = 0; errors4xx = 0; errors5xx = 0; histogram = λ i. 0 }

unfoldable pub add_counts : Counts → Counts → Counts
add_counts a b = record {
  total = a.total + b.total;
  errors4xx = a.errors4xx + b.errors4xx;
  errors5xx = a.errors5xx + b.errors5xx;
  histogram = λ i. a.histogram i + b.histogram i;
}

-- `mergeMonitorBucket`: the destination after it.
unfoldable pub merge_monitor_bucket : Slot → Slot → Slot
unfolding add_counts
merge_monitor_bucket dst none = dst
merge_monitor_bucket none (some src) = some src
merge_monitor_bucket (some dst) (some src) =
    if dst.minute == src.minute
    then some (record { minute = dst.minute; counts = add_counts dst.counts src.counts })
    else if ltb src.minute dst.minute
    then some dst
    else some src

-- `monitorBucketFor`: the first bound that is not exceeded, or their number.
unfoldable pub bucket_for : ℕ → List ℕ → ℕ
bucket_for elapsed [] = 0
bucket_for elapsed (upper ∷ l) =
    let rest = bucket_for elapsed l in if leb elapsed (upper * 10 ^ 6) then 0 else suc rest

-- The counts after one more request.
unfoldable pub count_request : ℕ → ℕ → Counts → Counts
count_request bucket status c = record {
  total = c.total + 1;
  errors4xx = if leb 400 status && ltb status 500 then c.errors4xx + 1 else c.errors4xx;
  errors5xx = if leb 500 status && ltb status 600 then c.errors5xx + 1 else c.errors5xx;
  histogram = λ i. if i == bucket then c.histogram i + 1 else c.histogram i;
}

-- A request.
pub record Request : Type 0 where
  pub at : ℕ
  pub elapsed : ℕ
  pub status : ℕ

abbrev pub minute_of : ℕ → ℕ
minute_of at = at / 10 ^ 9 / 60

-- The slot of a request after it. A newer minute is not evicted.
unfoldable pub record_slot : Request → Slot → Slot
unfolding count_request bucket_for
record_slot r b =
    let minute = minute_of r.at in
    let count = count_request (bucket_for r.elapsed monitor_bounds_ms) r.status in
    elim b [
      | none ↦ some (record { minute = minute; counts = count no_counts })
      | some d ↦
          if ltb minute d.minute
          then some d
          else if d.minute == minute
          then some (record { minute = minute; counts = count d.counts })
          else some (record { minute = minute; counts = count no_counts })
    ]

unfoldable pub record_shard : Request → MonitorShard → MonitorShard
unfolding record_slot
record_shard r s = λ i. if i == minute_of r.at % monitor_retention then record_slot r (s i) else s i

-- A change of the shard with an index.
unfoldable pub update_at : ℕ → (MonitorShard → MonitorShard) → List MonitorShard → List MonitorShard
update_at k f [] = []
update_at zero f (s ∷ l) = f s ∷ l
update_at (suc k) f (s ∷ l) = s ∷ update_at k f l

-- `shardFor` and `record`.
unfoldable pub record_request : Request → List MonitorShard → List MonitorShard
unfolding record_shard update_at
record_request r m = update_at (r.at % monitor_shards) (record_shard r) m

unfoldable pub run : List Request → List MonitorShard → List MonitorShard
unfolding record_request
run [] m = m
run (r ∷ l) m = run l (record_request r m)

unfoldable pub new_shards : List MonitorShard
new_shards = replicate monitor_shards (λ i. none)

-- The loop of `snapshot` that merges a slot of all shards.
unfoldable pub merged : ℕ → Slot → List MonitorShard → Slot
unfolding merge_monitor_bucket
merged i dst [] = dst
merged i dst (s ∷ l) = merged i (merge_monitor_bucket dst (s i)) l
