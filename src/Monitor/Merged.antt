-- ===== src/Monitor/Merged.antt =====
-- The merged shards of the request monitor against one ring (internal/server/monitor.go).
use mathlib.Core.Path.{fun_ext}
use emby_go.Base.{
  ℕ, zero, suc, ◌%◌, ◌<◌, ◌≡◌, refl, sym, ap, ◌∙◌, List, [], ◌∷◌, none, some, ◌==◌, if◌then◌else◌,
  length, arith,
}
use emby_go.Monitor.Ring.{
  Counts, Slot, MonitorShard, no_counts, add_counts, merge_monitor_bucket, bucket_for,
  count_request, Request, minute_of, record_slot, record_shard, record_request, update_at, run,
  new_shards, merged, monitor_bounds_ms, monitor_shards, monitor_retention,
}

Counts-eq :
    (a b : Counts)
    → a.total ≡ b.total
    → a.errors4xx ≡ b.errors4xx
    → a.errors5xx ≡ b.errors5xx
    → ((i : ℕ) → a.histogram i ≡ b.histogram i)
    → a ≡ b
Counts-eq a b t e f h =
    ap (λ (x : ℕ). of x a.errors4xx a.errors5xx a.histogram) t
    ∙ ap (λ (x : ℕ). of b.total x a.errors5xx a.histogram) e
    ∙ ap (λ (x : ℕ). of b.total b.errors4xx x a.histogram) f
    ∙ ap (λ (x : ℕ → ℕ). of b.total b.errors4xx b.errors5xx x) (fun_ext h)
  where
    of : ℕ → ℕ → ℕ → (ℕ → ℕ) → Counts
    of t e f h = record { total = t; errors4xx = e; errors5xx = f; histogram = h }

add_counts_comm : (a b : Counts) → add_counts a b ≡ add_counts b a
unfolding add_counts
add_counts_comm a b =
    Counts-eq (add_counts a b) (add_counts b a) (omega arith) (omega arith) (omega arith)
      (λ i. omega arith)

add_counts_right : (a b c : Counts) → add_counts (add_counts a b) c ≡ add_counts (add_counts a c) b
unfolding add_counts
add_counts_right a b c =
    Counts-eq (add_counts (add_counts a b) c) (add_counts (add_counts a c) b) (omega arith)
      (omega arith) (omega arith) (λ i. omega arith)

merge_right :
    (a b c : Slot)
    → merge_monitor_bucket (merge_monitor_bucket a b) c
      ≡ merge_monitor_bucket (merge_monitor_bucket a c) b
unfolding merge_monitor_bucket
merge_right a none none = refl
merge_right a none (some c) = refl
merge_right a (some b) none = refl
merge_right none (some b) (some c) = ground (arith, add_counts_comm b.counts c.counts)
merge_right (some a) (some b) (some c) =
    ground (arith, add_counts_comm b.counts c.counts, add_counts_right a.counts b.counts c.counts)

-- The slot that one request makes of an empty one.
abbrev one : Request → Slot
one r = some (record {
  minute = minute_of r.at;
  counts = count_request (bucket_for r.elapsed monitor_bounds_ms) r.status no_counts;
})

add_counts_one :
    (bucket status : ℕ) (c : Counts)
    → add_counts c (count_request bucket status no_counts) ≡ count_request bucket status c
unfolding add_counts count_request
add_counts_one bucket status c =
    Counts-eq (add_counts c (count_request bucket status no_counts)) (count_request bucket status c)
      (omega arith) (ground arith) (ground arith) (λ i. ground arith)

record_slot-merge : (r : Request) (b : Slot) → record_slot r b ≡ merge_monitor_bucket b (one r)
unfolding record_slot merge_monitor_bucket
record_slot-merge r none = refl
record_slot-merge r (some d) =
    ground (arith, add_counts_one (bucket_for r.elapsed monitor_bounds_ms) r.status d.counts)

merged_right :
    (i : ℕ) (a e : Slot) (l : List MonitorShard)
    → merged i (merge_monitor_bucket a e) l ≡ merge_monitor_bucket (merged i a l) e
unfolding merged
merged_right i a e [] = refl
merged_right i a e (s ∷ l) =
    ap (λ (x : Slot). merged i x l) (merge_right a e (s i))
    ∙ merged_right i (merge_monitor_bucket a (s i)) e l

add_counts_assoc : (a b c : Counts) → add_counts a (add_counts b c) ≡ add_counts (add_counts a b) c
unfolding add_counts
add_counts_assoc a b c =
    Counts-eq (add_counts a (add_counts b c)) (add_counts (add_counts a b) c) (omega arith)
      (omega arith) (omega arith) (λ i. omega arith)

merge_assoc :
    (a b c : Slot)
    → merge_monitor_bucket a (merge_monitor_bucket b c)
      ≡ merge_monitor_bucket (merge_monitor_bucket a b) c
unfolding merge_monitor_bucket
merge_assoc a b none = refl
merge_assoc a none (some c) = refl
merge_assoc none (some b) (some c) = ground arith
merge_assoc (some a) (some b) (some c) = ground (arith, add_counts_assoc a.counts b.counts c.counts)

-- One more request in a shard is one more in the merged slot.
merged-record :
    (i : ℕ) (r : Request) (dst s : Slot) (l : List MonitorShard)
    → merged i (merge_monitor_bucket dst (record_slot r s)) l
      ≡ record_slot r (merged i (merge_monitor_bucket dst s) l)
merged-record i r dst s l =
    ap (λ (x : Slot). merged i (merge_monitor_bucket dst x) l) (record_slot-merge r s)
    ∙ ap (λ (x : Slot). merged i x l) (merge_assoc dst s (one r))
    ∙ merged_right i (merge_monitor_bucket dst s) (one r) l
    ∙ sym (record_slot-merge r (merged i (merge_monitor_bucket dst s) l))

-- The slot of a ring after a request.
abbrev slot_after : ℕ → Request → Slot → Slot
slot_after i r b = if i == minute_of r.at % monitor_retention then record_slot r b else b

merged-update_at :
    (i k : ℕ) (r : Request) (dst : Slot) (l : List MonitorShard)
    → k < length l
    → merged i dst (update_at k (record_shard r) l) ≡ slot_after i r (merged i dst l)
unfolding merged record_shard update_at
merged-update_at i k r dst [] h = ground arith
merged-update_at i zero r dst (s ∷ l) h = ground (arith, merged-record i r dst (s i) l)
merged-update_at i (suc k) r dst (s ∷ l) h =
    merged-update_at i k r (merge_monitor_bucket dst (s i)) l (omega arith)

length-update_at :
    (k : ℕ) (f : MonitorShard → MonitorShard) (l : List MonitorShard)
    → length (update_at k f l) ≡ length l
unfolding update_at
length-update_at k f [] = refl
length-update_at zero f (s ∷ l) = refl
length-update_at (suc k) f (s ∷ l) = ap suc (length-update_at k f l)

-- What one ring has in a slot after requests.
unfoldable pub ring : ℕ → List Request → Slot → Slot
ring i [] b = b
ring i (r ∷ l) b = ring i l (if i == minute_of r.at % monitor_retention then record_slot r b else b)

run-ring :
    (i : ℕ) (l : List Request) (m : List MonitorShard)
    → length m ≡ monitor_shards
    → merged i none (run l m) ≡ ring i l (merged i none m)
unfolding run ring record_request
run-ring i [] m h = refl
run-ring i (r ∷ l) m h =
    run-ring i l (record_request r m)
      (length-update_at (r.at % monitor_shards) (record_shard r) m ∙ h)
    ∙ ap (ring i l) (merged-update_at i (r.at % monitor_shards) r none m (omega (arith, h)))

-- The merged slots of the shards are those of one ring that has recorded all requests, whatever shard
-- each of them fell to.
pub merged-ring : (i : ℕ) (l : List Request) → merged i none (run l new_shards) ≡ ring i l none
unfolding merged new_shards
merged-ring i l = run-ring i l new_shards refl
