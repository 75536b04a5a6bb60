-- ===== src/Dataframe/Visit.antt =====
-- map, local_map and visit of dataframe/dataframe.h. A Reader (dataframe/row/reader.h) and a Writer
-- (dataframe/row/writer.h) are the application's: `see` is the visit of a reader over a state `R`.
pub mod Local
mod Tests
use swdev_proj.Prelude.{
  ℕ, zero, suc, ◌+◌, ◌-◌, ◌/◌, ◌%◌, List, [], ◌∷◌, Bool, true, false, not, ltb, ◌==◌, if◌then◌else◌,
  replicate, map, Run, ok, fault, undefined, diverges, guard, ◌>>=◌, ◌>>◌,
}
use swdev_proj.Store.KvStore.{KvStore}
use swdev_proj.Network.Await.{Await, waiting, done}
use swdev_proj.Dataframe.Block.{load, store}
use swdev_proj.Dataframe.Row
use swdev_proj.Dataframe.Row.{Row}
use swdev_proj.Dataframe.DataFrame
use swdev_proj.Dataframe.DataFrame.{DataFrame}

-- What a scan over the rows works on; the row is one object that is filled anew each time.
pub record Scan (R : Type 0) : Type 0 where
  pub row : Row
  pub frame : DataFrame
  pub kv : KvStore
  pub reader : R

-- A call after one that may wait.
abbrev pub and_then : {S : Type 0} → Await S → (S → Run (Await S)) → Run (Await S)
and_then waiting next = ok waiting
and_then (done s) next = next s

module _ (num_nodes block_size : ℕ) {R : Type 0} (see : Row → R → Run R) where
  -- the body of the loops of map and local_map
  unfoldable pub visit_row : ℕ → Scan R → Run (Await (Scan R))
  visit_row row_idx s = do
    let q = Row.set_idx row_idx s.row
    (r, d, next) ← DataFrame.fill_row num_nodes block_size q.len 0 row_idx q s.frame s.kv
    elim r [
      | waiting ↦ ok waiting
      | done full ↦ see full s.reader >>= λ x.
          ok (done (record { row = Row.clear full; frame = d; kv = next; reader = x }))
    ]

  -- the loop of map from row `i` on, with `n` rounds left
  unfoldable pub map_from : ℕ → ℕ → Scan R → Run (Await (Scan R))
  unfolding visit_row
  map_from zero i s = ok (done s)
  map_from (suc n) i s = visit_row i s >>= λ a. and_then a (λ t. map_from n (i + 1) t)

  -- map(r, startIdx, endIdx)
  unfoldable pub map_rows : ℕ → ℕ → DataFrame → KvStore → R → Run (Await (Scan R))
  unfolding map_from
  map_rows start end frame kv reader = do
    row ← Row.new frame.schema
    map_from (end - start) start (record { row = row; frame = frame; kv = kv; reader = reader })

  -- the loop of local_map from row `i` on, on fuel, at node `id`
  unfoldable pub local_from : ℕ → ℕ → ℕ → ℕ → Scan R → Run (Await (Scan R))
  unfolding visit_row
  local_from zero id rows i s = fault diverges
  local_from (suc fuel) id rows i s =
      let visited = visit_row i s >>= λ a. and_then a (λ t. local_from fuel id rows (i + 1) t) in
      let skipped = local_from fuel id rows (i + (block_size - 1) + 1) s in
      if ltb i rows
      then (guard (not (block_size == 0)) undefined
          >> (guard (not (num_nodes == 0)) undefined
              >> (if i / block_size % num_nodes == id then visited else skipped)))
      else ok (done s)

  -- local_map
  unfoldable pub local_map : DataFrame → KvStore → R → Run (Await (Scan R))
  unfolding local_from
  local_map frame kv reader = do
    row ← Row.new frame.schema
    local_from (suc frame.schema.num_rows) kv.store_id frame.schema.num_rows 0
        (record { row = row; frame = frame; kv = kv; reader = reader })

-- A Writer: whether it is done, and how it fills a row.
pub record Writer (W : Type 0) : Type 0 where
  pub is_done : W → Bool
  pub fill : Row → W → Run (Row × W)

module _ (num_nodes block_size : ℕ) {W : Type 0} (writer : Writer W) where
  -- the end of visit
  unfoldable pub last_chunk : List Row → ℕ → DataFrame → KvStore → Run (DataFrame × KvStore)
  last_chunk rows n frame kv =
      if n == 0
      then ok (frame, kv)
      else DataFrame.add_row_chunk num_nodes block_size rows n frame kv

  -- a full chunk goes into the frame, and its rows are cleared
  unfoldable pub next_chunk :
      List Row → ℕ → DataFrame → KvStore → Run (List Row × ℕ × DataFrame × KvStore)
  next_chunk rows n frame kv =
      if n == block_size
      then (do
        (d, next) ← DataFrame.add_row_chunk num_nodes block_size rows n frame kv
        ok (map Row.clear rows, 0, d, next))
      else ok (rows, n, frame, kv)

  -- the loop of visit, on fuel
  unfoldable pub visit_from :
      ℕ → List Row → ℕ → ℕ → W → DataFrame → KvStore → Run (DataFrame × KvStore)
  unfolding last_chunk next_chunk
  visit_from zero rows n row_idx w frame kv = fault diverges
  visit_from (suc fuel) rows n row_idx w frame kv =
      let more =
        (next_chunk rows n frame kv >>= λ c. load c.1 c.0 >>= λ r.
        writer.fill (Row.set_idx row_idx r) w >>= λ p. store c.1 p.0 c.0 >>= λ filled.
        visit_from fuel filled (c.1 + 1) (row_idx + 1) p.1 c.2 c.3) in
      if writer.is_done w then last_chunk rows n frame kv else more

  -- visit, for a writer that is done within `fuel` rows
  unfoldable pub visit : ℕ → W → DataFrame → KvStore → Run (DataFrame × KvStore)
  unfolding visit_from
  visit fuel w frame kv = do
    r ← Row.new frame.schema
    visit_from (suc fuel) (replicate block_size r) 0 0 w frame kv
