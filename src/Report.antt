-- ===== src/Report.antt =====
-- internal/domain/pipeline/report.go: the report of a run, from the files that its run log was flushed to. A directory is
-- the list of its JSON files; what listJSONFiles and os.ReadFile give is an argument.
pub mod Accounting
use load_test_backend.Base.{
  ℕ, suc, ◌+◌, ◌/◌, ◌^◌, String, Bool, true, false, not, ◌&&◌, Option, none, some, List, [], ◌∷◌,
  Assoc, lookup, insert, length, ltb, ℤ, pos, negsuc, sub_ℕ, ◌==◌, string_eq, ◌>>=◌, if◌then◌else◌,
}
use load_test_backend.Float.{Float64, of_int, mul, div, round, zero_float}
use load_test_backend.Json.{Json, Fields, get, Payload, empty, malformed, doc}
use load_test_backend.Latency.Percentiles.{at, sort, sum_of, clamp_index, FloatOps, p50, p95, p99}
use load_test_backend.Batch.Init.{struct_text, struct_fields}

-- A file by its name, its time in nanoseconds, and its content unless it cannot be read.
pub record ReportFile : Type 0 where
  pub name : String
  pub mod_time : ℤ
  pub content : Option Payload

pub record StageReport : Type 0 where
  pub stage : String
  pub sent : ℕ
  pub ack_count : ℕ
  pub nack_count : ℕ
  pub no_callback : ℕ
  pub p50_ms : ℤ
  pub p95_ms : ℤ
  pub p99_ms : ℤ
  pub avg_ms : Float64

abbrev pub empty_report : String → StageReport
empty_report stage = record {
  stage = stage;
  sent = 0;
  ack_count = 0;
  nack_count = 0;
  no_callback = 0;
  p50_ms = pos 0;
  p95_ms = pos 0;
  p99_ms = pos 0;
  avg_ms = zero_float;
}

-- The status of a callback, decoded into the nested structs; `none` is an error.
unfoldable pub ack_status : Json → Option String
ack_status j = do
  m ← struct_fields (some j)
  message ← struct_fields (get "message" m)
  ack ← struct_fields (get "ack" message)
  struct_text (get "status" ack)

abbrev pub other_status : Option String → Bool
other_status none = false
other_status (some status) = not (status == "") && not (status == "ACK")

unfoldable pub is_nack : Option Payload → Bool
is_nack none = false
is_nack (some empty) = false
is_nack (some malformed) = false
is_nack (some (doc j)) = other_status (ack_status j)

-- `recvSet`.
unfoldable pub recv_set : List ReportFile → Assoc String ReportFile → Assoc String ReportFile
recv_set [] set = set
recv_set (f ∷ fs) set = recv_set fs (insert f.name f set)

-- The counters and the latencies, which the loop over the sent files collects.
pub record Tally : Type 0 where
  pub acks : ℕ
  pub nacks : ℕ
  pub missing : ℕ
  pub latencies : List ℤ

abbrev pub empty_tally : Tally
empty_tally = record { acks = 0; nacks = 0; missing = 0; latencies = [] }

-- `Sub` of two times, and its whole milliseconds when it is not negative.
abbrev pub minus_ℤ : ℤ → ℤ → ℤ
minus_ℤ (pos a) (pos b) = sub_ℕ a b
minus_ℤ (pos a) (negsuc b) = pos (a + suc b)
minus_ℤ (negsuc a) (pos b) = negsuc (a + b)
minus_ℤ (negsuc a) (negsuc b) = sub_ℕ b a

-- The latencies are prepended, and sorted behind the loop.
abbrev pub with_latency : ℤ → List ℤ → List ℤ
with_latency (pos n) ls = pos (n / 10 ^ 6) ∷ ls
with_latency (negsuc n) ls = ls

abbrev pub tally_received : ReportFile → Option ReportFile → Tally → Tally
tally_received sent none t = record t { missing = t.missing + 1 }
tally_received sent (some recv) t =
    if is_nack recv.content then record t { nacks = t.nacks + 1 } else record t {
      acks = t.acks + 1;
      latencies = with_latency (minus_ℤ recv.mod_time sent.mod_time) t.latencies;
    }

unfoldable pub tally_all : Assoc String ReportFile → List ReportFile → Tally → Tally
tally_all set [] t = t
tally_all set (f ∷ fs) t = tally_all set fs (tally_received f (lookup f.name set) t)

module _ (ops : FloatOps) where
  unfoldable pub percentile : List ℤ → Float64 → ℤ
  percentile [] p = pos 0
  percentile (x ∷ xs) p =
      at (x ∷ xs) (clamp_index (ops.trunc_index p (length xs)) (length (x ∷ xs)))

  abbrev pub with_statistics : List ℤ → StageReport → StageReport
  with_statistics [] r = r
  with_statistics (x ∷ xs) r =
      let sorted = sort (x ∷ xs) in
      let hundred = of_int (pos 100) in
      let mean = div (of_int (sum_of sorted)) (of_int (pos (length sorted))) in
      record r {
        p50_ms = percentile sorted p50;
        p95_ms = percentile sorted p95;
        p99_ms = percentile sorted p99;
        avg_ms = div (round (mul mean hundred)) hundred;
      }

  unfoldable pub build_stage_report : String → List ReportFile → List ReportFile → StageReport
  build_stage_report stage [] recv = empty_report stage
  build_stage_report stage (f ∷ fs) recv =
      let t = tally_all (recv_set recv []) (f ∷ fs) empty_tally in
      with_statistics t.latencies (record (empty_report stage) {
        sent = length (f ∷ fs);
        ack_count = t.acks;
        nack_count = t.nacks;
        no_callback = t.missing;
      })

  -- The directories of a run by name, and whether the run has any.
  abbrev pub add_stage : StageReport → List StageReport → List StageReport
  add_stage r rs = if ltb 0 r.sent then r ∷ rs else rs

  unfoldable pub run_stages : (String → List ReportFile) → List StageReport
  run_stages dir = add_stage (build_stage_report "select" (dir "select") (dir "on_select")) (
      add_stage (build_stage_report "init" (dir "init") (dir "on_init"))
        (add_stage (build_stage_report "confirm" (dir "confirm") (dir "on_confirm")) []))
