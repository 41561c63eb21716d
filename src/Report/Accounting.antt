-- ===== src/Report/Accounting.antt =====
-- report.go: every sent payload is counted once.
use load_test_backend.Json.{
  Json, null, bool, num, str, arr, obj, Fields, get, get_in, as_map, Payload, empty, malformed, doc,
}
use load_test_backend.Batch.Init.{struct_text, struct_fields}
use load_test_backend.Base.{
  ℕ, ◌+◌, ◌≡◌, refl, String, Bool, true, false, Option, none, some, List, [], ◌∷◌, Assoc, lookup,
  length, ℤ, arith, string_eq, count_if, not, ◌&&◌, ◌==◌, ◌∙◌, ◌>>=◌, insert, lookup-insert,
  if◌then◌else◌,
}
use load_test_backend.Latency.Percentiles.{FloatOps}
use load_test_backend.Report.{
  ReportFile, StageReport, Tally, empty_tally, tally_received, tally_all, is_nack, ack_status,
  other_status, recv_set, with_statistics, build_stage_report,
}

-- The received file of a name: the last one that has it.
abbrev pub last_named : String → List ReportFile → Option ReportFile
last_named name [] = none
last_named name (f ∷ fs) = elim (last_named name fs) [
  | none ↦ if f.name == name then some f else none
  | some g ↦ some g
]

-- A status that is neither empty nor ACK.
abbrev pub rejecting_text : Option Json → Bool
rejecting_text (some (str s)) = not (s == "") && not (s == "ACK")
rejecting_text (some null) = false
rejecting_text (some (bool b)) = false
rejecting_text (some (num n)) = false
rejecting_text (some (arr xs)) = false
rejecting_text (some (obj fs)) = false
rejecting_text none = false

-- A document whose `message.ack.status` is such a text.
abbrev pub rejecting_content : Option Payload → Bool
rejecting_content (some (doc (obj fs))) =
    rejecting_text (get_in "status" (as_map (get_in "ack" (as_map (get "message" fs)))))
rejecting_content (some (doc null)) = false
rejecting_content (some (doc (bool b))) = false
rejecting_content (some (doc (num n))) = false
rejecting_content (some (doc (str s))) = false
rejecting_content (some (doc (arr xs))) = false
rejecting_content (some malformed) = false
rejecting_content (some empty) = false
rejecting_content none = false

rejects-status : (o : Option Json) → other_status (struct_text o) ≡ rejecting_text o
rejects-status none = refl
rejects-status (some null) = refl
rejects-status (some (bool b)) = refl
rejects-status (some (num n)) = refl
rejects-status (some (str s)) = refl
rejects-status (some (arr xs)) = refl
rejects-status (some (obj fs)) = refl

rejects-ack :
    (o : Option Json)
    → other_status (struct_fields o >>= λ (ack : Fields). struct_text (get "status" ack))
      ≡ rejecting_text (get_in "status" (as_map o))
unfolding get
rejects-ack none = refl
rejects-ack (some null) = refl
rejects-ack (some (bool b)) = refl
rejects-ack (some (num n)) = refl
rejects-ack (some (str s)) = refl
rejects-ack (some (arr xs)) = refl
rejects-ack (some (obj fs)) = rejects-status (get "status" fs)

rejects-message :
    (o : Option Json)
    → other_status (
        struct_fields o >>= λ (message : Fields).
        struct_fields (get "ack" message) >>= λ (ack : Fields). struct_text (get "status" ack))
      ≡ rejecting_text (get_in "status" (as_map (get_in "ack" (as_map o))))
unfolding get
rejects-message none = refl
rejects-message (some null) = refl
rejects-message (some (bool b)) = refl
rejects-message (some (num n)) = refl
rejects-message (some (str s)) = refl
rejects-message (some (arr xs)) = refl
rejects-message (some (obj fs)) = rejects-ack (get "ack" fs)

is_nack-rejecting : (o : Option Payload) → is_nack o ≡ rejecting_content o
unfolding is_nack ack_status get
is_nack-rejecting none = refl
is_nack-rejecting (some empty) = refl
is_nack-rejecting (some malformed) = refl
is_nack-rejecting (some (doc null)) = refl
is_nack-rejecting (some (doc (bool b))) = refl
is_nack-rejecting (some (doc (num n))) = refl
is_nack-rejecting (some (doc (str s))) = refl
is_nack-rejecting (some (doc (arr xs))) = refl
is_nack-rejecting (some (doc (obj fs))) = rejects-message (get "message" fs)

abbrev or_in : Option ReportFile → Option ReportFile → Option ReportFile
or_in none other = other
or_in (some f) other = some f

lookup-recv_set :
    (name : String) (recv : List ReportFile) (set : Assoc String ReportFile)
    → lookup name (recv_set recv set) ≡ or_in (last_named name recv) (lookup name set)
unfolding recv_set
lookup-recv_set name [] set = refl
lookup-recv_set name (f ∷ fs) set =
    ground (arith, lookup-recv_set name fs (insert f.name f set), lookup-insert f.name name f set)

or_in-none : (o : Option ReportFile) → or_in o none ≡ o
or_in-none none = refl
or_in-none (some f) = refl

abbrev lacks : Option ReportFile → Bool
lacks none = true
lacks (some recv) = false

abbrev rejects : Option ReportFile → Bool
rejects none = false
rejects (some recv) = rejecting_content recv.content

module _ (recv : List ReportFile) where
  -- No received file has the name of the sent file, and: the one that has it is a rejection.
  abbrev pub is_unanswered : ReportFile → Bool
  is_unanswered f = lacks (last_named f.name recv)

  abbrev pub is_rejected : ReportFile → Bool
  is_rejected f = rejects (last_named f.name recv)

  abbrev set : Assoc String ReportFile
  set = recv_set recv []

  found : (name : String) → lookup name set ≡ last_named name recv
  unfolding lookup
  found name = lookup-recv_set name recv [] ∙ or_in-none (last_named name recv)

  abbrev pub IsTallied : List ReportFile → ℕ → Tally → Tally → Type 0
  IsTallied fs n t t' =
      (t'.missing ≡ count_if is_unanswered fs + t.missing)
      × (t'.nacks ≡ count_if is_rejected fs + t.nacks)
      × (t'.acks + t'.nacks + t'.missing ≡ n + (t.acks + t.nacks + t.missing))

  received-IsTallied :
      (f : ReportFile) (o : Option ReportFile) (t : Tally)
      → ((tally_received f o t).missing ≡ (if lacks o then 1 else 0) + t.missing)
        × ((tally_received f o t).nacks ≡ (if rejects o then 1 else 0) + t.nacks)
        × ((tally_received f o t).acks
              + (tally_received f o t).nacks
              + (tally_received f o t).missing
            ≡ 1 + (t.acks + t.nacks + t.missing))
  received-IsTallied f none t = (omega arith, omega arith, omega arith)
  received-IsTallied f (some got) t =
      let same = is_nack-rejecting got.content in (ground arith, ground arith, ground arith)

  tally_all-IsTallied :
      (fs : List ReportFile) (t : Tally) → IsTallied fs (length fs) t (tally_all set fs t)
  unfolding tally_all
  tally_all-IsTallied [] t = (omega arith, omega arith, omega arith)
  tally_all-IsTallied (f ∷ fs) t =
      let (a, b, c) = received-IsTallied f (lookup f.name set) t in
      let same = found f.name in
      let (a', b', c') = tally_all-IsTallied fs (tally_received f (lookup f.name set) t) in
      (ground arith, ground arith, omega arith)

module _ (ops : FloatOps) where
  -- The counters of a stage, by what was sent and received.
  abbrev pub IsCounted : List ReportFile → List ReportFile → StageReport → Type 0
  IsCounted sent recv r =
      (r.sent ≡ length sent)
      × (r.sent ≡ r.ack_count + r.nack_count + r.no_callback)
      × (r.no_callback ≡ count_if (is_unanswered recv) sent)
      × (r.nack_count ≡ count_if (is_rejected recv) sent)

  with_statistics-IsCounted :
      (sent recv : List ReportFile) (ls : List ℤ) (r : StageReport)
      → IsCounted sent recv r
      → IsCounted sent recv (with_statistics ops ls r)
  with_statistics-IsCounted sent recv [] r h = h
  with_statistics-IsCounted sent recv (x ∷ xs) r h = h

  -- The report of a stage counts every sent file once: as without a callback when no received file has
  -- its name, as rejected when `message.ack.status` of the last received file of its name is a text
  -- other than the empty one and ACK, and else as acknowledged.
  pub build_stage_report-IsCounted :
      (stage : String) (sent recv : List ReportFile)
      → IsCounted sent recv (build_stage_report ops stage sent recv)
  unfolding build_stage_report
  build_stage_report-IsCounted stage [] recv = (refl, refl, refl, refl)
  build_stage_report-IsCounted stage (f ∷ fs) recv =
      let t = tally_all (recv_set recv []) (f ∷ fs) empty_tally in
      let (a, b, c) = tally_all-IsTallied recv (f ∷ fs) empty_tally in
      with_statistics-IsCounted (f ∷ fs) recv t.latencies _
        (refl, omega arith, omega arith, omega arith)
