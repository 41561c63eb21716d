-- ===== src/Callbacks/Queue/Callers.antt =====
-- callbacks/routes.go, the latency queue: what a step of one caller of enqueueLatencyEvent does to the invariant.
use load_test_backend.Base.{
  ℕ, ◌+◌, ◌≤◌, ◌≡◌, sym, ap, ◌∙◌, subst, Bool, List, [], ◌∷◌, ◌++◌, All, arith, length, count_if,
  count_if-append, if◌then◌else◌,
}
use load_test_backend.Callbacks.Queue.{
  Caller, entering, sent, measured, loaded, queued, dropping, refused, Queue, is_sent, is_refused,
  is_dropping, IsRecorded, QueueIsSound,
}

IsRecorded-raise :
    (capacity m m' : ℕ) (c : Caller) → m ≤ m' → IsRecorded capacity m c → IsRecorded capacity m' c
IsRecorded-raise capacity m m' (entering ev) le h = tt
IsRecorded-raise capacity m m' sent le h = tt
IsRecorded-raise capacity m m' (measured d) le h = h
IsRecorded-raise capacity m m' (loaded d cur) le h = omega arith
IsRecorded-raise capacity m m' (queued d) le h = omega arith
IsRecorded-raise capacity m m' dropping le h = tt
IsRecorded-raise capacity m m' refused le h = tt

-- The caller at one place moves on, and the maximum may grow.
module _ (capacity m m' : ℕ) (le : m ≤ m') (x y : Caller) (after : List Caller) where
  All-raise : (cs : List Caller) → All (IsRecorded capacity m) cs → All (IsRecorded capacity m') cs
  All-raise [] h = tt
  All-raise (c ∷ cs) h = (IsRecorded-raise capacity m m' c le h.0, All-raise cs h.1)

  All-moved :
      (before : List Caller)
      → All (IsRecorded capacity m) (before ++ (x ∷ after))
      → (IsRecorded capacity m x → IsRecorded capacity m' y)
      → All (IsRecorded capacity m') (before ++ (y ∷ after))
  All-moved [] h f = (f h.0, All-raise after h.1)
  All-moved (c ∷ before) h f = (IsRecorded-raise capacity m m' c le h.0, All-moved before h.1 f)

-- Of the invariant, what the callers have to do with.
pub record Follows (q q' : Queue) (x y : Caller) (capacity : ℕ) : Type 0 where
  pub bounded : length q'.channel ≤ capacity
  pub max_bounded : q'.max_depth ≤ capacity
  pub raised : q.max_depth ≤ q'.max_depth
  pub recorded : IsRecorded capacity q.max_depth x → IsRecorded capacity q'.max_depth y
  pub drops :
      q'.dropped + (if is_dropping x then 1 else 0) + (if is_refused x then 1 else 0)
      ≡ q.dropped + (if is_dropping y then 1 else 0) + (if is_refused y then 1 else 0)
  pub fallbacks :
      q'.sync_fallback + (if is_refused x then 1 else 0)
      ≡ q.sync_fallback + (if is_refused y then 1 else 0)
  pub accounted :
      length q'.received + length q'.channel + (if is_sent x then 1 else 0)
      ≡ length q.received + length q.channel + (if is_sent y then 1 else 0)

pub caller_moves :
    (capacity : ℕ) (q q' : Queue) (before after : List Caller) (x y : Caller)
    → q.callers ≡ before ++ (x ∷ after)
    → q'.callers ≡ before ++ (y ∷ after)
    → Follows q q' x y capacity
    → QueueIsSound capacity q
    → QueueIsSound capacity q'
caller_moves capacity q q' before after x y e e' f h =
    let old : All (IsRecorded capacity q.max_depth) (before ++ (x ∷ after)) =
      subst (All (IsRecorded capacity q.max_depth)) e h.recorded in
    let moved =
      All-moved capacity q.max_depth q'.max_depth f.raised x y after before old f.recorded in
    let count : (p : Caller → Bool) → _ = λ p. count_if-append p before (x ∷ after) in
    let count' : (p : Caller → Bool) → _ = λ p. count_if-append p before (y ∷ after) in
    let drops : q.dropped
        ≡ count_if is_dropping (before ++ (x ∷ after))
          + count_if is_refused (before ++ (x ∷ after)) =
      h.drops ∙ ap (λ (cs : List Caller). count_if is_dropping cs + count_if is_refused cs) e in
    let fallbacks = h.fallbacks ∙ ap (count_if is_refused) e in
    let accounted = h.accounted ∙ ap (count_if is_sent) e in
    record {
      bounded = f.bounded;
      max_bounded = f.max_bounded;
      recorded = subst (All (IsRecorded capacity q'.max_depth)) (sym e') moved;
      drops =
          omega (
            arith,
            f.drops,
            drops,
            count is_dropping,
            count is_refused,
            count' is_dropping,
            count' is_refused,
          )
          ∙ ap (λ (cs : List Caller). count_if is_dropping cs + count_if is_refused cs) (sym e');
      fallbacks =
          omega (arith, f.fallbacks, fallbacks, count is_refused, count' is_refused)
          ∙ ap (count_if is_refused) (sym e');
      accounted =
          omega (arith, f.accounted, accounted, count is_sent, count' is_sent)
          ∙ ap (count_if is_sent) (sym e');
    }

pub loaded_bounded :
    (capacity : ℕ) (q : Queue) (before after : List Caller) (depth cur : ℕ)
    → q.callers ≡ before ++ (loaded depth cur ∷ after)
    → QueueIsSound capacity q
    → depth ≤ capacity
loaded_bounded capacity q before after depth cur e h =
    at before (subst (All (IsRecorded capacity q.max_depth)) e h.recorded)
  where
    at :
        (cs : List Caller)
        → All (IsRecorded capacity q.max_depth) (cs ++ (loaded depth cur ∷ after))
        → depth ≤ capacity
    at [] k = k.0.0
    at (c ∷ cs) k = at cs k.1
