-- ===== src/Batch/Acknowledged.antt =====
-- init_confirm_from_callbacks.go: which recorded callbacks are acknowledgements.
use load_test_backend.Base.{
  ◌≡◌, refl, ap, ◌∙◌, String, Bool, true, Option, none, some, arith, not, ◌&&◌, ◌||◌, ◌==◌,
  string_eq,
}
use load_test_backend.Json.{
  Json, null, bool, num, str, arr, obj, Fields, get, get_in, as_map, as_string,
}
use load_test_backend.Json.Edit.{map_or_new}
use load_test_backend.Batch.FromCallbacks.{rejected}

-- `message.ack.status` is no text, or the empty one, or ACK.
abbrev pub fine_status : Option Json → Bool
fine_status (some (str s)) = s == "" || s == "ACK"
fine_status (some null) = true
fine_status (some (bool b)) = true
fine_status (some (num n)) = true
fine_status (some (arr xs)) = true
fine_status (some (obj fs)) = true
fine_status none = true

abbrev pub acknowledges : Fields → Bool
acknowledges full =
    fine_status (get_in "status" (as_map (get_in "ack" (as_map (get "message" full)))))

get-map_or_new : (k : String) (o : Option Json) → get k (map_or_new o) ≡ get_in k (as_map o)
unfolding get
get-map_or_new k none = refl
get-map_or_new k (some null) = refl
get-map_or_new k (some (bool b)) = refl
get-map_or_new k (some (num n)) = refl
get-map_or_new k (some (str s)) = refl
get-map_or_new k (some (arr xs)) = refl
get-map_or_new k (some (obj fs)) = refl

refused-status :
    (o : Option Json)
    → (not (as_string o == "") && not (as_string o == "ACK")) ≡ not (fine_status o)
refused-status none = refl
refused-status (some null) = refl
refused-status (some (bool b)) = refl
refused-status (some (num n)) = refl
refused-status (some (str s)) = ground arith
refused-status (some (arr xs)) = refl
refused-status (some (obj fs)) = refl

pub rejected-acknowledges : (full : Fields) → rejected full ≡ not (acknowledges full)
unfolding rejected
rejected-acknowledges full =
    ap (λ (o : Option Json). not (as_string o == "") && not (as_string o == "ACK"))
      (get-map_or_new "status" (get "ack" (map_or_new (get "message" full)))
        ∙ ap (λ (o : Option Json). get_in "status" (as_map o))
            (get-map_or_new "ack" (get "message" full)))
    ∙ refused-status (get_in "status" (as_map (get_in "ack" (as_map (get "message" full)))))
