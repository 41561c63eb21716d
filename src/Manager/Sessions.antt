-- ===== src/Manager/Sessions.antt =====
-- manager.go, `Create`, `Get` and `SetVerificationEnabled`: which session is the active one of a BPP.
use load_test_backend.Base.{
  String, Bool, true, false, none, some, List, [], ◌∷◌, ◌+◌, ◌≤◌, ◌≡◌, refl, arith, Assoc, lookup,
  insert, lookup-insert, eq_refl, string_eq, fresh, ◌==◌, ◌&&◌, if◌then◌else◌,
}
use load_test_backend.Session.{Session, SessionStatus, CatalogState, active, expired, unset}
use load_test_backend.Store.{
  Env, World, Result, ok, err, set_call, get_call, update_session, find_session, expire_sessions,
}
use load_test_backend.Store.Keys.{session_key, bpp_index_key, catalog_key, preorder_key}
use load_test_backend.Store.Redis.{
  create_session, get_session, get_session_by_bpp, delete_session, set_catalog_state,
  set_preorder_state, get_preorder_state, get_catalog_state, entry, idle_preorder, no_catalog,
}
use load_test_backend.Store.Mongo.{
  save_session, get_session_by_id, expire_sessions_by_bpp, expire_matching, is_active,
}
use load_test_backend.Manager.{
  create, drop_state_session, new_session, get_live, get_any, set_verification_enabled, is_past,
}
use load_test_backend.Manager.Finish.{NoFailure}

-- The active sessions of a BPP, with their identifiers.
abbrev pub is_live : SessionStatus → Bool
is_live active = true
is_live expired = false

abbrev pub active_of : String → Assoc String Session → List (String × Session)
active_of bpp_id [] = []
active_of bpp_id ((id, s) ∷ m) =
    let rest = active_of bpp_id m in
    if s.bpp_id == bpp_id && is_live s.status then (id, s) ∷ rest else rest

is_live-is_active : (t : SessionStatus) → is_live t ≡ is_active t
is_live-is_active active = refl
is_live-is_active expired = refl

active_of-expire :
    (bpp_id : String) (m : Assoc String Session) → active_of bpp_id (expire_matching bpp_id m) ≡ []
unfolding expire_matching
active_of-expire bpp_id [] = refl
active_of-expire bpp_id ((id, s) ∷ m) =
    ground (arith, active_of-expire bpp_id m, is_live-is_active s.status)

active_of-insert :
    (bpp_id id : String) (s : Session) (m : Assoc String Session)
    → (s.bpp_id == bpp_id && is_live s.status) ≡ true
    → active_of bpp_id m ≡ []
    → active_of bpp_id (insert id s m) ≡ (id, s) ∷ []
unfolding insert
active_of-insert bpp_id id s [] h k = rw h refl
active_of-insert bpp_id id s ((other, t) ∷ m) h k = ground (arith, active_of-insert bpp_id id s m h)

drop_state_session-ok :
    (env : Env) (w : World) (r : Result Session) → (drop_state_session r env w).0 ≡ ok tt
unfolding drop_state_session
drop_state_session-ok env w (ok s) = refl
drop_state_session-ok env w (err e) = refl

module _ (env : Env) (w : World) where
  get_session-world : (id : String) → (get_session id env w).1 ≡ w
  unfolding get_session
  get_session-world id = ground arith

  get_session_by_bpp-world : (bpp_id : String) → (get_session_by_bpp bpp_id env w).1 ≡ w
  unfolding get_session_by_bpp get_session
  get_session_by_bpp-world bpp_id = ground arith

  delete_session-mongo : (id : String) → (delete_session id env w).1.mongo ≡ w.mongo
  unfolding delete_session
  delete_session-mongo id = ground arith

  drop_state_session-mongo : (r : Result Session) → (drop_state_session r env w).1.mongo ≡ w.mongo
  unfolding drop_state_session
  drop_state_session-mongo (ok s) = delete_session-mongo s.id
  drop_state_session-mongo (err e) = refl

module _ (bpp_id bpp_uri core_version domain : String) (env : Env) (w : World) where
  -- The world in which `Create` stores the new session.
  abbrev cleared : World
  cleared =
      let found = get_session_by_bpp bpp_id env w in
      (expire_sessions_by_bpp bpp_id env (drop_state_session found.0 env found.1).1).1

  abbrev created : Result Session × World
  created = create bpp_id bpp_uri core_version domain env w

  abbrev fresh_session : Session
  fresh_session = new_session env bpp_id bpp_uri core_version domain

  -- The world after the writes of `Create`, each of which succeeds.
  abbrev stored : World → World
  stored v =
      let deadline = env.now + env.ttl in
      record {
        redis = record v.redis {
          sessions = insert env.new_id (entry fresh_session deadline) v.redis.sessions;
          bpp_index = insert bpp_id (entry env.new_id deadline) v.redis.bpp_index;
          catalogs =
              insert env.new_id
                (entry (record { status = unset; on_search_id = ""; updated_at = env.now })
                  deadline)
                v.redis.catalogs;
          preorders = insert env.new_id (entry idle_preorder deadline) v.redis.preorders;
        };
        mongo = record v.mongo { sessions = insert env.new_id fresh_session v.mongo.sessions };
      }

  create-stored : NoFailure env → created ≡ (ok fresh_session, stored cleared)
  unfolding create create_session set_catalog_state set_preorder_state save_session
  create-stored nf = ground (
    arith,
    drop_state_session-ok env (get_session_by_bpp bpp_id env w).1
        (get_session_by_bpp bpp_id env w).0,
    nf.redis set_call (session_key env.new_id),
    nf.redis set_call (bpp_index_key bpp_id),
    nf.redis set_call (catalog_key env.new_id),
    nf.redis set_call (preorder_key env.new_id),
    nf.mongo update_session,
  )

  stored-found :
      (env' : Env) (v : World)
      → NoFailure env'
      → env'.now ≤ env.now + env.ttl
      → ((get_live env.new_id env' (stored v)).0 ≡ ok fresh_session)
        × ((get_session_by_bpp bpp_id env' (stored v)).0 ≡ ok fresh_session)
        × ((get_preorder_state env.new_id env' (stored v)).0 ≡ ok idle_preorder)
        × ((get_catalog_state env.new_id env' (stored v)).0
            ≡ ok (record { status = unset; on_search_id = ""; updated_at = env.now }))
  unfolding get_live get_session get_session_by_bpp get_preorder_state get_catalog_state
  stored-found env' v nf h =
      let deadline = env.now + env.ttl in
      let unset_at : CatalogState = record no_catalog { updated_at = env.now } in
      (
        ground (
          arith,
          nf.redis get_call (session_key env.new_id),
          lookup-insert env.new_id env.new_id (entry fresh_session deadline) v.redis.sessions,
          eq_refl env.new_id,
        ),
        ground (
          arith,
          nf.redis get_call (session_key env.new_id),
          nf.redis get_call (bpp_index_key bpp_id),
          lookup-insert env.new_id env.new_id (entry fresh_session deadline) v.redis.sessions,
          lookup-insert bpp_id bpp_id (entry env.new_id deadline) v.redis.bpp_index,
          eq_refl env.new_id,
          eq_refl bpp_id,
        ),
        ground (
          arith,
          nf.redis get_call (preorder_key env.new_id),
          lookup-insert env.new_id env.new_id (entry idle_preorder deadline) v.redis.preorders,
          eq_refl env.new_id,
        ),
        ground (
          arith,
          nf.redis get_call (catalog_key env.new_id),
          lookup-insert env.new_id env.new_id (entry unset_at deadline) v.redis.catalogs,
          eq_refl env.new_id,
        ),
      )

  -- Without failures, and whatever session the BPP has, `Create` succeeds with a session that is then
  -- found under its identifier and
  -- as the session of its BPP until it expires, with an unset catalog and an idle preorder.
  pub create_lem :
      (env' : Env)
      → NoFailure env
      → NoFailure env'
      → env'.now ≤ env.now + env.ttl
      → (created.0 ≡ ok fresh_session)
        × ((get_live env.new_id env' created.1).0 ≡ ok fresh_session)
        × ((get_session_by_bpp bpp_id env' created.1).0 ≡ ok fresh_session)
        × ((get_preorder_state env.new_id env' created.1).0 ≡ ok idle_preorder)
        × ((get_catalog_state env.new_id env' created.1).0
            ≡ ok (record { status = unset; on_search_id = ""; updated_at = env.now }))
  create_lem env' nf nf' h =
      let (live, index, preorder, catalog) = stored-found env' cleared nf' h in
      rw (create-stored nf) (refl, live, index, preorder, catalog)

  cleared-mongo : NoFailure env → cleared.mongo.sessions ≡ expire_matching bpp_id w.mongo.sessions
  unfolding expire_sessions_by_bpp
  cleared-mongo nf =
      let found = get_session_by_bpp bpp_id env w in
      ground (
        arith,
        nf.mongo expire_sessions,
        drop_state_session-mongo env found.1 found.0,
        get_session_by_bpp-world env w bpp_id,
      )

  -- Without failures, MongoDB then has exactly one active session of the BPP: the one that `Create`
  -- returns, under its identifier.
  pub create_only_active :
      NoFailure env
      → (created.0 ≡ ok fresh_session)
        × (active_of bpp_id created.1.mongo.sessions ≡ (env.new_id, fresh_session) ∷ [])
  create_only_active nf = rw (create-stored nf) (
    refl,
    rw (cleared-mongo nf) (
        active_of-insert bpp_id env.new_id fresh_session (expire_matching bpp_id w.mongo.sessions)
          (ground (arith, eq_refl bpp_id)) (active_of-expire bpp_id w.mongo.sessions)),
  )

-- Without failures, changing the verification setting of a session that only MongoDB still has puts
-- it back into Redis and makes it the session of its BPP, whatever session the BPP had before.
pub set_verification_takes_over :
    (id : String) (enabled : Bool) (s : Session) (env env' : Env) (w : World)
    → NoFailure env
    → NoFailure env'
    → fresh env.now (lookup id w.redis.sessions) ≡ none
    → lookup id w.mongo.sessions ≡ some s
    → s.id ≡ id
    → env'.now ≤ env.now + env.ttl
    → (t : Session) × ((get_session_by_bpp s.bpp_id env'
          (set_verification_enabled id enabled env w).1).0
        ≡ ok t)
      × (t.id ≡ id)
unfolding set_verification_enabled get_any create_session save_session get_session get_session_by_id
    get_session_by_bpp
set_verification_takes_over id enabled s env env' w nf nf' gone held named h =
    let changed = record s {
      status = if is_active s.status && is_past env s then expired else s.status;
      verification_enabled = enabled;
    } in
    let deadline = env.now + env.ttl in
    (
      changed,
      ground (
        arith,
        nf.redis get_call (session_key id),
        nf.redis set_call (session_key id),
        nf.redis set_call (bpp_index_key s.bpp_id),
        nf'.redis get_call (session_key id),
        nf'.redis get_call (bpp_index_key s.bpp_id),
        nf.mongo update_session,
        nf.mongo find_session,
        lookup-insert id id (entry changed deadline) w.redis.sessions,
        lookup-insert s.bpp_id s.bpp_id (entry id deadline) w.redis.bpp_index,
        eq_refl id,
        eq_refl s.bpp_id,
      ),
      named,
    )
