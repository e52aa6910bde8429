-- ===== src/Flow/Issued.antt =====
-- What a successful `complete` has checked, and what it stores.
use drone_dispatch.Session
use mathlib.Core.Path.{subst}
use drone_dispatch.Api.{World, Handler, not_signed_in}
use drone_dispatch.Clock.{Clock}
use drone_dispatch.Common.{
  ◌≡◌, none, some, refl, arith, Bool, Option-cases, inl, inr, Option, ◌∙◌, ap,
}
use drone_dispatch.Common.Exec.{ok, ok_or, ◌>>=◌}
use drone_dispatch.Common.Exec.Inversion.{bind-eq-ok, pair_eq}
use drone_dispatch.Config.{Config}
use drone_dispatch.Crypto.{Primitives}
use drone_dispatch.Db.{ParkedRequest}
use drone_dispatch.Flow.{load, Urls, evaluate, decide, situation, redirect_with}
use drone_dispatch.Flow.Handlers.{
  complete_request, CodeDraw, refusal, store_grant, grant_row, code_row, code_params,
  complete_loaded,
}
use drone_dispatch.Registry.{Client, resources}
use drone_dispatch.Session.{Jar, Session, view}
use drone_dispatch.Text.{Text}

module _ (crates : Primitives) where
  load-reads :
      (clock : Clock) (request_id : Text) (w : World) → (load crates clock request_id w).1 ≡ w
  unfolding load
  load-reads clock request_id w = ground arith

  -- What `complete` has read when it answers.
  pub record Completed (urls : Urls) (config : Config) (clock : Clock) (draw : CodeDraw) (jar : Jar)
      (request_id : Text) (consented : Bool) (w w' : World) (url : Text) : Type 0 where
    pub parked : ParkedRequest
    pub client : Client
    pub session : Session
    pub loaded : load crates clock request_id w ≡ (ok (parked, client), w)
    pub signed_in : Session.load crates w.db clock jar ≡ some session
    pub passed :
        refusal
          (decide (situation (resources config) clock parked client session (view w.db session)))
          consented
        ≡ none
    pub stored :
        store_grant crates request_id
          (grant_row draw parked client session)
          (code_row crates clock draw parked session)
          w.db
        ≡ some w'.db
    pub answer :
        url
        ≡ redirect_with urls parked.redirect_uri (code_params crates urls config draw.code parked)

  pub complete_loaded-ok :
      (urls : Urls) (config : Config) (clock : Clock) (draw : CodeDraw) (request_id : Text)
      (consented : Bool) (parked : ParkedRequest) (client : Client) (session : Session)
      (w w' : World) (url : Text)
      → complete_loaded crates urls config clock draw request_id consented parked client session w
        ≡ (ok url, w')
      → (refusal
            (decide (situation (resources config) clock parked client session (view w.db session)))
            consented
          ≡ none)
        × (store_grant crates request_id
              (grant_row draw parked client session)
              (code_row crates clock draw parked session)
              w.db
            ≡ some w'.db)
        × (url
            ≡ redirect_with urls parked.redirect_uri
                (code_params crates urls config draw.code parked))
  unfolding complete_loaded evaluate
  complete_loaded-ok urls config clock draw request_id consented parked client session w w' url e =
      elim (Option-cases (
        refusal
          (decide (situation (resources config) clock parked client session (view w.db session)))
          consented)) [
            | inr (error, refused) ↦ ground (arith, refused)
            | inl passed ↦
                elim (Option-cases (
                  store_grant crates request_id (grant_row draw parked client session)
                    (code_row crates clock draw parked session) w.db)) [
                      | inl kept ↦ ground (arith, passed, kept)
                      | inr (db, stored) ↦ ground (arith, passed, stored)
                    ]
          ]

  signed_in-ok :
      {A : Type 0} (o : Option Session) (k : Session → Handler A) (w w' : World) (a : A)
      → (ok_or o not_signed_in >>= k) w ≡ (ok a, w')
      → (session : Session) × (o ≡ some session) × (k session w ≡ (ok a, w'))
  signed_in-ok none k w w' a e = ground arith
  signed_in-ok (some session) k w w' a e = (session, refl, e)

  Completed-after_load :
      (urls : Urls) (config : Config) (clock : Clock) (draw : CodeDraw) (jar : Jar)
      (request_id : Text) (consented : Bool) (w w' : World) (url : Text) (parked : ParkedRequest)
      (client : Client)
      → load crates clock request_id w ≡ (ok (parked, client), w)
      → (ok_or (Session.load crates w.db clock jar) not_signed_in
            >>= complete_loaded crates urls config clock draw request_id consented parked client)
          w
        ≡ (ok url, w')
      → Completed urls config clock draw jar request_id consented w w' url
  Completed-after_load urls config clock draw jar request_id consented w w' url parked client known
        e =
      let (session, found, done) =
        signed_in-ok _
          (complete_loaded crates urls config clock draw request_id consented parked client) w w'
          url e in
      let (passed, stored, answer) =
        complete_loaded-ok urls config clock draw request_id consented parked client session w w'
          url done in
      record {
        parked = parked;
        client = client;
        session = session;
        loaded = known;
        signed_in = found;
        passed = passed;
        stored = stored;
        answer = answer;
      }

  pub complete_request-Completed :
      (urls : Urls) (config : Config) (clock : Clock) (draw : CodeDraw) (jar : Jar)
      (request_id : Text) (consented : Bool) (w w' : World) (url : Text)
      → complete_request crates urls config clock draw jar request_id consented w ≡ (ok url, w')
      → Completed urls config clock draw jar request_id consented w w' url
  unfolding complete_request evaluate
  complete_request-Completed urls config clock draw jar request_id consented w w' url e =
      let (read, known, rest) = bind-eq-ok (load crates clock request_id) _ w e in
      let unchanged = load-reads clock request_id w in
      Completed-after_load urls config clock draw jar request_id consented w w' url read.0 read.1
        (pair_eq known ∙ ap (λ v. (ok read, v)) unchanged)
        (subst
          (λ v.
            (ok_or (Session.load crates v.db clock jar) not_signed_in
                >>= complete_loaded crates urls config clock draw request_id consented read.0
                    read.1)
              v
            ≡ (ok url, w'))
          unchanged rest)

  pub complete_request-loaded :
      (urls : Urls) (config : Config) (clock : Clock) (draw : CodeDraw) (jar : Jar)
      (request_id : Text) (consented : Bool) (w : World) (parked : ParkedRequest) (client : Client)
      (session : Session)
      → load crates clock request_id w ≡ (ok (parked, client), w)
      → Session.load crates w.db clock jar ≡ some session
      → complete_request crates urls config clock draw jar request_id consented w
        ≡ complete_loaded crates urls config clock draw request_id consented parked client session w
  unfolding complete_request
  complete_request-loaded urls config clock draw jar request_id consented w parked client session
        loaded signed_in =
      rw (loaded, signed_in) refl
