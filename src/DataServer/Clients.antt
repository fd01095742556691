-- ===== src/DataServer/Clients.antt =====
-- What becomes of the clients: each is free or at work, or lost for good.
use play_frame.Common.{
  ℕ, ◌≡◌, refl, sym, ap, ◌∙◌, ◌⊎◌, inl, inr, Option, none, some, List, [], ◌∷◌, ◌++◌, Option-cases,
  subst, take,
}
use play_frame.Common.Int.{ℤ, pos}
use play_frame.Common.Run.{Run, ok, returns, Returns-ok, ok-bind, ◌>>=◌}
use play_frame.MsgModuleBase.{
  MsgWrapper, register, register-some, handle_request, handle_request-found, handle_request-missing,
}
use play_frame.Common.Array.{update_self}
use play_frame.MysqlMgr.{process, pop_free_client, pop_front, push_free_client}
use play_frame.DataServer.Message.{SsMsg, Callback, Net, DataServer}
use play_frame.DataServer.{
  request, on_account_reg_req, on_account_verify_req, on_get_player_data_req,
  on_set_player_data_req, handler, msg_wrapper_map, dispatch, round_with, round, account_verify,
  set_player_data, get_player_data, account_reg, set_sql, select_sql,
}

-- The number of the request that a callback answers.
abbrev pub request_cmd : Callback → ℕ
request_cmd account_reg = 11
request_cmd account_verify = 17
request_cmd get_player_data = 19
request_cmd set_player_data = 21

-- The client has got a request.
abbrev pub Taken : {R W : Type 0} → DataServer R W → ℕ → DataServer R W → Type 0
Taken d client d' =
    (d'.mgr.free_client_list ≡ d.mgr.free_client_list) × (d'.working ≡ d.working ++ client ∷ [])

-- The request that the client has got.
pub record Asked {R W : Type 0} (cmd : ℤ) (msg : SsMsg) (client : ℕ) (d d' : DataServer R W)
    : Type 0 where
  pub callback : Callback
  pub cmd_of : cmd ≡ pos (request_cmd callback)
  pub set : (d'.mgr.clients client).callback ≡ some callback
  pub seq : (d'.mgr.clients client).seq_id ≡ msg.seq
  pub player_idx : (d'.mgr.clients client).player_idx ≡ msg.player_idx
  pub world : d'.mgr.world ≡ d.mgr.world

request-Taken :
    {R W V : Type 0} (d : DataServer R W) (client : ℕ) (f : Callback) (msg : SsMsg) (m : Run V)
    (sql : V → List ℕ) (r : ℤ × DataServer R W)
    → (m >>= λ v. ok (pos 0, request d client (sql v) f msg.seq msg.player_idx)) ≡ ok r
    → Taken d client (r.1) × Asked (pos (request_cmd f)) msg client d (r.1)
unfolding request process
request-Taken d client f msg m sql r e =
    let (v, q) =
      ok-bind m (λ v. ok (pos 0, request d client (sql v) f msg.seq msg.player_idx)) r e in
    Returns-ok {Post = λ u. Taken d client (u.1) × Asked (pos (request_cmd f)) msg client d (u.1)} r
      (returns (
        (refl, refl),
        record {
          callback = f;
          cmd_of = refl;
          set = ap (λ c. c.callback) (update_self d.mgr.clients client _);
          seq = ap (λ c. c.seq_id) (update_self d.mgr.clients client _);
          player_idx = ap (λ c. c.player_idx) (update_self d.mgr.clients client _);
          world = refl;
        },
      ))
      (rw q at e)

ok-same : {V : Type 0} {a b : V} → ok a ≡ ok b → b ≡ a
ok-same e = cc

pub List-cases : (l : List ℕ) → (l ≡ []) ⊎ ((x : ℕ) × (xs : List ℕ) × (l ≡ x ∷ xs))
List-cases [] = inl refl
List-cases (x ∷ xs) = inr (x, xs, refl)

-- What every handler does.
abbrev IsHandler : {R W : Type 0} → ℤ → MsgWrapper SsMsg ℕ (DataServer R W) → Type 0
IsHandler {R} {W} cmd wrapper =
    (wrapper.package_class ≡ 0)
    × ((msg : SsMsg) (client : ℕ) (d : DataServer R W) (r : ℤ × DataServer R W)
        → wrapper.func msg client d ≡ ok r
        → Taken d client (r.1) × Asked cmd msg client d (r.1))

module _ {W R X : Type 0} (net : Net W R X) where
  reg-IsHandler : IsHandler {R = R} {W = W} (pos 11) (handler net (on_account_reg_req net))
  unfolding on_account_reg_req
  reg-IsHandler =
      (refl, λ msg client d r e. request-Taken d client account_reg msg _ (λ sql. sql) r e)

  set-IsHandler : IsHandler {R = R} {W = W} (pos 21) (handler net (on_set_player_data_req net))
  unfolding on_set_player_data_req
  set-IsHandler = (
    refl,
    λ msg client d r e.
        request-Taken d client set_player_data msg _
          (λ player_data. set_sql msg.set_player_data_req player_data) r e,
  )

  verify-IsHandler : IsHandler {R = R} {W = W} (pos 17) (handler net (on_account_verify_req net))
  unfolding on_account_verify_req
  verify-IsHandler = (
    refl,
    λ msg client d r e.
        request-Taken d client account_verify msg (ok tt)
          (λ u. take 1023 (
            select_sql "SELECT uid FROM sg_data WHERE uid = " msg.account_verify_req
              " and password_hash = "))
          r e,
  )

  get-IsHandler : IsHandler {R = R} {W = W} (pos 19) (handler net (on_get_player_data_req net))
  unfolding on_get_player_data_req
  get-IsHandler = (
    refl,
    λ msg client d r e.
        request-Taken d client get_player_data msg (ok tt)
          (λ u.
            select_sql "SELECT player_data FROM sg_data WHERE uid = " msg.get_player_data_req
              " AND password_hash = ")
          r e,
  )

  moved :
      (id : ℤ) (h : MsgWrapper SsMsg ℕ (DataServer R W)) (cmd : ℤ)
      (wrapper : MsgWrapper SsMsg ℕ (DataServer R W))
      → cmd ≡ id
      → h ≡ wrapper
      → IsHandler id h
      → IsHandler cmd wrapper
  moved id h cmd wrapper k q own =
      subst (λ (v : MsgWrapper SsMsg ℕ (DataServer R W)). IsHandler cmd v) q
        (subst (λ (i : ℤ). IsHandler i h) (sym k) own)

  -- Every command with a handler gives the request to the client.
  pub found-IsHandler :
      (cmd : ℤ) (wrapper : MsgWrapper SsMsg ℕ (DataServer R W))
      → msg_wrapper_map net cmd ≡ some wrapper
      → IsHandler cmd wrapper
  found-IsHandler cmd wrapper e3 =
      let h0 = handler net (on_account_reg_req net) in
      let h1 = handler net (on_account_verify_req net) in
      let h2 = handler net (on_get_player_data_req net) in
      let h3 = handler net (on_set_player_data_req net) in
      let m0 : ℤ → Option (MsgWrapper SsMsg ℕ (DataServer R W)) = λ c. none in
      let m1 = register m0 (pos 11) h0 in
      let m2 = register m1 (pos 17) h1 in
      let m3 = register m2 (pos 19) h2 in
      elim (register-some m3 (pos 21) h3 cmd wrapper e3) [
        | inl (k, q) ↦ moved _ _ cmd wrapper k q set-IsHandler
        | inr e2 ↦ elim (register-some m2 (pos 19) h2 cmd wrapper e2) [
          | inl (k, q) ↦ moved _ _ cmd wrapper k q get-IsHandler
          | inr e1 ↦ elim (register-some m1 (pos 17) h1 cmd wrapper e1) [
            | inl (k, q) ↦ moved _ _ cmd wrapper k q verify-IsHandler
            | inr e0 ↦ elim (register-some m0 (pos 11) h0 cmd wrapper e0) [
              | inl (k, q) ↦ moved _ _ cmd wrapper k q reg-IsHandler
              | inr n ↦ absurd (cc)
            ]
          ]
        ]
      ]

  -- The message parses, and its command has a handler.
  abbrev pub IsServed : Option (ℤ × SsMsg) → Type 0
  IsServed none = ⊥
  IsServed (some (cmd, msg)) =
      (wrapper : _) × (msg_wrapper_map {W = W} {R = R} net cmd ≡ some wrapper)

  -- A round with the first of the free clients: without a message it goes back, with one that is
  -- served it is at work, and with any other it is lost.
  abbrev pub Dispatched : DataServer R W → ℕ → Option (Option (ℤ × SsMsg)) → DataServer R W → Type 0
  Dispatched d client received d' =
      ((received ≡ none)
        × (d'.mgr.free_client_list ≡ d.mgr.free_client_list ++ client ∷ [])
        × (d'.working ≡ d.working))
      ⊎ ((parsed : Option (ℤ × SsMsg)) × (received ≡ some parsed)
          × IsServed parsed
          × Taken d client d')
      ⊎ ((parsed : Option (ℤ × SsMsg)) × (received ≡ some parsed)
          × (¬ IsServed parsed)
          × (d'.mgr.free_client_list ≡ d.mgr.free_client_list)
          × (d'.working ≡ d.working))

  dispatch-Dispatched :
      (received : Option (Option (ℤ × SsMsg))) (client : ℕ) (d d' : DataServer R W)
      → dispatch net received client d ≡ ok d'
      → Dispatched d client received d'
  unfolding dispatch handle_request push_free_client
  dispatch-Dispatched none client d d' e =
      Returns-ok {Post = λ u. Dispatched d client none u} d' (returns (inl (refl, refl, refl))) e
  dispatch-Dispatched (some none) client d d' e =
      Returns-ok {Post = λ u. Dispatched d client (some none) u} d'
        (returns (inr (inr (none, refl, (λ s. s), refl, refl)))) e
  dispatch-Dispatched (some (some (cmd, msg))) client d d' e =
      elim (Option-cases (msg_wrapper_map net cmd)) [
        | inl n ↦
            let none_found : ¬ IsServed (some (cmd, msg)) = λ (wrapper, f). cc in
            let e' = rw (handle_request-missing (msg_wrapper_map net) 0 cmd msg client d n) at e in
            Returns-ok {Post = λ u. Dispatched d client (some (some (cmd, msg))) u} d'
              (returns (inr (inr (some (cmd, msg), refl, none_found, refl, refl)))) e'
        | inr (wrapper, f) ↦
            let h = found-IsHandler cmd wrapper f in
            let e' =
              rw (handle_request-found (msg_wrapper_map net) 0 cmd msg client d wrapper f h.0) at
                e in
            let (p, g1) =
              ok-bind (wrapper.func msg client d >>= λ r. ok (pos 0, r.1)) (λ x. ok (x.1)) d' e' in
            let (r, g) = ok-bind (wrapper.func msg client d) (λ r. ok (pos 0, r.1)) p g1 in
            Returns-ok {Post = λ u. Dispatched d client (some (some (cmd, msg))) u} d'
              (returns (inr (inl (some (cmd, msg), refl, (wrapper, f), (h.1 msg client d r g).0))))
              (rw g at e')
      ]

  -- What a round of Run does with the clients.
  abbrev pub RoundOf : DataServer R W → DataServer R W → Type 0
  RoundOf d d' =
      ((d.mgr.free_client_list ≡ []) × (d' ≡ d))
      ⊎ ((client : ℕ) × (rest : List ℕ) × (d.mgr.free_client_list ≡ client ∷ rest)
          × Dispatched (record d { mgr = record d.mgr { free_client_list = rest } }) client
              ((net.recv d.mgr.world).0) d')

  pub round-RoundOf : (d d' : DataServer R W) → round net d ≡ ok d' → RoundOf d d'
  unfolding round pop_free_client pop_front round_with
  round-RoundOf d d' e = elim (List-cases d.mgr.free_client_list) [
    | inl n ↦
        let same : record d { mgr = record d.mgr { free_client_list = [] } } ≡ d =
          ap (λ l. record d { mgr = record d.mgr { free_client_list = l } }) (sym n) in
        inl (n, ok-same (rw n at e) ∙ same)
    | inr (client, rest, f) ↦
        let w = (net.recv d.mgr.world).1 in
        inr (
          client,
          rest,
          f,
          dispatch-Dispatched ((net.recv d.mgr.world).0) client
              (record d { mgr = record d.mgr { free_client_list = rest; world = w } }) d'
              (rw f at e),
        )
  ]
