-- ===== src/DataServer/Reach.antt =====
-- The states that the data server comes to: no client has two requests at once.
use play_frame.Common.{
  ℕ, zero, suc, ◌+◌, ◌≤◌, ◌<◌, ◌≡◌, ◌≢◌, refl, ◌⊎◌, inl, inr, arith, List, [], ◌∷◌, ◌++◌, count,
  count-append, Bool-cases, ◌==◌, not, eq_cases, ==_iff, ne→==,
}
use play_frame.Common.Int.{ℤ, pos, ◌==ℤ◌}
use play_frame.Common.Run.{bind-all, ok, returns, Returns-ok, ok-bind}
use play_frame.MysqlMgr.{Db, MysqlMgr, push_free_client, ping, connect, thread_work, init_clients}
use play_frame.MysqlMgr
use play_frame.DataServer.Message.{Callback, Net, DataServer}
use play_frame.DataServer.{without_first, round, wired, work}
use play_frame.DataServer.Clients.{round-RoundOf}

-- How often the client is free or at work.
abbrev pub places : {R W : Type 0} → DataServer R W → ℕ → ℕ
places d x = count x d.mgr.free_client_list + count x d.working

count_cons : (x y : ℕ) (ys : List ℕ) → count x (y ∷ ys) ≡ count x (y ∷ []) + count x ys
count_cons x y ys = count-append x (y ∷ []) ys

count-without_first :
    (x client : ℕ) (l : List ℕ)
    → 0 < count client l
    → count x (client ∷ []) + count x (without_first client l) ≡ count x l
count-without_first x client [] h = absurd (omega arith)
count-without_first x client (y ∷ ys) h = elim (eq_cases y client) [
  | inl e ↦
      rw (e, (==_iff client client).1 refl)
        (elim (Bool-cases (client == x)) [
          | inl g ↦ rw g (omega arith)
          | inr g ↦ rw g (omega arith)
        ])
  | inr ne ↦
      let rest = count-without_first x client ys (let f = ne→== y client ne in rw f at h) in
      rw (ne→== y client ne) (elim (Bool-cases (y == x)) [
        | inl g ↦ rw g (omega (arith, rest))
        | inr g ↦ rw g (omega (arith, rest))
      ])
]

count_single : (x y : ℕ) → count x (y ∷ []) ≤ 1
count_single x y = elim (Bool-cases (y == x)) [
  | inl e ↦ rw e (omega arith)
  | inr e ↦ rw e (omega arith)
]

count_other : (x y : ℕ) → y ≢ x → count x (y ∷ []) ≡ 0
count_other x y ne = rw (ne→== y x ne)

module _ {W R : Type 0} (db : Db W R Callback) where
  thread_work-free :
      (m m' : MysqlMgr R Callback W) (client : ℕ)
      → thread_work db m client ≡ ok m'
      → (m'.free_client_list ≡ m.free_client_list)
        ⊎ (m'.free_client_list ≡ m.free_client_list ++ client ∷ [])
  unfolding thread_work push_free_client
  thread_work-free m m' client e = elim (Bool-cases (not ((ping db m.world).0 ==ℤ pos 0))) [
    | inl f ↦
        Returns-ok
          {Post = λ u.
            (u.free_client_list ≡ m.free_client_list)
            ⊎ (u.free_client_list ≡ m.free_client_list ++ client ∷ [])}
          m' (returns (inl refl)) (rw f at e)
    | inr f ↦
        let e' = rw f at e in
        bind-all
          {Post = λ u.
            (u.free_client_list ≡ m.free_client_list)
            ⊎ (u.free_client_list ≡ m.free_client_list ++ client ∷ [])}
          _ _ m' e' λ w. returns (inr refl)
  ]

  -- A new client has a number that is not in the list.
  init_clients-count :
      (n i : ℕ) (m m' : MysqlMgr R Callback W)
      → init_clients db n i m ≡ ok m'
      → ((x : ℕ) → count x m.free_client_list ≤ 1)
      → ((x : ℕ) → i ≤ x → count x m.free_client_list ≡ 0)
      → (x : ℕ) → count x m'.free_client_list ≤ 1
  unfolding init_clients push_free_client
  init_clients-count zero i m m' e single new x =
      Returns-ok {Post = λ u. count x u.free_client_list ≤ 1} m' (returns (single x)) e
  init_clients-count (suc n) i m m' e single new x =
      elim (Bool-cases ((connect db m.world).0 ==ℤ pos 0)) [
        | inr f ↦ let e' = rw f at e in absurd (cc)
        | inl f ↦
            init_clients-count n (i + 1)
              (push_free_client (record m { world = (connect db m.world).1 }) i) m' (rw f at e)
              (λ y.
                let s = single y in
                let a = count-append y m.free_client_list (i ∷ []) in
                elim (eq_cases i y) [
                  | inl q ↦ let z = new y (omega arith) in omega (arith, count_single y i)
                  | inr ne ↦ let z = count_other y i ne in omega arith
                ])
              (λ y h.
                let z = new y (omega arith) in
                let o = count_other y i (λ q. omega arith) in
                let a = count-append y m.free_client_list (i ∷ []) in omega arith)
              x
      ]

  init-count :
      (max_client_count : ℤ) (w : W) (m : MysqlMgr R Callback W)
      → MysqlMgr.init db max_client_count w ≡ ok m
      → (x : ℕ) → count x m.free_client_list ≤ 1
  unfolding MysqlMgr.init
  init-count max_client_count w m e x =
      init_clients-count _ 0 _ m e (λ y. omega arith) (λ y h. refl) x

module _ {W R X : Type 0} (net : Net W R X) where
  -- A round gives no client a second place.
  round-places : (d d' : DataServer R W) → round net d ≡ ok d' → (x : ℕ) → places d' x ≤ places d x
  round-places d d' e x = elim (round-RoundOf net d d' e) [
    | inl (n, same) ↦ rw same (omega arith)
    | inr (client, rest, f, inl (n, a, b)) ↦
        rw (a, b, f) (omega (arith, count-append x rest (client ∷ []), count_cons x client rest))
    | inr (client, rest, f, inr (inl (p, r, s, (a, b)))) ↦
        rw (a, b, f)
          (omega (arith, count-append x d.working (client ∷ []), count_cons x client rest))
    | inr (client, rest, f, inr (inr (p, r, s, a, b))) ↦
        rw (a, b, f) (omega (arith, count_cons x client rest))
  ]

  module _ (db : Db W R Callback) where
    -- Nor does a thread that has served its request.
    work-places :
        (d d' : DataServer R W) (client : ℕ)
        → 0 < count client d.working
        → work net db d client ≡ ok d'
        → (x : ℕ) → places d' x ≤ places d x
    unfolding work
    work-places d d' client h e x =
        let (m, q) = ok-bind (thread_work (wired net db) d.mgr client) _ d' e in
        let less = count-without_first x client d.working h in
        Returns-ok {Post = λ u. places u x ≤ places d x} d'
          (returns (elim (thread_work-free (wired net db) d.mgr m client q) [
            | inl a ↦ rw a (omega (arith, less))
            | inr a ↦
                rw a (omega (arith, less, count-append x d.mgr.free_client_list (client ∷ [])))
          ]))
          (rw q at e)

    -- The states that rounds of Run and turns of the threads come to, the first made by Init.
    pub data Reaches : DataServer R W → Type 0 where
      initial :
          (max_client_count : ℤ) (w : W) {m : MysqlMgr R Callback W}
          → MysqlMgr.init (wired net db) max_client_count w ≡ ok m
          → Reaches (record { mgr = m; working = [] })
      received : {d d' : DataServer R W} → Reaches d → round net d ≡ ok d' → Reaches d'
      worked :
          {d d' : DataServer R W} (client : ℕ)
          → Reaches d
          → 0 < count client d.working
          → work net db d client ≡ ok d'
          → Reaches d'

    -- However requests come in and the threads take their turns: no client is free twice, or at work
    -- twice, or free while it is at work.
    pub Reaches-single : (d : DataServer R W) → Reaches d → (x : ℕ) → places d x ≤ 1
    Reaches-single d (initial max_client_count w {m} e) x =
        let c = init-count (wired net db) max_client_count w m e x in omega arith
    Reaches-single d (received {d = old} before e) x =
        let a = Reaches-single old before x in let b = round-places old d e x in omega arith
    Reaches-single d (worked {d = old} client before h e) x =
        let a = Reaches-single old before x in let b = work-places old d client h e x in omega arith
