-- ===== src/MysqlMgr/Work.antt =====
-- What one request does: the answers that its callback gets, and whether the client is free again.
use play_frame.Common.{
  ℕ, ◌≡◌, refl, ap, ◌∙◌, Bool, true, false, not, Option, none, some, List, [], ◌∷◌, ◌++◌, ◌⊎◌, inl,
  inr, if◌then◌else◌, ◌==◌, not-false, ◌≢◌,
}
use play_frame.Common.Int.{ℤ, pos, negsuc, ◌==ℤ◌, ==ℤ→eq}
use play_frame.Common.Run.{Returns, returns, Returns-if, Returns-bind, Returns-map}
use play_frame.MysqlMgr.{
  Db, MysqlClient, MysqlMgr, mysql_res_ok, mysql_res_failed, mysql_res_dup, connect, ping,
  query_failed, query_stored, thread_work, push_free_client,
}

-- An answer: the flags, the sequence number and the player.
abbrev pub Answer : Type 0
Answer = ℤ × ℕ × ℤ

-- Only callbacks answer, each with one answer as `Sent` says.
pub record Answers {W R C A : Type 0} (db : Db W R C) (answers : W → List A)
    (Sent : C → Answer → A → Type 0) : Type 0 where
  pub ping : (w : W) → answers ((db.ping w).1) ≡ answers w
  pub init : (w : W) → answers ((db.init w).1) ≡ answers w
  pub option : (i : ℕ) (w : W) → answers ((db.option i w).1) ≡ answers w
  pub real_connect : (w : W) → answers ((db.real_connect w).1) ≡ answers w
  pub close : (w : W) → answers (db.close w) ≡ answers w
  pub real_query : (sql : List ℕ) (w : W) → answers ((db.real_query sql w).1) ≡ answers w
  pub store_result : (w : W) → answers ((db.store_result w).1) ≡ answers w
  pub call :
      (f : C) (res : Option R) (flags : ℤ) (seq_id : ℕ) (player_idx : ℤ) (w : W)
      → (a : A) × Sent f (flags, seq_id, player_idx) a
        × (answers (db.call f res flags seq_id player_idx w) ≡ answers w ++ a ∷ [])

-- One more answer, to the request of the client `c` with the callback `f`.
abbrev pub Answered :
    {R C A : Type 0}
    → (C → Answer → A → Type 0)
    → C
    → MysqlClient R C
    → ℤ
    → List A
    → List A
    → Type 0
Answered Sent f c flags old new =
    (a : _) × Sent f (flags, c.seq_id, c.player_idx) a × (new ≡ old ++ a ∷ [])

-- What a request comes to, for the client `c` with the callback `f`, whose query is made at `w`.
abbrev pub Outcome :
    {W R C A : Type 0}
    → Db W R C
    → (C → Answer → A → Type 0)
    → C
    → MysqlClient R C
    → W
    → List A
    → List A
    → Type 0
Outcome db Sent f c w old new =
    (((db.real_query c.sql w).0 ≡ pos 0)
      × ((flags : ℤ) × ((flags ≡ mysql_res_ok) ⊎ (flags ≡ mysql_res_failed))
          × Answered Sent f c flags old new))
    ⊎ (((db.real_query c.sql w).0 ≢ pos 0)
        × (db.duplicate ((db.real_query c.sql w).1) ≡ true)
        × Answered Sent f c mysql_res_dup old new)
    ⊎ (((db.real_query c.sql w).0 ≢ pos 0)
        × (db.duplicate ((db.real_query c.sql w).1) ≡ false)
        × (new ≡ old))

not_zero : (ret : ℤ) → not (ret ==ℤ pos 0) ≡ true → ret ≢ pos 0
not_zero ret bad e = let bad' : false ≡ true = rw e at bad in cc

either :
    {W A : Type 0} (answers : W → List A) (b : Bool) (x y : ℤ × W) (old : List A)
    → answers (x.1) ≡ old
    → answers (y.1) ≡ old
    → answers ((if b then x else y).1) ≡ old
either answers true x y old p q = p
either answers false x y old p q = q

module _ {W R C A : Type 0} (db : Db W R C) (answers : W → List A) (Sent : C → Answer → A → Type 0)
    (a : Answers db answers Sent) where
  connect_quiet : (w : W) → answers ((connect db w).1) ≡ answers w
  unfolding connect
  connect_quiet w =
      let w0 = (db.init w).1 in
      let w1 = (db.option 0 w0).1 in
      let w2 = (db.option 1 w1).1 in
      let w3 = (db.option 2 w2).1 in
      let w4 = (db.real_connect w3).1 in
      let q0 = a.init w in
      let q1 = a.option 0 w0 ∙ q0 in
      let q2 = a.option 1 w1 ∙ q1 in
      let q3 = a.option 2 w2 ∙ q2 in
      let q4 = a.real_connect w3 ∙ q3 in
      let b0 = not ((db.init w).0) in
      let b1 = not ((db.option 0 w0).0 ==ℤ pos 0) in
      let b2 = not ((db.option 1 w1).0 ==ℤ pos 0) in
      let b3 = not ((db.option 2 w2).0 ==ℤ pos 0) in
      let b4 = (db.real_connect w3).0 in
      let r4 : ℤ × W = if b4 then (pos 0, w4) else (negsuc 4, db.close w4) in
      let r3 : ℤ × W = if b3 then (negsuc 3, db.close w3) else r4 in
      let r2 : ℤ × W = if b2 then (negsuc 2, db.close w2) else r3 in
      let r1 : ℤ × W = if b1 then (negsuc 1, db.close w1) else r2 in
      let p4 =
        either answers b4 (pos 0, w4) (negsuc 4, db.close w4) (answers w) q4 (a.close w4 ∙ q4) in
      let p3 = either answers b3 (negsuc 3, db.close w3) r4 (answers w) (a.close w3 ∙ q3) p4 in
      let p2 = either answers b2 (negsuc 2, db.close w2) r3 (answers w) (a.close w2 ∙ q2) p3 in
      let p1 = either answers b1 (negsuc 1, db.close w1) r2 (answers w) (a.close w1 ∙ q1) p2 in
      either answers b0 (negsuc 0, w0) r1 (answers w) q0 p1

  ping_quiet : (w : W) → answers ((ping db w).1) ≡ answers w
  unfolding ping
  ping_quiet w =
      let w1 = (db.ping w).1 in
      either answers (not ((db.ping w).0 ==ℤ pos 0)) (connect db w1) (pos 0, w1) (answers w)
        (connect_quiet w1 ∙ a.ping w) (a.ping w)

  Answered-after :
      {w : W} {old new : List A} (f : C) (c : MysqlClient R C) (flags : ℤ)
      → answers w ≡ old
      → Answered Sent f c flags (answers w) new
      → Answered Sent f c flags old new
  Answered-after f c flags q (b, sent, e) = (b, sent, e ∙ ap (λ l. l ++ b ∷ []) q)

  -- A failed query, after `w1`.
  query_failed-answers :
      (c : MysqlClient R C) (f : C) (w1 : W)
      → c.callback ≡ some f
      → Returns
          (λ w'.
            ((db.duplicate w1 ≡ true) × Answered Sent f c mysql_res_dup (answers w1) (answers w'))
            ⊎ ((db.duplicate w1 ≡ false) × (answers w' ≡ answers w1)))
          (query_failed db c w1)
  unfolding query_failed
  query_failed-answers c f w1 set =
      Returns-if (db.duplicate w1)
        (λ dup. rw set (returns (inl (dup, a.call f c.res mysql_res_dup c.seq_id c.player_idx w1))))
        (λ other.
          let w2 = (connect db (db.close w1)).1 in
          let q2 = connect_quiet (db.close w1) ∙ a.close w1 in
          let again = db.real_query c.sql w2 in
          let q3 = a.real_query c.sql w2 ∙ q2 in
          returns (
            inr (
              other,
              either answers (not (again.0 ==ℤ pos 0)) (connect db (db.close (again.1)))
                  (pos 0, again.1) (answers w1)
                  (connect_quiet (db.close (again.1)) ∙ a.close (again.1) ∙ q3) q3,
            )))

  -- A result, after `w2`.
  query_stored-answers :
      (c : MysqlClient R C) (f : C) (res : Option R) (w2 : W)
      → Returns
          (λ w'.
            (flags : ℤ) × ((flags ≡ mysql_res_ok) ⊎ (flags ≡ mysql_res_failed))
            × Answered Sent f c flags (answers w2) (answers w'))
          (query_stored db c (some f) res w2)
  unfolding query_stored
  query_stored-answers c f none w2 =
      Returns-if (db.field_count w2 == 0)
        (λ e. returns (mysql_res_ok, inl refl, a.call f none mysql_res_ok c.seq_id c.player_idx w2))
        (λ e.
          returns
            (mysql_res_failed, inr refl, a.call f none mysql_res_failed c.seq_id c.player_idx w2))
  query_stored-answers c f (some res) w2 =
      returns (mysql_res_ok, inl refl, a.call f (some res) mysql_res_ok c.seq_id c.player_idx w2)

  -- With a callback, and the database within reach, a request always ends: the client is free again,
  -- behind the others. The callback has got exactly one answer for the request, OK or FAILED where the
  -- first `mysql_real_query` has worked, and DUP where it has failed with a duplicate key. Where it
  -- has failed otherwise, there is no answer, whatever a second attempt comes to.
  pub thread_work-Outcome :
      (m : MysqlMgr R C W) (client : ℕ) (f : C)
      → (m.clients client).callback ≡ some f
      → (ping db m.world).0 ≡ pos 0
      → Returns
          (λ m'.
            (m'.free_client_list ≡ m.free_client_list ++ client ∷ [])
            × Outcome db Sent f
                (m.clients client)
                ((ping db m.world).1)
                (answers m.world)
                (answers m'.world))
          (thread_work db m client)
  unfolding thread_work push_free_client
  thread_work-Outcome m client f set alive =
      let c = m.clients client in
      let w = (ping db m.world).1 in
      let q = ping_quiet m.world in
      let w1 = (db.real_query c.sql w).1 in
      let q1 = a.real_query c.sql w ∙ q in
      let res = (db.store_result w1).0 in
      let w2 = (db.store_result w1).1 in
      let q2 = a.store_result w1 ∙ q1 in
      rw alive (
        Returns-bind {Post = λ w'. Outcome db Sent f c w (answers m.world) (answers w')}
          (Returns-if (not ((db.real_query c.sql w).0 ==ℤ pos 0))
            (λ bad. Returns-map (query_failed-answers c f w1 set) λ w' o.
              let failed = not_zero ((db.real_query c.sql w).0) bad in
              elim o [
                | inl (dup, b) ↦ inr (inl (failed, dup, Answered-after f c mysql_res_dup q1 b))
                | inr (other, e) ↦ inr (inr (failed, other, e ∙ q1))
              ])
            (λ good. rw set (
              Returns-map (query_stored-answers (record c { callback = some f }) f res w2)
                λ w' (flags, k, b).
                  inl (==ℤ→eq _ _ (not-false _ good), (flags, k, Answered-after f c flags q2 b)))))
          λ w' o. returns (refl, o))
