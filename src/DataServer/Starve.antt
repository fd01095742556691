-- ===== src/DataServer/Starve.antt =====
-- Messages that are not served take the clients away, one each.
use play_frame.Common.{
  ◌++◌, All, ℕ, zero, suc, ◌≤◌, ◌≡◌, refl, ◌∙◌, inl, inr, Option, Option-cases, none, some, arith,
  List, [], ◌∷◌, length,
}
use play_frame.Common.Int.{ℤ}
use play_frame.Common.Run.{ok, Returns, returns, Returns-bind, Returns-map}
use play_frame.MsgModuleBase.{handle_request, handle_request-missing}
use play_frame.MysqlMgr.{pop_free_client, pop_front}
use play_frame.DataServer.Message.{SsMsg, Net, DataServer}
use play_frame.DataServer.{msg_wrapper_map, dispatch, round_with, round, rounds, run}
use play_frame.DataServer.Clients.{IsServed}

module _ {W R X : Type 0} (net : Net W R X) where
  dispatch-lost :
      (parsed : Option (ℤ × SsMsg)) (client : ℕ) (d : DataServer R W)
      → (¬ IsServed {R = R} net parsed)
      → dispatch net (some parsed) client d ≡ ok d
  unfolding dispatch handle_request
  dispatch-lost none client d not_served = refl
  dispatch-lost (some (cmd, msg)) client d not_served =
      elim (Option-cases (msg_wrapper_map net cmd)) [
        | inl n ↦ rw (handle_request-missing (msg_wrapper_map net) 0 cmd msg client d n)
        | inr (wrapper, f) ↦ absurd (not_served (wrapper, f))
      ]

  -- `waiting` are the messages that wait at the socket, in their order.
  pub record Queues (waiting : W → List (Option (ℤ × SsMsg))) : Type 0 where
    pub next :
        (w : W) (parsed : Option (ℤ × SsMsg)) (later : List (Option (ℤ × SsMsg)))
        → waiting w ≡ parsed ∷ later
        → ((net.recv w).0 ≡ some parsed) × (waiting ((net.recv w).1) ≡ later)

  -- A message that does not parse, or whose command has no handler.
  abbrev pub IsNoise : Option (ℤ × SsMsg) → Type 0
  IsNoise parsed = ¬ IsServed {R = R} net parsed

  module _ (waiting : W → List (Option (ℤ × SsMsg))) (queues : Queues waiting) where
    round-lost :
        (d : DataServer R W) (client : ℕ) (rest : List ℕ) (parsed : Option (ℤ × SsMsg))
        (later : List (Option (ℤ × SsMsg)))
        → d.mgr.free_client_list ≡ client ∷ rest
        → waiting d.mgr.world ≡ parsed ∷ later
        → IsNoise parsed
        → Returns
            (λ d'.
              (d'.mgr.free_client_list ≡ rest)
              × (d'.working ≡ d.working)
              × (waiting d'.mgr.world ≡ later))
            (round net d)
    unfolding round pop_free_client pop_front round_with
    round-lost d client rest parsed later f at noise =
        let (e, left) = queues.next d.mgr.world parsed later at in
        rw (f, e) (rw (dispatch-lost parsed client _ noise) (returns (refl, refl, left)))

    round-empty : (d : DataServer R W) → d.mgr.free_client_list ≡ [] → round net d ≡ ok d
    unfolding round pop_free_client pop_front round_with
    round-empty d e = rw e

    rounds-empty :
        (n : ℕ) (d : DataServer R W) → d.mgr.free_client_list ≡ [] → rounds net n d ≡ ok d
    unfolding rounds
    rounds-empty zero d e = refl
    rounds-empty (suc n) d e = rw (round-empty d e) (rounds-empty n d e)

    -- As many messages as clients are taken, and all clients are away.
    abbrev ClientsGone : DataServer R W → List (Option (ℤ × SsMsg)) → DataServer R W → Type 0
    ClientsGone d later d' =
        (d'.mgr.free_client_list ≡ []) × (d'.working ≡ d.working) × (waiting d'.mgr.world ≡ later)

    rounds-lost :
        (n : ℕ) (d : DataServer R W) (clients : List ℕ) (noise later : List (Option (ℤ × SsMsg)))
        → d.mgr.free_client_list ≡ clients
        → length clients ≤ n
        → length noise ≡ length clients
        → waiting d.mgr.world ≡ noise ++ later
        → All IsNoise noise
        → Returns (ClientsGone d later) (rounds net n d)
    unfolding rounds
    rounds-lost n d [] [] later f few same at tt = rw (rounds-empty n d f) (returns (f, refl, at))
    rounds-lost n d [] (p ∷ noise) later f few same at all = absurd (omega arith)
    rounds-lost n d (client ∷ clients) [] later f few same at all = absurd (omega arith)
    rounds-lost zero d (client ∷ clients) (p ∷ noise) later f few same at all = absurd (omega arith)
    rounds-lost (suc n) d (client ∷ clients) (p ∷ noise) later f few same at (lost, all) =
        Returns-bind (round-lost d client clients p (noise ++ later) f at lost)
          λ d' (f', work, left).
            Returns-map
              (rounds-lost n d' clients noise later f' (omega arith) (omega arith) left all)
              λ d'' (none_free, work', left'). (none_free, work' ∙ work, left')

    -- Where as many messages as there are free clients, at most 1000, wait in front of all others, and
    -- none of them parses and has a command with a handler, one call of Run ends with no free client
    -- and none more at work; it has taken these messages alone.
    pub run-starved :
        (d : DataServer R W) (noise later : List (Option (ℤ × SsMsg)))
        → length d.mgr.free_client_list ≤ 1000
        → length noise ≡ length d.mgr.free_client_list
        → waiting d.mgr.world ≡ noise ++ later
        → All IsNoise noise
        → Returns (ClientsGone d later) (run net d)
    unfolding run
    run-starved d noise later few same at all =
        rounds-lost 1000 d d.mgr.free_client_list noise later refl few same at all
