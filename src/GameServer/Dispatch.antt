-- ===== src/GameServer/Dispatch.antt =====
-- What a message of a client does, by its command.
use play_frame.Common.{
  ℕ, ◌≡◌, refl, ◌⊎◌, inl, inr, Option, none, some, Bool-cases, arith, false, ◌≢◌, ◌==◌, true,
  ==_iff,
}
use play_frame.Common.Int.{ℤ, pos, negsuc, ==ℤ→eq, ◌==ℤ◌}
use play_frame.Common.Run.{Run, ok, fault, ◌>>=◌}
use play_frame.MsgModuleBase.{
  handle_request, handle_request-found, handle_request-missing, handle_request-class,
}
use play_frame.LogicModule.{LogicType, LogicData, LogicModule}
use play_frame.GameServer.{Msg, proto_cs, start_handler, resume_handler, game_wrapper_map}

-- The command is one of these.
abbrev pub OneOf : ℤ → ℕ → ℕ → ℕ → Type 0
OneOf cmd a b c = (cmd ≡ pos a) ⊎ (cmd ≡ pos b) ⊎ (cmd ≡ pos c)

module _ {D P A W : Type 0}
    (steps : LogicType → ℕ → LogicData D → Msg P × A → W → Run (ℤ × LogicData D × W)) (time : ℤ)
    (memory : Option D) (msg : Msg P) (a : A) (s : LogicModule D × W) where
  abbrev handled : Run (ℤ × (LogicModule D × W))
  handled = handle_request (game_wrapper_map steps time memory) proto_cs (some (msg.cmd, msg)) a s

  abbrev Meaning : Type 0
  Meaning =
      (OneOf msg.cmd 11 13 15
        × (handled ≡ ((start_handler steps time memory).func msg a s >>= λ r. ok (pos 0, r.1))))
      ⊎ (OneOf msg.cmd 12 20 22 × (handled ≡ fault))
      ⊎ ((¬ OneOf msg.cmd 11 13 15) × (¬ OneOf msg.cmd 12 20 22) × (handled ≡ ok (negsuc 1, s)))

  is_request :
      OneOf msg.cmd 11 13 15
      → game_wrapper_map steps time memory msg.cmd ≡ some (start_handler steps time memory)
      → Meaning
  is_request c e = inl (
    c,
    handle_request-found (game_wrapper_map steps time memory) proto_cs msg.cmd msg a s
        (start_handler steps time memory) e refl,
  )

  is_answer :
      OneOf msg.cmd 12 20 22
      → game_wrapper_map steps time memory msg.cmd ≡ some (resume_handler steps time memory)
      → Meaning
  is_answer c e = inr (
      inl (
        c,
        handle_request-class (game_wrapper_map steps time memory) proto_cs msg.cmd msg a s
            (resume_handler steps time memory) e (λ same. omega arith),
      ))

  differs : (n : ℕ) → (msg.cmd ==ℤ pos n) ≡ false → msg.cmd ≢ pos n
  differs n f e =
      let g : (pos n ==ℤ pos n) ≡ false = rw e at f in
      let t : (n == n) ≡ true = (==_iff n n).1 refl in absurd (cc)

  not-OneOf :
      (x y z : ℕ)
      → (msg.cmd ==ℤ pos x) ≡ false
      → (msg.cmd ==ℤ pos y) ≡ false
      → (msg.cmd ==ℤ pos z) ≡ false
      → ¬ OneOf msg.cmd x y z
  not-OneOf x y z f g h (inl e) = differs x f e
  not-OneOf x y z f g h (inr (inl e)) = differs y g e
  not-OneOf x y z f g h (inr (inr e)) = differs z h e

  other :
      (¬ OneOf msg.cmd 11 13 15)
      → (¬ OneOf msg.cmd 12 20 22)
      → game_wrapper_map steps time memory msg.cmd ≡ none
      → Meaning
  other no_request no_answer e = inr (
      inr (
        no_request,
        no_answer,
        handle_request-missing (game_wrapper_map steps time memory) proto_cs msg.cmd msg a s e,
      ))

  -- A client's message with the command of a request (11, 13 or 15) is given to the handler that
  -- starts a logic. One with the command of an answer of the data server (12, 20 or 22), which is in
  -- the same map, is read as a message of another class. One with any other command is refused with
  -- -2, and changes nothing.
  pub client-commands :
      (OneOf msg.cmd 11 13 15
        × (handled ≡ ((start_handler steps time memory).func msg a s >>= λ r. ok (pos 0, r.1))))
      ⊎ (OneOf msg.cmd 12 20 22 × (handled ≡ fault))
      ⊎ ((¬ OneOf msg.cmd 11 13 15) × (¬ OneOf msg.cmd 12 20 22) × (handled ≡ ok (negsuc 1, s)))
  client-commands = elim (Bool-cases (msg.cmd ==ℤ pos 22)) [
    | inl e22 ↦ is_answer (inr (inr (==ℤ→eq msg.cmd (pos 22) e22))) (rw e22)
    | inr n22 ↦ elim (Bool-cases (msg.cmd ==ℤ pos 20)) [
      | inl e20 ↦ is_answer (inr (inl (==ℤ→eq msg.cmd (pos 20) e20))) (rw (n22, e20))
      | inr n20 ↦ elim (Bool-cases (msg.cmd ==ℤ pos 12)) [
        | inl e12 ↦ is_answer (inl (==ℤ→eq msg.cmd (pos 12) e12)) (rw (n22, n20, e12))
        | inr n12 ↦ elim (Bool-cases (msg.cmd ==ℤ pos 11)) [
          | inl e11 ↦ is_request (inl (==ℤ→eq msg.cmd (pos 11) e11)) (rw (n22, n20, n12, e11))
          | inr n11 ↦ elim (Bool-cases (msg.cmd ==ℤ pos 15)) [
            | inl e15 ↦
                is_request (inr (inr (==ℤ→eq msg.cmd (pos 15) e15))) (rw (n22, n20, n12, n11, e15))
            | inr n15 ↦ elim (Bool-cases (msg.cmd ==ℤ pos 13)) [
              | inl e13 ↦
                  is_request (inr (inl (==ℤ→eq msg.cmd (pos 13) e13)))
                    (rw (n22, n20, n12, n11, n15, e13))
              | inr n13 ↦
                  other (not-OneOf 11 13 15 n11 n13 n15) (not-OneOf 12 20 22 n12 n20 n22)
                    (rw (n22, n20, n12, n11, n15, n13))
            ]
          ]
        ]
      ]
    ]
  ]
