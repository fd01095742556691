-- ===== src/MsgModuleBase.antt =====
-- src/common/frame/msg_module_base.h: the handlers of messages, by command. The map is a function.
-- A message of any package class is an `M`, and `package_class` tells the classes apart; reading a
-- message as one of another class is undefined behaviour. `S` is the rest of the server, `A` the
-- argument of the handlers.
use play_frame.Common.{
  ==_iff, Bool-cases, ◌⊎◌, inl, inr, ◌≡◌, refl, ℕ, Option, none, some, ◌==◌, if◌then◌else◌, ◌≢◌,
  ne→==,
}
use play_frame.Common.Int.{ℤ, pos, negsuc, ◌==ℤ◌, ==ℤ→eq}
use play_frame.Common.Run.{Run, ok, fault, ◌>>=◌}

-- MsgWrapperImpl: the package class that it casts to, and the handler.
pub record MsgWrapper (M A S : Type 0) : Type 0 where
  pub package_class : ℕ
  pub func : M → A → S → Run (ℤ × S)

module _ {M A S : Type 0} where
  -- Register: a later wrapper takes the place of an earlier one.
  abbrev pub register :
      (ℤ → Option (MsgWrapper M A S)) → ℤ → MsgWrapper M A S → ℤ → Option (MsgWrapper M A S)
  register map msg_id wrapper cmd = if cmd ==ℤ msg_id then some wrapper else map cmd

  -- Process, of a message of the class `package_class`.
  unfoldable pub process_msg : MsgWrapper M A S → ℕ → M → A → S → Run (ℤ × S)
  process_msg wrapper package_class msg args s =
      if package_class == wrapper.package_class then wrapper.func msg args s else fault

  process_found : Option (MsgWrapper M A S) → ℕ → M → A → S → Run (ℤ × S)
  unfolding process_msg
  process_found none package_class msg args s = ok (negsuc 1, s)
  process_found (some wrapper) package_class msg args s = do
    (ret, s') ← process_msg wrapper package_class msg args s
    ok (pos 0, s')

  -- HandleRequest of a package class. `parsed` is the message that the bytes parse to, with its
  -- command, or `none`. What the handler returns is dropped.
  unfoldable pub handle_request :
      (ℤ → Option (MsgWrapper M A S)) → ℕ → Option (ℤ × M) → A → S → Run (ℤ × S)
  unfolding process_found
  handle_request map package_class none args s = ok (negsuc 0, s)
  handle_request map package_class (some (cmd, msg)) args s =
      process_found (map cmd) package_class msg args s

  -- A wrapper that is found is the one registered last, or one from before.
  pub register-some :
      (map : ℤ → Option (MsgWrapper M A S)) (msg_id : ℤ) (wrapper : MsgWrapper M A S) (cmd : ℤ)
      (found : MsgWrapper M A S)
      → register map msg_id wrapper cmd ≡ some found
      → ((cmd ≡ msg_id) × (wrapper ≡ found)) ⊎ (map cmd ≡ some found)
  register-some map msg_id wrapper cmd found e = elim (Bool-cases (cmd ==ℤ msg_id)) [
    | inl f ↦ let g : some wrapper ≡ some found = rw f at e in inl (==ℤ→eq cmd msg_id f, cc)
    | inr f ↦ inr (rw f at e)
  ]

  -- A message that parses, with a wrapper of its package class, or without a wrapper.
  pub handle_request-found :
      (map : ℤ → Option (MsgWrapper M A S)) (package_class : ℕ) (cmd : ℤ) (msg : M) (a : A) (s : S)
      (wrapper : MsgWrapper M A S)
      → map cmd ≡ some wrapper
      → wrapper.package_class ≡ package_class
      → handle_request map package_class (some (cmd, msg)) a s
        ≡ (wrapper.func msg a s >>= λ r. ok (pos 0, r.1))
  unfolding handle_request process_found process_msg
  handle_request-found map package_class cmd msg a s wrapper e same =
      rw (e, same, (==_iff package_class package_class).1 refl)

  pub handle_request-missing :
      (map : ℤ → Option (MsgWrapper M A S)) (package_class : ℕ) (cmd : ℤ) (msg : M) (a : A) (s : S)
      → map cmd ≡ none
      → handle_request map package_class (some (cmd, msg)) a s ≡ ok (negsuc 1, s)
  unfolding handle_request process_found
  handle_request-missing map package_class cmd msg a s e = rw e

  -- A message with a wrapper of another package class.
  pub handle_request-class :
      (map : ℤ → Option (MsgWrapper M A S)) (package_class : ℕ) (cmd : ℤ) (msg : M) (a : A) (s : S)
      (wrapper : MsgWrapper M A S)
      → map cmd ≡ some wrapper
      → package_class ≢ wrapper.package_class
      → handle_request map package_class (some (cmd, msg)) a s ≡ fault
  unfolding handle_request process_found process_msg
  handle_request-class map package_class cmd msg a s wrapper e other =
      rw (e, ne→== package_class wrapper.package_class other)
