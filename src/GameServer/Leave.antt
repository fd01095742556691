-- ===== src/GameServer/Leave.antt =====
-- src/gamesvr/msg_module/msg_module.cpp: what Run does with a message of the connection server that
-- says that a client has gone (CONN_STOP). The steps of the logics are those of GameServer.Save for
-- the player's data, and the argument `others`.
use play_frame.Common.{ℕ, ◌≡◌, refl, ap, inl, inr, Option, none, some, arith}
use play_frame.Common.Int.{unsigned64, ℤ, pos}
use play_frame.Common.Run.{Run, ok, ◌>>=◌, Returns, returns, Returns-bind, Returns-map}
use play_frame.ObjMgr.{ObjMgr, get_player, del_player}
use play_frame.ObjMgr.Invariant.{get_player-find}
use play_frame.ObjMgr.Invariant
use play_frame.ObjMgr.Delete.{Deleted, del_player_correct}
use play_frame.LogicModule
use play_frame.LogicModule.{
  LogicType, LogicData, LogicModule, logic_yield, proc, create_logic, step_proc,
}
use play_frame.LogicModule.Sound
use play_frame.LogicModule.Create.{Created, create_logic-Created}
use play_frame.LogicModule.Ended.{Waits}
use play_frame.LogicModule.Proc.{Proceeded, proc-Proceeded}
use play_frame.GameServer.{Msg}
use play_frame.GameServer.Save.{SaveReq, Kept, update_player, saved, update_player-Saved, Saved}

module _ {P E W : Type 0} (send : SaveReq → W → W)
    (others : LogicType
      → ℕ
      → LogicData (Kept E)
      → Option (Msg P) × Option ℤ
      → ObjMgr × W
      → Run (ℤ × LogicData (Kept E) × (ObjMgr × W)))
    (time : ℤ) (memory : Option (Kept E)) where
  pub steps :
      LogicType
      → ℕ
      → LogicData (Kept E)
      → Option (Msg P) × Option ℤ
      → ObjMgr × W
      → Run (ℤ × LogicData (Kept E) × (ObjMgr × W))
  steps LogicModule.update_player i head call s = update_player send i head call s
  steps LogicModule.normal_reg i head call s = others LogicModule.normal_reg i head call s
  steps LogicModule.quick_reg i head call s = others LogicModule.quick_reg i head call s
  steps LogicModule.login i head call s = others LogicModule.login i head call s

  -- A logic whose id is not positive is only reported.
  keep :
      LogicModule (Kept E) → ObjMgr × W → ℤ → Option ℕ → Run (LogicModule (Kept E) × (ObjMgr × W))
  unfolding steps
  keep l s player_idx none = ok (l, s)
  keep l s player_idx (some player) = do
    (logic_id, l') ← create_logic l (pos 4) (pos 5) time memory
    proc steps l' logic_id (none, some player_idx) s

  unfoldable pub on_conn_stop :
      LogicModule (Kept E) → ObjMgr × W → ℤ → Run (LogicModule (Kept E) × (ObjMgr × W))
  unfolding keep
  on_conn_stop l s player_idx = do
    player ← get_player (s.0) player_idx
    (l', s') ← keep l s player_idx player
    m ← del_player (s'.0) player_idx
    ok (l', (m, s'.1))

-- The player's data are on their way, with the id of a new logic that waits for the answer.
pub record Saving {E W : Type 0} (send : SaveReq → W → W) (time : ℤ) (rest : Kept E)
    (l : LogicModule (Kept E)) (m : ObjMgr) (w : W) (x : ℕ)
    (r : LogicModule (Kept E) × (ObjMgr × W)) : Type 0 where
  pub logic_id : ℤ
  pub between : LogicModule (Kept E)
  pub created : Created l (pos 4) 5 time rest (logic_id, between)
  pub sent : r.1 ≡ (m, send (saved m x (unsigned64 logic_id)) w)
  pub head : LogicData (Kept E)
  pub next_step : head.step ≡ pos 1
  pub waits : Waits between logic_id head (r.0)

-- The data are on their way, and the player is gone.
pub record Left {E W : Type 0} (send : SaveReq → W → W) (time : ℤ) (rest : Kept E)
    (l : LogicModule (Kept E)) (m : ObjMgr) (w : W) (x : ℕ)
    (r : LogicModule (Kept E) × (ObjMgr × W)) : Type 0 where
  pub saving : Saving send time rest l m w x (r.0, (m, r.1.1))
  pub deleted : Deleted m x (r.1.0)

abbrev fresh : {E : Type 0} → Kept E → ℤ → LogicData (Kept E)
fresh rest id = record { logic_id = id; logic_type = pos 4; step = pos 0; rest = rest }

-- A step that has yielded leaves the logic waiting.
Proceeded-Saving :
    {E W : Type 0} (send : SaveReq → W → W) (time : ℤ) (rest : Kept E) (l : LogicModule (Kept E))
    (m : ObjMgr) (w : W) (x : ℕ) (g : ℤ × LogicModule (Kept E))
    (r : LogicModule (Kept E) × (ObjMgr × W))
    → Created l (pos 4) 5 time rest g
    → Proceeded (g.1) (g.0) (Saved send m w x (fresh rest (g.0))) r
    → Saving send time rest l m w x r
Proceeded-Saving send time rest l m w x g r c p = record {
  logic_id = g.0;
  between = g.1;
  created = c;
  sent = p.step.2;
  head = p.head;
  next_step = p.step.1;
  waits = elim p.fate [ inl (e, waits) ↦ waits | inr (ne, ended) ↦ absurd (ne (p.step.0)) ];
}

-- The players are as they were.
Saving-same :
    {E W : Type 0} (send : SaveReq → W → W) (time : ℤ) (rest : Kept E) (l : LogicModule (Kept E))
    (m : ObjMgr) (w : W) (x : ℕ) (r : LogicModule (Kept E) × (ObjMgr × W))
    → Saving send time rest l m w x r
    → Saving send time rest l m w x (r.0, (m, r.1.1))
Saving-same {W = W} send time rest l m w x r s = record {
  logic_id = s.logic_id;
  between = s.between;
  created = s.created;
  sent = ap (λ (z : ObjMgr × W). (m, z.1)) s.sent;
  head = s.head;
  next_step = s.next_step;
  waits = s.waits;
}

-- CONN_STOP for a player in use, with both parts of the state sound and with memory for a logic. One
-- message goes to the data server: it holds the player's money, level and the populations of the
-- cities, and the id of a new logic. That logic waits for the answer, for five seconds at most, and no
-- other has changed. The player is gone with the cities and the entry in the map, all others stay, and
-- both parts are sound again.
pub on_conn_stop-Left :
    {P E W : Type 0} (send : SaveReq → W → W)
    (others : LogicType
      → ℕ
      → LogicData (Kept E)
      → Option (Msg P) × Option ℤ
      → ObjMgr × W
      → Run (ℤ × LogicData (Kept E) × (ObjMgr × W)))
    (time : ℤ) (rest : Kept E) (l : LogicModule (Kept E)) (m : ObjMgr) (w : W) (x : ℕ)
    → Sound.IsSound l
    → Invariant.IsSound m
    → get_player m (pos x) ≡ ok (some x)
    → Returns
        (Left send time rest l m w x)
        (on_conn_stop send others time (some rest) l (m, w) (pos x))
unfolding on_conn_stop keep step_proc steps
on_conn_stop-Left {W = W} send others time rest l m w x v sound here = rw here (
    Returns-bind
      (Returns-bind
        (create_logic-Created l LogicModule.update_player (pos 4) 5 time rest v refl (omega arith))
        λ g c.
          Returns-map
            (proc-Proceeded (steps send others time (some rest)) (g.1) (g.0) (fresh rest (g.0))
              LogicModule.update_player (none, some (pos x)) (m, w)
              (Saved send m w x (fresh rest (g.0))) c.sound c.started refl
              (update_player-Saved send m w x (fresh rest (g.0)) none sound here))
            λ r p. Proceeded-Saving send time rest l m w x g r c p)
      λ r saving. rw (ap (λ (s : ObjMgr × W). s.0) saving.sent) (
        Returns-bind (del_player_correct m x sound here) λ m' d.
          returns (record { saving = Saving-same send time rest l m w x r saving; deleted = d })))
