-- ===== src/Gui/Session.antt =====
-- What may happen while the main dialog is open.
use amsserver.Server.Worker.{Completion, worker_round}
use amsserver.Base.{some, true, false, done, ℕ, Bool, ◌≡◌, Option, Bytes}
use amsserver.Gui.Main.{
  MainGui, Texts, gui_start_server, gui_stop_server, submit_sql_data, on_choose_csv, on_close,
  on_return, new_main_gui,
}
use amsserver.Server.Lifecycle.{StartAnswers}
use amsserver.Io.World.{World, M, Answers}

-- The user uses a control, where MFC calls the handler, or a worker of the server takes a round. A
-- button that is not enabled cannot be clicked. The machine has so many processors at each start.
pub data Act (do_recv : Answers → ℕ → ℕ → M Bool) (processors : ℕ) (g : MainGui) (w : World)
    (h : MainGui) (v : World) : Type 0 where
  types :
      (texts : Texts) → h ≡ record g { controls = texts } → v ≡ w → Act do_recv processors g w h v
  chooses :
      (path : Option Bytes) → h ≡ on_choose_csv path g → v ≡ w → Act do_recv processors g w h v
  starts :
      (a : StartAnswers)
      → a.number_of_processors ≡ processors
      → g.start_enabled ≡ true
      → gui_start_server a g w ≡ done (h, v)
      → Act do_recv processors g w h v
  stops :
      (posted : ℕ → Bool)
      → g.stop_enabled ≡ true
      → gui_stop_server posted g w ≡ done (some h, v)
      → Act do_recv processors g w h v
  submits :
      (a : StartAnswers) (posted : ℕ → Bool)
      → a.number_of_processors ≡ processors
      → submit_sql_data a posted g w ≡ done (some h, v)
      → Act do_recv processors g w h v
  closes :
      (posted : ℕ → Bool) → on_close posted g w ≡ done (some h, v) → Act do_recv processors g w h v
  returns : h ≡ on_return g → v ≡ w → Act do_recv processors g w h v
  works :
      (a : Answers) (c : Completion) (keeprunning : Bool)
      → h ≡ g
      → worker_round do_recv a c w ≡ done (keeprunning, v)
      → Act do_recv processors g w h v

-- From the new dialog on, until it has ended.
pub data Session (do_recv : Answers → ℕ → ℕ → M Bool) (processors : ℕ)
    : MainGui → World → Type 0 where
  opened : (g : MainGui) (w : World) → g ≡ new_main_gui → Session do_recv processors g w
  acted :
      {g h : MainGui} {w v : World}
      → Session do_recv processors g w
      → g.ended ≡ false
      → Act do_recv processors g w h v
      → Session do_recv processors h v
