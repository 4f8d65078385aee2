-- ===== src/Gui/Consistent.antt =====
-- The dialog and the server agree.
use amsserver.Server.Lifecycle.Opened.{IsOpen}
use amsserver.Base.{none, some, true, false, ◌≡◌, Option, not, ℕ}
use amsserver.Gui.Main.{MainGui}
use amsserver.Gui.Session.{Session}
use amsserver.Io.World.{World}
use amsserver.Io.Yields.{Yields}

module _ (processors : ℕ) where
  -- The buttons show whether the server runs, and a server that runs has its port open.
  pub record IsConsistent (g : MainGui) : Type 0 where
    pub start_shown : g.start_enabled ≡ not g.serverruning
    pub stop_shown : g.stop_enabled ≡ g.serverruning
    pub running_open : g.serverruning ≡ true → IsOpen processors g.server

  abbrev IfConsistent : Option MainGui → Type 0
  IfConsistent none = Unit {0}
  IfConsistent (some g) = IsConsistent g

  abbrev IfStopped : Option MainGui → Type 0
  IfStopped none = Unit {0}
  IfStopped (some g) = (g.serverruning ≡ false) × IsConsistent g
