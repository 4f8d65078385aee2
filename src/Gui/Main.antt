-- ===== src/Gui/Main.antt =====
-- The main dialog, `MFCMainGUI`.
use amsserver.Crt.Text.{same_start}
use amsserver.Base.{
  if◌then◌else◌, ◌∷◌, [], none, some, true, false, Bytes, Bool, Option, ℕ, not, drop, length, ◌-◌,
  codes,
}
use amsserver.Server.Lifecycle.{IocpServer, StartAnswers, start_server, stop_server, new_server}
use amsserver.Io.World.{M, give, ◌>>=◌}

-- The edit controls.
pub data MainEdit : Type 0 where
  edit_project_id edit_vendor_id edit_csv : MainEdit

-- The texts in the controls, or in the members that UpdateData copies them to and from.
pub record Texts : Type 0 where
  pub projectid : Bytes
  pub vendorid : Bytes
  pub csvfilepath : Bytes

pub record MainGui : Type 0 where
  pub serverruning : Bool
  -- The object that `IOCPServer::GetSingletonInstance` returns: the constructor makes it.
  pub server : IocpServer
  pub members : Texts
  pub controls : Texts
  -- Whether the buttons are enabled, and whether the dialog has ended.
  pub start_enabled : Bool
  pub stop_enabled : Bool
  pub ended : Bool
  -- The control that a message box has asked for, last.
  pub asked : Option MainEdit

abbrev pub no_texts : Texts
no_texts = record { projectid = []; vendorid = []; csvfilepath = [] }

-- The constructor and `OnInitDialog`.
abbrev pub new_main_gui : MainGui
new_main_gui = record {
  serverruning = false;
  server = new_server;
  members = no_texts;
  controls = no_texts;
  start_enabled = true;
  stop_enabled = false;
  ended = false;
  asked = none;
}

-- `UpdateData(TRUE)` and `UpdateData(FALSE)`, by `DoDataExchange`.
abbrev pub update_members : MainGui → MainGui
update_members g = record g { members = g.controls }

abbrev pub update_controls : MainGui → MainGui
update_controls g = record g { controls = g.members }

-- The last four bytes are ".csv", in any case.
unfoldable pub verify_csv_file : Bytes → Bool
verify_csv_file path = same_start 5 (drop (length path - 4) path) (codes ".csv")

-- `path` is what the file dialog returns with IDOK.
unfoldable pub on_choose_csv : Option Bytes → MainGui → MainGui
on_choose_csv none g = update_members g
on_choose_csv (some path) g =
    update_controls
      (record (update_members g) { members = record g.controls { csvfilepath = path } })

unfoldable pub gui_start_server : StartAnswers → MainGui → M MainGui
gui_start_server a g = do
  (server, started) ← start_server a g.server
  if started
      then give (record g {
        server = server;
        serverruning = true;
        start_enabled = false;
        stop_enabled = true;
      })
      else give (record g { server = server })

-- `none` where the call of `Stop` never returns.
unfoldable pub gui_stop_server : (ℕ → Bool) → MainGui → M (Option MainGui)
gui_stop_server posted g = do
  stopped ← stop_server posted g.server
  elim stopped [
    | none ↦ give none
    | some server ↦ give (
        some (record g {
          server = server;
          serverruning = false;
          stop_enabled = false;
          start_enabled = true;
        }))
  ]

-- `StopServer` and what follows it.
unfoldable pub and_stop : (ℕ → Bool) → (MainGui → M (Option MainGui)) → MainGui → M (Option MainGui)
and_stop posted next g = do
  stopped ← gui_stop_server posted g
  elim stopped [ none ↦ give none | some h ↦ next h ]

unfoldable pub is_empty : Bytes → Bool
is_empty [] = true
is_empty (c ∷ text) = false

-- The server is started again once the texts are there.
unfoldable pub restart : StartAnswers → (ℕ → Bool) → MainGui → M (Option MainGui)
unfolding and_stop
restart a posted g =
    if g.serverruning
    then and_stop posted (λ h. gui_start_server a h >>= λ k. give (some k)) g
    else give (some g)

unfoldable pub submit_sql_data : StartAnswers → (ℕ → Bool) → MainGui → M (Option MainGui)
unfolding is_empty verify_csv_file restart
submit_sql_data a posted g =
    if is_empty g.controls.projectid
    then give (some (record (update_members g) { asked = some edit_project_id }))
    else if is_empty g.controls.vendorid
    then give (some (record (update_members g) { asked = some edit_vendor_id }))
    else if is_empty g.controls.csvfilepath
    then give (some (record (update_members g) { asked = some edit_csv }))
    else if not (verify_csv_file g.controls.csvfilepath)
    then give (
        some (
          update_controls
            (record g { members = record g.controls { csvfilepath = [] }; asked = some edit_csv })))
    else restart a posted (update_members g)

-- `OnSysCommand` with SC_CLOSE.
unfoldable pub on_close : (ℕ → Bool) → MainGui → M (Option MainGui)
unfolding and_stop
on_close posted g = and_stop posted (λ h. give (some (record h { ended = true }))) g

-- Return. The class declares `OnOk`, which is not the virtual `OnOK` of MFC: that one runs, and ends
-- the dialog with IDOK.
unfoldable pub on_return : MainGui → MainGui
on_return g = record (update_members g) { ended = true }
