-- ===== src/Gui/Login.antt =====
-- The login dialog, and `MFCAPP::InitInstance`.
use amsserver.Base.{
  refl, ◌≡◌, ◌∷◌, [], none, some, true, false, Bytes, List, Bool, ◌≢◌, ◌↔◌, Option,
}

-- The edit controls of the dialog.
pub data LoginEdit : Type 0 where
  edit_username edit_passwd : LoginEdit

-- What `OnLogin` comes to: it asks for a text, or it ends the dialog with IDOK.
pub data LoginResult : Type 0 where
  asks : LoginEdit → LoginResult
  ends_ok : LoginResult

-- `MFCLoginGUI::OnLogin`, with the texts that UpdateData reads from the controls.
unfoldable pub on_login : Bytes → Bytes → LoginResult
on_login [] passwd = asks edit_username
on_login (u ∷ username) [] = asks edit_passwd
on_login (u ∷ username) (p ∷ passwd) = ends_ok

-- What the user does to the login dialog. Return presses the default button, which logs in; Escape
-- calls `OnCancel`, which does nothing; the X button ends the dialog with IDCANCEL.
pub data LoginAction : Type 0 where
  log_in : Bytes → Bytes → LoginAction
  escape : LoginAction
  x_button : LoginAction

-- What `DoModal` returns.
pub data Response : Type 0 where
  id_ok id_cancel : Response

-- `DoModal` of the dialog on the actions of the user; `none` while the dialog is open.
unfoldable pub login_modal : List LoginAction → Option Response
unfolding on_login
login_modal [] = none
login_modal (log_in username passwd ∷ actions) = elim (on_login username passwd) [
  | asks e ↦ login_modal actions
  | ends_ok ↦ some id_ok
]
login_modal (escape ∷ actions) = login_modal actions
login_modal (x_button ∷ actions) = some id_cancel

-- `MFCAPP::InitInstance` to the point where it makes the main dialog: whether it does.
unfoldable pub opens_main : List LoginAction → Bool
unfolding login_modal
opens_main actions = elim (login_modal actions) [
  | none ↦ false
  | some response ↦ elim response [ id_ok ↦ true | id_cancel ↦ false ]
]

-- An attempt with two texts, before any use of the X button.
pub data Logs : List LoginAction → Type 0 where
  now :
      {username passwd : Bytes} {actions : List LoginAction}
      → username ≢ []
      → passwd ≢ []
      → Logs (log_in username passwd ∷ actions)
  again :
      {username passwd : Bytes} {actions : List LoginAction}
      → Logs actions
      → Logs (log_in username passwd ∷ actions)
  after_escape : {actions : List LoginAction} → Logs actions → Logs (escape ∷ actions)

Logs-opens_main : (actions : List LoginAction) → Logs actions → opens_main actions ≡ true
unfolding opens_main
Logs-opens_main [] l = elim l [ ]
Logs-opens_main (x_button ∷ actions) l = elim l [ ]
Logs-opens_main (log_in [] p ∷ actions) (now u n) = absurd (u refl)
Logs-opens_main (log_in (c ∷ u) [] ∷ actions) (now a n) = absurd (n refl)
Logs-opens_main (log_in (c ∷ u) (d ∷ p) ∷ actions) (now a n) = refl
Logs-opens_main (log_in [] p ∷ actions) (again l) = Logs-opens_main actions l
Logs-opens_main (log_in (c ∷ u) [] ∷ actions) (again l) = Logs-opens_main actions l
Logs-opens_main (log_in (c ∷ u) (d ∷ p) ∷ actions) (again l) = refl
Logs-opens_main (escape ∷ actions) (after_escape l) = Logs-opens_main actions l

opens_main-Logs : (actions : List LoginAction) → opens_main actions ≡ true → Logs actions
unfolding opens_main
opens_main-Logs [] e = cc
opens_main-Logs (log_in [] p ∷ actions) e = again (opens_main-Logs actions e)
opens_main-Logs (log_in (c ∷ u) [] ∷ actions) e = again (opens_main-Logs actions e)
opens_main-Logs (log_in (c ∷ u) (d ∷ p) ∷ actions) e = now (λ q. cc) (λ q. cc)
opens_main-Logs (escape ∷ actions) e = after_escape (opens_main-Logs actions e)
opens_main-Logs (x_button ∷ actions) e = cc

-- The main dialog is opened exactly when the user has logged in with some user name and some password
-- before using the X button, whatever the two texts are.
pub opens_main_iff : (actions : List LoginAction) → (opens_main actions ≡ true) ↔ Logs actions
opens_main_iff actions = (opens_main-Logs actions, Logs-opens_main actions)
