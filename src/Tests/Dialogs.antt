-- ===== src/Tests/Dialogs.antt =====
-- Tests of the dialogs, of the main function, and of the context of OpenSSL.
use amsserver.Base.{
  refl, ◌≡◌, ◌∷◌, [], some, true, false, inr, done, crash, Fault, ◌⊎◌, List, ◌↔◌, codes, Returns, ℕ,
  arith, ◌+◌, ◌==◌,
}
use amsserver.Gui.Login.{opens_main, opens_main_iff, Logs, log_in, escape, LoginAction}
use amsserver.Gui.Main.{MainGui, Texts, new_main_gui, submit_sql_data, edit_csv, verify_csv_file}
use amsserver.Gui.Session.{Session}
use amsserver.Gui.Submit.{submit_sql_data-asks}
use amsserver.Process.{
  Places, tmain, no_instances, Late, Class, iocp_server, file_log, heap_protect_mutex,
}
use amsserver.Process.Ends.{tmain-ends, IsHarmless}
use amsserver.Ssl.{OpenSsl, initialize_ssl, Initialized, initialize_ssl-Initialized}
use amsserver.Server.Lifecycle.{StartAnswers}
use amsserver.Crt.Text.{same_start}
use amsserver.Tests.Startup.{calm, idle}

-- An attempt with no password, Escape, and an attempt with both.
abbrev attempts : List LoginAction
attempts = log_in (codes "admin") [] ∷ escape ∷ log_in (codes "admin") (codes "x") ∷ []

opens_main_iff_example : (opens_main attempts ≡ true) ↔ Logs attempts
opens_main_iff_example = opens_main_iff attempts

-- The user has chosen a file of another kind.
abbrev filled : Texts
filled = record {
  projectid = codes "P1";
  vendorid = codes "V1";
  csvfilepath = codes "C:\\list.txt";
}

abbrev filled_gui : MainGui
filled_gui = record new_main_gui { controls = filled }

submit_sql_data-asks_example : Returns (submit_sql_data calm (λ i. true) filled_gui idle) (λ (o, v).
    (v ≡ idle)
    × ((h : MainGui) × (o ≡ some h)
        × (h.asked ≡ some edit_csv)
        × (h.server ≡ filled_gui.server)
        × (h.serverruning ≡ false)
        × (h.members.projectid ≡ codes "P1")
        × (h.members.vendorid ≡ codes "V1")))
unfolding verify_csv_file same_start
submit_sql_data-asks_example =
    submit_sql_data-asks calm (λ i. true) filled_gui idle edit_csv
      (ground arith, ground arith, inr refl)

-- No completion port can be made.
abbrev no_port : StartAnswers
no_port = record calm { create_port = false }

-- The dialog after the message box.
abbrev asked_gui : MainGui
asked_gui = record filled_gui {
  members = record filled { csvfilepath = [] };
  controls = record filled { csvfilepath = [] };
  asked = some edit_csv;
}

-- An OpenSSL in which each call of a file succeeds, counted in the context.
abbrev counting_ssl : OpenSsl
counting_ssl = record {
  Context = ℕ;
  ssl_ctx_new = some 0;
  use_certificate_file = λ c file. (c + 1, true);
  use_private_key_file = λ c file. (c + 1, true);
  check_private_key = λ c. c == 2;
}

initialize_ssl-Initialized_example : Initialized counting_ssl (initialize_ssl counting_ssl)
initialize_ssl-Initialized_example = initialize_ssl-Initialized counting_ssl

abbrev places : Places
places = record { log_at = 10; heap_at = 11; server_at = 12 }

-- Return ends the dialog with the server running, and a worker writes to the log when the log is gone.
abbrev late_uses : Late
late_uses = record {
  server_gone = file_log ∷ heap_protect_mutex ∷ [];
  heap_gone = file_log ∷ [];
  log_gone = file_log ∷ [];
}

abbrev dialog_uses : List Class
dialog_uses = iocp_server ∷ file_log ∷ heap_protect_mutex ∷ []

tmain-ends_example :
    (IsHarmless places true attempts true late_uses
      × (tmain places true attempts dialog_uses true late_uses no_instances
          ≡ done (no_instances, 0)))
    ⊎ ((¬ IsHarmless places true attempts true late_uses)
        × ((e : Fault) × (tmain places true attempts dialog_uses true late_uses no_instances
              ≡ crash e)))
tmain-ends_example =
    tmain-ends places (ground arith) (ground arith) (ground arith) true attempts dialog_uses true
      late_uses
