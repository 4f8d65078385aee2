-- ===== src/Gui/Submit.antt =====
-- What `SubmitSqlData` asks for.
use amsserver.Io.World.{World}
use amsserver.Server.Lifecycle.{StartAnswers}
use amsserver.Base.{
  refl, ◌≡◌, ◌∷◌, [], some, true, false, inl, inr, ◌≢◌, ◌⊎◌, Bytes, ℕ, Bool, Returns, Bool-cases,
}
use amsserver.Gui.Main.{
  MainGui, MainEdit, edit_project_id, edit_vendor_id, edit_csv, Texts, submit_sql_data, is_empty,
  verify_csv_file,
}

-- The text of this control is the first that does not serve.
abbrev pub AsksFor : MainEdit → Texts → Type 0
AsksFor edit_project_id t = t.projectid ≡ []
AsksFor edit_vendor_id t = (t.projectid ≢ []) × (t.vendorid ≡ [])
AsksFor edit_csv t =
    (t.projectid ≢ [])
    × (t.vendorid ≢ [])
    × ((t.csvfilepath ≡ []) ⊎ (verify_csv_file t.csvfilepath ≡ false))

is_empty-of_ne : (t : Bytes) → t ≢ [] → is_empty t ≡ false
unfolding is_empty
is_empty-of_ne [] n = absurd (n refl)
is_empty-of_ne (c ∷ t) n = refl

is_empty-of_eq : (t : Bytes) → t ≡ [] → is_empty t ≡ true
unfolding is_empty
is_empty-of_eq [] e = refl
is_empty-of_eq (c ∷ t) e = cc

-- With a text that does not serve, `SubmitSqlData` asks for the first such control. It leaves the
-- server, the buttons and the world as they are, and keeps the project and the vendor.
pub submit_sql_data-asks :
    (a : StartAnswers) (posted : ℕ → Bool) (g : MainGui) (w : World) (e : MainEdit)
    → AsksFor e g.controls
    → Returns (submit_sql_data a posted g w) (λ (o, v).
      (v ≡ w)
      × ((h : MainGui) × (o ≡ some h)
          × (h.asked ≡ some e)
          × (h.server ≡ g.server)
          × (h.serverruning ≡ g.serverruning)
          × (h.members.projectid ≡ g.controls.projectid)
          × (h.members.vendorid ≡ g.controls.vendorid)))
unfolding submit_sql_data
submit_sql_data-asks a posted g w edit_project_id p =
    rw (is_empty-of_eq g.controls.projectid p) (refl, (_, refl, refl, refl, refl, refl, refl))
submit_sql_data-asks a posted g w edit_vendor_id (n, p) =
    rw (is_empty-of_ne g.controls.projectid n)
      (rw (is_empty-of_eq g.controls.vendorid p) (refl, (_, refl, refl, refl, refl, refl, refl)))
submit_sql_data-asks a posted g w edit_csv (n, m, inl p) =
    rw (is_empty-of_ne g.controls.projectid n) (
      rw (is_empty-of_ne g.controls.vendorid m) (
        rw (is_empty-of_eq g.controls.csvfilepath p)
          (refl, (_, refl, refl, refl, refl, refl, refl))))
submit_sql_data-asks a posted g w edit_csv (n, m, inr p) =
    rw (is_empty-of_ne g.controls.projectid n) (
      rw (is_empty-of_ne g.controls.vendorid m)
        (elim (Bool-cases (is_empty g.controls.csvfilepath)) [
          | inl q ↦ rw q (refl, (_, refl, refl, refl, refl, refl, refl))
          | inr q ↦ rw q (rw p (refl, (_, refl, refl, refl, refl, refl, refl)))
        ]))
